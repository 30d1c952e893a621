-- ===== src/Protocol/Prefixed.antt =====
-- Witnesses behind their lengths, as `groupSighash` of demo/src/shared/protocol.ts joins them.
use ckb_crypto_agile_account.Common.{
  ℕ, ◌≤◌, ◌≡◌, refl, ap, sym, ◌∙◌, List, [], ◌∷◌, ◌++◌, length, concat, append-injective, ok,
  >>=-eq-ok, arith, append-nil, append_assoc,
}
use ckb_crypto_agile_account.Bytes.{Bytes, u64le, eight_bytes}
use ckb_crypto_agile_account.Bytes.LittleEndian.{le_value, le_value-eight_bytes}
use ckb_crypto_agile_account.Bytes.Concat.{bytes_concat_iff}
use ckb_crypto_agile_account.Protocol.{length_prefixed, length_prefixed_all, join_group}

pub eight_bytes-injective :
    (m n : ℕ)
    → m ≤ 0xffff_ffff_ffff_ffff
    → n ≤ 0xffff_ffff_ffff_ffff
    → eight_bytes m ≡ eight_bytes n
    → m ≡ n
eight_bytes-injective m n hm hn e =
    sym (le_value-eight_bytes m hm) ∙ ap le_value e ∙ le_value-eight_bytes n hn

-- A witness behind its length, as `lengthPrefixed` writes it.
abbrev pub prefixed : Bytes → Bytes
prefixed w = eight_bytes (length w) ++ w

abbrev pub prefixed_all : List Bytes → List Bytes
prefixed_all [] = []
prefixed_all (w ∷ ws) = prefixed w ∷ prefixed_all ws

abbrev pub FitU64 : List Bytes → Type 0
FitU64 [] = Unit
FitU64 (w ∷ ws) = (length w ≤ 0xffff_ffff_ffff_ffff) × FitU64 ws

pub length_prefixed-eq-ok :
    (w bs : Bytes)
    → length_prefixed w ≡ ok bs
    → (length w ≤ 0xffff_ffff_ffff_ffff) × (bs ≡ prefixed w)
unfolding length_prefixed u64le
length_prefixed-eq-ok w bs h = (
  ground arith,
  ground (arith, (bytes_concat_iff (eight_bytes (length w) ∷ w ∷ []) bs).0, append-nil w),
)

pub length_prefixed_all-eq-ok :
    (ws parts : List Bytes)
    → length_prefixed_all ws ≡ ok parts
    → FitU64 ws × (parts ≡ prefixed_all ws)
unfolding length_prefixed_all
length_prefixed_all-eq-ok [] parts h = ground arith
length_prefixed_all-eq-ok (w ∷ ws) parts h =
    let (first, e1, h1) = >>=-eq-ok (length_prefixed w) _ h in
    let (rest, e2, h2) = >>=-eq-ok (length_prefixed_all ws) _ h1 in
    let (fits, here) = length_prefixed-eq-ok w first e1 in
    let (more, later) = length_prefixed_all-eq-ok ws rest e2 in
    ((fits, more), ground (arith, here, later, h2))

pub FitU64-append : (ws vs : List Bytes) → FitU64 ws → FitU64 vs → FitU64 (ws ++ vs)
FitU64-append [] vs h k = k
FitU64-append (w ∷ ws) vs h k = (h.0, FitU64-append ws vs h.1 k)

pub prefixed_all-append :
    (ws vs : List Bytes) → prefixed_all (ws ++ vs) ≡ prefixed_all ws ++ prefixed_all vs
prefixed_all-append [] vs = refl
prefixed_all-append (w ∷ ws) vs = ap (λ r. prefixed w ∷ r) (prefixed_all-append ws vs)

-- Witnesses behind their lengths can be told apart: no list of them reads as another.
pub prefixed_all-injective :
    (ws vs : List Bytes)
    → FitU64 ws
    → FitU64 vs
    → concat (prefixed_all ws) ≡ concat (prefixed_all vs)
    → ws ≡ vs
prefixed_all-injective [] [] h k e = refl
prefixed_all-injective [] (v ∷ vs) h k e = cc
prefixed_all-injective (w ∷ ws) [] h k e = cc
prefixed_all-injective (w ∷ ws) (v ∷ vs) h k e =
    let (lens, e1) = append-injective (eight_bytes (length w)) (eight_bytes (length v)) _ _ refl (
      sym (append_assoc (eight_bytes (length w)) w _)
      ∙ e
      ∙ append_assoc (eight_bytes (length v)) v _) in
    let (here, e2) =
      append-injective w v _ _ (eight_bytes-injective (length w) (length v) h.0 k.0 lens) e1 in
    cc (here, prefixed_all-injective ws vs h.1 k.1 e2)

pub join_group-eq-ok :
    (tx_hash canonical : Bytes) (others extra : List Bytes) (bs : Bytes)
    → join_group tx_hash canonical others extra ≡ ok bs
    → FitU64 (canonical ∷ others ++ extra)
      × (bs ≡ tx_hash ++ concat (prefixed_all (canonical ∷ others ++ extra)))
unfolding join_group
join_group-eq-ok tx_hash canonical others extra bs h =
    let (first, e1, h1) = >>=-eq-ok (length_prefixed canonical) _ h in
    let (behind, e2, h2) = >>=-eq-ok (length_prefixed_all others) _ h1 in
    let (more, e3, h3) = >>=-eq-ok (length_prefixed_all extra) _ h2 in
    let (f1, l1) = length_prefixed-eq-ok canonical first e1 in
    let (f2, l2) = length_prefixed_all-eq-ok others behind e2 in
    let (f3, l3) = length_prefixed_all-eq-ok extra more e3 in
    let joined = ((bytes_concat_iff (tx_hash ∷ first ∷ (behind ++ more)) bs).0 h3).0 in
    (
      (f1, FitU64-append others extra f2 f3),
      joined ∙ rw (prefixed_all-append others extra) (cc (l1, l2, l3)),
    )
