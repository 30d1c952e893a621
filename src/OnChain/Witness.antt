-- ===== src/OnChain/Witness.antt =====
-- `encodeAccountWitness` of demo/src/shared/protocol.ts against the parser of
-- crates/protocol/src/wire.rs: the layout of a witness and when the encoder answers.
pub mod RoundTrip
use ckb_crypto_agile_account.Common.{
  ℕ, zero, suc, ◌+◌, ◌-◌, ◌*◌, ◌/◌, ◌%◌, ◌≤◌, ◌<◌, ◌≡◌, refl, ap, sym, ◌∙◌, ◌⊎◌, ◌↔◌, inl, inr,
  Bool, true, false, Option, none, some, List, [], ◌∷◌, ◌++◌, length, concat, length-append, ok,
  err, ◌>>=◌, ◌>>◌, >>=-eq-ok, throw_if->>-eq-ok, arith, ◌≢◌, not, ◌&&◌, le→ltb_false, append-nil,
  ltb, leb, ◌==◌, throw_if, map, Bool-cases, Result-cases, subst,
}
use ckb_crypto_agile_account.Failure.{Throws}
use ckb_crypto_agile_account.Bytes.{
  Bytes, Number, nat, not_nat, ℤ, pos, negsuc, u16le, u32le, u64le, bytes_concat, eight_bytes,
  max_safe_integer,
}
use ckb_crypto_agile_account.Bytes.LittleEndian.{u64le_lem}
use ckb_crypto_agile_account.Bytes.Concat.{bytes_concat_iff}
use ckb_crypto_agile_account.Protocol.{
  Proof, not_above, require_operation, encode_proof, proof_slot, encode_proofs, join_witness,
  encode_account_witness, account_witness_magic, account_witness_version,
  account_witness_max_lock_len, authenticator_max_count,
}
use ckb_crypto_agile_account.OnChain.Proofs.{
  slot_of, proof_layout, proofs_layout, IsProof, AreProofs, encode_proofs-eq-ok,
  encode_proofs_total,
}

abbrev pub witness_parts : ℕ → ℕ → ℕ → List Bytes → List Bytes
witness_parts operation count sequence parts =
    account_witness_magic
    ∷ (account_witness_version ∷ operation ∷ count ∷ 0 ∷ [])
    ∷ eight_bytes sequence
    ∷ parts

-- The bytes of a witness: the header of 16 bytes, and the proofs one behind the other.
abbrev pub witness_layout : ℕ → ℕ → List Proof → Bytes
witness_layout operation sequence proofs =
    concat (witness_parts operation (length proofs) sequence (proofs_layout proofs))

-- The arguments that `encodeAccountWitness` answers on.
pub record IsWitness (operation : ℕ) (sequence : ℤ) (n : ℕ) (proofs : List Proof) : Type 0 where
  pub known : (1 ≤ operation) × (operation ≤ 3)
  pub unsigned : sequence ≡ pos n
  pub sixty_four : n ≤ 0xffff_ffff_ffff_ffff
  pub count : length proofs ≤ authenticator_max_count
  pub proofs_valid : AreProofs proofs none
  pub fits : length (witness_layout operation n proofs) ≤ account_witness_max_lock_len

join_witness-eq-ok :
    (operation count n : ℕ) (parts : List Bytes) (bs : Bytes)
    → join_witness operation (pos n) count parts ≡ ok bs
    → (n ≤ 0xffff_ffff_ffff_ffff)
      × (bs ≡ concat (witness_parts operation count n parts))
      × (length bs ≤ account_witness_max_lock_len)
unfolding join_witness u64le
join_witness-eq-ok operation count n parts bs h = (
  ground arith,
  ground (arith, (bytes_concat_iff (witness_parts operation count n parts) bs).0),
  ground arith,
)

join_witness_negsuc :
    (operation count n : ℕ) (parts : List Bytes) (bs : Bytes)
    → join_witness operation (negsuc n) count parts ≢ ok bs
unfolding join_witness u64le
join_witness_negsuc operation count n parts bs h = cc

join_witness_total :
    (operation count n : ℕ) (parts : List Bytes)
    → n ≤ 0xffff_ffff_ffff_ffff
    → length (concat (witness_parts operation count n parts)) ≤ account_witness_max_lock_len
    → join_witness operation (pos n) count parts
      ≡ ok (concat (witness_parts operation count n parts))
unfolding join_witness u64le
join_witness_total operation count n parts small fits = ground (
  arith,
  (bytes_concat_iff (witness_parts operation count n parts)
      (concat (witness_parts operation count n parts))).1,
)

-- What `encodeAccountWitness` has established when its last part answers.
IsWitness-made :
    (operation : ℕ) (sequence : ℤ) (proofs : List Proof) (parts : List Bytes) (bs : Bytes)
    → (1 ≤ operation) × (operation ≤ 3)
    → length proofs ≤ authenticator_max_count
    → AreProofs proofs none × (parts ≡ proofs_layout proofs)
    → join_witness operation sequence (length proofs) parts ≡ ok bs
    → (n : ℕ) × IsWitness operation sequence n proofs × (bs ≡ witness_layout operation n proofs)
IsWitness-made operation (negsuc n) proofs parts bs known count valid done =
    absurd (join_witness_negsuc operation (length proofs) n parts bs done)
IsWitness-made operation (pos n) proofs parts bs known count valid done =
    let (small, joined, fits) = join_witness-eq-ok operation (length proofs) n parts bs done in
    let layout : bs ≡ witness_layout operation n proofs =
      joined ∙ ap (λ ps. concat (witness_parts operation (length proofs) n ps)) valid.1 in
    (
      n,
      record {
        known = known;
        unsigned = refl;
        sixty_four = small;
        count = count;
        proofs_valid = valid.0;
        fits = subst (λ x. length x ≤ account_witness_max_lock_len) layout fits;
      },
      layout,
    )

-- The test that `requireOperation` and the parser make on an operation.
pub known_passes :
    (operation : ℕ)
    → 1 ≤ operation
    → operation ≤ 3
    → (not (operation == 1) && (not (operation == 2) && not (operation == 3))) ≡ false
known_passes operation lo hi = ground arith

pub encode_account_witness-eq-ok :
    (operation : ℕ) (sequence : ℤ) (proofs : List Proof) (bs : Bytes)
    → encode_account_witness operation sequence proofs ≡ ok bs
    → (n : ℕ) × IsWitness operation sequence n proofs × (bs ≡ witness_layout operation n proofs)
unfolding encode_account_witness require_operation
encode_account_witness-eq-ok operation sequence proofs bs h =
    elim (Result-cases (encode_proofs proofs none)) [
      | inr (e, failed) ↦ ground arith
      | inl (parts, e) ↦
          IsWitness-made operation sequence proofs parts bs (ground arith) (ground arith)
            (encode_proofs-eq-ok proofs none parts e) (ground arith)
    ]

-- `encodeAccountWitness` answers exactly on a known operation, a sequence of 64 bits, and at most
-- 16 proofs that are in range, not empty and in strictly ascending order of their slots, if the
-- whole fits in 131072 bytes. The answer is the header and the proofs behind it.
pub encode_account_witness_iff :
    (operation : ℕ) (sequence : ℤ) (proofs : List Proof) (bs : Bytes)
    → (encode_account_witness operation sequence proofs ≡ ok bs)
      ↔ ((n : ℕ) × IsWitness operation sequence n proofs × (bs ≡ witness_layout operation n proofs))
unfolding encode_account_witness require_operation
encode_account_witness_iff operation sequence proofs bs = (
  encode_account_witness-eq-ok operation sequence proofs bs,
  λ (n, v, layout). rw (
    v.unsigned,
    known_passes operation v.known.0 v.known.1,
    le→ltb_false authenticator_max_count (length proofs) v.count,
    encode_proofs_total proofs none v.proofs_valid,
    join_witness_total operation (length proofs) n (proofs_layout proofs) v.sixty_four v.fits,
    layout,
  ),
)
