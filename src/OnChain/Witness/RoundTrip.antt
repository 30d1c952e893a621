-- ===== src/OnChain/Witness/RoundTrip.antt =====
-- The parser of crates/protocol/src/wire.rs on what `encodeAccountWitness` of
-- demo/src/shared/protocol.ts writes.
use ckb_crypto_agile_account.Common.{
  ℕ, suc, ◌+◌, ◌/◌, ◌%◌, ◌≤◌, ◌≡◌, refl, ap, ◌∙◌, false, Option, none, some, List, [], ◌∷◌, ◌++◌,
  length, concat, length-append, ok, ◌>>=◌, arith, ltb, ◌==◌, le→ltb_false, fun_ext,
}
use ckb_crypto_agile_account.Bytes.{Bytes, ℤ, pos, eight_bytes}
use ckb_crypto_agile_account.Bytes.LittleEndian.{le_value-eight_bytes}
use ckb_crypto_agile_account.Protocol.{
  Proof, not_above, encode_account_witness, account_witness_max_lock_len, account_witness_magic,
  account_witness_version,
}
use ckb_crypto_agile_account.OnChain.{
  Checked, AccountWitnessHeader, slice, byte_at, le_u16, le_u32, le_u64, checked_end,
  parse_witness_header, parse_proofs_loop, parse_proofs,
}
use ckb_crypto_agile_account.OnChain.Cursor.{
  IsRest, start-IsRest, slice-IsRest, next-IsRest, byte_at-IsRest,
}
use ckb_crypto_agile_account.OnChain.Proofs.{slot_of, proof_layout, proofs_layout, AreProofs}
use ckb_crypto_agile_account.OnChain.Witness.{
  witness_layout, IsWitness, known_passes, encode_account_witness-eq-ok,
}

-- The callback over the proofs, one after the other.
abbrev pub fold_proofs {ℓ} : {S : Type ℓ} → (S → ℕ → Bytes → Checked S) → S → List Proof → Checked S
fold_proofs f s [] = ok s
fold_proofs f s (p ∷ ps) = f s (slot_of p.slot) p.bytes >>= λ s'. fold_proofs f s' ps

-- What a round of the parser reads at an offset where a proof is next.
record IsRead (input : Bytes) (off slot : ℕ) (bytes back : Bytes) : Type 0 where
  head_end : checked_end off 8 (length input) ≡ ok (off + 8)
  slot_read : le_u16 (slice input off (off + 2)) ≡ ok slot
  reserved : (byte_at input (off + 2) ≡ 0) × (byte_at input (off + 3) ≡ 0)
  len_read : le_u32 (slice input (off + 4) (off + 8)) ≡ ok (length bytes)
  end_read : checked_end (off + 8) (length bytes) (length input) ≡ ok (off + 8 + length bytes)
  payload : slice input (off + 8) (off + 8 + length bytes) ≡ bytes
  rest : IsRest input (off + 8 + length bytes) back

module _ {input : Bytes} {off : ℕ} (slot : ℕ) (bytes back : Bytes) where
  IsRead-proof :
      slot ≤ 0xffff
      → length bytes ≤ 0xffff_ffff
      → IsRest input off (proof_layout slot bytes ++ back)
      → IsRead input off slot bytes back
  unfolding checked_end le_u16 le_u32
  IsRead-proof ms mx r =
      let n = length bytes in
      let two : Bytes = slot % 256 ∷ slot / 256 % 256 ∷ [] in
      let four : Bytes = n % 256 ∷ n / 256 % 256 ∷ n / 65536 % 256 ∷ n / 16777216 % 256 ∷ [] in
      let at_len = next-IsRest (two ++ 0 ∷ 0 ∷ []) (four ++ bytes ++ back) (off + 4) r refl in
      let at_bytes = next-IsRest four (bytes ++ back) (off + 8) at_len (omega arith) in
      let long = length-append bytes back in
      record {
        head_end = rw (le→ltb_false (length input) (off + 8) (omega (arith, at_bytes.sized)));
        slot_read =
            rw (slice-IsRest two (0 ∷ 0 ∷ four ++ bytes ++ back) (off + 2) r refl)
              (ap ok (omega arith));
        reserved = (
          byte_at-IsRest two 0 (0 ∷ four ++ bytes ++ back) (off + 2) r refl,
          byte_at-IsRest (two ++ 0 ∷ []) 0 (four ++ bytes ++ back) (off + 3) r refl,
        );
        len_read =
            rw (slice-IsRest four (bytes ++ back) (off + 8) at_len (omega arith))
              (ap ok (omega arith));
        end_read =
            rw (le→ltb_false (length input) (off + 8 + n) (omega (arith, at_bytes.sized, long)));
        payload = slice-IsRest bytes back (off + 8 + n) at_bytes refl;
        rest = next-IsRest bytes back (off + 8 + n) at_bytes refl;
      }

module _ {ℓ} {S : Type ℓ} (f : S → ℕ → Bytes → Checked S) (input : Bytes) where
  -- A round over a proof that is next hands it to the callback and goes on behind it.
  parse_proofs_loop_round :
      (rounds off slot : ℕ) (bytes back : Bytes) (prev : Option ℕ) (s : S)
      → IsRead input off slot bytes back
      → not_above slot prev ≡ false
      → 1 ≤ length bytes
      → parse_proofs_loop f (suc rounds) input off prev s ≡ (
          f s slot bytes >>= λ s'.
          parse_proofs_loop f rounds input (off + 8 + length bytes) (some slot) s')
  unfolding parse_proofs_loop
  parse_proofs_loop_round rounds off slot bytes back prev s r above some_bytes =
      let nonzero : (length bytes == 0) ≡ false = ground arith in
      rw (
        r.head_end, r.slot_read, r.reserved.0, r.reserved.1, r.len_read, r.end_read, nonzero, above,
        r.payload,
      )

  parse_proofs_loop-layout :
      (ps : List Proof) (off : ℕ) (prev : Option ℕ) (s : S)
      → AreProofs ps prev
      → IsRest input off (concat (proofs_layout ps))
      → parse_proofs_loop f (length ps) input off prev s ≡ fold_proofs f s ps
  parse_proofs_loop-layout [] off prev s v r = unfold parse_proofs_loop in ground (arith, r.sized)
  parse_proofs_loop-layout (p ∷ ps) off prev s (v, vs) r =
      let read =
        IsRead-proof (slot_of p.slot) p.bytes (concat (proofs_layout ps)) v.slot_most v.bytes_most
          r in
      parse_proofs_loop_round (length ps) off (slot_of p.slot) p.bytes (concat (proofs_layout ps))
        prev s read v.above v.bytes_some
      ∙ ap (λ k. f s (slot_of p.slot) p.bytes >>= k)
          (fun_ext λ s'.
            parse_proofs_loop-layout ps (off + 8 + length p.bytes) (some (slot_of p.slot)) s' vs
              read.rest)

-- The header that the parser answers for a witness.
abbrev pub witness_header : ℕ → ℕ → List Proof → AccountWitnessHeader
witness_header operation n proofs = record {
  operation = operation;
  proof_count = length proofs;
  state_sequence = n;
}

parse_witness_header-layout :
    (operation n : ℕ) (sequence : ℤ) (proofs : List Proof)
    → IsWitness operation sequence n proofs
    → parse_witness_header (witness_layout operation n proofs)
      ≡ ok (witness_header operation n proofs)
unfolding parse_witness_header le_u64
parse_witness_header-layout operation n sequence proofs v =
    let value = le_value-eight_bytes n v.sixty_four in
    let long : ltb (length (witness_layout operation n proofs)) 16 ≡ false = ground arith in
    rw
      (
        long,
        le→ltb_false account_witness_max_lock_len (length (witness_layout operation n proofs))
            v.fits,
        known_passes operation v.known.0 v.known.1,
      )
      (ap {B = Checked AccountWitnessHeader}
        (λ q.
          ok (record { operation = operation; proof_count = length proofs; state_sequence = q }))
        value)

witness_layout-IsRest :
    (operation n : ℕ) (proofs : List Proof)
    → IsRest (witness_layout operation n proofs) 16 (concat (proofs_layout proofs))
witness_layout-IsRest operation n proofs =
    next-IsRest
      (account_witness_magic
        ++ (account_witness_version ∷ operation ∷ length proofs ∷ 0 ∷ eight_bytes n))
      (concat (proofs_layout proofs)) 16 (start-IsRest (witness_layout operation n proofs)) refl

-- A witness that `encodeAccountWitness` answers is one that the on-chain parser accepts: it reads
-- the operation, the number of proofs and the sequence from the header, and then hands its callback
-- the proofs that were encoded, slot and bytes, in their order, for every callback.
pub parse_proofs-encode_account_witness {ℓ} :
    {S : Type ℓ} (f : S → ℕ → Bytes → Checked S) (s : S) (operation : ℕ) (sequence : ℤ)
    (proofs : List Proof) (bs : Bytes)
    → encode_account_witness operation sequence proofs ≡ ok bs
    → (n : ℕ) × (sequence ≡ pos n)
      × (parse_witness_header bs ≡ ok (witness_header operation n proofs))
      × (parse_proofs f bs (witness_header operation n proofs) s ≡ fold_proofs f s proofs)
unfolding parse_proofs
parse_proofs-encode_account_witness f s operation sequence proofs bs h =
    let (n, v, layout) = encode_account_witness-eq-ok operation sequence proofs bs h in
    (
      n,
      v.unsigned,
      rw layout (parse_witness_header-layout operation n sequence proofs v),
      rw layout (
          parse_proofs_loop-layout f (witness_layout operation n proofs) proofs 16 none s
            v.proofs_valid (witness_layout-IsRest operation n proofs)),
    )
