-- ===== src/OnChain/Proofs.antt =====
-- The loop of `encodeAccountWitness` of demo/src/shared/protocol.ts: the layout of the proofs and
-- when they are encoded.
use ckb_crypto_agile_account.Common.{
  ℕ, ◌/◌, ◌%◌, ◌≤◌, ◌≡◌, refl, ap, false, Option, some, List, [], ◌∷◌, length, length-append, ok,
  >>=-eq-ok, arith, append-nil,
}
use ckb_crypto_agile_account.Failure.{Throws}
use ckb_crypto_agile_account.Bytes.{Bytes, Number, nat, not_nat, u16le, u32le}
use ckb_crypto_agile_account.Bytes.Concat.{bytes_concat_iff}
use ckb_crypto_agile_account.Protocol.{Proof, not_above, encode_proof, proof_slot, encode_proofs}

abbrev pub slot_of : Number → ℕ
slot_of (nat n) = n
slot_of not_nat = 0

-- The bytes of a proof: its slot, two zeros, its length, itself.
abbrev pub proof_layout : ℕ → Bytes → Bytes
proof_layout slot bytes =
    let n = length bytes in
    slot % 256
    ∷ slot / 256 % 256
    ∷ 0
    ∷ 0
    ∷ n % 256
    ∷ n / 256 % 256
    ∷ n / 65536 % 256
    ∷ n / 16777216 % 256
    ∷ bytes

abbrev pub proofs_layout : List Proof → List Bytes
proofs_layout [] = []
proofs_layout (p ∷ ps) = proof_layout (slot_of p.slot) p.bytes ∷ proofs_layout ps

-- A proof that may follow the slot `previous`.
pub record IsProof (p : Proof) (previous : Option ℕ) : Type 0 where
  pub slot_nat : p.slot ≡ nat (slot_of p.slot)
  pub slot_most : slot_of p.slot ≤ 0xffff
  pub above : not_above (slot_of p.slot) previous ≡ false
  pub bytes_some : 1 ≤ length p.bytes
  pub bytes_most : length p.bytes ≤ 0xffff_ffff

-- Proofs in range, in ascending order of their slots.
abbrev pub AreProofs : List Proof → Option ℕ → Type 0
AreProofs [] previous = Unit
AreProofs (p ∷ ps) previous = IsProof p previous × AreProofs ps (some (slot_of p.slot))

encode_proof-eq-ok :
    (slot : ℕ) (bytes bs : Bytes) (previous : Option ℕ)
    → encode_proof slot bytes previous ≡ ok bs
    → (not_above slot previous ≡ false)
      × (slot ≤ 0xffff)
      × (1 ≤ length bytes)
      × (length bytes ≤ 0xffff_ffff)
      × (bs ≡ proof_layout slot bytes)
unfolding encode_proof u16le u32le
encode_proof-eq-ok slot bytes bs previous h =
    let joined =
      (bytes_concat_iff
        ((slot % 256 ∷ slot / 256 % 256 ∷ [])
          ∷ (0 ∷ 0 ∷ [])
          ∷ (length bytes % 256
              ∷ length bytes / 256 % 256
              ∷ length bytes / 65536 % 256
              ∷ length bytes / 16777216 % 256
              ∷ [])
          ∷ bytes
          ∷ [])
        bs).0 in
    (
      ground arith,
      ground arith,
      ground arith,
      ground arith,
      ground (arith, joined, append-nil bytes),
    )

encode_proof_total :
    (slot : ℕ) (bytes : Bytes) (previous : Option ℕ)
    → not_above slot previous ≡ false
    → slot ≤ 0xffff
    → 1 ≤ length bytes
    → length bytes ≤ 0xffff_ffff
    → encode_proof slot bytes previous ≡ ok (proof_layout slot bytes)
unfolding encode_proof u16le u32le
encode_proof_total slot bytes previous above ms mn mx =
    let joined =
      (bytes_concat_iff
        ((slot % 256 ∷ slot / 256 % 256 ∷ [])
          ∷ (0 ∷ 0 ∷ [])
          ∷ (length bytes % 256
              ∷ length bytes / 256 % 256
              ∷ length bytes / 65536 % 256
              ∷ length bytes / 16777216 % 256
              ∷ [])
          ∷ bytes
          ∷ [])
        (proof_layout slot bytes)).1 in
    ground (arith, joined, append-nil bytes, length-append bytes [])

proof_slot-eq-ok : (x : Number) (n : ℕ) → proof_slot x ≡ ok n → (x ≡ nat n) × (n ≤ 0xffff)
unfolding proof_slot
proof_slot-eq-ok (nat m) n h = (ground arith, ground arith)
proof_slot-eq-ok not_nat n h = cc

-- One round of the loop, from what its calls answered.
proofs_round :
    (p : Proof) (ps : List Proof) (previous : Option ℕ) (slot : ℕ) (first : Bytes)
    (parts rest : List Bytes)
    → (p.slot ≡ nat slot) × (slot ≤ 0xffff)
    → (not_above slot previous ≡ false)
      × (slot ≤ 0xffff)
      × (1 ≤ length p.bytes)
      × (length p.bytes ≤ 0xffff_ffff)
      × (first ≡ proof_layout slot p.bytes)
    → AreProofs ps (some slot) × (rest ≡ proofs_layout ps)
    → ◌≡◌ {A = Throws (List Bytes)} (ok (first ∷ rest)) (ok parts)
    → AreProofs (p ∷ ps) previous × (parts ≡ proofs_layout (p ∷ ps))
proofs_round p ps previous slot first parts rest is checked later done =
    let same : slot_of p.slot ≡ slot = ap slot_of is.0 in
    rw same (
      (
        record {
          slot_nat = rw same is.0;
          slot_most = rw same is.1;
          above = rw same checked.0;
          bytes_some = checked.2;
          bytes_most = checked.3;
        },
        later.0,
      ),
      ground (arith, checked, later),
    )

pub encode_proofs-eq-ok :
    (ps : List Proof) (previous : Option ℕ) (parts : List Bytes)
    → encode_proofs ps previous ≡ ok parts
    → AreProofs ps previous × (parts ≡ proofs_layout ps)
unfolding encode_proofs
encode_proofs-eq-ok [] previous parts h = ground arith
encode_proofs-eq-ok (p ∷ ps) previous parts h =
    let (slot, read, h1) = >>=-eq-ok (proof_slot p.slot) _ h in
    let (first, e1, h2) = >>=-eq-ok (encode_proof slot p.bytes previous) _ h1 in
    let (rest, e2, h3) = >>=-eq-ok (encode_proofs ps (some slot)) _ h2 in
    proofs_round p ps previous slot first parts rest (proof_slot-eq-ok p.slot slot read)
      (encode_proof-eq-ok slot p.bytes first previous e1)
      (encode_proofs-eq-ok ps (some slot) rest e2) h3

proof_slot_total :
    (x : Number) → x ≡ nat (slot_of x) → slot_of x ≤ 0xffff → proof_slot x ≡ ok (slot_of x)
unfolding proof_slot
proof_slot_total (nat n) e h = ground arith
proof_slot_total not_nat e h = cc

pub encode_proofs_total :
    (ps : List Proof) (previous : Option ℕ)
    → AreProofs ps previous
    → encode_proofs ps previous ≡ ok (proofs_layout ps)
unfolding encode_proofs
encode_proofs_total [] previous h = refl
encode_proofs_total (p ∷ ps) previous (v, vs) = rw (
  proof_slot_total p.slot v.slot_nat v.slot_most,
  encode_proof_total (slot_of p.slot) p.bytes previous v.above v.slot_most v.bytes_some
      v.bytes_most,
  encode_proofs_total ps (some (slot_of p.slot)) vs,
)
