-- ===== src/OnChain/P256Proof.antt =====
-- `encodeP256Proof` of demo/src/shared/protocol.ts against `parse_proof` of the P-256 verifier.
use ckb_crypto_agile_account.Common.{
  ℕ, ◌+◌, ◌/◌, ◌%◌, ◌≤◌, ◌≡◌, refl, ap, sym, ◌∙◌, ◌↔◌, true, false, List, [], ◌∷◌, length, concat,
  length-append, ok, arith, ltb, not, ◌||◌, ◌==◌,
}
use ckb_crypto_agile_account.Bytes.{Bytes, u16le}
use ckb_crypto_agile_account.Bytes.Concat.{bytes_concat_iff}
use ckb_crypto_agile_account.Protocol.{P256ProofInput, check_p256_proof, encode_p256_proof, byte_is}
use ckb_crypto_agile_account.OnChain.{PasskeyProof, parse_proof}
use ckb_crypto_agile_account.OnChain.Cursor.{start-IsRest, take_bytes-IsRest, take_u16-IsRest}

-- What the checks of `encodeP256Proof` leave.
pub record IsProofInput (input : P256ProofInput) : Type 0 where
  pub key_length : length input.public_key ≡ 65
  pub key_form : byte_is input.public_key 0 0x04 ≡ true
  pub origin_some : 1 ≤ length input.origin
  pub origin_most : length input.origin ≤ 255
  pub authenticator_least : 37 ≤ length input.authenticator_data
  pub authenticator_most : length input.authenticator_data ≤ 0xffff
  pub client_some : 1 ≤ length input.client_data_json
  pub client_most : length input.client_data_json ≤ 0xffff
  pub signature_some : 1 ≤ length input.signature
  pub signature_most : length input.signature ≤ 0xffff

-- The layout of a proof.
abbrev pub p256_layout : P256ProofInput → List Bytes
p256_layout input =
    let a = length input.authenticator_data in
    let c = length input.client_data_json in
    let s = length input.signature in
    input.public_key
    ∷ (length input.origin % 256 ∷ [])
    ∷ input.origin
    ∷ (a % 256 ∷ a / 256 % 256 ∷ [])
    ∷ input.authenticator_data
    ∷ (c % 256 ∷ c / 256 % 256 ∷ [])
    ∷ input.client_data_json
    ∷ (s % 256 ∷ s / 256 % 256 ∷ [])
    ∷ input.signature
    ∷ []

length-p256_layout :
    (input : P256ProofInput) → IsProofInput input → length (concat (p256_layout input)) ≤ 200000
length-p256_layout input v = simp length-append (
    omega
      (arith, v.key_length, v.origin_most, v.authenticator_most, v.client_most, v.signature_most))

-- `encodeP256Proof` answers only on inputs in range, and then with the layout.
encode_p256_proof-eq-ok :
    (input : P256ProofInput) (bs : Bytes)
    → encode_p256_proof input ≡ ok bs
    → IsProofInput input × (bs ≡ concat (p256_layout input))
unfolding encode_p256_proof check_p256_proof u16le
encode_p256_proof-eq-ok input bs h =
    (ground (arith, h), ground (arith, (bytes_concat_iff (p256_layout input) bs).0))

encode_p256_proof_total :
    (input : P256ProofInput)
    → IsProofInput input
    → encode_p256_proof input ≡ ok (concat (p256_layout input))
unfolding encode_p256_proof check_p256_proof u16le
encode_p256_proof_total input v =
    let joined =
      (bytes_concat_iff (p256_layout input) _).1
        (refl, omega (arith, length-p256_layout input v)) in
    ground arith

-- The input's fields, as the verifier reads them.
abbrev pub passkey_proof : P256ProofInput → PasskeyProof
passkey_proof input = record {
  public_key = input.public_key;
  origin = input.origin;
  authenticator_data = input.authenticator_data;
  client_data_json = input.client_data_json;
  signature = input.signature;
}

-- The last test of `parse_proof` passes on fields in range that fill the input.
fields_pass :
    (end total o a c s : ℕ)
    → end + 0 ≡ total
    → 1 ≤ o
    → 37 ≤ a
    → 1 ≤ c
    → 1 ≤ s
    → (not (end == total) || (o == 0 || (ltb a 37 || (c == 0 || s == 0)))) ≡ false
fields_pass end total o a c s e ho ha hc hs = ground arith

parse_proof-layout :
    (input : P256ProofInput)
    → IsProofInput input
    → parse_proof (concat (p256_layout input)) ≡ ok (passkey_proof input)
unfolding parse_proof
parse_proof-layout input v =
    let a = length input.authenticator_data in
    let c = length input.client_data_json in
    let s = length input.signature in
    let (e1, r1) = take_bytes-IsRest _ input.public_key 65 (start-IsRest _) (sym v.key_length) in
    let (e2, r2) = take_bytes-IsRest _ (length input.origin % 256 ∷ []) 1 r1 refl in
    let (e3, r3) =
      take_bytes-IsRest _ input.origin (length input.origin % 256) r2
        (omega (arith, v.origin_most)) in
    let (e4, r4) = take_u16-IsRest _ a v.authenticator_most r3 in
    let (e5, r5) = take_bytes-IsRest _ input.authenticator_data a r4 refl in
    let (e6, r6) = take_u16-IsRest _ c v.client_most r5 in
    let (e7, r7) = take_bytes-IsRest _ input.client_data_json c r6 refl in
    let (e8, r8) = take_u16-IsRest _ s v.signature_most r7 in
    let (e9, r9) = take_bytes-IsRest [] input.signature s r8 refl in
    rw (e1, e2, e3, e4, e5, e6, e7, e8, e9)
      (rw
        (fields_pass _ _ _ a c s r9.sized v.origin_some v.authenticator_least v.client_some
          v.signature_some)
        refl)

-- Every proof that `encodeP256Proof` answers is read by the on-chain verifier's parser as the very
-- fields that were encoded.
pub parse_proof-encode_p256_proof :
    (input : P256ProofInput) (bs : Bytes)
    → encode_p256_proof input ≡ ok bs
    → parse_proof bs ≡ ok (passkey_proof input)
parse_proof-encode_p256_proof input bs h =
    let (v, layout) = encode_p256_proof-eq-ok input bs h in rw layout (parse_proof-layout input v)

-- `encodeP256Proof` answers exactly when the key is an uncompressed SEC1 point of 65 bytes, the
-- origin has 1 to 255 bytes, the authenticator data 37 to 65535, and the client data and the
-- signature 1 to 65535 each; its answer is then the fields behind their little-endian lengths.
pub encode_p256_proof_iff :
    (input : P256ProofInput) (bs : Bytes)
    → (encode_p256_proof input ≡ ok bs) ↔ (IsProofInput input × (bs ≡ concat (p256_layout input)))
encode_p256_proof_iff input bs = (
  encode_p256_proof-eq-ok input bs,
  λ (v, layout). encode_p256_proof_total input v ∙ ap ok (sym layout),
)
