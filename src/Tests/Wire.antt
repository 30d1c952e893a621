-- ===== src/Tests/Wire.antt =====
-- demo/src/shared/bytes.ts and demo/src/shared/protocol.ts on concrete bytes.
use ckb_crypto_agile_account.Common.{
  ℕ, ◌≡◌, ◌≢◌, ◌↔◌, refl, List, [], ◌∷◌, ◌++◌, none, some, concat, replicate, All, codes, ok, arith,
}
use ckb_crypto_agile_account.Bytes.{
  Bytes, IsByte, nat, pos, eight_bytes, u16le, u32le, u64le, bytes_concat, concat_length,
  hex_from_bytes, bytes_from_hex, bytes_from_digits, hex_pairs, hex_value,
}
use ckb_crypto_agile_account.Bytes.Hex.{
  bytes_from_hex-hex_from_bytes, hex_from_bytes-bytes_from_hex,
}
use ckb_crypto_agile_account.Protocol.{
  P256ProofInput, Proof, WitnessArgs, AuthorizationInput, require_operation, require_length,
  check_p256_proof, encode_p256_proof, encode_proof, proof_slot, encode_proofs, join_witness,
  encode_account_witness, length_prefixed, length_prefixed_all, join_group, ckb_hash,
  group_preimage, authorization_preimage,
}
use ckb_crypto_agile_account.Protocol.Digest.{
  authorization_preimage-injective, group_preimage-injective,
}
use ckb_crypto_agile_account.OnChain.{Checked, parse_witness_header, parse_proofs, parse_proof}
use ckb_crypto_agile_account.OnChain.P256Proof.{
  IsProofInput, p256_layout, passkey_proof, parse_proof-encode_p256_proof, encode_p256_proof_iff,
}
use ckb_crypto_agile_account.OnChain.Witness.{IsWitness, witness_layout, encode_account_witness_iff}
use ckb_crypto_agile_account.OnChain.Witness.RoundTrip.{
  fold_proofs, witness_header, parse_proofs-encode_account_witness,
}
use ckb_crypto_agile_account.Tests.Sample.{sample_ckb}

abbrev sample_proofs : List Proof
sample_proofs =
    record { slot = nat 0; bytes = 7 ∷ 8 ∷ 9 ∷ [] } ∷ record { slot = nat 300; bytes = 5 ∷ [] } ∷ []

abbrev sample_witness : Bytes
sample_witness = witness_layout 1 258 sample_proofs

encoded_witness : encode_account_witness 1 (pos 258) sample_proofs ≡ ok sample_witness
unfolding encode_account_witness require_operation encode_proofs proof_slot encode_proof
    join_witness bytes_concat concat_length u16le u32le u64le
encoded_witness = refl

-- A callback that collects what it is handed.
abbrev collect : List (ℕ × Bytes) → ℕ → Bytes → Checked (List (ℕ × Bytes))
collect seen slot bytes = ok (seen ++ (slot, bytes) ∷ [])

parse_proofs-encode_account_witness_example :
    (n : ℕ) × (pos 258 ≡ pos n)
    × (parse_witness_header sample_witness ≡ ok (witness_header 1 n sample_proofs))
    × (parse_proofs collect sample_witness (witness_header 1 n sample_proofs) []
        ≡ fold_proofs collect [] sample_proofs)
parse_proofs-encode_account_witness_example =
    parse_proofs-encode_account_witness collect [] 1 (pos 258) sample_proofs sample_witness
      encoded_witness

encode_account_witness_iff_example :
    (encode_account_witness 1 (pos 258) sample_proofs ≡ ok sample_witness) ↔ (
      (n : ℕ) × IsWitness 1 (pos 258) n sample_proofs
      × (sample_witness ≡ witness_layout 1 n sample_proofs))
encode_account_witness_iff_example =
    encode_account_witness_iff 1 (pos 258) sample_proofs sample_witness

abbrev sample_input : P256ProofInput
sample_input = record {
  public_key = 4 ∷ replicate 64 17;
  origin = 104 ∷ 105 ∷ [];
  authenticator_data = replicate 37 1;
  client_data_json = 123 ∷ 125 ∷ [];
  signature = 48 ∷ 6 ∷ [];
}

abbrev sample_proof : Bytes
sample_proof = concat (p256_layout sample_input)

encoded_proof : encode_p256_proof sample_input ≡ ok sample_proof
unfolding encode_p256_proof check_p256_proof bytes_concat concat_length u16le
encoded_proof = refl

parse_proof-encode_p256_proof_example : parse_proof sample_proof ≡ ok (passkey_proof sample_input)
parse_proof-encode_p256_proof_example =
    parse_proof-encode_p256_proof sample_input sample_proof encoded_proof

encode_p256_proof_iff_example :
    (encode_p256_proof sample_input ≡ ok sample_proof)
    ↔ (IsProofInput sample_input × (sample_proof ≡ concat (p256_layout sample_input)))
encode_p256_proof_iff_example = encode_p256_proof_iff sample_input sample_proof

abbrev sample_authorization : AuthorizationInput
sample_authorization = record {
  operation = 1;
  account_id = replicate 32 2;
  sequence = pos 7;
  state = 1 ∷ 2 ∷ [];
  group_sighash = replicate 32 3;
}

abbrev authorization_bytes : Bytes
authorization_bytes =
    codes "CKB_ACCOUNT_LOCK_V1"
    ++ 1 ∷ (replicate 32 2 ++ eight_bytes 7 ++ (1 ∷ 2 ∷ replicate 30 0) ++ replicate 32 3)

authorized : authorization_preimage sample_ckb sample_authorization ≡ ok authorization_bytes
unfolding authorization_preimage require_operation require_length u64le bytes_concat concat_length
    ckb_hash
authorized = refl

-- A state that the stand-in hashes alike.
abbrev longer_authorization : AuthorizationInput
longer_authorization = record sample_authorization { state = 1 ∷ 2 ∷ 0 ∷ [] }

authorized_longer : authorization_preimage sample_ckb longer_authorization ≡ ok authorization_bytes
unfolding authorization_preimage require_operation require_length u64le bytes_concat concat_length
    ckb_hash
authorized_longer = refl

authorization_preimage-injective_example :
    (sample_authorization.operation ≡ longer_authorization.operation)
    × (sample_authorization.account_id ≡ longer_authorization.account_id)
    × (sample_authorization.sequence ≡ longer_authorization.sequence)
    × (ckb_hash sample_ckb sample_authorization.state
        ≡ ckb_hash sample_ckb longer_authorization.state)
    × (sample_authorization.group_sighash ≡ longer_authorization.group_sighash)
authorization_preimage-injective_example =
    authorization_preimage-injective sample_ckb sample_authorization longer_authorization
      authorization_bytes authorized authorized_longer

abbrev sample_args : WitnessArgs
sample_args = record { lock = some (9 ∷ 9 ∷ []); input_type = none; output_type = some (4 ∷ []) }

-- The same type fields behind another lock.
abbrev bare_args : WitnessArgs
bare_args = record sample_args { lock = none }

abbrev sample_hash : Bytes
sample_hash = replicate 32 6

abbrev one_other : List Bytes
one_other = (5 ∷ []) ∷ []

abbrev group_bytes : Bytes
group_bytes =
    sample_hash ++ eight_bytes 7 ++ (1 ∷ 0 ∷ 0 ∷ 1 ∷ 1 ∷ 4 ∷ 0 ∷ []) ++ eight_bytes 1 ++ 5 ∷ []

grouped :
    group_preimage sample_ckb sample_hash
      (sample_ckb.witness_args_to_bytes sample_args ∷ one_other)
      []
    ≡ ok group_bytes
unfolding group_preimage require_length join_group length_prefixed length_prefixed_all u64le
    bytes_concat concat_length
grouped = refl

grouped_bare :
    group_preimage sample_ckb sample_hash
      (sample_ckb.witness_args_to_bytes bare_args ∷ [])
      one_other
    ≡ ok group_bytes
unfolding group_preimage require_length join_group length_prefixed length_prefixed_all u64le
    bytes_concat concat_length
grouped_bare = refl

group_preimage-injective_example :
    (sample_hash ≡ sample_hash)
    × (sample_args.input_type ≡ bare_args.input_type)
    × (sample_args.output_type ≡ bare_args.output_type)
    × (one_other ++ [] ≡ [] ++ one_other)
group_preimage-injective_example =
    group_preimage-injective sample_ckb sample_hash sample_hash sample_args bare_args one_other []
      [] one_other group_bytes grouped grouped_bare

abbrev two_bytes : Bytes
two_bytes = 171 ∷ 5 ∷ []

bytes_from_hex-hex_from_bytes_example : bytes_from_hex (hex_from_bytes two_bytes) ≡ ok two_bytes
bytes_from_hex-hex_from_bytes_example =
    bytes_from_hex-hex_from_bytes 171 (5 ∷ []) (omega arith, (omega arith, tt))

read_hex : bytes_from_hex (codes "0xab05") ≡ ok two_bytes
unfolding bytes_from_hex bytes_from_digits hex_pairs hex_value
read_hex = refl

hex_from_bytes-bytes_from_hex_example :
    (hex_from_bytes two_bytes ≡ codes "0xab05") × All IsByte two_bytes × (two_bytes ≢ [])
hex_from_bytes-bytes_from_hex_example =
    hex_from_bytes-bytes_from_hex (codes "0xab05") two_bytes read_hex
