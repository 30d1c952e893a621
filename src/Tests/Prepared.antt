-- ===== src/Tests/Prepared.antt =====
-- demo/src/client/chain.ts: the spend of one account, prepared and finalized.
use ckb_crypto_agile_account.Common.{
  ◌≡◌, refl, Option, none, some, [], ◌∷◌, ◌++◌, concat, replicate, length, codes, ok,
}
use ckb_crypto_agile_account.Bytes.{
  Bytes, nat, u16le, u32le, u64le, bytes_concat, concat_length, hex_from_bytes, hex_digits,
  hex_digit, bytes_from_hex, bytes_from_digits, hex_pairs, hex_value,
}
use ckb_crypto_agile_account.Json.{Json, str, obj, field, end}
use ckb_crypto_agile_account.Json.Patterns.{hex_bytes, is_hash32}
use ckb_crypto_agile_account.Protocol.{
  P256ProofInput, require_operation, require_length, check_p256_proof, encode_p256_proof,
  encode_proof, proof_slot, encode_proofs, join_witness, encode_account_witness, length_prefixed,
  length_prefixed_all, join_group, ckb_hash, group_preimage, group_sighash, authorization_preimage,
  authorization_digest, pack_account_witness,
}
use ckb_crypto_agile_account.OnChain.P256Proof.{p256_layout}
use ckb_crypto_agile_account.OnChain.Witness.{witness_layout}
use ckb_crypto_agile_account.Ccc.{Transaction}
use ckb_crypto_agile_account.Deploy.Account.{type_id_script}
use ckb_crypto_agile_account.Demo.Constants.{client_origin, transfer_capacity}
use ckb_crypto_agile_account.Demo.Schemas.{
  is_public_key, is_base64url, PasskeyRecord, is_passkey_record,
}
use ckb_crypto_agile_account.Demo.State.{
  check_header, check_entry, is_unsupported_entry, parse_account_state, same_out_point,
  verify_state_cell,
}
use ckb_crypto_agile_account.Demo.Discover.{
  scan, only_asset, check_live_asset, live_state, discover_account_cells,
}
use ckb_crypto_agile_account.Demo.Spend.{
  PreparedSpend, PrepareSpendInput, spend_witness, maximum_witness, dependencies_of,
  ensure_occupied_capacity, spend_transaction, change_of, spend_digest, build_spend, prepare_spend,
}
use ckb_crypto_agile_account.Demo.Base64.{base64url, base64_char}
use ckb_crypto_agile_account.Demo.Finalize.{
  AssertionMaterial, validate_der_signature, validate_client_data, check_assertion, set_first,
  finalize_spend,
}
use ckb_crypto_agile_account.Demo.Finalize.Signed.{
  IsFinal, spend_witness-group_sighash, finalize_spend-IsFinal,
}
use ckb_crypto_agile_account.Tests.Sample.{sample_ckb, sample_ccc, hash_of, write_args}
use ckb_crypto_agile_account.Tests.Spending.{
  sample_parsers, sample_account, sample_key, state_cell, asset_cell, funder_script, sample_client,
}

abbrev pub sample_passkey : PasskeyRecord
sample_passkey = record {
  credential_id = codes "cred";
  public_key = codes "0x04" ++ replicate 128 b'1';
  key_id = codes "0x04" ++ replicate 62 b'1';
  created_at = codes "now";
}

abbrev sample_request : PrepareSpendInput
sample_request = record {
  account = sample_account;
  funder_address = codes "ckt1";
  passkey = sample_passkey;
}

abbrev largest_input : P256ProofInput
largest_input = record {
  public_key = sample_key;
  origin = client_origin;
  authenticator_data = replicate 1024 0;
  client_data_json = replicate 2048 0;
  signature = 48 ∷ 70 ∷ replicate 70 0;
}

-- The packed witness of one proof.
abbrev witness_of : P256ProofInput → Bytes
witness_of input = write_args (record {
  lock =
      some (witness_layout 1 7 (record { slot = nat 0; bytes = concat (p256_layout input) } ∷ []));
  input_type = none;
  output_type = none;
})

abbrev sample_spend : Transaction
sample_spend =
    spend_transaction sample_ccc sample_account asset_cell funder_script 9_999_999_000
      (witness_of largest_input)

abbrev sample_prepared : PreparedSpend
sample_prepared = record {
  transaction = sample_spend;
  digest = codes "CKB_ACCOUNT_LOCK_V1" ++ 1 ∷ replicate 12 17;
  review = record {
    input_capacity = 20_000_000_000;
    transfer = transfer_capacity;
    change_capacity = 9_999_999_000;
    fee = 1000;
    funder_address = codes "ckt1";
    input_out_point = asset_cell.out_point;
    dependencies = dependencies_of sample_account;
  };
  max_witness_bytes = length (witness_of largest_input);
  sequence = 7;
  credential_id = codes "cred";
  public_key = sample_passkey.public_key;
  account_id = hash_of b'1';
  state_data = state_cell.output_data;
}

prepared :
    prepare_spend sample_ccc sample_ckb sample_parsers sample_client sample_request
    ≡ ok sample_prepared
unfolding prepare_spend build_spend is_passkey_record is_public_key is_base64url is_hash32 hex_bytes
    ckb_hash discover_account_cells live_state verify_state_cell same_out_point parse_account_state
    check_header check_entry is_unsupported_entry scan only_asset check_live_asset type_id_script
    maximum_witness spend_witness encode_p256_proof check_p256_proof bytes_concat concat_length
    u16le u32le u64le encode_account_witness require_operation encode_proofs proof_slot encode_proof
    join_witness pack_account_witness spend_transaction change_of ensure_occupied_capacity
    spend_digest group_sighash group_preimage require_length join_group length_prefixed
    length_prefixed_all authorization_digest authorization_preimage bytes_from_hex bytes_from_digits
    hex_pairs hex_value hex_from_bytes hex_digits hex_digit dependencies_of
prepared = refl

abbrev sample_assertion : AssertionMaterial
sample_assertion = record {
  credential_id = codes "cred";
  authenticator_data = replicate 37 1;
  client_data_json = 123 ∷ 125 ∷ [];
  signature = 48 ∷ 6 ∷ replicate 6 2;
}

-- What the client data is taken to parse to.
abbrev sample_json : Bytes → Option Json
sample_json bytes = some (
    obj (
      field (codes "type") (str (codes "webauthn.get")) (
        field (codes "challenge") (str (codes "Q0tCX0FDQ09VTlRfTE9DS19WMQERERERERERERERERE"))
          (field (codes "origin") (str client_origin) end))))

abbrev asserted_input : P256ProofInput
asserted_input = record {
  public_key = sample_key;
  origin = client_origin;
  authenticator_data = replicate 37 1;
  client_data_json = 123 ∷ 125 ∷ [];
  signature = 48 ∷ 6 ∷ replicate 6 2;
}

abbrev sample_final : Transaction
sample_final = record sample_spend { witnesses = hex_from_bytes (witness_of asserted_input) ∷ [] }

finalized :
    finalize_spend sample_ccc sample_ckb sample_parsers sample_json sample_prepared sample_passkey
      sample_assertion
    ≡ ok sample_final
unfolding finalize_spend is_passkey_record is_public_key is_base64url is_hash32 hex_bytes
    check_assertion validate_der_signature validate_client_data base64url base64_char bytes_from_hex
    bytes_from_digits hex_pairs hex_value hex_from_bytes hex_digits hex_digit spend_witness
    encode_p256_proof check_p256_proof bytes_concat concat_length u16le u32le u64le
    encode_account_witness require_operation encode_proofs proof_slot encode_proof join_witness
    pack_account_witness spend_transaction set_first
finalized = refl

finalize_spend-IsFinal_example :
    IsFinal sample_ccc sample_ckb sample_prepared sample_assertion sample_final
finalize_spend-IsFinal_example =
    finalize_spend-IsFinal sample_ccc sample_ckb sample_parsers sample_json sample_prepared
      sample_passkey sample_assertion sample_final finalized

largest_packed : spend_witness sample_ckb 7 largest_input ≡ ok (witness_of largest_input)
unfolding spend_witness encode_p256_proof check_p256_proof bytes_concat concat_length u16le u32le
    u64le encode_account_witness require_operation encode_proofs proof_slot encode_proof
    join_witness pack_account_witness
largest_packed = refl

asserted_packed : spend_witness sample_ckb 7 asserted_input ≡ ok (witness_of asserted_input)
unfolding spend_witness encode_p256_proof check_p256_proof bytes_concat concat_length u16le u32le
    u64le encode_account_witness require_operation encode_proofs proof_slot encode_proof
    join_witness pack_account_witness
asserted_packed = refl

spend_witness-group_sighash_example :
    group_sighash sample_ckb (replicate 32 6) (witness_of asserted_input ∷ []) []
    ≡ group_sighash sample_ckb (replicate 32 6) (witness_of largest_input ∷ []) []
spend_witness-group_sighash_example =
    spend_witness-group_sighash sample_ckb (replicate 32 6) 7 7 asserted_input largest_input
      (witness_of asserted_input) (witness_of largest_input) asserted_packed largest_packed
