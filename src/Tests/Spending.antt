-- ===== src/Tests/Spending.antt =====
-- demo/src/shared/manifests.ts and demo/src/client/chain.ts on one account.
use ckb_crypto_agile_account.Common.{
  ◌≡◌, ◌↔◌, refl, subst, true, if◌then◌else◌, ◌==◌, Option, none, some, [], ◌∷◌, ◌++◌, replicate,
  Text, codes, ok, err, arith,
}
use ckb_crypto_agile_account.Failure.{Throws, type_error}
use ckb_crypto_agile_account.Bytes.{
  Bytes, hex_from_bytes, hex_digits, hex_digit, bytes_from_hex, bytes_from_digits, hex_pairs,
  hex_value,
}
use ckb_crypto_agile_account.Json.{null}
use ckb_crypto_agile_account.Json.Patterns.{hex_bytes, is_hash32}
use ckb_crypto_agile_account.Ccc.{by_type, Script, Cell}
use ckb_crypto_agile_account.Deploy.Account.{type_id_script}
use ckb_crypto_agile_account.Demo.Schemas.{
  is_account_lock_args, refine_account, AccountManifest, is_account_manifest, PasskeyRecord,
  is_passkey_record, Parsers, DeploymentManifest, is_deployment_manifest, BootstrapRequest,
  is_bootstrap_request, DemoStatus, is_demo_status,
}
use ckb_crypto_agile_account.Demo.Manifests.{
  VerifiedDeployment, VerifiedAccount, verified_deployment, verified_account, validate_account,
}
use ckb_crypto_agile_account.Demo.Manifests.Laws.{answer_of, IsBound, validate_account_iff}
use ckb_crypto_agile_account.Demo.State.{
  check_header, check_entry, is_unsupported_entry, parse_account_state, same_out_point,
  verify_state_cell, expected_rp_id_hash, expected_origin_hash,
}
use ckb_crypto_agile_account.Demo.Discover.{
  SpendClient, AccountCells, scan, only_asset, check_live_asset, live_state, discover_account_cells,
}
use ckb_crypto_agile_account.Demo.Discover.Live.{
  IsStateCell, IsAssetCell, discover_account_cells-IsStateCell,
}
use ckb_crypto_agile_account.Tests.Sample.{sample_ccc, hash_of}

abbrev pub sample_deployment : VerifiedDeployment
sample_deployment = verified_deployment (record {
  account_lock = record {
    data_hash = hash_of b'a';
    tx_hash = hash_of b'b';
    index = 0;
    capacity_shannons = codes "1";
  };
  verifier_p256 = record {
    data_hash = hash_of b'4';
    tx_hash = hash_of b'b';
    index = 1;
    capacity_shannons = codes "1";
  };
})

abbrev pub sample_manifest : AccountManifest
sample_manifest = record {
  account_id = hash_of b'1';
  code_hash = hash_of b'a';
  lock_args = codes "0x01" ++ replicate 64 b'1';
  type_id_args = hash_of b'2';
  state_out_point = record { tx_hash = hash_of b'd'; index = 0 };
  asset_out_point = record { tx_hash = hash_of b'd'; index = 1 };
  state_bytes = 177;
}

sample_manifest_valid : is_account_manifest sample_manifest ≡ true
unfolding is_account_manifest is_hash32 hex_bytes is_account_lock_args refine_account
sample_manifest_valid = refl

pub only_sample :
    (m : AccountManifest)
    → ◌≡◌ {A = Option AccountManifest} (some sample_manifest) (some m)
    → is_account_manifest m ≡ true
only_sample m e =
    let same : sample_manifest ≡ m = cc e in
    subst (λ x. is_account_manifest x ≡ true) same sample_manifest_valid

abbrev pub check_passkey : PasskeyRecord → Throws PasskeyRecord
check_passkey r = if is_passkey_record r then ok r else err (type_error "passkey")

pub check_passkey_lem :
    (r s : PasskeyRecord) → check_passkey r ≡ ok s → (s ≡ r) × (is_passkey_record r ≡ true)
check_passkey_lem r s h = ground (arith, h)

pub no_deployment :
    (m : DeploymentManifest)
    → ◌≡◌ {A = Option DeploymentManifest} none (some m)
    → is_deployment_manifest m ≡ true
no_deployment m e = cc e

pub no_request :
    (r : BootstrapRequest)
    → ◌≡◌ {A = Option BootstrapRequest} none (some r)
    → is_bootstrap_request r ≡ true
no_request r e = cc e

pub no_status :
    (s : DemoStatus) → ◌≡◌ {A = Option DemoStatus} none (some s) → is_demo_status s ≡ true
no_status s e = cc e

abbrev pub sample_parsers : Parsers
sample_parsers = record {
  deployment = λ v. none;
  deployment_valid = λ v m e. no_deployment m e;
  account = λ v. some sample_manifest;
  account_valid = λ v m e. only_sample m e;
  bootstrap_request = λ v. none;
  bootstrap_request_valid = λ v r e. no_request r e;
  status = λ v. none;
  status_valid = λ v s e. no_status s e;
  passkey = check_passkey;
  passkey_valid = check_passkey_lem;
}

abbrev pub sample_account : VerifiedAccount
sample_account = verified_account sample_manifest sample_deployment

validate_account_iff_example :
    (validate_account sample_ccc sample_parsers null sample_deployment ≡ ok sample_account) ↔ (
      (m : AccountManifest) × IsBound sample_ccc sample_parsers null sample_deployment m
      × (sample_account ≡ answer_of m sample_deployment))
unfolding type_id_script
validate_account_iff_example =
    validate_account_iff sample_ccc sample_parsers null sample_deployment sample_account

abbrev pub sample_key : Bytes
sample_key = 4 ∷ replicate 64 17

abbrev pub sample_key_id : Bytes
sample_key_id = 4 ∷ replicate 31 17

-- The state of the account, with the sequence 7.
abbrev pub sample_state : Text
sample_state =
    codes "0x434b4153"
    ++ codes "01012000"
    ++ codes "0700000000000000"
    ++ codes "0100010001000100"
    ++ replicate 16 b'0'
    ++ codes "91000000010007000100"
    ++ codes "0001"
    ++ replicate 64 b'4'
    ++ codes "20004100"
    ++ (codes "04" ++ replicate 62 b'1')
    ++ codes "01"
    ++ expected_rp_id_hash
    ++ expected_origin_hash

abbrev pub state_cell : Cell
state_cell = record {
  out_point = sample_manifest.state_out_point;
  cell_output = record {
    capacity = 31_600_000_000;
    lock = sample_account.account_lock;
    type_script = some sample_account.state_type;
  };
  output_data = sample_state;
}

abbrev pub asset_cell : Cell
asset_cell = record {
  out_point = sample_manifest.asset_out_point;
  cell_output = record {
    capacity = 20_000_000_000;
    lock = sample_account.account_lock;
    type_script = none;
  };
  output_data = codes "0x";
}

abbrev pub funder_script : Script
funder_script = record { code_hash = hash_of b'f'; hash_type = by_type; args = codes "0x00" }

abbrev pub sample_client : SpendClient
sample_client = record {
  get_cell_live = λ o. ok (some (if o.index == 0 then state_cell else asset_cell));
  find_cells_by_lock = λ s limit. ok state_cell ∷ ok asset_cell ∷ [];
  lock_of_address = λ t. ok funder_script;
  send_transaction = λ tx. ok (hash_of b'3');
  wait_transaction = λ tx_hash. ok (some tt);
}

abbrev sample_cells : AccountCells
sample_cells = record { state = state_cell; asset = asset_cell }

discovered : discover_account_cells sample_ccc sample_client sample_account ≡ ok sample_cells
unfolding discover_account_cells live_state verify_state_cell same_out_point parse_account_state
    check_header check_entry is_unsupported_entry scan only_asset check_live_asset type_id_script
    bytes_from_hex bytes_from_digits hex_pairs hex_value hex_from_bytes hex_digits hex_digit
discovered = refl

discover_account_cells-IsStateCell_example :
    (sample_client.get_cell_live sample_manifest.state_out_point ≡ ok (some state_cell))
    × (sample_client.get_cell_live sample_manifest.asset_out_point ≡ ok (some asset_cell))
    × IsStateCell sample_ccc sample_account state_cell
    × IsAssetCell sample_ccc sample_account asset_cell
discover_account_cells-IsStateCell_example =
    discover_account_cells-IsStateCell sample_ccc sample_client sample_account sample_cells
      discovered
