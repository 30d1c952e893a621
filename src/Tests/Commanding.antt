-- ===== src/Tests/Commanding.antt =====
-- tools/deploy/src/bootstrap.ts before AccountLock is published.
use ckb_crypto_agile_account.Common.{
  ◌≡◌, refl, true, false, none, some, List, [], ◌∷◌, Text, codes, ok, err,
}
use ckb_crypto_agile_account.Failure.{Failure, error}
use ckb_crypto_agile_account.Json.{null}
use ckb_crypto_agile_account.Decimal.{decimal, digits_onto, read_digits}
use ckb_crypto_agile_account.Deploy.Artifacts.{
  cell_capacity_shannons, type_bytes, read_local_artifact_identities, identities_of,
}
use ckb_crypto_agile_account.Deploy.Plan.{identity_of}
use ckb_crypto_agile_account.Deploy.Bootstrap.{World, account_lock_code_hash}
use ckb_crypto_agile_account.Deploy.Command.{
  grouped_onto, strip_zeros, format_ckb, value_behind, is_whole_number, parse_args, Options,
  resolve_account_lock_code_hash, checked_options, create_main,
}
use ckb_crypto_agile_account.Deploy.Command.Run.{create_main-unpublished}
use ckb_crypto_agile_account.Tests.Sample.{sample_ccc}
use ckb_crypto_agile_account.Tests.Deploying.{sample_host}
use ckb_crypto_agile_account.Tests.Creating.{sample_network}

formatted : format_ckb 123_456_705_000_000 ≡ codes "1,234,567.05 CKB"
unfolding format_ckb grouped_onto strip_zeros decimal digits_onto
formatted = refl

abbrev create_arguments : List Text
create_arguments = codes "--state" ∷ codes "state.bin" ∷ codes "--broadcast" ∷ []

abbrev create_options : Options
create_options = record {
  state_path = codes "state.bin";
  asset_capacity_ckb = 200;
  broadcast = true;
}

abbrev unpublished_world : World
unpublished_world = record { account_file = none; deployments_file = none; sent = [] }

create_checked :
    checked_options sample_host create_arguments unpublished_world
    ≡ ok (create_options, 1 ∷ 2 ∷ 3 ∷ [], false)
unfolding checked_options parse_args value_behind is_whole_number read_digits
    resolve_account_lock_code_hash cell_capacity_shannons type_bytes read_local_artifact_identities
    identities_of identity_of
create_checked = refl

missing_deployments :
    account_lock_code_hash null ≡ err (error "testnet deployment manifest is missing")
unfolding account_lock_code_hash
missing_deployments = refl

create_main-unpublished_example :
    (f : Failure) × (create_main sample_ccc sample_host
        (λ key. sample_network)
        create_arguments
        (some (codes "0x1"))
        unpublished_world
      ≡ (err f, unpublished_world))
create_main-unpublished_example =
    create_main-unpublished sample_ccc sample_host (λ key. sample_network) create_arguments
      (some (codes "0x1")) unpublished_world create_options (1 ∷ 2 ∷ 3 ∷ []) false
      (error "testnet deployment manifest is missing") missing_deployments create_checked refl
