-- ===== src/Tests/Deploying.antt =====
-- tools/deploy/src/plan.ts and tools/deploy/src/deployment.ts on concrete inputs.
use ckb_crypto_agile_account.Common.{
  ℕ, suc, ◌≡◌, ◌≢◌, refl, true, List, [], ◌∷◌, none, some, Text, codes, ok,
}
use ckb_crypto_agile_account.Failure.{Throws}
use ckb_crypto_agile_account.Bytes.{nat}
use ckb_crypto_agile_account.Json.Patterns.{hex_bytes, is_hash32, is_positive_decimal}
use ckb_crypto_agile_account.Deploy.Artifacts.{
  ArtifactIdentity, Host, type_bytes, cell_capacity_shannons, code_cell_capacity_shannons,
  identities_of, read_local_artifact_identities, ckb_data_hash, read_artifact,
  load_verified_artifact,
}
use ckb_crypto_agile_account.Deploy.Plan.{
  DeploymentPlan, is_first_at, duplicates, identity_of, total_of, plan_cell, plan_cells,
  build_deployment_plan,
}
use ckb_crypto_agile_account.Deploy.Plan.Laws.{
  Distinct, ArePlanned, sum_capacity, build_deployment_plan_lem,
}
use ckb_crypto_agile_account.Deploy.Args.{
  includes, classify, only_name, parse_flags, DeploymentArgs, select_artifacts,
  parse_deployment_args,
}
use ckb_crypto_agile_account.Deploy.Args.Laws.{IsSelection, parse_deployment_args_lem}
use ckb_crypto_agile_account.Deploy.Manifest.{
  DeployedRecord, record_to_json, is_deployed_record, deployed_record, Artifacts, assign, lookup,
  check_entries, is_manifest_head, existing_artifacts, DeploymentManifest, add_records,
  manifest_note, build_deployment_manifest, manifest_to_json, publish_all, publish_deployment,
}
use ckb_crypto_agile_account.Deploy.Manifest.Records.{AreDeployed}
use ckb_crypto_agile_account.Deploy.Manifest.Laws.{
  latest, build_deployment_manifest-AreDeployed, build_deployment_manifest_again,
}
use ckb_crypto_agile_account.Deploy.Manifest.Publish.{Published, publish_deployment_recorded}
use ckb_crypto_agile_account.Tests.Sample.{hash_of}

abbrev pub lock_name : Text
lock_name = codes "account_lock"

abbrev pub lock_identity : ArtifactIdentity
lock_identity = record { name = lock_name; path = codes "lock"; data_hash = hash_of b'0' }

abbrev pub sample_host : Host
sample_host = record {
  local_manifest = record {
    artifacts = some ((lock_name, record { path = codes "lock"; data_hash = hash_of b'0' }) ∷ []);
  };
  read_file = λ path. ok (1 ∷ 2 ∷ 3 ∷ []);
  hash_ckb = λ bs. hash_of b'0';
}

abbrev sample_plan : DeploymentPlan
sample_plan = record {
  cells =
      record {
        artifact = record { identity = lock_identity; bytes = 1 ∷ 2 ∷ 3 ∷ [] };
        capacity_shannons = 6_400_000_000;
      }
      ∷ [];
  total_capacity_shannons = 6_400_000_000;
}

planned : build_deployment_plan sample_host (nat 20) (lock_name ∷ []) ≡ ok sample_plan
unfolding build_deployment_plan duplicates is_first_at read_local_artifact_identities identities_of
    plan_cells plan_cell identity_of load_verified_artifact read_artifact ckb_data_hash
    code_cell_capacity_shannons cell_capacity_shannons type_bytes total_of
planned = refl

build_deployment_plan_lem_example :
    (identities : List ArtifactIdentity) × (read_local_artifact_identities
        sample_host.local_manifest
      ≡ ok identities)
    × (lock_name ∷ [] ≢ [])
    × Distinct (lock_name ∷ [])
    × ArePlanned sample_host 20 identities (lock_name ∷ []) sample_plan.cells
    × (sample_plan.total_capacity_shannons ≡ sum_capacity sample_plan.cells)
build_deployment_plan_lem_example =
    build_deployment_plan_lem sample_host 20 (lock_name ∷ []) sample_plan planned

abbrev broadcast_verifier : List Text
broadcast_verifier = codes "--only" ∷ codes "verifier_p256" ∷ codes "--broadcast" ∷ []

abbrev verifier_args : DeploymentArgs
verifier_args = record { broadcast = true; selection = codes "verifier_p256" ∷ [] }

parsed_args : parse_deployment_args broadcast_verifier ≡ ok verifier_args
unfolding parse_deployment_args parse_flags classify only_name select_artifacts
parsed_args = refl

parse_deployment_args_lem_example :
    (verifier_args.broadcast ≡ includes broadcast_verifier (codes "--broadcast"))
    × IsSelection (includes broadcast_verifier (codes "--all")) verifier_args.selection
parse_deployment_args_lem_example =
    parse_deployment_args_lem broadcast_verifier verifier_args parsed_args

abbrev lock_record : DeployedRecord
lock_record = record {
  name = lock_name;
  data_hash = hash_of b'a';
  hash_type = codes "data2";
  tx_hash = hash_of b'b';
  index = nat 0;
  capacity_shannons = codes "6400000000";
}

abbrev lock_manifest : DeploymentManifest
lock_manifest = record {
  note = manifest_note;
  artifacts = (lock_name, record_to_json lock_record) ∷ [];
}

built : build_deployment_manifest none (lock_record ∷ []) ≡ ok lock_manifest
unfolding build_deployment_manifest existing_artifacts add_records deployed_record
    is_deployed_record is_hash32 hex_bytes is_positive_decimal assign
built = refl

build_deployment_manifest-AreDeployed_example : AreDeployed lock_manifest.artifacts
build_deployment_manifest-AreDeployed_example =
    build_deployment_manifest-AreDeployed none (lock_record ∷ []) lock_manifest built

build_deployment_manifest_again_example :
    build_deployment_manifest (some (manifest_to_json lock_manifest)) [] ≡ ok lock_manifest
build_deployment_manifest_again_example =
    build_deployment_manifest_again none (lock_record ∷ []) lock_manifest built

-- A publisher that counts its calls.
abbrev publish_lock : Text → ℕ → Throws DeployedRecord × ℕ
publish_lock cell calls = (ok lock_record, suc calls)

published : publish_deployment publish_lock none (lock_name ∷ []) 0 ≡ (ok lock_manifest, 1)
unfolding publish_deployment publish_all build_deployment_manifest existing_artifacts
    is_manifest_head check_entries add_records deployed_record is_deployed_record is_hash32
    hex_bytes is_positive_decimal assign
published = refl

publish_deployment_recorded_example :
    (before : Artifacts) × (records : List DeployedRecord) × (existing_artifacts none ≡ ok before)
    × Published publish_lock (lock_name ∷ []) 0 records 1
    × ((key : Text) → lookup key lock_manifest.artifacts ≡ latest key records (lookup key before))
publish_deployment_recorded_example =
    publish_deployment_recorded publish_lock none (lock_name ∷ []) 0 1 lock_manifest published
