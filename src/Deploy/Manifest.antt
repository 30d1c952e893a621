-- ===== src/Deploy/Manifest.antt =====
-- tools/deploy/src/deployment.ts: the manifest of what was published.
pub mod Records
pub mod Laws
pub mod Publish
use ckb_crypto_agile_account.Common.{
  ℕ, ◌≡◌, Bool, true, false, not, ◌&&◌, ◌||◌, List, [], ◌∷◌, ◌++◌, Option, none, some, ltb, leb,
  ◌==◌, if◌then◌else◌, length, map, codes, String, Text, text_eq, Result, ok, err, ◌>>=◌, ◌>>◌,
  throw_if,
}
use ckb_crypto_agile_account.Failure.{Failure, Throws, error}
use ckb_crypto_agile_account.Bytes.{Number, nat, not_nat, max_safe_integer}
use ckb_crypto_agile_account.Json.{
  Json, null, bool, num, str, arr, obj, Fields, end, field, entries, get_field,
}
use ckb_crypto_agile_account.Json.Patterns.{is_hash32, is_positive_decimal}

pub record DeployedRecord : Type 0 where
  pub name : Text
  pub data_hash : Text
  pub hash_type : Text
  pub tx_hash : Text
  pub index : Number
  pub capacity_shannons : Text

-- A record as the value that the checks read.
abbrev pub record_to_json : DeployedRecord → Json
record_to_json r = obj (
    field (codes "name") (str r.name) (
      field (codes "dataHash") (str r.data_hash) (
        field (codes "hashType") (str r.hash_type) (
          field (codes "txHash") (str r.tx_hash) (
            field (codes "index") (num r.index)
              (field (codes "capacityShannons") (str r.capacity_shannons) end))))))

-- `value.name === text`
abbrev pub str_is : Option Json → Text → Bool
str_is (some (str t)) text = text_eq t text
str_is _ text = false

-- `typeof value === "string" && test(value)`
abbrev pub str_fits : Option Json → (Text → Bool) → Bool
str_fits (some (str t)) test = test t
str_fits _ test = false

-- `Number.isSafeInteger(value) && value >= 0`
abbrev pub is_index : Option Json → Bool
is_index (some (num (nat n))) = leb n max_safe_integer
is_index _ = false

abbrev pub is_one : Option Json → Bool
is_one (some (num (nat n))) = n == 1
is_one _ = false

abbrev pub is_true : Option Json → Bool
is_true (some (bool b)) = b
is_true _ = false

abbrev pub is_str : Option Json → Bool
is_str (some (str t)) = true
is_str _ = false

-- The conditions that `deployedRecord` puts on an object.
unfoldable pub is_deployed_record : Fields → Text → Bool
is_deployed_record fields name =
    str_is (get_field (codes "name") fields) name
    && (str_fits (get_field (codes "dataHash") fields) is_hash32
        && (str_is (get_field (codes "hashType") fields) (codes "data2")
            && (str_fits (get_field (codes "txHash") fields) is_hash32
                && (is_index (get_field (codes "index") fields)
                    && str_fits (get_field (codes "capacityShannons") fields)
                        is_positive_decimal))))

-- `deployedRecord`: the value itself, if it is a record of that name.
unfoldable pub deployed_record : Json → Text → Throws Json
deployed_record (obj fields) name =
    if is_deployed_record fields name
    then ok (obj fields)
    else err (error "existing deployment manifest has an invalid record")
deployed_record _ name = err (error "existing deployment manifest has an invalid record")

abbrev pub Artifacts : Type 0
Artifacts = List (Text × Json)

-- `artifacts[name] = record`: in its place if the name is there, at the end if not.
unfoldable pub assign : Text → Json → Artifacts → Artifacts
assign name value [] = (name, value) ∷ []
assign name value ((n, v) ∷ rest) =
    if text_eq n name then (n, value) ∷ rest else (n, v) ∷ assign name value rest

-- `artifacts[name]`
unfoldable pub lookup : Text → Artifacts → Option Json
lookup name [] = none
lookup name ((n, v) ∷ rest) = if text_eq n name then some v else lookup name rest

unfoldable pub check_entries : Artifacts → Throws Artifacts
check_entries [] = ok []
check_entries ((name, value) ∷ rest) = do
  first ← deployed_record value name
  others ← check_entries rest
  ok ((name, first) ∷ others)

abbrev pub malformed : Failure
malformed = error "existing deployment manifest is malformed"

-- The conditions that `existingArtifacts` puts on the manifest beside its records.
unfoldable pub is_manifest_head : Fields → Bool
is_manifest_head fields =
    is_one (get_field (codes "schema_version") fields)
    && (str_is (get_field (codes "network") fields) (codes "testnet")
        && (is_true (get_field (codes "published") fields)
            && (str_is (get_field (codes "hash_type") fields) (codes "data2")
                && is_str (get_field (codes "note") fields))))

abbrev pub artifacts_of : Option Json → Option Fields
artifacts_of (some (obj fields)) = some fields
artifacts_of _ = none

-- `existingArtifacts`; none stands for `undefined`.
unfoldable pub existing_artifacts : Option Json → Throws Artifacts
existing_artifacts none = ok []
existing_artifacts (some (obj fields)) =
    if is_manifest_head fields
    then elim (artifacts_of (get_field (codes "artifacts") fields)) [
      | none ↦ err malformed
      | some artifacts ↦ check_entries (entries artifacts)
    ]
    else err malformed
existing_artifacts (some _) = err malformed

-- The manifest that is built has constant fields beside its artifacts.
pub record DeploymentManifest : Type 0 where
  pub note : Text
  pub artifacts : Artifacts

-- The loop of `buildDeploymentManifest`.
unfoldable pub add_records : List DeployedRecord → Artifacts → Throws Artifacts
add_records [] artifacts = ok artifacts
add_records (r ∷ records) artifacts = do
  checked ← deployed_record (record_to_json r) r.name
  add_records records (assign r.name checked artifacts)

abbrev pub manifest_note : Text
manifest_note =
    codes
      "Outpoints recorded by tools/deploy. Each cell's on-chain data hash was re-read and verified after commitment."

-- `buildDeploymentManifest`
unfoldable pub build_deployment_manifest :
    Option Json → List DeployedRecord → Throws DeploymentManifest
build_deployment_manifest existing records = do
  artifacts ← existing_artifacts existing
  added ← add_records records artifacts
  ok (record { note = manifest_note; artifacts = added })

abbrev pub to_fields : Artifacts → Fields
to_fields [] = end
to_fields ((name, value) ∷ rest) = field name value (to_fields rest)

-- A manifest as the value that is validated again, or written to a file.
abbrev pub manifest_to_json : DeploymentManifest → Json
manifest_to_json m = obj (
    field (codes "schema_version") (num (nat 1)) (
      field (codes "network") (str (codes "testnet")) (
        field (codes "published") (bool true) (
          field (codes "hash_type") (str (codes "data2")) (
            field (codes "note") (str m.note)
              (field (codes "artifacts") (obj (to_fields m.artifacts)) end))))))

-- `publishDeployment`, with the publishing of a cell as a step on the state of the world `W`.
module _ {W T : Type 0} (publish : T → W → Throws DeployedRecord × W) where
  unfoldable pub publish_all : List T → W → Throws (List DeployedRecord) × W
  publish_all [] w = (ok [], w)
  publish_all (cell ∷ cells) w =
      let (result, w') = publish cell w in
      elim result [
        | err e ↦ (err e, w')
        | ok r ↦ let (others, w'') = publish_all cells w' in ((others >>= λ rs. ok (r ∷ rs)), w'')
      ]

  unfoldable pub publish_deployment : Option Json → List T → W → Throws DeploymentManifest × W
  publish_deployment existing cells w = elim (build_deployment_manifest existing []) [
    | err e ↦ (err e, w)
    | ok validated ↦
        let (records, w') = publish_all cells w in
        ((records >>= λ rs. build_deployment_manifest (some (manifest_to_json validated)) rs), w')
  ]
