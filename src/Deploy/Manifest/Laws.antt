-- ===== src/Deploy/Manifest/Laws.antt =====
-- What a manifest that `buildDeploymentManifest` of tools/deploy/src/deployment.ts built holds.
use ckb_crypto_agile_account.Common.{
  ◌≡◌, inl, inr, refl, sym, ap, ◌∙◌, subst, List, [], ◌∷◌, Option, none, some, if◌then◌else◌, codes,
  Text, text_eq, text_eq→eq, text_eq_self, Bool-cases, Option-cases, ok, err, >>=-eq-ok, arith,
}
use ckb_crypto_agile_account.Failure.{Throws}
use ckb_crypto_agile_account.Json.{Json, null, obj, entries, get_field}
use ckb_crypto_agile_account.Deploy.Manifest.{
  DeployedRecord, record_to_json, deployed_record, Artifacts, assign, lookup, check_entries,
  is_manifest_head, artifacts_of, existing_artifacts, DeploymentManifest, add_records,
  manifest_note, build_deployment_manifest, to_fields, manifest_to_json,
}
use ckb_crypto_agile_account.Deploy.Manifest.Records.{
  IsDeployed, AreDeployed, deployed_record-eq-ok, deployed_record_total,
}

check_entries-eq-ok :
    (input artifacts : Artifacts)
    → check_entries input ≡ ok artifacts
    → (artifacts ≡ input) × AreDeployed artifacts
unfolding check_entries
check_entries-eq-ok [] artifacts h = ground arith
check_entries-eq-ok ((name, value) ∷ rest) artifacts h =
    let (first, e1, h1) = >>=-eq-ok (deployed_record value name) _ h in
    let (others, e2, h2) = >>=-eq-ok (check_entries rest) _ h1 in
    let (same, valid) = deployed_record-eq-ok value first name e1 in
    let (kept, all_valid) = check_entries-eq-ok rest others e2 in
    let made : artifacts ≡ (name, value) ∷ others = ground (arith, h2, same) in
    (made ∙ ap (λ r. (name, value) ∷ r) kept, subst AreDeployed (sym made) (valid, all_valid))

check_entries_total :
    (artifacts : Artifacts) → AreDeployed artifacts → check_entries artifacts ≡ ok artifacts
unfolding check_entries
check_entries_total [] v = refl
check_entries_total ((name, value) ∷ rest) v =
    rw (deployed_record_total value name v.0, check_entries_total rest v.1)

assign-AreDeployed :
    (name : Text) (value : Json) (artifacts : Artifacts)
    → IsDeployed name value
    → AreDeployed artifacts
    → AreDeployed (assign name value artifacts)
unfolding assign
assign-AreDeployed name value [] v vs = (v, tt)
assign-AreDeployed name value ((n, w) ∷ rest) v vs = elim (Bool-cases (text_eq n name)) [
  | inl same ↦ rw same (subst (λ k. IsDeployed k value) (sym (text_eq→eq n name same)) v, vs.1)
  | inr other ↦ rw other (vs.0, assign-AreDeployed name value rest v vs.1)
]

lookup-assign :
    (name key : Text) (value : Json) (artifacts : Artifacts)
    → lookup key (assign name value artifacts)
      ≡ (if text_eq name key then some value else lookup key artifacts)
unfolding lookup assign
lookup-assign name key value [] = refl
lookup-assign name key value ((n, w) ∷ rest) = ground (
  arith,
  text_eq→eq n name,
  text_eq→eq n key,
  text_eq→eq name key,
  text_eq_self n,
  text_eq_self name,
  lookup-assign name key value rest,
)

add_records-eq-ok :
    (records : List DeployedRecord) (before after : Artifacts)
    → add_records records before ≡ ok after
    → AreDeployed before
    → AreDeployed after
unfolding add_records
add_records-eq-ok [] before after h v = subst AreDeployed (some_eq h) v
  where
    some_eq : ◌≡◌ {A = Throws Artifacts} (ok before) (ok after) → before ≡ after
    some_eq e = ground arith
add_records-eq-ok (r ∷ records) before after h v =
    let (checked, e1, h1) = >>=-eq-ok (deployed_record (record_to_json r) r.name) _ h in
    let (same, valid) = deployed_record-eq-ok (record_to_json r) checked r.name e1 in
    add_records-eq-ok records (assign r.name checked before) after h1
      (assign-AreDeployed r.name checked before (subst (IsDeployed r.name) (sym same) valid) v)

-- The last record of a name, or what was there before.
abbrev pub latest : Text → List DeployedRecord → Option Json → Option Json
latest key [] before = before
latest key (r ∷ records) before =
    latest key records (if text_eq r.name key then some (record_to_json r) else before)

lookup-add_records :
    (records : List DeployedRecord) (before after : Artifacts) (key : Text)
    → add_records records before ≡ ok after
    → lookup key after ≡ latest key records (lookup key before)
unfolding add_records
lookup-add_records [] before after key h = ground arith
lookup-add_records (r ∷ records) before after key h =
    let (checked, e1, h1) = >>=-eq-ok (deployed_record (record_to_json r) r.name) _ h in
    let (same, valid) = deployed_record-eq-ok (record_to_json r) checked r.name e1 in
    lookup-add_records records (assign r.name checked before) after key h1
    ∙ ap (latest key records) (
        lookup-assign r.name key checked before
        ∙ ap (λ v. if text_eq r.name key then some v else lookup key before) same)

entries-to_fields : (artifacts : Artifacts) → entries (to_fields artifacts) ≡ artifacts
entries-to_fields [] = refl
entries-to_fields ((name, value) ∷ rest) = ap (λ r. (name, value) ∷ r) (entries-to_fields rest)

existing_artifacts-AreDeployed :
    (existing : Option Json) (artifacts : Artifacts)
    → existing_artifacts existing ≡ ok artifacts
    → AreDeployed artifacts
unfolding existing_artifacts
existing_artifacts-AreDeployed none artifacts h =
    subst (λ r. elim r [ ok a ↦ AreDeployed a | err e ↦ Unit ]) h tt
existing_artifacts-AreDeployed (some (obj fields)) artifacts h =
    elim (Option-cases (artifacts_of (get_field (codes "artifacts") fields))) [
      | inl missing ↦ ground (arith, h, missing)
      | inr (found, is) ↦ (check_entries-eq-ok (entries found) artifacts (ground (arith, h, is))).1
    ]
existing_artifacts-AreDeployed (some null) artifacts h = cc
existing_artifacts-AreDeployed (some _) artifacts h = cc

-- Every record of a manifest that is built is a published cell under its own name: hashes of 32
-- bytes in lowercase hex, hash type data2, a safe index and a positive capacity. This holds of the
-- records that an existing manifest brings too.
pub build_deployment_manifest-AreDeployed :
    (existing : Option Json) (records : List DeployedRecord) (m : DeploymentManifest)
    → build_deployment_manifest existing records ≡ ok m
    → AreDeployed m.artifacts
unfolding build_deployment_manifest
build_deployment_manifest-AreDeployed existing records m h =
    let (before, e1, h1) = >>=-eq-ok (existing_artifacts existing) _ h in
    let (after, e2, h2) = >>=-eq-ok (add_records records before) _ h1 in
    let made : after ≡ m.artifacts = ground (arith, h2) in
    subst AreDeployed made (
      add_records-eq-ok records before after e2 (existing_artifacts-AreDeployed existing before e1))

-- Under each name a manifest that is built holds the last of the given records of that name, and
-- where there is none what the existing manifest held.
pub lookup-build_deployment_manifest :
    (existing : Option Json) (records : List DeployedRecord) (m : DeploymentManifest) (key : Text)
    → build_deployment_manifest existing records ≡ ok m
    → (before : Artifacts) × (existing_artifacts existing ≡ ok before)
      × (lookup key m.artifacts ≡ latest key records (lookup key before))
unfolding build_deployment_manifest
lookup-build_deployment_manifest existing records m key h =
    let (before, e1, h1) = >>=-eq-ok (existing_artifacts existing) _ h in
    let (after, e2, h2) = >>=-eq-ok (add_records records before) _ h1 in
    let made : after ≡ m.artifacts = ground (arith, h2) in
    (before, e1, ap (lookup key) (sym made) ∙ lookup-add_records records before after key e2)

build_deployment_manifest_note :
    (existing : Option Json) (records : List DeployedRecord) (m : DeploymentManifest)
    → build_deployment_manifest existing records ≡ ok m
    → m.note ≡ manifest_note
unfolding build_deployment_manifest
build_deployment_manifest_note existing records m h =
    let (before, e1, h1) = >>=-eq-ok (existing_artifacts existing) _ h in
    let (after, e2, h2) = >>=-eq-ok (add_records records before) _ h1 in ground (arith, h2)

-- A manifest that was built is accepted as the existing one of the next run, which keeps it as it
-- is when there is nothing to add.
pub build_deployment_manifest_again :
    (existing : Option Json) (records : List DeployedRecord) (m : DeploymentManifest)
    → build_deployment_manifest existing records ≡ ok m
    → build_deployment_manifest (some (manifest_to_json m)) [] ≡ ok m
unfolding build_deployment_manifest existing_artifacts is_manifest_head add_records
build_deployment_manifest_again existing records m h =
    let valid = build_deployment_manifest-AreDeployed existing records m h in
    rw (entries-to_fields m.artifacts, check_entries_total m.artifacts valid)
      (ap {B = Throws DeploymentManifest} (λ n. ok (record { note = n; artifacts = m.artifacts }))
        (sym (build_deployment_manifest_note existing records m h)))
