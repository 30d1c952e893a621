-- ===== src/Deploy/Manifest/Publish.antt =====
-- `publishDeployment` of tools/deploy/src/deployment.ts: what is published, and what is recorded.
use ckb_crypto_agile_account.Common.{
  ◌≡◌, inl, inr, subst, ◌∷◌, ap, ◌∙◌, List, [], Option, some, Text, Result-cases, ok, err, arith,
}
use ckb_crypto_agile_account.Failure.{Failure, Throws}
use ckb_crypto_agile_account.Json.{Json}
use ckb_crypto_agile_account.Deploy.Manifest.{
  DeployedRecord, Artifacts, lookup, existing_artifacts, DeploymentManifest, add_records,
  manifest_note, build_deployment_manifest, manifest_to_json, publish_all, publish_deployment,
}
use ckb_crypto_agile_account.Deploy.Manifest.Laws.{
  latest, lookup-build_deployment_manifest, build_deployment_manifest_again,
}

pub build_nothing :
    (existing : Option Json) (before : Artifacts)
    → existing_artifacts existing ≡ ok before
    → build_deployment_manifest existing []
      ≡ ok (record { note = manifest_note; artifacts = before })
unfolding build_deployment_manifest add_records
build_nothing existing before h = rw h

pub build_refused :
    (existing : Option Json) (e : Failure)
    → existing_artifacts existing ≡ err e
    → build_deployment_manifest existing [] ≡ err e
unfolding build_deployment_manifest
build_refused existing e h = rw h

module _ {W T : Type 0} (publish : T → W → Throws DeployedRecord × W) where
  -- With an existing manifest that is not valid nothing is published: the world is as it was.
  pub publish_deployment_refused :
      (existing : Option Json) (cells : List T) (w : W) (e : Failure)
      → existing_artifacts existing ≡ err e
      → publish_deployment publish existing cells w ≡ (err e, w)
  unfolding publish_deployment
  publish_deployment_refused existing cells w e h =
      rw (build_refused existing e h, publish_deployment)

  -- The calls that published some cells one after the other, with their records and the world before and
  -- behind them.
  pub data Published : List T → W → List DeployedRecord → W → Type 0 where
    nothing : (w : W) → Published [] w [] w
    next :
        (cell : T) (cells : List T) (r : DeployedRecord) (records : List DeployedRecord)
        (w after end : W)
        → publish cell w ≡ (ok r, after)
        → Published cells after records end
        → Published (cell ∷ cells) w (r ∷ records) end

  publish_all-Published :
      (cells : List T) (w end : W) (records : List DeployedRecord)
      → publish_all publish cells w ≡ (ok records, end)
      → Published cells w records end
  unfolding publish_all
  publish_all-Published [] w end records h =
      let same : ◌≡◌ {A = Throws (List DeployedRecord) × W} (ok [], w) (ok records, end) = h in
      let none_left : ◌≡◌ {A = List DeployedRecord} [] records = ground (arith, h) in
      let still : w ≡ end = ap (λ (p : Throws (List DeployedRecord) × W). p.1) same in
      subst (λ rs. Published [] w rs end) none_left
        (subst (λ x. Published [] w [] x) still (nothing w))
  publish_all-Published (cell ∷ cells) w end records h =
      let one = publish cell w in
      let others = publish_all publish cells one.1 in
      elim (Result-cases one.0) [
        | inr (e, bad) ↦ absurd (ground (arith, h, bad))
        | inl (r, good) ↦ elim (Result-cases others.0) [
          | inr (e, bad) ↦ absurd (ground (arith, h, good, bad))
          | inl (rs, fine) ↦
              let same : ◌≡◌ {A = List DeployedRecord} (r ∷ rs) records =
                ground (arith, h, good, fine) in
              let last : others.1 ≡ end = ground (arith, h, good, fine) in
              let rest : others ≡ (ok rs, end) = ground (arith, fine, last) in
              let head : one ≡ (ok r, one.1) = ground (arith, good) in
              subst (λ x. Published (cell ∷ cells) w x end) same
                (next cell cells r rs w one.1 end head
                  (publish_all-Published cells one.1 end rs rest))
        ]
      ]

  pub publish_deployment_all :
      (existing : Option Json) (cells : List T) (w w' : W) (m : DeploymentManifest)
      → publish_deployment publish existing cells w ≡ (ok m, w')
      → (before : Artifacts) × (records : List DeployedRecord) × (existing_artifacts existing
          ≡ ok before)
        × (publish_all publish cells w ≡ (ok records, w'))
        × ((key : Text) → lookup key m.artifacts ≡ latest key records (lookup key before))
  unfolding publish_deployment
  publish_deployment_all existing cells w w' m h =
      elim (Result-cases (existing_artifacts existing)) [
        | inr (e, failed) ↦ ground (arith, h, build_refused existing e failed)
        | inl (before, read) ↦ elim (Result-cases (publish_all publish cells w).0) [
          | inr (e, failed) ↦ ground (arith, h, build_nothing existing before read, failed)
          | inl (records, got) ↦
              let start : DeploymentManifest = record {
                note = manifest_note;
                artifacts = before;
              } in
              let built : build_deployment_manifest (some (manifest_to_json start)) records ≡ ok m =
                ground (arith, h, build_nothing existing before read, got) in
              (
                before,
                records,
                read,
                ground (arith, h, build_nothing existing before read, got),
                λ key.
                    let (again, is, found) =
                      lookup-build_deployment_manifest _ records m key built in
                    let kept =
                      build_deployment_manifest_again existing [] start
                        (build_nothing existing before read) in
                    let same : again ≡ before =
                      ground
                        (arith, kept, build_nothing (some (manifest_to_json start)) again is) in
                    found ∙ ap (λ b. latest key records (lookup key b)) same,
              )
        ]
      ]

  -- When the run succeeds, each cell was published in order, every call in the world that the one before
  -- left and without an error, and the manifest holds under each name the last
  -- record that was answered for it, and what the existing manifest held under the other names.
  pub publish_deployment_recorded :
      (existing : Option Json) (cells : List T) (w w' : W) (m : DeploymentManifest)
      → publish_deployment publish existing cells w ≡ (ok m, w')
      → (before : Artifacts) × (records : List DeployedRecord) × (existing_artifacts existing
          ≡ ok before)
        × Published cells w records w'
        × ((key : Text) → lookup key m.artifacts ≡ latest key records (lookup key before))
  publish_deployment_recorded existing cells w w' m h =
      let (before, records, read, all, held) = publish_deployment_all existing cells w w' m h in
      (before, records, read, publish_all-Published cells w w' records all, held)
