-- ===== src/Demo/Wizard/Ready.antt =====
-- demo/src/client/App.tsx: when the page lets an account be spent.
use ckb_crypto_agile_account.Common.{
  ◌≡◌, refl, sym, ap, subst, text_eq→eq, >>=-eq-ok, true, Option, none, some, Option-cases,
  Bool-cases, Result-cases, inl, inr, ok, arith,
}
use ckb_crypto_agile_account.Ccc.{Ccc}
use ckb_crypto_agile_account.Json.{Json}
use ckb_crypto_agile_account.Demo.Manifests.{
  VerifiedDeployment, verified_deployment, validate_deployment, validate_account,
}
use ckb_crypto_agile_account.Demo.Manifests.Laws.{IsBound, validate_account_iff}
use ckb_crypto_agile_account.Demo.Schemas.{
  DeploymentManifest, AccountManifest, DemoStatus, PasskeyRecord, Parsers,
}
use ckb_crypto_agile_account.Demo.Passkeys.{Scope, passkey_capability_problem}
use ckb_crypto_agile_account.Demo.Wizard.{
  ready_to_spend, Page, same_account, check_nullable, check_served, stage_of, reconcile,
}

module _ (ccc : Ccc) (parsers : Parsers) (page : Page) (scope : Scope) where
  -- An account that was checked against a deployment.
  pub record IsChecked (deployment : VerifiedDeployment) (m : AccountManifest) : Type 0 where
    pub read : AccountManifest
    pub bound : IsBound ccc parsers (page.account_json m) deployment read

  -- What has been checked of an account and a passkey that may be spent, and what the page then shows.
  pub record IsReady (status s : DemoStatus) (account : Option AccountManifest)
      (passkey : Option PasskeyRecord) (m : AccountManifest) (p : PasskeyRecord) : Type 0 where
    pub served : account ≡ some m
    pub stored : passkey ≡ some p
    pub same_status : s ≡ status
    pub verified : status.deployment_verified ≡ true
    pub manifest : DeploymentManifest
    pub deployment : VerifiedDeployment
    pub parsed : parsers.deployment (page.deployment_json status.deployment) ≡ some manifest
    pub code : deployment.account_lock_code.code_hash ≡ manifest.account_lock.data_hash
    pub checked : IsChecked deployment m
    pub reported : AccountManifest
    pub told : status.account ≡ some reported
    pub reported_checked : IsChecked deployment reported
    pub unchanged : page.account_text reported ≡ page.account_text m
    pub secure : scope.is_secure_context ≡ true
    pub credentials : scope.has_public_key_credential ≡ true
    pub attestation : scope.has_attestation_response ≡ true
    pub exports_key : scope.has_get_public_key ≡ true

  stage_of-ready :
      (status s : DemoStatus) (account : Option AccountManifest) (passkey : Option PasskeyRecord)
      (m : AccountManifest) (p : PasskeyRecord)
      → stage_of ccc parsers page status account passkey ≡ ready_to_spend s m p
      → (account ≡ some m) × (passkey ≡ some p) × (s ≡ status)
  unfolding stage_of
  stage_of-ready status s none none m p h = cc
  stage_of-ready status s none (some q) m p h = cc
  stage_of-ready status s (some n) none m p h = cc
  stage_of-ready status s (some n) (some q) m p h = (cc, cc, cc)

  check_nullable-IsChecked :
      (m : AccountManifest) (deployment : VerifiedDeployment)
      → check_nullable ccc parsers page (some m) deployment ≡ ok tt
      → IsChecked deployment m
  unfolding check_nullable
  check_nullable-IsChecked m deployment h =
      let (a, e, h1) =
        >>=-eq-ok (validate_account ccc parsers (page.account_json m) deployment) _ h in
      let (read, bound, is) =
        (validate_account_iff ccc parsers (page.account_json m) deployment a).0 e in
      record { read = read; bound = bound }

  validate_deployment-code :
      (value : Json) (deployment : VerifiedDeployment)
      → validate_deployment ccc parsers value ≡ ok deployment
      → (manifest : DeploymentManifest) × (parsers.deployment value ≡ some manifest)
        × (deployment.account_lock_code.code_hash ≡ manifest.account_lock.data_hash)
  unfolding validate_deployment
  validate_deployment-code value deployment h = elim (Option-cases (parsers.deployment value)) [
    | inl missing ↦ absurd (ground (arith, h, missing))
    | inr (manifest, found) ↦
        let same : verified_deployment manifest ≡ deployment = ground (arith, h, found) in
        (manifest, found, sym (ap (λ (d : VerifiedDeployment). d.account_lock_code.code_hash) same))
  ]

  same_account-some :
      (reported : Option AccountManifest) (m : AccountManifest)
      → same_account ccc parsers page reported (some m) ≡ true
      → (n : AccountManifest) × (reported ≡ some n) × (page.account_text n ≡ page.account_text m)
  unfolding same_account
  same_account-some none m h = absurd (cc h)
  same_account-some (some n) m h =
      (n, refl, text_eq→eq (page.account_text n) (page.account_text m) h)

  passkey_capability_problem-none :
      passkey_capability_problem scope ≡ none
      → (scope.is_secure_context ≡ true)
        × (scope.has_public_key_credential ≡ true)
        × (scope.has_attestation_response ≡ true)
        × (scope.has_get_public_key ≡ true)
  unfolding passkey_capability_problem
  passkey_capability_problem-none h =
      (ground (arith, h), ground (arith, h), ground (arith, h), ground (arith, h))

  checked-IsReady :
      (status s : DemoStatus) (account : Option AccountManifest) (passkey : Option PasskeyRecord)
      (m : AccountManifest) (p : PasskeyRecord)
      → status.deployment_verified ≡ true
      → check_served ccc parsers page status account ≡ ok tt
      → same_account ccc parsers page status.account account ≡ true
      → passkey_capability_problem scope ≡ none
      → (account ≡ some m) × (passkey ≡ some p) × (s ≡ status)
      → IsReady status s account passkey m p
  unfolding check_served
  checked-IsReady status s account passkey m p verified checked unchanged capable
        (served, stored, same_status) =
      let (deployment, e1, h1) =
        >>=-eq-ok (validate_deployment ccc parsers (page.deployment_json status.deployment)) _
          checked in
      let (t, e2, e3) =
        >>=-eq-ok (check_nullable ccc parsers page status.account deployment) _ h1 in
      let (manifest, parsed, code) = validate_deployment-code _ deployment e1 in
      let (reported, told, same) =
        same_account-some status.account m
          (subst (λ x. same_account ccc parsers page status.account x ≡ true) served unchanged) in
      let (secure, credentials, attestation, exports_key) =
        passkey_capability_problem-none capable in
      record {
        served = served;
        stored = stored;
        same_status = same_status;
        verified = verified;
        manifest = manifest;
        deployment = deployment;
        parsed = parsed;
        code = code;
        checked =
            check_nullable-IsChecked m deployment
              (subst (λ x. check_nullable ccc parsers page x deployment ≡ ok tt) served e3);
        reported = reported;
        told = told;
        reported_checked =
            check_nullable-IsChecked reported deployment
              (subst (λ x. check_nullable ccc parsers page x deployment ≡ ok tt) told e2);
        unchanged = same;
        secure = secure;
        credentials = credentials;
        attestation = attestation;
        exports_key = exports_key;
      }

  -- The page lets an account be spent only if the server verified the deployment, the deployment of the
  -- status is valid, the accounts that the status and the second call served are both bound to that
  -- deployment and to their own identities and have the same text, the page is secure and the browser can
  -- create passkeys and export their keys, and the passkey is the stored one.
  pub reconcile-IsReady :
      (status s : DemoStatus) (account : Option AccountManifest) (passkey : Option PasskeyRecord)
      (m : AccountManifest) (p : PasskeyRecord)
      → reconcile ccc parsers page scope status account passkey ≡ ready_to_spend s m p
      → IsReady status s account passkey m p
  unfolding reconcile
  reconcile-IsReady status s account passkey m p h = elim (Bool-cases status.deployment_verified) [
    | inr bad ↦ absurd (ground (arith, h, bad))
    | inl verified ↦ elim (Result-cases (check_served ccc parsers page status account)) [
      | inr (e, bad) ↦ absurd (ground (arith, h, verified, bad))
      | inl (done, checked) ↦
          elim (Bool-cases (same_account ccc parsers page status.account account)) [
            | inr bad ↦ absurd (ground (arith, h, verified, checked, bad))
            | inl unchanged ↦ elim (Option-cases (passkey_capability_problem scope)) [
              | inr (problem, bad) ↦ absurd (ground (arith, h, verified, checked, unchanged, bad))
              | inl capable ↦
                  checked-IsReady status s account passkey m p verified checked unchanged capable (
                    stage_of-ready status s account passkey m p
                      (ground (arith, h, verified, checked, unchanged, capable)))
            ]
          ]
    ]
  ]
