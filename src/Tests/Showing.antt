-- ===== src/Tests/Showing.antt =====
-- demo/src/client/App.tsx on an account that may be spent.
use ckb_crypto_agile_account.Common.{◌≡◌, refl, subst, true, Option, some, codes}
use ckb_crypto_agile_account.Json.{null}
use ckb_crypto_agile_account.Json.Patterns.{is_hash32, hex_bytes, is_positive_decimal}
use ckb_crypto_agile_account.Deploy.Account.{type_id_script}
use ckb_crypto_agile_account.Demo.Schemas.{
  is_decimal, DeploymentManifest, is_deployment_artifact, is_deployment_manifest, DemoStatus,
  Parsers,
}
use ckb_crypto_agile_account.Demo.Manifests.{validate_deployment, check_account, validate_account}
use ckb_crypto_agile_account.Demo.Passkeys.{passkey_capability_problem}
use ckb_crypto_agile_account.Demo.Wizard.{
  ready_to_spend, Page, same_account, check_nullable, check_served, stage_of, reconcile,
}
use ckb_crypto_agile_account.Demo.Wizard.Ready.{IsReady, reconcile-IsReady}
use ckb_crypto_agile_account.Tests.Sample.{sample_ccc}
use ckb_crypto_agile_account.Tests.Spending.{sample_parsers, sample_deployment, sample_manifest}
use ckb_crypto_agile_account.Tests.Prepared.{sample_passkey}
use ckb_crypto_agile_account.Tests.Browsing.{sample_scope}

sample_deployment_valid : is_deployment_manifest sample_deployment.manifest ≡ true
unfolding is_deployment_manifest is_deployment_artifact is_hash32 hex_bytes is_decimal
    is_positive_decimal
sample_deployment_valid = refl

only_deployment :
    (m : DeploymentManifest)
    → ◌≡◌ {A = Option DeploymentManifest} (some sample_deployment.manifest) (some m)
    → is_deployment_manifest m ≡ true
only_deployment m e =
    let same : sample_deployment.manifest ≡ m = cc e in
    subst (λ x. is_deployment_manifest x ≡ true) same sample_deployment_valid

abbrev deployed_parsers : Parsers
deployed_parsers = record sample_parsers {
  deployment = λ v. some sample_deployment.manifest;
  deployment_valid = λ v m e. only_deployment m e;
}

abbrev sample_page : Page
sample_page = record {
  deployment_json = λ m. null;
  account_json = λ m. null;
  account_text = λ m. m.account_id;
  is_url = λ t. true;
}

abbrev sample_status : DemoStatus
sample_status = record {
  deployment_verified = true;
  deployment = sample_deployment.manifest;
  funder_address = codes "ckt1";
  funder_balance_shannons = codes "1";
  account = some sample_manifest;
}

reconciled :
    reconcile sample_ccc deployed_parsers sample_page sample_scope sample_status
      (some sample_manifest)
      (some sample_passkey)
    ≡ ready_to_spend sample_status sample_manifest sample_passkey
unfolding reconcile check_served check_nullable validate_deployment validate_account check_account
    same_account passkey_capability_problem stage_of type_id_script
reconciled = refl

reconcile-IsReady_example :
    IsReady sample_ccc deployed_parsers sample_page sample_scope sample_status sample_status
      (some sample_manifest)
      (some sample_passkey)
      sample_manifest
      sample_passkey
reconcile-IsReady_example =
    reconcile-IsReady sample_ccc deployed_parsers sample_page sample_scope sample_status
      sample_status (some sample_manifest) (some sample_passkey) sample_manifest sample_passkey
      reconciled
