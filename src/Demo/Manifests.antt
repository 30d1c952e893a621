-- ===== src/Demo/Manifests.antt =====
-- demo/src/shared/manifests.ts: what is checked of a manifest before its scripts are used.
pub mod Laws
use ckb_crypto_agile_account.Common.{
  ℕ, ◌≡◌, Bool, true, false, not, ◌&&◌, ◌||◌, List, [], ◌∷◌, ◌++◌, Option, none, some, ◌==◌, drop,
  Text, text_eq, codes, Result, ok, err, ◌>>=◌, ◌>>◌, throw_if,
}
use ckb_crypto_agile_account.Failure.{Throws, type_error}
use ckb_crypto_agile_account.Json.{Json}
use ckb_crypto_agile_account.Ccc.{Ccc, Script, by_data2, OutPoint, CellDep}
use ckb_crypto_agile_account.Deploy.Account.{type_id_script}
use ckb_crypto_agile_account.Demo.Schemas.{
  DeploymentArtifact, DeploymentManifest, AccountManifest, Parsers,
}

pub record VerifiedDeployment : Type 0 where
  pub manifest : DeploymentManifest
  pub account_lock_code : Script
  pub verifier_p256_code : Script
  pub account_lock_dep : CellDep
  pub verifier_p256_dep : CellDep

pub record VerifiedAccount : Type 0 where
  pub manifest : AccountManifest
  pub deployment : VerifiedDeployment
  pub account_lock : Script
  pub state_type : Script
  pub state_dep : CellDep

-- The code script and the cell dep of an artifact. The schema fixes its hash type to data2.
abbrev pub code_of : DeploymentArtifact → Script
code_of a = record { code_hash = a.data_hash; hash_type = by_data2; args = codes "0x" }

abbrev pub dep_of : DeploymentArtifact → CellDep
dep_of a = record { out_point = record { tx_hash = a.tx_hash; index = a.index } }

abbrev pub verified_deployment : DeploymentManifest → VerifiedDeployment
verified_deployment m = record {
  manifest = m;
  account_lock_code = code_of m.account_lock;
  verifier_p256_code = code_of m.verifier_p256;
  account_lock_dep = dep_of m.account_lock;
  verifier_p256_dep = dep_of m.verifier_p256;
}

-- The scripts that `validateAccount` derives of a manifest.
abbrev pub verified_account : AccountManifest → VerifiedDeployment → VerifiedAccount
verified_account m deployment = record {
  manifest = m;
  deployment = deployment;
  account_lock = record { code_hash = m.code_hash; hash_type = by_data2; args = m.lock_args };
  state_type = type_id_script m.type_id_args;
  state_dep = record { out_point = m.state_out_point };
}

module _ (ccc : Ccc) (parsers : Parsers) where
  -- `validateDeployment`
  unfoldable pub validate_deployment : Json → Throws VerifiedDeployment
  validate_deployment value = elim (parsers.deployment value) [
    | none ↦ err (type_error "Deployment manifest is invalid")
    | some manifest ↦ ok (verified_deployment manifest)
  ]

  -- The checks of `validateAccount` on a manifest that was parsed.
  unfoldable pub check_account : AccountManifest → VerifiedDeployment → Throws VerifiedAccount
  check_account m deployment = do
    throw_if (not (text_eq m.code_hash deployment.account_lock_code.code_hash))
        (type_error "Account manifest does not match the verified deployment")
    throw_if
        (not (m.state_out_point.index == 0)
          || (not (m.asset_out_point.index == 1)
              || not (text_eq m.state_out_point.tx_hash m.asset_out_point.tx_hash)))
        (type_error "Account manifest has invalid bootstrap outpoints")
    throw_if (not (text_eq m.lock_args (codes "0x01" ++ drop 2 m.account_id)))
        (type_error "AccountLock args do not bind the account ID")
    throw_if (not (text_eq (ccc.script_hash (type_id_script m.type_id_args)) m.account_id))
        (type_error "Type ID script hash does not match the account ID")
    ok (verified_account m deployment)

  -- `validateAccount`
  unfoldable pub validate_account : Json → VerifiedDeployment → Throws VerifiedAccount
  validate_account value deployment = elim (parsers.account value) [
    | none ↦ err (type_error "Account manifest is invalid")
    | some manifest ↦ check_account manifest deployment
  ]
