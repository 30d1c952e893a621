-- ===== src/Deploy/Publisher/Ended.antt =====
-- `main` of tools/deploy/src/deploy.ts: how a run ends.
use ckb_crypto_agile_account.Common.{◌≡◌, true, false, List, Option, some, Text, ok, err}
use ckb_crypto_agile_account.Failure.{Failure, Throws}
use ckb_crypto_agile_account.Json.{Json}
use ckb_crypto_agile_account.Ccc.{Ccc}
use ckb_crypto_agile_account.Deploy.Artifacts.{Host}
use ckb_crypto_agile_account.Deploy.Plan.{PlannedCell, DeploymentPlan}
use ckb_crypto_agile_account.Deploy.Manifest.{
  DeployedRecord, Artifacts, lookup, existing_artifacts, DeploymentManifest, manifest_to_json,
}
use ckb_crypto_agile_account.Deploy.Manifest.Laws.{latest}
use ckb_crypto_agile_account.Deploy.Publisher.{Wallet, World, planned}
use ckb_crypto_agile_account.Deploy.Publisher.Verified.{ArePublished}

module _ (ccc : Ccc) (host : Host) (wallet_of : Text → Wallet) (argv : List Text)
    (private_key : Option Text) (w : World) where
  -- A manifest that holds under each name the last record of a published cell, and under the other
  -- names what an earlier manifest held.
  pub record IsRecorded (wallet : Wallet) (cells : List PlannedCell) (m : DeploymentManifest)
      : Type 0 where
    pub existing : Option Json
    pub before : Artifacts
    pub file : w.manifest_file ≡ ok existing
    pub valid : existing_artifacts existing ≡ ok before
    pub records : List DeployedRecord
    pub published : ArePublished ccc wallet cells records
    pub held : (key : Text) → lookup key m.artifacts ≡ latest key records (lookup key before)

  -- How a run ends, and the world behind it.
  pub data Ended : Throws (Unit {0}) × World → Type 0 where
    refused : (e : Failure) → Ended (err e, w)
    dry : (plan : DeploymentPlan) → planned host argv ≡ ok (false, plan) → Ended (ok tt, w)
    stopped :
        (plan : DeploymentPlan) (e : Failure) (after : World)
        → planned host argv ≡ ok (true, plan)
        → after.manifest_file ≡ w.manifest_file
        → Ended (err e, after)
    written :
        (plan : DeploymentPlan) (key : Text) (m : DeploymentManifest) (after : World)
        → planned host argv ≡ ok (true, plan)
        → private_key ≡ some key
        → IsRecorded (wallet_of key) plan.cells m
        → after.manifest_file ≡ ok (some (manifest_to_json m))
        → Ended (ok tt, after)
