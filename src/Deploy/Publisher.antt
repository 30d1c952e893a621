-- ===== src/Deploy/Publisher.antt =====
-- tools/deploy/src/deploy.ts: the command that publishes the code cells. What it prints is left out.
pub mod Verified
pub mod Ended
use ckb_crypto_agile_account.Common.{
  ℕ, ◌≡◌, Bool, true, false, not, List, [], ◌∷◌, Option, none, some, ltb, if◌then◌else◌, Text,
  text_eq, codes, Result, ok, err, ◌>>=◌, ◌>>◌, throw_if,
}
use ckb_crypto_agile_account.Failure.{Failure, Throws, error}
use ckb_crypto_agile_account.Bytes.{nat}
use ckb_crypto_agile_account.Decimal.{decimal}
use ckb_crypto_agile_account.Json.{Json}
use ckb_crypto_agile_account.Ccc.{Ccc, Script, OutPoint, Transaction}
use ckb_crypto_agile_account.Deploy.Artifacts.{Host, secp256k1_lock_args_length}
use ckb_crypto_agile_account.Deploy.Plan.{PlannedCell, DeploymentPlan, build_deployment_plan}
use ckb_crypto_agile_account.Deploy.Args.{DeploymentArgs, parse_deployment_args}
use ckb_crypto_agile_account.Deploy.Manifest.{
  DeployedRecord, DeploymentManifest, build_deployment_manifest, manifest_to_json,
  publish_deployment,
}

abbrev pub fee_rate : ℕ
fee_rate = 1200

-- The wallet of the key and its client. A live cell is its data.
pub record Wallet : Type 0 where
  pub recommended_lock : Throws Script
  pub balance : Throws ℕ
  pub complete_inputs : Transaction → Throws Transaction
  pub complete_fee : Transaction → ℕ → Throws Transaction
  pub send_transaction : Transaction → Throws Text
  pub wait_transaction : Text → Throws (Unit {0})
  pub get_cell_live : OutPoint → Throws (Option Text)

-- deploy/testnet-deployments.json, none where there is no such file and an error where it does not
-- parse, and the transactions that were sent, the last first.
pub record World : Type 0 where
  pub manifest_file : Throws (Option Json)
  pub sent : List Transaction

module _ (ccc : Ccc) (wallet : Wallet) where
  -- The transaction of a code cell.
  unfoldable pub cell_transaction : PlannedCell → Throws Transaction
  cell_transaction cell = do
    lock ← wallet.recommended_lock
    funded ← wallet.complete_inputs (record {
      cell_deps = [];
      inputs = [];
      outputs = record { lock = lock; capacity = cell.capacity_shannons; type_script = none } ∷ [];
      outputs_data = ccc.hex_from cell.artifact.bytes ∷ [];
      witnesses = [];
    })
    wallet.complete_fee funded fee_rate

  -- The hash of the data that was read back.
  unfoldable pub check_published : PlannedCell → Option Text → Throws (Unit {0})
  check_published cell none = err (error "published cell not found after commitment")
  check_published cell (some output_data) = do
    bytes ← ccc.bytes_from output_data
    throw_if (not (text_eq (ccc.hash_ckb bytes) cell.artifact.identity.data_hash))
        (error "on-chain data hash is not the expected one")

  -- What `publishCell` does behind the sending of the transaction.
  unfoldable pub confirm_published : PlannedCell → Text → Throws DeployedRecord
  confirm_published cell tx_hash = do
    wallet.wait_transaction tx_hash
    published ← wallet.get_cell_live (record { tx_hash = tx_hash; index = 0 })
    check_published cell published
    ok (record {
      name = cell.artifact.identity.name;
      data_hash = cell.artifact.identity.data_hash;
      hash_type = codes "data2";
      tx_hash = tx_hash;
      index = nat 0;
      capacity_shannons = decimal cell.capacity_shannons;
    })

  -- `publishCell`
  unfoldable pub publish_cell : PlannedCell → World → Throws DeployedRecord × World
  publish_cell cell w = elim (cell_transaction cell) [
    | err e ↦ (err e, w)
    | ok tx ↦ elim (wallet.send_transaction tx) [
      | err e ↦ (err e, w)
      | ok tx_hash ↦ (confirm_published cell tx_hash, record w { sent = tx ∷ w.sent })
    ]
  ]

-- The plan of a command line, and whether it is to be broadcast.
unfoldable pub planned : Host → List Text → Throws (Bool × DeploymentPlan)
planned host argv = do
  args ← parse_deployment_args argv
  plan ← build_deployment_plan host (nat secp256k1_lock_args_length) args.selection
  ok (args.broadcast, plan)

abbrev pub is_empty : Text → Bool
is_empty [] = true
is_empty (c ∷ t) = false

-- The checks of `main` between the plan and the first transaction, and the manifest to add to. The
-- address that it asks the signer for, to print it, is that of the recommended lock.
unfoldable pub prepared :
    (Text → Wallet) → Option Text → DeploymentPlan → World → Throws (Wallet × DeploymentManifest)
prepared wallet_of private_key plan w = do
  existing ← w.manifest_file
  validated ← build_deployment_manifest existing []
  elim private_key [
    | none ↦ err (error "CKB_PRIVKEY is not set; refusing to broadcast")
    | some key ↦ do
      throw_if (is_empty key) (error "CKB_PRIVKEY is not set; refusing to broadcast")
      lock ← (wallet_of key).recommended_lock
      balance ← (wallet_of key).balance
      throw_if (ltb balance plan.total_capacity_shannons) (error "insufficient balance")
      ok (wallet_of key, validated)
  ]

-- The file that is written when every cell is published.
unfoldable pub write_manifest : Throws DeploymentManifest × World → Throws (Unit {0}) × World
write_manifest (err e, w) = (err e, w)
write_manifest (ok m, w) = (ok tt, record w { manifest_file = ok (some (manifest_to_json m)) })

-- `main`, of the command line and the value of CKB_PRIVKEY
unfoldable pub deploy_main :
    Ccc → Host → (Text → Wallet) → List Text → Option Text → World → Throws (Unit {0}) × World
deploy_main ccc host wallet_of argv private_key w = elim (planned host argv) [
  | err e ↦ (err e, w)
  | ok (broadcast, plan) ↦
      if not broadcast then (ok tt, w) else elim (prepared wallet_of private_key plan w) [
        | err e ↦ (err e, w)
        | ok (wallet, validated) ↦ write_manifest (
            publish_deployment (publish_cell ccc wallet) (some (manifest_to_json validated))
              plan.cells w)
      ]
]
