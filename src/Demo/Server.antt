-- ===== src/Demo/Server.antt =====
-- demo/src/server/index.ts: the service over the funder's wallet, the exporter and the creation of an
-- account by tools/deploy.
pub mod Kept
use ckb_crypto_agile_account.Common.{
  ℕ, ◌+◌, ◌*◌, ◌/◌, ◌≤◌, ◌≡◌, refl, sym, ap, ◌∙◌, subst, true, List, [], ◌∷◌, Option, none, some,
  length, Text, Result, ok, err, inl, inr, Result-cases, arith,
}
use ckb_crypto_agile_account.Failure.{Failure, Throws}
use ckb_crypto_agile_account.Bytes.{Bytes, ℤ, pos}
use ckb_crypto_agile_account.Json.{Json, null}
use ckb_crypto_agile_account.Ccc.{Ccc, OutPoint}
use ckb_crypto_agile_account.Deploy.Bootstrap.{
  BootstrapOptions, Capacities, validate_options, AccountManifest, World, Network,
  bootstrap_account,
}
use ckb_crypto_agile_account.Deploy.Bootstrap.Options.{IsFunded, validate_options_iff}
use ckb_crypto_agile_account.Deploy.Bootstrap.Sent.{
  IsReady, Outcome, refused, unconfirmed, created, bootstrap_account-Outcome,
}
use ckb_crypto_agile_account.Protocol.{Ckb}
use ckb_crypto_agile_account.Demo.Exporter.{ExporterDeps, Platform, export_account_state}
use ckb_crypto_agile_account.Demo.Constants.{shannons_per_ckb, initial_asset}
use ckb_crypto_agile_account.Demo.Schemas.{BootstrapRequest, Parsers, DeploymentManifest}
use ckb_crypto_agile_account.Demo.Service.{
  ServiceDeps, Service, account_state_capacity, bootstrap_fee_reserve, bootstrap_once,
}
use ckb_crypto_agile_account.Demo.Service.Guarded.{
  Run, unverified, refused, reused, attempted, bootstrap_once-Run,
}

-- What the server reaches beside its files: live cells by their data, and the funder's wallet.
pub record Outside : Type 0 where
  pub cell_data : OutPoint → Throws (Option Text)
  pub funder_address : Throws Text
  pub funder_balance : Throws ℕ
  pub manifest_json : AccountManifest → Json

-- `readJsonOrNull` of deploy/testnet-account.json
unfoldable pub account_json : Outside → Option AccountManifest → Json
account_json outside none = null
account_json outside (some m) = outside.manifest_json m

abbrev pub creation_options : Bytes → BootstrapOptions
creation_options state = record {
  state_data = state;
  asset_capacity_ckb = pos (initial_asset / shannons_per_ckb);
}

-- The answer of `deps.bootstrap` as a value of JSON.
unfoldable pub as_json : Outside → Throws AccountManifest × World → Throws Json × World
as_json outside (ok m, w) = (ok (outside.manifest_json m), w)
as_json outside (err e, w) = (err e, w)

-- The files of deploy/ with the chain, and the files and processes that the exporter works on.
pub record ServerWorld (T : Type 0) : Type 0 where
  pub deployed : World
  pub exporting : T

module _ (ccc : Ccc) (ckb : Ckb) (platform : Platform) {T : Type 0} (exporter : ExporterDeps T)
    (network : Network) (outside : Outside) where
  -- `deps.exportState`
  unfoldable pub export_state : BootstrapRequest → ServerWorld T → Throws Bytes × ServerWorld T
  export_state request w =
      let (answer, after) = export_account_state ckb platform exporter request w.exporting in
      (answer, record w { exporting = after })

  -- `deps.bootstrap`
  unfoldable pub bootstrap : Bytes → ServerWorld T → Throws Json × ServerWorld T
  bootstrap state w =
      let (answer, after) =
        as_json outside (bootstrap_account ccc network (creation_options state) w.deployed) in
      (answer, record w { deployed = after })

  -- The dependencies that `main` hands to `createDemoService`.
  unfoldable pub server_deps : ServiceDeps (ServerWorld T)
  server_deps = record {
    read_account_manifest = λ w. ok (account_json outside w.deployed.account_file);
    get_deployment_cell = λ place w. outside.cell_data place;
    get_state_cell = λ place w. outside.cell_data place;
    export_state = export_state;
    funder_address = λ w. outside.funder_address;
    funder_balance = λ w. outside.funder_balance;
    bootstrap = bootstrap;
  }
