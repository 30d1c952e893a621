-- ===== src/Demo/Server/Kept.antt =====
-- demo/src/server/index.ts: what requests to create an account do to the files and to the chain.
use ckb_crypto_agile_account.Common.{
  ◌≡◌, ◌≢◌, refl, ap, ◌∙◌, List, [], ◌∷◌, some, length, ok, err, arith,
}
use ckb_crypto_agile_account.Failure.{Throws}
use ckb_crypto_agile_account.Bytes.{Bytes}
use ckb_crypto_agile_account.Ccc.{Ccc}
use ckb_crypto_agile_account.Deploy.Bootstrap.{
  BootstrapOptions, validate_options, AccountManifest, World, Network, bootstrap_account,
}
use ckb_crypto_agile_account.Deploy.Bootstrap.Options.{validate_options_iff}
use ckb_crypto_agile_account.Deploy.Bootstrap.Sent
use ckb_crypto_agile_account.Demo.Constants.{initial_asset}
use ckb_crypto_agile_account.Demo.Schemas
use ckb_crypto_agile_account.Demo.Schemas.{BootstrapRequest, Parsers, DeploymentManifest}
use ckb_crypto_agile_account.Demo.Service.{Service, account_state_capacity, bootstrap_once}
use ckb_crypto_agile_account.Demo.Service.Guarded.{
  Run, unverified, refused, reused, attempted, bootstrap_once-Run,
}
use ckb_crypto_agile_account.Demo.Server.{
  Outside, ServerWorld, export_state, bootstrap, creation_options, as_json, server_deps,
}
use ckb_crypto_agile_account.Protocol.{Ckb}
use ckb_crypto_agile_account.Demo.Exporter.{ExporterDeps, Platform}

-- What the server reserves of the funder's balance before it creates an account is, beside the fee, what
-- the creation then takes: for a state that is not empty the options of the creation are accepted, with
-- the capacity of the state that the service computes and an asset of the initial amount.
pub validate_options-creation_options :
    (state : Bytes)
    → state ≢ []
    → validate_options (creation_options state)
      ≡ ok (record {
        state_capacity = account_state_capacity (length state);
        asset_capacity = initial_asset;
      })
unfolding account_state_capacity
validate_options-creation_options [] h = absurd (h refl)
validate_options-creation_options (b ∷ state) h =
    (validate_options_iff (creation_options (b ∷ state)) _).1 (record {
      ckb = 200;
      stored = omega arith;
      whole = refl;
      least = omega arith;
      state_capacity = omega arith;
      asset_capacity = refl;
    })

as_json-world :
    (outside : Outside) (call : Throws AccountManifest × World) → (as_json outside call).1 ≡ call.1
unfolding as_json
as_json-world outside (ok m, w) = refl
as_json-world outside (err e, w) = refl

module _ (ccc : Ccc) (ckb : Ckb) (platform : Platform) {T : Type 0} (exporter : ExporterDeps T)
    (network : Network) (outside : Outside) (parsers : Parsers)
    (deployment : DeploymentManifest) where
  -- An account on file keeps `bootstrapAccount` from doing anything.
  Outcome-kept :
      (options : BootstrapOptions) (w : World) (m : AccountManifest)
      (end : Throws AccountManifest × World)
      → w.account_file ≡ some m
      → Sent.Outcome ccc network options w end
      → end.1 ≡ w
  Outcome-kept options w m end filed (Sent.refused e) = refl
  Outcome-kept options w m end filed (Sent.unconfirmed e c tx_hash ready sent failed) =
      absurd (cc (filed, ready.fresh))
  Outcome-kept options w m end filed (Sent.created c tx_hash ready sent waited) =
      absurd (cc (filed, ready.fresh))

  Run-kept :
      (request : BootstrapRequest) (s : Service (ServerWorld T)) (m : AccountManifest)
      (end : Throws Schemas.AccountManifest × Service (ServerWorld T))
      → s.world.deployed.account_file ≡ some m
      → Run ccc parsers
          (server_deps ccc ckb platform exporter network outside)
          deployment
          request
          s
          end
      → end.1.world.deployed ≡ s.world.deployed
  unfolding server_deps export_state bootstrap
  Run-kept request s m end filed (unverified e) = refl
  Run-kept request s m end filed (refused e) = refl
  Run-kept request s m end filed (reused a verified is) = refl
  Run-kept request s m end filed (attempted state verified is) =
      as_json-world outside
        (bootstrap_account ccc network (creation_options state) s.world.deployed)
      ∙ Outcome-kept (creation_options state) s.world.deployed m
          (bootstrap_account ccc network (creation_options state) s.world.deployed) filed
          (Sent.bootstrap_account-Outcome ccc network (creation_options state) s.world.deployed)

  -- The service behind requests that are served one behind the other.
  unfoldable pub bootstrap_all :
      List BootstrapRequest → Service (ServerWorld T) → Service (ServerWorld T)
  bootstrap_all [] s = s
  bootstrap_all (request ∷ requests) s =
      bootstrap_all requests
        (bootstrap_once ccc parsers (server_deps ccc ckb platform exporter network outside)
          deployment request s).1

  -- Once the manifest of an account is on file, no requests, however many and of whatever keys, send a
  -- transaction or change one of the two files of deploy/, the manifest of the account and that of the
  -- deployments; what they do to temporary files is not said.
  pub bootstrap_all-kept :
      (requests : List BootstrapRequest) (s : Service (ServerWorld T)) (m : AccountManifest)
      → s.world.deployed.account_file ≡ some m
      → (bootstrap_all requests s).world.deployed ≡ s.world.deployed
  unfolding bootstrap_all
  bootstrap_all-kept [] s m filed = refl
  bootstrap_all-kept (request ∷ requests) s m filed =
      let end =
        bootstrap_once ccc parsers (server_deps ccc ckb platform exporter network outside)
          deployment request s in
      let once : end.1.world.deployed ≡ s.world.deployed = Run-kept request s m end filed (
        bootstrap_once-Run ccc parsers (server_deps ccc ckb platform exporter network outside)
          deployment request s) in
      bootstrap_all-kept requests end.1 m (ap (λ (w : World). w.account_file) once ∙ filed) ∙ once
