-- ===== src/Demo/Status.antt =====
-- demo/src/server/service.ts: the operations of the service for requests that come one behind the other.
use ckb_crypto_agile_account.Common.{
  ℕ, true, List, [], ◌∷◌, ◌++◌, if◌then◌else◌, Option, none, some, Text, ok, err, ◌>>=◌,
}
use ckb_crypto_agile_account.Failure.{invalid_request, deployment_invalid, Failure, Throws}
use ckb_crypto_agile_account.Decimal.{decimal}
use ckb_crypto_agile_account.Json.{Json}
use ckb_crypto_agile_account.Ccc.{Ccc}
use ckb_crypto_agile_account.Demo.Schemas.{
  DeploymentManifest, AccountManifest, BootstrapRequest, is_bootstrap_request, DemoStatus, Parsers,
}
use ckb_crypto_agile_account.Demo.Service.{
  ServiceDeps, Service, DemoService, api, parse_account, verify_deployment, bootstrap_once,
}

abbrev pub errors_of : {A : Type 0} → Throws A → List Failure
errors_of (ok a) = []
errors_of (err e) = e ∷ []

-- What `status` makes of the three answers of its `Promise.all`. Of several errors the one that comes
-- first is thrown, as `earliest` tells.
unfoldable pub gather :
    (List Failure → Failure)
    → DeploymentManifest
    → Throws Text
    → Throws ℕ
    → Throws (Option AccountManifest)
    → Throws DemoStatus
gather earliest deployment (ok address) (ok balance) (ok account) = ok (record {
  deployment_verified = true;
  deployment = deployment;
  funder_address = address;
  funder_balance_shannons = decimal balance;
  account = account;
})
gather earliest deployment address balance account =
    err (earliest (errors_of address ++ errors_of balance ++ errors_of account))

module _ {W : Type 0} (ccc : Ccc) (parsers : Parsers) (deps : ServiceDeps W)
    (deployment : DeploymentManifest) (earliest : List Failure → Failure) where
  -- `account`
  unfoldable pub account : W → Throws (Option AccountManifest)
  account w = deps.read_account_manifest w >>= parse_account ccc parsers deps deployment

  -- `status`
  unfoldable pub status : Service W → Throws DemoStatus × Service W
  status s = elim (verify_deployment ccc parsers deps deployment s) [
    | err e ↦ (err e, s)
    | ok done ↦ (
      gather earliest deployment (deps.funder_address s.world) (deps.funder_balance s.world)
          (account s.world),
      record s { verified = true },
    )
  ]

  -- `bootstrap` while no other creation is active.
  unfoldable pub bootstrap : BootstrapRequest → Service W → Throws AccountManifest × Service W
  bootstrap request s =
      if is_bootstrap_request request
      then bootstrap_once ccc parsers deps deployment request s
      else (err (api invalid_request 400 "Invalid account bootstrap request"), s)

  -- The object that `createDemoService` answers.
  unfoldable pub demo_service : DemoService (Service W)
  demo_service = record {
    status = status;
    account = λ s. (account s.world, s);
    bootstrap = bootstrap;
  }

-- `createDemoService` of the value of `deps.deployment`.
unfoldable pub create_demo_service :
    {W : Type 0}
    → Ccc
    → Parsers
    → ServiceDeps W
    → (List Failure → Failure)
    → Json
    → Throws (DemoService (Service W))
create_demo_service ccc parsers deps earliest value = elim (parsers.deployment value) [
  | none ↦ err (api deployment_invalid 500 "Testnet deployment is invalid")
  | some deployment ↦ ok (demo_service ccc parsers deps deployment earliest)
]
