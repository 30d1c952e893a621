-- ===== src/Demo/Service.antt =====
-- demo/src/server/service.ts: the creation of an account on request. The deployment was parsed.
pub mod Guarded
pub mod Verified
pub mod Flight
use ckb_crypto_agile_account.Common.{
  ℕ, ◌+◌, ◌*◌, ◌≡◌, Bool, true, false, not, ◌&&◌, ◌||◌, List, [], ◌∷◌, Option, none, some, ltb, leb,
  ◌==◌, if◌then◌else◌, length, String, Text, text_eq, Result, ok, err, ◌>>=◌, ◌>>◌, throw_if,
}
use ckb_crypto_agile_account.Failure.{
  ApiErrorCode, account_mismatch, deployment_invalid, bootstrap_failed, insufficient_balance,
  confirmation_timeout, ApiError, Failure, api_error, timeout, Throws,
}
use ckb_crypto_agile_account.Bytes.{Bytes, hex_from_bytes}
use ckb_crypto_agile_account.Json.{Json, null}
use ckb_crypto_agile_account.Ccc.{Ccc, OutPoint}
use ckb_crypto_agile_account.Deploy.Account.{to_lower}
use ckb_crypto_agile_account.Demo.Constants.{shannons_per_ckb, initial_asset}
use ckb_crypto_agile_account.Demo.Schemas.{
  DeploymentArtifact, DeploymentManifest, AccountManifest, BootstrapRequest, DemoStatus, Parsers,
}

abbrev pub bootstrap_fee_reserve : ℕ
bootstrap_fee_reserve = shannons_per_ckb

-- `DemoServiceDeps` on the states of a world, which only the export and the bootstrap change. A cell is its data.
pub record ServiceDeps (W : Type 0) : Type 0 where
  pub read_account_manifest : W → Throws Json
  pub get_deployment_cell : OutPoint → W → Throws (Option Text)
  pub get_state_cell : OutPoint → W → Throws (Option Text)
  pub export_state : BootstrapRequest → W → Throws Bytes × W
  pub funder_address : W → Throws Text
  pub funder_balance : W → Throws ℕ
  pub bootstrap : Bytes → W → Throws Json × W

-- The service between its calls: whether a verification of the deployment has succeeded.
pub record Service (W : Type 0) : Type 0 where
  pub verified : Bool
  pub world : W

-- `DemoService`, its calls steps on the states of a world.
pub record DemoService (W : Type 0) : Type 0 where
  pub status : W → Throws DemoStatus × W
  pub account : W → Throws (Option AccountManifest) × W
  pub bootstrap : BootstrapRequest → W → Throws AccountManifest × W

abbrev pub api : ApiErrorCode → ℕ → String → Failure
api code status message =
    api_error (record { code = code; status = status; safe_message = message })

-- An `ApiError` stays, and any other error becomes the one that is given.
unfoldable pub or_api : Failure → Failure → Failure
or_api (api_error e) other = api_error e
or_api _ other = other

-- `accountStateCapacity`
unfoldable pub account_state_capacity : ℕ → ℕ
account_state_capacity state_length =
    (8 + (32 + 1 + 33) + (32 + 1 + 32) + state_length) * shannons_per_ckb

-- What a request leads to, before anything is sent.
pub data Decision : Type 0 where
  reuse : AccountManifest → Decision
  create : Bytes → Decision

abbrev pub invalid_deployment : Failure
invalid_deployment = api deployment_invalid 500 "Published testnet code cells could not be verified"

abbrev pub mismatch : Failure
mismatch = api account_mismatch 409 "Existing account does not match this passkey"

module _ {W : Type 0} (ccc : Ccc) (parsers : Parsers) (deps : ServiceDeps W)
    (deployment : DeploymentManifest) where
  -- `parseAccount` of a value that is not null.
  unfoldable pub parse_some_account : Json → Throws AccountManifest
  parse_some_account value = elim (parsers.account value) [
    | none ↦
        err (api account_mismatch 409 "Recorded account does not match this testnet deployment")
    | some m ↦ do
      throw_if (not (text_eq m.code_hash deployment.account_lock.data_hash))
          (api account_mismatch 409 "Recorded account does not match this testnet deployment")
      ok m
  ]

  -- `parseAccount`
  unfoldable pub parse_account : Json → Throws (Option AccountManifest)
  parse_account null = ok none
  parse_account value = parse_some_account value >>= λ m. ok (some m)

  -- One round of the loop of `verifyDeployment`.
  unfoldable pub check_code_cell : DeploymentArtifact → W → Throws (Unit {0})
  check_code_cell artifact w = do
    answer ←
        deps.get_deployment_cell (record { tx_hash = artifact.tx_hash; index = artifact.index }) w
    elim answer [
      | none ↦ err invalid_deployment
      | some output_data ↦ do
        bytes ← ccc.bytes_from output_data
        throw_if (not (text_eq (ccc.hash_ckb bytes) artifact.data_hash)) invalid_deployment
    ]

  -- `verifyDeployment`: a success is remembered, a failure is not.
  unfoldable pub verify_deployment : Service W → Throws (Unit {0})
  verify_deployment s =
      if s.verified
      then ok tt
      else elim (check_code_cell deployment.account_lock s.world
          >> check_code_cell deployment.verifier_p256 s.world) [
            | err e ↦ err (or_api e invalid_deployment)
            | ok done ↦ ok done
          ]

  -- The answer of the export, its errors hidden.
  unfoldable pub exported : Throws Bytes → Throws Bytes
  exported (err e) = err (or_api e (api bootstrap_failed 500 "Account state export failed"))
  exported (ok state) = ok state

  -- The test of an account that exists.
  unfoldable pub check_existing : AccountManifest → Bytes → Option Text → Throws (Unit {0})
  check_existing m state none = err mismatch
  check_existing m state (some output_data) =
      throw_if
        (not (m.state_bytes == length state)
          || not (text_eq (to_lower output_data) (hex_from_bytes state)))
        mismatch

  -- What follows of the account that is recorded, if any.
  unfoldable pub decide_on : Option AccountManifest → Bytes → W → Throws Decision
  decide_on (some m) state w = do
    live ← deps.get_state_cell m.state_out_point w
    check_existing m state live
    ok (reuse m)
  decide_on none state w = do
    balance ← deps.funder_balance w
    throw_if
        (ltb balance
          (account_state_capacity (length state) + initial_asset + bootstrap_fee_reserve))
        (api insufficient_balance 409 "Backend funder balance is insufficient for account creation")
    ok (create state)

  -- `bootstrapOnce` behind the export and up to the creation.
  unfoldable pub decide : Throws Bytes → W → Throws Decision
  decide answer w = do
    state ← exported answer
    recorded ← deps.read_account_manifest w
    existing ← parse_account recorded
    decide_on existing state w

  -- The errors of a creation, as they are told.
  unfoldable pub creation_error : Failure → Failure
  creation_error timeout =
      api confirmation_timeout 504 "Account transaction was submitted but confirmation timed out"
  creation_error e = or_api e (api bootstrap_failed 500 "Account creation failed")

  -- What the creation answered, parsed.
  unfoldable pub parse_created : Json → Throws AccountManifest
  parse_created value = do
    parsed ← parse_account value
    elim parsed [
      | none ↦ err (api bootstrap_failed 500 "Account creation returned no manifest")
      | some m ↦ ok m
    ]

  unfoldable pub created_answer : Throws Json → Throws AccountManifest
  created_answer answer = elim (answer >>= parse_created) [
    | err e ↦ err (creation_error e)
    | ok m ↦ ok m
  ]

  -- `bootstrapOnce`
  unfoldable pub bootstrap_once : BootstrapRequest → Service W → Throws AccountManifest × Service W
  bootstrap_once request s = elim (verify_deployment s) [
    | err e ↦ (err e, s)
    | ok done ↦
        let export = deps.export_state request s.world in
        let behind : Service W = record { verified = true; world = export.1 } in
        elim (decide export.0 export.1) [
          | err e ↦ (err e, behind)
          | ok (reuse m) ↦ (ok m, behind)
          | ok (create state) ↦
              let (answer, w) = deps.bootstrap state export.1 in
              (created_answer answer, record behind { world = w })
        ]
  ]
