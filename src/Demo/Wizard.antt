-- ===== src/Demo/Wizard.antt =====
-- demo/src/client/App.tsx: the stage that the page shows for what the server, the storage and a receipt
-- say.
pub mod Ready
use ckb_crypto_agile_account.Common.{
  Bool, true, false, not, ◌&&◌, Option, none, some, String, Text, text_eq, if◌then◌else◌, Result,
  ok, err, ◌>>=◌, ◌>>◌,
}
use ckb_crypto_agile_account.Failure.{Throws}
use ckb_crypto_agile_account.Json.{Json}
use ckb_crypto_agile_account.Json.Patterns.{is_hash32}
use ckb_crypto_agile_account.Ccc.{Ccc}
use ckb_crypto_agile_account.Demo.Schemas.{
  is_decimal, DeploymentManifest, AccountManifest, DemoStatus, PasskeyRecord, Parsers,
}
use ckb_crypto_agile_account.Demo.Manifests.{
  VerifiedDeployment, validate_deployment, validate_account,
}
use ckb_crypto_agile_account.Demo.Passkeys.{Scope, passkey_capability_problem}

pub data ReceiptStatus : Type 0 where
  submitted_status committed_status timeout_status : ReceiptStatus

pub record TransactionReceipt : Type 0 where
  pub status : ReceiptStatus
  pub tx_hash : Text
  pub explorer_url : Text
  pub remaining_capacity_shannons : Text

pub data WizardState : Type 0 where
  loading : WizardState
  needs_passkey : DemoStatus → WizardState
  needs_account : DemoStatus → PasskeyRecord → WizardState
  ready_to_spend : DemoStatus → AccountManifest → PasskeyRecord → WizardState
  submitted committed : DemoStatus → TransactionReceipt → WizardState
  blocked : Option DemoStatus → String → String → WizardState

-- What the page takes of its platform: values as they came from the server, `JSON.stringify` of an
-- account, and the schema's test of a URL.
pub record Page : Type 0 where
  pub deployment_json : DeploymentManifest → Json
  pub account_json : AccountManifest → Json
  pub account_text : AccountManifest → Text
  pub is_url : Text → Bool

module _ (ccc : Ccc) (parsers : Parsers) (page : Page) where
  -- `sameAccount`
  unfoldable pub same_account : Option AccountManifest → Option AccountManifest → Bool
  same_account none none = true
  same_account none (some m) = false
  same_account (some m) none = false
  same_account (some m) (some n) = text_eq (page.account_text m) (page.account_text n)

  -- `if (account !== null) validateAccount(account, deployment)`
  unfoldable pub check_nullable : Option AccountManifest → VerifiedDeployment → Throws (Unit {0})
  check_nullable none deployment = ok tt
  check_nullable (some m) deployment =
      validate_account ccc parsers (page.account_json m) deployment >>= λ verified. ok tt

  -- The `try` of `reconcile`.
  unfoldable pub check_served : DemoStatus → Option AccountManifest → Throws (Unit {0})
  check_served status account = do
    deployment ← validate_deployment ccc parsers (page.deployment_json status.deployment)
    check_nullable status.account deployment
    check_nullable account deployment

  -- The end of `reconcile`, with an account and a passkey that may be missing.
  unfoldable pub stage_of : DemoStatus → Option AccountManifest → Option PasskeyRecord → WizardState
  stage_of status (some m) none =
      blocked (some status) "Account access is blocked"
        "An account exists on testnet, but local passkey metadata is missing. Use the browser profile that created this account; do not create a replacement."
  stage_of status none none = needs_passkey status
  stage_of status none (some passkey) = needs_account status passkey
  stage_of status (some m) (some passkey) = ready_to_spend status m passkey

  -- `reconcile`
  unfoldable pub reconcile :
      Scope → DemoStatus → Option AccountManifest → Option PasskeyRecord → WizardState
  reconcile scope status account passkey =
      if not status.deployment_verified
      then blocked (some status) "Local setup is blocked"
          "The published AccountLock deployment has not been verified."
      else elim (check_served status account) [
        | err e ↦
            blocked (some status) "Local setup is blocked"
              "The server returned account data that does not match the verified deployment."
        | ok done ↦
            if not (same_account status.account account)
            then blocked (some status) "Account access is blocked"
                "The server account state changed between checks. Restart the local demo and inspect the account manifest before continuing."
            else elim (passkey_capability_problem scope) [
              | some problem ↦ blocked (some status) "Passkeys are unavailable" problem
              | none ↦ stage_of status account passkey
            ]
      ]

  -- `TransactionReceiptSchema`
  unfoldable pub is_receipt : TransactionReceipt → Bool
  is_receipt r =
      is_hash32 r.tx_hash
      && (page.is_url r.explorer_url && is_decimal r.remaining_capacity_shannons)

  abbrev pub receipt_stage : DemoStatus → TransactionReceipt → ReceiptStatus → WizardState
  receipt_stage status r committed_status = committed status r
  receipt_stage status r _ = submitted status r

  -- `"status" in state ? state.status : undefined`
  abbrev pub status_in : WizardState → Option DemoStatus
  status_in loading = none
  status_in (needs_passkey s) = some s
  status_in (needs_account s p) = some s
  status_in (ready_to_spend s m p) = some s
  status_in (submitted s r) = some s
  status_in (committed s r) = some s
  status_in (blocked s heading message) = s

  -- `withReceipt` of a receipt that is there.
  unfoldable pub with_some_receipt : WizardState → TransactionReceipt → WizardState
  with_some_receipt loading r = loading
  with_some_receipt (blocked s heading message) r = blocked s heading message
  with_some_receipt (ready_to_spend s m p) r =
      if is_receipt r
      then receipt_stage s r r.status
      else blocked (some s) "Receipt cannot be reconciled"
          "The stored transaction receipt is malformed."
  with_some_receipt state r =
      blocked (status_in state) "Receipt cannot be reconciled"
        "The transaction receipt does not match the current local account state."

  -- `withReceipt`
  unfoldable pub with_receipt : WizardState → Option TransactionReceipt → WizardState
  with_receipt state none = state
  with_receipt state (some r) = with_some_receipt state r
