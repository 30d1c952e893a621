-- ===== src/Failure.antt =====
-- demo/src/server/errors.ts and the JavaScript errors that the other files throw: one constructor
-- for each class of error, with the message that it carries.
use ckb_crypto_agile_account.Common.{String, ℕ, Result}

-- The codes that demo/src/shared/schemas.ts lists for an error body.
pub data ApiErrorCode : Type 0 where
  bad_origin invalid_request key_unavailable deployment_invalid account_not_created : ApiErrorCode
  account_mismatch insufficient_balance bootstrap_failed confirmation_timeout : ApiErrorCode
  internal_error : ApiErrorCode

pub record ApiError : Type 0 where
  pub code : ApiErrorCode
  pub status : ℕ
  pub safe_message : String

-- `timeout` is an error named ErrorClientWaitTransactionTimeout, `not_allowed` a DOMException named
-- NotAllowedError, and `foreign` any other value that a library or a callback throws.
pub data Failure : Type 0 where
  type_error : String → Failure
  range_error : String → Failure
  error : String → Failure
  api_error : ApiError → Failure
  timeout not_allowed passkey_cancelled : Failure
  passkey_protocol : String → Failure
  foreign : String → Failure

abbrev pub Throws : Type 0 → Type 0
Throws A = Result Failure A

pub record ErrorBody : Type 0 where
  pub code : ApiErrorCode
  pub message : String

-- `toSafeErrorBody`: what a client is told of an error.
unfoldable pub to_safe_error_body : Failure → ErrorBody
to_safe_error_body (api_error e) = record { code = e.code; message = e.safe_message }
to_safe_error_body _ = record { code = internal_error; message = "Unexpected local server error" }
