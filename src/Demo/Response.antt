-- ===== src/Demo/Response.antt =====
-- demo/src/server/http.ts: the responses that the server sends.
use ckb_crypto_agile_account.Common.{
  ℕ, Bool, true, List, [], ◌∷◌, if◌then◌else◌, String, Text, codes,
}
use ckb_crypto_agile_account.Failure.{
  ApiErrorCode, bad_origin, invalid_request, key_unavailable, deployment_invalid,
  account_not_created, account_mismatch, insufficient_balance, bootstrap_failed,
  confirmation_timeout, internal_error, ErrorBody,
}
use ckb_crypto_agile_account.Json.{Json, str, obj, end, field}
use ckb_crypto_agile_account.Demo.Constants.{client_origin}

-- A response. Its text is that of the value.
pub record Response : Type 0 where
  pub status : ℕ
  pub headers : List (Text × Text)
  pub value : Json

-- `setJsonHeaders`
unfoldable pub json_headers : Bool → List (Text × Text)
json_headers allow_origin =
    (codes "Content-Type", codes "application/json; charset=utf-8")
    ∷ (codes "Vary", codes "Origin")
    ∷ (codes "Cache-Control", codes "no-store")
    ∷ (codes "X-Content-Type-Options", codes "nosniff")
    ∷ (codes "Content-Security-Policy", codes "default-src 'none'; frame-ancestors 'none'")
    ∷ (if allow_origin then (codes "Access-Control-Allow-Origin", client_origin) ∷ [] else [])

-- `sendJson`
unfoldable pub send_json : ℕ → Json → Bool → Response
send_json status value allow_origin = record {
  status = status;
  headers = json_headers allow_origin;
  value = value;
}

unfoldable pub code_text : ApiErrorCode → Text
code_text bad_origin = codes "BAD_ORIGIN"
code_text invalid_request = codes "INVALID_REQUEST"
code_text key_unavailable = codes "KEY_UNAVAILABLE"
code_text deployment_invalid = codes "DEPLOYMENT_INVALID"
code_text account_not_created = codes "ACCOUNT_NOT_CREATED"
code_text account_mismatch = codes "ACCOUNT_MISMATCH"
code_text insufficient_balance = codes "INSUFFICIENT_BALANCE"
code_text bootstrap_failed = codes "BOOTSTRAP_FAILED"
code_text confirmation_timeout = codes "CONFIRMATION_TIMEOUT"
code_text internal_error = codes "INTERNAL_ERROR"

-- An error body as it is sent.
unfoldable pub error_json : ErrorBody → Json
error_json body = obj (
    field (codes "error")
      (obj (
        field (codes "code") (str (code_text body.code))
          (field (codes "message") (str (codes body.message)) end)))
      end)

abbrev pub invalid : String → Json
invalid message = error_json (record { code = invalid_request; message = message })

-- `methodNotAllowed`
unfoldable pub method_not_allowed : Text → Response
method_not_allowed allowed =
    let sent = send_json 405 (invalid "Method not allowed") true in
    record sent { headers = (codes "Allow", allowed) ∷ sent.headers }
