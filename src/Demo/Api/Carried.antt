-- ===== src/Demo/Api/Carried.antt =====
-- demo/src/client/api.ts, demo/vite.config.ts and demo/src/server/http.ts together: a call of the page
-- that the proxy carries to the server and back.
use ckb_crypto_agile_account.Common.{
  ℕ, ◌≤◌, ◌≡◌, refl, ◌∙◌, true, false, List, [], Option, none, some, Text, codes, length, concat,
  leb, Result, ok, err, arith,
}
use ckb_crypto_agile_account.Failure.{
  ApiErrorCode, bad_origin, invalid_request, key_unavailable, deployment_invalid,
  account_not_created, account_mismatch, insufficient_balance, bootstrap_failed,
  confirmation_timeout, internal_error, Failure, ErrorBody, Throws, to_safe_error_body,
}
use ckb_crypto_agile_account.Bytes.{Bytes}
use ckb_crypto_agile_account.Json.{Json}
use ckb_crypto_agile_account.Deploy.Account.{to_lower}
use ckb_crypto_agile_account.Demo.Constants.{client_origin}
use ckb_crypto_agile_account.Demo.Schemas.{Parsers}
use ckb_crypto_agile_account.Demo.Service.{DemoService}
use ckb_crypto_agile_account.Demo.Response.{
  Response, send_json, json_headers, error_json, code_text,
}
use ckb_crypto_agile_account.Demo.Http.{
  required_host, Request, Platform, is_local, url_of, status_of, answered, respond, route,
  handle_request, serve,
}
use ckb_crypto_agile_account.Demo.Api.{
  told, DemoApiError, code_of, told_error, parse_error, parse_error_body, RequestOptions,
  HttpResponse, Fetcher, get_header, is_success, is_json_typed, read_value, read_response,
  options_of, request_json,
}

-- How the connection cuts a body into chunks, and the length that it declares.
pub record Wire : Type 0 where
  pub chunks : Bytes → List Bytes
  pub concat-chunks : (body : Bytes) → concat (chunks body) ≡ body
  pub content_length : Bytes → Text

-- The body of a call, on the wire.
unfoldable pub body_of : Wire → Option Bytes → List Bytes
body_of wire none = []
body_of wire (some body) = wire.chunks body

-- The request that the proxy makes of a call: it sets the host and the origin.
unfoldable pub request_of : Wire → Text → RequestOptions → Request
request_of wire path options = record {
  method = options.method;
  url = some path;
  host = some required_host;
  origin = some client_origin;
  content_type = get_header (codes "content-type") options.headers;
  content_length = elim options.body [ none ↦ none | some body ↦ some (wire.content_length body) ];
  body = record { chunks = body_of wire options.body; failed = none };
}

unfoldable pub arrived : Response → HttpResponse
arrived r = record { status = r.status; headers = r.headers; json = some r.value }

code_of-code_text : (code : ApiErrorCode) → code_of (code_text code) ≡ some code
unfolding code_of code_text
code_of-code_text bad_origin = refl
code_of-code_text invalid_request = refl
code_of-code_text key_unavailable = refl
code_of-code_text deployment_invalid = refl
code_of-code_text account_not_created = refl
code_of-code_text account_mismatch = refl
code_of-code_text insufficient_balance = refl
code_of-code_text bootstrap_failed = refl
code_of-code_text confirmation_timeout = refl
code_of-code_text internal_error = refl

-- An error body that is sent is read back, when its message is not too long.
parse_error_body-error_json :
    (body : ErrorBody)
    → length (codes body.message) ≤ 240
    → parse_error_body (error_json body)
      ≡ some (record { code = body.code; message = codes body.message })
unfolding parse_error_body error_json parse_error told_error
parse_error_body-error_json body h =
    let short : leb (length (codes body.message)) 240 ≡ true = ground arith in
    rw (told_error, code_of-code_text body.code, short)

-- What the page is told of a call of the service.
unfoldable pub page_answer : {A : Type 0} → Throws A → Result DemoApiError A
page_answer (ok a) = ok a
page_answer (err e) = err (record {
  code = told (to_safe_error_body e).code;
  message = codes (to_safe_error_body e).message;
  status = some (status_of e);
})

-- An error that the page can be told: its status is none of success, and its message is not too long.
pub record IsTellable (e : Failure) : Type 0 where
  pub failing : is_success (status_of e) ≡ false
  pub short : length (codes (to_safe_error_body e).message) ≤ 240

typed : (status : ℕ) (value : Json) → is_json_typed (arrived (send_json status value true)) ≡ true
unfolding is_json_typed arrived send_json json_headers get_header to_lower
typed status value = refl

module _ (platform : Platform) (parsers : Parsers) where
  -- What the page reads of an answer of the service.
  read_answer :
      {A W : Type 0} (encode : A → Json) (schema : Json → Option A) (call : Throws A × W)
      → ((a : A) → call.0 ≡ ok a → schema (encode a) ≡ some a)
      → ((e : Failure) → call.0 ≡ err e → IsTellable e)
      → read_response schema (ok (arrived (respond (answered platform parsers encode call)).0))
        ≡ page_answer call.0
  unfolding read_response respond answered page_answer read_value arrived to_safe_error_body
      status_of send_json
  read_answer encode schema (ok a, w) back tellable =
      rw (typed 200 (encode a), read_value, back a refl)
  read_answer encode schema (err e, w) back tellable =
      let is = tellable e refl in
      rw (
        typed (status_of e) (error_json (to_safe_error_body e)),
        read_value,
        is.failing,
        parse_error_body-error_json (to_safe_error_body e) is.short,
      )

  module _ {W : Type 0} (service : DemoService W) (wire : Wire) where
    -- `fetch`, carried by the proxy to the server. It never fails.
    unfoldable pub through_proxy : Fetcher W
    through_proxy path options w =
        let (response, after) = serve platform parsers service (request_of wire path options) w in
        (ok (arrived response), after)

    local :
        (path : Text) (options : RequestOptions) → is_local (request_of wire path options) ≡ true
    unfolding is_local request_of
    local path options = refl

    after-answered :
        {A : Type 0} (encode : A → Json) (call : Throws A × W)
        → (respond (answered platform parsers encode call)).1 ≡ call.1
    unfolding respond answered
    after-answered encode (ok a, w) = refl
    after-answered encode (err e, w) = refl

    handled :
        (path : Text) (options : RequestOptions) (w : W)
        → platform.pathname path ≡ ok path
        → handle_request platform parsers service (request_of wire path options) w
          ≡ route platform parsers service path (request_of wire path options) w
    unfolding handle_request request_of url_of
    handled path options w at = rw (local path options, at)

    pub carried :
        {A : Type 0} (path method : Text) (body : Option Bytes) (encode : A → Json)
        (schema : Json → Option A) (w : W) (call : Throws A × W)
        → platform.pathname path ≡ ok path
        → route platform parsers service path (request_of wire path (options_of method body)) w
          ≡ answered platform parsers encode call
        → ((a : A) → call.0 ≡ ok a → schema (encode a) ≡ some a)
        → ((e : Failure) → call.0 ≡ err e → IsTellable e)
        → request_json through_proxy path method body schema w ≡ (page_answer call.0, call.1)
    unfolding request_json through_proxy serve
    carried path method body encode schema w call at routed back tellable =
        let request = request_of wire path (options_of method body) in
        let e : handle_request platform parsers service request w
            ≡ answered platform parsers encode call =
          handled path (options_of method body) w at ∙ routed in
        rw (e, read_answer encode schema call back tellable, after-answered encode call)
