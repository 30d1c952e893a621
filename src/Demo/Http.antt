-- ===== src/Demo/Http.antt =====
-- demo/src/server/http.ts: one request to the local server and the response to it.
pub mod Posted
pub mod Served
use ckb_crypto_agile_account.Common.{
  ℕ, ◌+◌, ◌*◌, ◌≡◌, Bool, true, false, not, ◌&&◌, ◌||◌, List, [], ◌∷◌, ◌++◌, Option, none, some,
  ltb, leb, ◌==◌, if◌then◌else◌, length, String, Text, text_eq, codes, Result, ok, err, ◌>>=◌, ◌>>◌,
  throw_if,
}
use ckb_crypto_agile_account.Failure.{
  bad_origin, invalid_request, Failure, api_error, Throws, to_safe_error_body,
}
use ckb_crypto_agile_account.Bytes.{Bytes}
use ckb_crypto_agile_account.Json.{Json, null}
use ckb_crypto_agile_account.Demo.Constants.{client_origin}
use ckb_crypto_agile_account.Demo.Schemas.{AccountManifest, BootstrapRequest, DemoStatus, Parsers}
use ckb_crypto_agile_account.Demo.Service.{DemoService, api}
use ckb_crypto_agile_account.Demo.Response.{
  Response, send_json, error_json, invalid, method_not_allowed,
}

abbrev pub required_host : Text
required_host = codes "127.0.0.1:8790"

abbrev pub body_limit : ℕ
body_limit = 16 * 1024

-- The data events of a request, then its end, or the error that comes instead.
pub record IncomingBody : Type 0 where
  pub chunks : List Bytes
  pub failed : Option Failure

-- A request, with the headers that the server reads.
pub record Request : Type 0 where
  pub method : Text
  pub url : Option Text
  pub host : Option Text
  pub origin : Option Text
  pub content_type : Option Text
  pub content_length : Option Text
  pub body : IncomingBody

-- What the server uses of its platform: the path of `new URL`, `Number` of a text, rounded up and none
-- where it is not finite, `JSON.parse` of a text in UTF-8, and `JSON.stringify` of what is sent.
pub record Platform : Type 0 where
  pub pathname : Text → Throws Text
  pub number : Text → Option ℕ
  pub parse_json : Bytes → Option Json
  pub status_json : DemoStatus → Json
  pub account_json : AccountManifest → Json

abbrev pub too_large : Failure
too_large = api invalid_request 413 "Request body is too large"

-- The handler of the data events of `readBody`, behind `so_far` bytes.
unfoldable pub read_chunks : ℕ → List Bytes → Throws Bytes
read_chunks so_far [] = ok []
read_chunks so_far (chunk ∷ chunks) = do
  throw_if (ltb body_limit (so_far + length chunk)) too_large
  rest ← read_chunks (so_far + length chunk) chunks
  ok (chunk ++ rest)

-- `readBody`
unfoldable pub read_body : IncomingBody → Throws Bytes
read_body body = do
  bytes ← read_chunks 0 body.chunks
  elim body.failed [ none ↦ ok bytes | some e ↦ err e ]

-- `split(";", 1)[0]`
unfoldable pub before_semicolon : Text → Text
before_semicolon [] = []
before_semicolon (c ∷ t) = let rest = before_semicolon t in if c == b';' then [] else c ∷ rest

-- The white space among the characters of a header.
unfoldable pub is_space : ℕ → Bool
is_space c = leb 9 c && leb c 13 || (c == 32 || c == 160)

unfoldable pub trim_start : Text → Text
trim_start [] = []
trim_start (c ∷ t) = let rest = trim_start t in if is_space c then rest else c ∷ t

unfoldable pub trim_end : Text → Text
trim_end [] = []
trim_end (c ∷ t) = elim (trim_end t) [
  | [] ↦ if is_space c then [] else c ∷ []
  | d ∷ rest ↦ c ∷ d ∷ rest
]

abbrev pub or_empty : Option Text → Text
or_empty none = []
or_empty (some t) = t

unfoldable pub is_json_content : Option Text → Bool
is_json_content content_type =
    text_eq (trim_end (trim_start (before_semicolon (or_empty content_type))))
      (codes "application/json")

abbrev pub header_is : Option Text → Text → Bool
header_is none expected = false
header_is (some value) expected = text_eq value expected

unfoldable pub is_local : Request → Bool
is_local request = header_is request.host required_host && header_is request.origin client_origin

-- `request.url ?? "/"`
unfoldable pub url_of : Request → Text
url_of request = elim request.url [ none ↦ codes "/" | some url ↦ url ]

-- `error instanceof ApiError ? error.status : 500`
unfoldable pub status_of : Failure → ℕ
status_of (api_error e) = e.status
status_of _ = 500

-- The `catch` of the listener of `createHttpServer`: what is thrown is told in a safe body.
unfoldable pub respond : {W : Type 0} → Throws Response × W → Response × W
respond (ok response, w) = (response, w)
respond (err e, w) = (send_json (status_of e) (error_json (to_safe_error_body e)) true, w)

module _ (platform : Platform) (parsers : Parsers) where
  -- `Number.isFinite(contentLength) && contentLength > BODY_LIMIT`
  unfoldable pub is_declared_large : Option Text → Bool
  is_declared_large none = false
  is_declared_large (some t) = elim (platform.number t) [ none ↦ false | some n ↦ ltb body_limit n ]

  -- The `try` around `JSON.parse`.
  unfoldable pub json_of : Throws Bytes → Throws Json
  json_of (err (api_error e)) = err (api_error e)
  json_of (err _) = err (api invalid_request 400 "Request body must be valid JSON")
  json_of (ok body) = elim (platform.parse_json body) [
    | none ↦ err (api invalid_request 400 "Request body must be valid JSON")
    | some value ↦ ok value
  ]

  -- The request that is read before the service is called.
  unfoldable pub bootstrap_request_of : Request → Throws BootstrapRequest
  bootstrap_request_of request = do
    throw_if (not (is_json_content request.content_type))
        (api invalid_request 415 "Content-Type must be application/json")
    throw_if (is_declared_large request.content_length) too_large
    value ← json_of (read_body request.body)
    elim (parsers.bootstrap_request value) [
      | none ↦ err (api invalid_request 400 "Invalid account bootstrap request")
      | some parsed ↦ ok parsed
    ]

  unfoldable pub nullable_json : Option AccountManifest → Json
  nullable_json none = null
  nullable_json (some m) = platform.account_json m

  -- `sendJson(response, 200, ...)` of what the service answered.
  unfoldable pub answered : {A W : Type 0} → (A → Json) → Throws A × W → Throws Response × W
  answered encode (ok a, w) = (ok (send_json 200 (encode a) true), w)
  answered encode (err e, w) = (err e, w)

  module _ {W : Type 0} (service : DemoService W) where
    -- `handleRequest` behind its test of host and origin, for the path of the request.
    unfoldable pub route : Text → Request → W → Throws Response × W
    route path request w =
        if text_eq path (codes "/api/status")
        then (if not (text_eq request.method (codes "GET"))
            then (ok (method_not_allowed (codes "GET")), w)
            else answered platform.status_json (service.status w))
        else (if text_eq path (codes "/api/account")
            then (if not (text_eq request.method (codes "GET"))
                then (ok (method_not_allowed (codes "GET")), w)
                else answered nullable_json (service.account w))
            else (if text_eq path (codes "/api/account/bootstrap")
                then (if not (text_eq request.method (codes "POST"))
                    then (ok (method_not_allowed (codes "POST")), w)
                    else elim (bootstrap_request_of request) [
                      | err e ↦ (err e, w)
                      | ok parsed ↦ answered platform.account_json (service.bootstrap parsed w)
                    ])
                else (ok (send_json 404 (invalid "Route not found") true), w)))

    -- `handleRequest`
    unfoldable pub handle_request : Request → W → Throws Response × W
    handle_request request w =
        if not (is_local request)
        then (
          ok (
              send_json 403
                (error_json
                  (record { code = bad_origin; message = "Request must come from the local demo" }))
                false),
          w,
        )
        else elim (platform.pathname (url_of request)) [
          | err e ↦ (err e, w)
          | ok path ↦ route path request w
        ]

    -- The listener of `createHttpServer`
    unfoldable pub serve : Request → W → Response × W
    serve request w = respond (handle_request request w)
