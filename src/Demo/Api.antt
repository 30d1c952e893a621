-- ===== src/Demo/Api.antt =====
-- demo/src/client/api.ts: the calls of the local server by the page. A response that cannot be had or
-- read becomes an error of a kind of its own.
pub mod Carried
pub mod Refined
use ckb_crypto_agile_account.Common.{
  ℕ, ◌≡◌, Bool, true, false, not, ◌&&◌, List, [], ◌∷◌, Option, none, some, ltb, leb, if◌then◌else◌,
  length, String, Text, text_eq, codes, Result, ok, err,
}
use ckb_crypto_agile_account.Failure.{
  ApiErrorCode, bad_origin, invalid_request, key_unavailable, deployment_invalid,
  account_not_created, account_mismatch, insufficient_balance, bootstrap_failed,
  confirmation_timeout, internal_error, Throws,
}
use ckb_crypto_agile_account.Bytes.{Bytes}
use ckb_crypto_agile_account.Json.{Json, null, str, obj, end, field}
use ckb_crypto_agile_account.Deploy.Account.{to_lower}
use ckb_crypto_agile_account.Demo.Schemas.{AccountManifest, BootstrapRequest, DemoStatus, Parsers}

pub data DemoApiErrorCode : Type 0 where
  told : ApiErrorCode → DemoApiErrorCode
  api_unavailable invalid_response : DemoApiErrorCode

pub record DemoApiError : Type 0 where
  pub code : DemoApiErrorCode
  pub message : Text
  pub status : Option ℕ

-- The error body that a response told.
pub record ToldError : Type 0 where
  pub code : ApiErrorCode
  pub message : Text

unfoldable pub code_of : Text → Option ApiErrorCode
code_of t =
    if text_eq t (codes "BAD_ORIGIN")
    then some bad_origin
    else (if text_eq t (codes "INVALID_REQUEST")
        then some invalid_request
        else (if text_eq t (codes "KEY_UNAVAILABLE")
            then some key_unavailable
            else (if text_eq t (codes "DEPLOYMENT_INVALID")
                then some deployment_invalid
                else (if text_eq t (codes "ACCOUNT_NOT_CREATED")
                    then some account_not_created
                    else (if text_eq t (codes "ACCOUNT_MISMATCH")
                        then some account_mismatch
                        else (if text_eq t (codes "INSUFFICIENT_BALANCE")
                            then some insufficient_balance
                            else (if text_eq t (codes "BOOTSTRAP_FAILED")
                                then some bootstrap_failed
                                else (if text_eq t (codes "CONFIRMATION_TIMEOUT")
                                    then some confirmation_timeout
                                    else (if text_eq t (codes "INTERNAL_ERROR")
                                        then some internal_error
                                        else none)))))))))

-- The two fields of an error, tested.
unfoldable pub told_error : Json → Json → Option ToldError
told_error (str code) (str message) = elim (code_of code) [
  | none ↦ none
  | some known ↦
      if leb (length message) 240 then some (record { code = known; message = message }) else none
]
told_error _ _ = none

-- The object of an error: its two fields in either order, and no others.
unfoldable pub parse_error : Json → Option ToldError
parse_error (obj (field a x (field b y end))) =
    if text_eq a (codes "code") && text_eq b (codes "message")
    then told_error x y
    else (if text_eq a (codes "message") && text_eq b (codes "code") then told_error y x else none)
parse_error _ = none

-- `ApiErrorBodySchema`
unfoldable pub parse_error_body : Json → Option ToldError
parse_error_body (obj (field name inner end)) =
    if text_eq name (codes "error") then parse_error inner else none
parse_error_body _ = none

-- `RequestInit`, as far as calls differ in it.
pub record RequestOptions : Type 0 where
  pub method : Text
  pub headers : List (Text × Text)
  pub body : Option Bytes

-- A response, none for the JSON of a body that does not parse.
pub record HttpResponse : Type 0 where
  pub status : ℕ
  pub headers : List (Text × Text)
  pub json : Option Json

-- `fetch` on the states of a world.
abbrev pub Fetcher : Type 0 → Type 0
Fetcher W = Text → RequestOptions → W → Throws HttpResponse × W

abbrev pub json_content_type : Text
json_content_type = codes "application/json; charset=utf-8"

-- `headers.get(name)`, whose name is in lower case here.
unfoldable pub get_header : Text → List (Text × Text) → Option Text
get_header name [] = none
get_header name ((n, value) ∷ rest) =
    let later = get_header name rest in if text_eq (to_lower n) name then some value else later

abbrev pub invalid_answer : DemoApiError
invalid_answer = record {
  code = invalid_response;
  message = codes "Local API returned an invalid response";
  status = none;
}

abbrev pub unavailable : DemoApiError
unavailable = record {
  code = api_unavailable;
  message = codes "Local API is unavailable";
  status = none;
}

-- `response.ok`
abbrev pub is_success : ℕ → Bool
is_success status = leb 200 status && leb status 299

unfoldable pub is_json_typed : HttpResponse → Bool
is_json_typed response = elim (get_header (codes "content-type") response.headers) [
  | none ↦ false
  | some t ↦ text_eq t json_content_type
]

-- What `requestJson` makes of the value of a response.
unfoldable pub read_value : {T : Type 0} → (Json → Option T) → ℕ → Json → Result DemoApiError T
read_value schema status value =
    if is_success status
    then elim (schema value) [ none ↦ err invalid_answer | some result ↦ ok result ]
    else elim (parse_error_body value) [
      | none ↦ err invalid_answer
      | some e ↦ err (record { code = told e.code; message = e.message; status = some status })
    ]

-- What `requestJson` makes of a response.
unfoldable pub read_response :
    {T : Type 0} → (Json → Option T) → Throws HttpResponse → Result DemoApiError T
read_response schema (err e) = err unavailable
read_response schema (ok response) =
    if not (is_json_typed response) then err invalid_answer else elim response.json [
      | none ↦ err invalid_answer
      | some value ↦ read_value schema response.status value
    ]

-- The options of a call without or with a body.
unfoldable pub options_of : Text → Option Bytes → RequestOptions
options_of method none = record {
  method = method;
  headers = (codes "Accept", codes "application/json") ∷ [];
  body = none;
}
options_of method (some body) = record {
  method = method;
  headers =
      (codes "Accept", codes "application/json")
      ∷ (codes "Content-Type", codes "application/json")
      ∷ [];
  body = some body;
}

-- `requestJson`
unfoldable pub request_json :
    {W T : Type 0}
    → Fetcher W
    → Text
    → Text
    → Option Bytes
    → (Json → Option T)
    → W
    → Result DemoApiError T × W
request_json fetcher path method body schema w =
    let (answer, after) = fetcher path (options_of method body) w in
    (read_response schema answer, after)

-- `AccountManifestSchema.nullable()`
unfoldable pub nullable_account : Parsers → Json → Option (Option AccountManifest)
nullable_account parsers null = some none
nullable_account parsers value = elim (parsers.account value) [
  | none ↦ none
  | some m ↦ some (some m)
]

module _ (parsers : Parsers) {W : Type 0} (fetcher : Fetcher W) where
  -- `status` of `createDemoApi`
  unfoldable pub api_status : W → Result DemoApiError DemoStatus × W
  api_status w = request_json fetcher (codes "/api/status") (codes "GET") none parsers.status w

  -- `account` of `createDemoApi`
  unfoldable pub api_account : W → Result DemoApiError (Option AccountManifest) × W
  api_account w =
      request_json fetcher (codes "/api/account") (codes "GET") none (nullable_account parsers) w

  -- `bootstrap` of `createDemoApi`, with the text that `JSON.stringify` makes of a request.
  unfoldable pub api_bootstrap :
      (BootstrapRequest → Bytes) → Json → W → Result DemoApiError AccountManifest × W
  api_bootstrap stringify value w = elim (parsers.bootstrap_request value) [
    | none ↦ (
      err (record {
        code = told invalid_request;
        message = codes "Invalid account bootstrap request";
        status = none;
      }),
      w,
    )
    | some request ↦
        request_json fetcher (codes "/api/account/bootstrap") (codes "POST")
          (some (stringify request)) parsers.account w
  ]
