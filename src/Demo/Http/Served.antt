-- ===== src/Demo/Http/Served.antt =====
-- demo/src/server/http.ts: which requests reach the service, and what the others are told.
use ckb_crypto_agile_account.Common.{
  ◌≡◌, ◌↔◌, Option, none, some, arith, text_eq_of_eq, refl, ap, ◌∙◌, true, false, Text, text_eq,
  text_eq→eq, codes, ok, err, Result-cases, Bool-cases, inl, inr,
}
use ckb_crypto_agile_account.Failure.{bad_origin, ErrorBody, Throws, to_safe_error_body}
use ckb_crypto_agile_account.Json.{Json}
use ckb_crypto_agile_account.Demo.Constants.{client_origin}
use ckb_crypto_agile_account.Demo.Schemas.{BootstrapRequest, Parsers}
use ckb_crypto_agile_account.Demo.Service.{DemoService}
use ckb_crypto_agile_account.Demo.Response.{Response, send_json, error_json, method_not_allowed}
use ckb_crypto_agile_account.Demo.Http.{
  Request, Platform, required_host, header_is, is_local, url_of, status_of, bootstrap_request_of,
  nullable_json, answered, respond, route, handle_request, serve,
}
use ckb_crypto_agile_account.Demo.Http.Posted.{IsPosted, bootstrap_request_of-IsPosted}

-- What a caller is told of a call of the service.
unfoldable pub told : {A W : Type 0} → (A → Json) → Throws A × W → Response × W
told encode (ok a, w) = (send_json 200 (encode a) true, w)
told encode (err e, w) = (send_json (status_of e) (error_json (to_safe_error_body e)) true, w)

-- A response that tells of an error.
abbrev pub IsRefusal : Response → Type 0
IsRefusal response = (body : ErrorBody) × (response.value ≡ error_json body)

-- A request with the host and the origin of the demo.
pub record IsLocal (request : Request) : Type 0 where
  pub host : request.host ≡ some (codes "127.0.0.1:8790")
  pub origin : request.origin ≡ some (codes "http://localhost:5173")

header_is_iff :
    (header : Option Text) (expected : Text)
    → (header_is header expected ≡ true) ↔ (header ≡ some expected)
header_is_iff none expected = (λ h. cc h, λ h. absurd (cc h))
header_is_iff (some value) expected =
    (λ h. ap some (text_eq→eq value expected h), λ h. text_eq_of_eq value expected cc)

is_local_iff : (request : Request) → (is_local request ≡ true) ↔ IsLocal request
unfolding is_local
is_local_iff request =
    let (host, host_back) = header_is_iff request.host required_host in
    let (origin, origin_back) = header_is_iff request.origin client_origin in
    (
      λ h. record { host = host (ground (arith, h)); origin = origin (ground (arith, h)) },
      λ l. rw (host_back l.host, origin_back l.origin),
    )

module _ (platform : Platform) (parsers : Parsers) where
  -- A local request for a path by a method.
  pub record IsFor (request : Request) (path method : Text) : Type 0 where
    pub local : IsLocal request
    pub at : platform.pathname (url_of request) ≡ ok path
    pub by : request.method ≡ method

  module _ {W : Type 0} (service : DemoService W) (request : Request) (w : W) where
    -- A response with the state behind it, and how it came about.
    pub data Served : Response × W → Type 0 where
      forbidden :
          ¬ IsLocal request
          → Served (
            send_json 403
                (error_json
                  (record { code = bad_origin; message = "Request must come from the local demo" }))
                false,
            w,
          )
      refused : (r : Response) → IsLocal request → IsRefusal r → Served (r, w)
      asked_status :
          IsFor request (codes "/api/status") (codes "GET")
          → Served (told platform.status_json (service.status w))
      asked_account :
          IsFor request (codes "/api/account") (codes "GET")
          → Served (told (nullable_json platform parsers) (service.account w))
      asked_bootstrap :
          (parsed : BootstrapRequest)
          → IsFor request (codes "/api/account/bootstrap") (codes "POST")
          → IsPosted platform parsers request parsed
          → Served (told platform.account_json (service.bootstrap parsed w))

    respond-answered :
        {A : Type 0} (encode : A → Json) (call : Throws A × W)
        → respond (answered platform parsers encode call) ≡ told encode call
    unfolding respond answered told
    respond-answered encode (ok a, after) = refl
    respond-answered encode (err e, after) = refl

    bootstrap-Served :
        IsFor request (codes "/api/account/bootstrap") (codes "POST")
        → Served (
            respond (elim (bootstrap_request_of platform parsers request) [
              | err e ↦ (err e, w)
              | ok parsed ↦
                  answered platform parsers platform.account_json (service.bootstrap parsed w)
            ]))
    unfolding respond send_json
    bootstrap-Served asked = elim (Result-cases (bootstrap_request_of platform parsers request)) [
      | inr (e, bad) ↦ rw bad (refused _ asked.local (to_safe_error_body e, refl))
      | inl (parsed, good) ↦
          rw (good, respond-answered platform.account_json (service.bootstrap parsed w))
            (asked_bootstrap parsed asked
              (bootstrap_request_of-IsPosted platform parsers request parsed good))
    ]

    route-IsFor :
        (path place method : Text)
        → IsLocal request
        → platform.pathname (url_of request) ≡ ok path
        → text_eq path place ≡ true
        → text_eq request.method method ≡ true
        → IsFor request place method
    route-IsFor path place method local at there so = record {
      local = local;
      at = at ∙ ap ok (text_eq→eq path place there);
      by = text_eq→eq request.method method so;
    }

    route-Served :
        (path : Text)
        → IsLocal request
        → platform.pathname (url_of request) ≡ ok path
        → Served (respond (route platform parsers service path request w))
    unfolding route respond send_json method_not_allowed
    route-Served path local at = elim (Bool-cases (text_eq path (codes "/api/status"))) [
      | inl first ↦ elim (Bool-cases (text_eq request.method (codes "GET"))) [
        | inr other ↦ rw (first, other) (refused _ local (_, refl))
        | inl get ↦
            rw (first, get, respond-answered platform.status_json (service.status w))
              (asked_status
                (route-IsFor path (codes "/api/status") (codes "GET") local at first get))
      ]
      | inr not_first ↦ elim (Bool-cases (text_eq path (codes "/api/account"))) [
        | inl second ↦ elim (Bool-cases (text_eq request.method (codes "GET"))) [
          | inr other ↦ rw (not_first, second, other) (refused _ local (_, refl))
          | inl get ↦
              rw
                (
                  not_first,
                  second,
                  get,
                  respond-answered (nullable_json platform parsers) (service.account w),
                )
                (asked_account
                  (route-IsFor path (codes "/api/account") (codes "GET") local at second get))
        ]
        | inr not_second ↦ elim (Bool-cases (text_eq path (codes "/api/account/bootstrap"))) [
          | inr nowhere ↦ rw (not_first, not_second, nowhere) (refused _ local (_, refl))
          | inl third ↦ elim (Bool-cases (text_eq request.method (codes "POST"))) [
            | inr other ↦ rw (not_first, not_second, third, other) (refused _ local (_, refl))
            | inl post ↦
                rw (not_first, not_second, third, post)
                  (bootstrap-Served (
                    route-IsFor path (codes "/api/account/bootstrap") (codes "POST") local at third
                      post))
          ]
        ]
      ]
    ]

    -- A request whose Host is not 127.0.0.1:8790 or whose Origin is not http://localhost:5173 is answered 403 without the header that lets its origin
    -- read, and the service is not called. A request with both is answered by one call of the service, to
    -- which its path and method belong and whose error is told in a safe body, or it is refused with an
    -- error body and the state is as it was. An account is asked for only by a whole body of JSON, of
    -- 16384 bytes at most, that the schema of requests accepts.
    pub serve-Served : Served (serve platform parsers service request w)
    unfolding serve handle_request respond send_json
    serve-Served = elim (Bool-cases (is_local request)) [
      | inr foreign_origin ↦
          rw foreign_origin
            (forbidden λ l. absurd (cc (foreign_origin, (is_local_iff request).1 l)))
      | inl is ↦
          let local = (is_local_iff request).0 is in
          elim (Result-cases (platform.pathname (url_of request))) [
            | inr (e, bad) ↦ rw (is, bad) (refused _ local (to_safe_error_body e, refl))
            | inl (path, at) ↦ rw (is, at) (route-Served path local at)
          ]
    ]
