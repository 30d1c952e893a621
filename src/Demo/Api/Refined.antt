-- ===== src/Demo/Api/Refined.antt =====
-- demo/src/client/api.ts over demo/src/server/http.ts: each call of the page against the operation of the
-- service that it stands for.
use ckb_crypto_agile_account.Common.{
  ℕ, ◌+◌, ◌≤◌, ◌≡◌, refl, ap, ◌∙◌, false, List, [], ◌∷◌, Option, none, some, codes, length,
  length-append, concat, ltb, ok, err, arith, le→ltb_false,
}
use ckb_crypto_agile_account.Failure.{Failure}
use ckb_crypto_agile_account.Bytes.{Bytes}
use ckb_crypto_agile_account.Json.{Json}
use ckb_crypto_agile_account.Deploy.Account.{to_lower}
use ckb_crypto_agile_account.Demo.Schemas.{AccountManifest, BootstrapRequest, DemoStatus, Parsers}
use ckb_crypto_agile_account.Demo.Service.{DemoService}
use ckb_crypto_agile_account.Demo.Http.{
  trim_end, trim_start, before_semicolon, is_space, body_limit, Platform, read_chunks, read_body,
  is_json_content, json_of, bootstrap_request_of, nullable_json, answered, route, is_declared_large,
}
use ckb_crypto_agile_account.Demo.Api.{
  get_header, options_of, nullable_account, api_status, api_account, api_bootstrap,
}
use ckb_crypto_agile_account.Demo.Api.Carried.{
  Wire, body_of, request_of, through_proxy, page_answer, IsTellable, carried,
}

-- A body within the limit is read whole.
read_chunks-eq :
    (so_far : ℕ) (chunks : List Bytes)
    → so_far + length (concat chunks) ≤ body_limit
    → read_chunks so_far chunks ≡ ok (concat chunks)
unfolding read_chunks
read_chunks-eq so_far [] h = refl
read_chunks-eq so_far (chunk ∷ chunks) h =
    let total = length-append chunk (concat chunks) in
    let small : ltb body_limit (so_far + length chunk) ≡ false =
      le→ltb_false body_limit (so_far + length chunk) (omega (arith, h, total)) in
    rw (small, read_chunks-eq (so_far + length chunk) chunks (omega (arith, h, total)))

module _ (platform : Platform) (parsers : Parsers) {W : Type 0} (service : DemoService W)
    (wire : Wire) where
  -- A read of the status or of the account through the proxy answers the page what the service
  -- answers the server, its value or its error as it is told, when the URL of the path has that path,
  -- the schema accepts the value as it is sent, and the error can be told.
  pub reads-through_proxy :
      (w : W)
      → platform.pathname (codes "/api/status") ≡ ok (codes "/api/status")
      → platform.pathname (codes "/api/account") ≡ ok (codes "/api/account")
      → ((s : DemoStatus)
          → (service.status w).0 ≡ ok s
          → parsers.status (platform.status_json s) ≡ some s)
      → ((m : Option AccountManifest)
          → (service.account w).0 ≡ ok m
          → nullable_account parsers (nullable_json platform parsers m) ≡ some m)
      → ((e : Failure) → (service.status w).0 ≡ err e → IsTellable e)
      → ((e : Failure) → (service.account w).0 ≡ err e → IsTellable e)
      → (api_status parsers (through_proxy platform parsers service wire) w
          ≡ (page_answer (service.status w).0, (service.status w).1))
        × (api_account parsers (through_proxy platform parsers service wire) w
            ≡ (page_answer (service.account w).0, (service.account w).1))
  unfolding api_status api_account route request_of options_of
  reads-through_proxy w at_status at_account status_back account_back status_told account_told = (
    carried platform parsers service wire (codes "/api/status") (codes "GET") none
        platform.status_json parsers.status w (service.status w) at_status refl status_back
        status_told,
    carried platform parsers service wire (codes "/api/account") (codes "GET") none
        (nullable_json platform parsers) (nullable_account parsers) w (service.account w) at_account
        refl account_back account_told,
  )

  posted :
      (body : Bytes) (value : Json) (request : BootstrapRequest)
      → length body ≤ body_limit
      → platform.number (wire.content_length body) ≡ some (length body)
      → platform.parse_json body ≡ some value
      → parsers.bootstrap_request value ≡ some request
      → bootstrap_request_of platform parsers
          (request_of wire (codes "/api/account/bootstrap") (options_of (codes "POST") (some body)))
        ≡ ok request
  unfolding bootstrap_request_of request_of options_of get_header to_lower is_json_content
      is_declared_large read_body body_of json_of trim_end trim_start before_semicolon is_space
  posted body value request bounded declared parsed valid =
      let joined = wire.concat-chunks body in
      let small : ltb body_limit (length body) ≡ false =
        le→ltb_false body_limit (length body) bounded in
      let read : read_chunks 0 (wire.chunks body) ≡ ok body =
        read_chunks-eq 0 (wire.chunks body) (omega (arith, bounded, ap (length {A = ℕ}) joined))
        ∙ ap ok joined in
      rw (declared, small, read, parsed, valid)

  routed :
      (body : Bytes) (request : BootstrapRequest) (w : W)
      → bootstrap_request_of platform parsers
          (request_of wire (codes "/api/account/bootstrap") (options_of (codes "POST") (some body)))
        ≡ ok request
      → route platform parsers service
          (codes "/api/account/bootstrap")
          (request_of wire (codes "/api/account/bootstrap") (options_of (codes "POST") (some body)))
          w
        ≡ answered platform parsers platform.account_json (service.bootstrap request w)
  unfolding route request_of options_of
  routed body request w read = rw read

  -- A creation that the page asks for through the proxy answers it what the service answers the
  -- server, its value or its error as it is told, when the page's value is a valid request, whose text
  -- is at most 16384 bytes and parses to a value that is the same request, the URL of the path has that
  -- path and the declared length is the text's, the schema accepts the account as it is sent, and the
  -- error can be told.
  pub api_bootstrap-through_proxy :
      (stringify : BootstrapRequest → Bytes) (value sent : Json) (request : BootstrapRequest)
      (w : W)
      → parsers.bootstrap_request value ≡ some request
      → length (stringify request) ≤ body_limit
      → platform.parse_json (stringify request) ≡ some sent
      → parsers.bootstrap_request sent ≡ some request
      → platform.pathname (codes "/api/account/bootstrap") ≡ ok (codes "/api/account/bootstrap")
      → platform.number (wire.content_length (stringify request))
        ≡ some (length (stringify request))
      → ((m : AccountManifest)
          → (service.bootstrap request w).0 ≡ ok m
          → parsers.account (platform.account_json m) ≡ some m)
      → ((e : Failure) → (service.bootstrap request w).0 ≡ err e → IsTellable e)
      → api_bootstrap parsers (through_proxy platform parsers service wire) stringify value w
        ≡ (page_answer (service.bootstrap request w).0, (service.bootstrap request w).1)
  unfolding api_bootstrap
  api_bootstrap-through_proxy stringify value sent request w asked bounded parsed valid at declared
        back tellable =
      let read = posted (stringify request) sent request bounded declared parsed valid in
      rw (api_bootstrap, asked)
        (carried platform parsers service wire (codes "/api/account/bootstrap") (codes "POST")
          (some (stringify request)) platform.account_json parsers.account w
          (service.bootstrap request w) at (routed (stringify request) request w read) back
          tellable)
