-- ===== src/Demo/Http/Posted.antt =====
-- demo/src/server/http.ts: the body of a request, read within its limit.
use ckb_crypto_agile_account.Common.{
  ℕ, ◌+◌, ◌≤◌, ◌≡◌, refl, sym, ap, ◌∙◌, subst, true, not, List, [], ◌∷◌, ◌++◌, none, some, length,
  length-append, concat, ltb, ok, err, >>=-eq-ok, throw_if->>-eq-ok, Option-cases, inl, inr, arith,
}
use ckb_crypto_agile_account.Failure.{
  type_error, range_error, error, api_error, timeout, not_allowed, passkey_cancelled,
  passkey_protocol, foreign, Throws,
}
use ckb_crypto_agile_account.Bytes.{Bytes}
use ckb_crypto_agile_account.Json.{Json}
use ckb_crypto_agile_account.Demo.Schemas.{BootstrapRequest, Parsers}
use ckb_crypto_agile_account.Demo.Http.{
  body_limit, IncomingBody, Request, Platform, read_chunks, read_body, is_json_content, json_of,
  bootstrap_request_of, is_declared_large,
}

read_chunks-concat :
    (so_far : ℕ) (chunks : List Bytes) (bytes : Bytes)
    → so_far ≤ body_limit
    → read_chunks so_far chunks ≡ ok bytes
    → (bytes ≡ concat chunks) × (so_far + length bytes ≤ body_limit)
unfolding read_chunks
read_chunks-concat so_far [] bytes h e =
    let same : [] ≡ bytes = cc e in
    (sym same, subst (λ x. so_far + length x ≤ body_limit) same (omega arith))
read_chunks-concat so_far (chunk ∷ chunks) bytes h e =
    let (small, e1) = throw_if->>-eq-ok (ltb body_limit (so_far + length chunk)) _ _ e in
    let (rest, e2, e3) = >>=-eq-ok (read_chunks (so_far + length chunk) chunks) _ e1 in
    let (same, fits) =
      read_chunks-concat (so_far + length chunk) chunks rest (ground (arith, small)) e2 in
    let made : chunk ++ rest ≡ bytes = cc e3 in
    (
      sym made ∙ ap (λ x. chunk ++ x) same,
      subst (λ x. so_far + length x ≤ body_limit) made (omega (arith, length-append chunk rest)),
    )

-- The bytes of a body that came to its end within the limit.
pub record IsWhole (body : IncomingBody) (bytes : Bytes) : Type 0 where
  pub ended : body.failed ≡ none
  pub joined : bytes ≡ concat body.chunks
  pub bounded : length bytes ≤ body_limit

read_body-IsWhole :
    (body : IncomingBody) (bytes : Bytes) → read_body body ≡ ok bytes → IsWhole body bytes
unfolding read_body
read_body-IsWhole body bytes h =
    let (read, e1, h1) = >>=-eq-ok (read_chunks 0 body.chunks) _ h in
    elim (Option-cases body.failed) [
      | inr (e, bad) ↦ absurd (ground (arith, h1, bad))
      | inl fine ↦
          let (joined, bounded) = read_chunks-concat 0 body.chunks read (omega arith) e1 in
          let is : IsWhole body read = record {
            ended = fine;
            joined = joined;
            bounded = omega (arith, bounded);
          } in
          let same : read ≡ bytes = ground (arith, h1, fine) in subst (IsWhole body) same is
    ]

module _ (platform : Platform) (parsers : Parsers) where
  json_of-eq-ok :
      (body : Throws Bytes) (value : Json)
      → json_of platform parsers body ≡ ok value
      → (bytes : Bytes) × (body ≡ ok bytes) × (platform.parse_json bytes ≡ some value)
  unfolding json_of
  json_of-eq-ok (ok bytes) value h = elim (Option-cases (platform.parse_json bytes)) [
    | inl bad ↦ absurd (ground (arith, h, bad))
    | inr (found, good) ↦ (bytes, refl, ground (arith, h, good))
  ]
  json_of-eq-ok (err (api_error e)) value h = cc
  json_of-eq-ok (err (type_error e)) value h = cc
  json_of-eq-ok (err (range_error e)) value h = cc
  json_of-eq-ok (err (error e)) value h = cc
  json_of-eq-ok (err timeout) value h = cc
  json_of-eq-ok (err not_allowed) value h = cc
  json_of-eq-ok (err passkey_cancelled) value h = cc
  json_of-eq-ok (err (passkey_protocol e)) value h = cc
  json_of-eq-ok (err (foreign e)) value h = cc

  -- A request to create an account, with a JSON body of a length in bounds.
  pub record IsPosted (request : Request) (parsed : BootstrapRequest) : Type 0 where
    pub typed : is_json_content request.content_type ≡ true
    pub bytes : Bytes
    pub value : Json
    pub whole : IsWhole request.body bytes
    pub read : platform.parse_json bytes ≡ some value
    pub valid : parsers.bootstrap_request value ≡ some parsed

  pub bootstrap_request_of-IsPosted :
      (request : Request) (parsed : BootstrapRequest)
      → bootstrap_request_of platform parsers request ≡ ok parsed
      → IsPosted request parsed
  unfolding bootstrap_request_of
  bootstrap_request_of-IsPosted request parsed h =
      let (typed, h1) = throw_if->>-eq-ok (not (is_json_content request.content_type)) _ _ h in
      let (small, h2) =
        throw_if->>-eq-ok (is_declared_large platform parsers request.content_length) _ _ h1 in
      let (v, e3, h3) = >>=-eq-ok (json_of platform parsers (read_body request.body)) _ h2 in
      let (bs, e4, e5) = json_of-eq-ok (read_body request.body) v e3 in
      elim (Option-cases (parsers.bootstrap_request v)) [
        | inl bad ↦ absurd (ground (arith, h3, bad))
        | inr (found, good) ↦
            let same : found ≡ parsed = ground (arith, h3, good) in
            record {
              typed = ground (arith, typed);
              bytes = bs;
              value = v;
              whole = read_body-IsWhole request.body bs e4;
              read = e5;
              valid = good ∙ ap some same;
            }
      ]
