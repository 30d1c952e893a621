-- ===== src/Demo/Passkeys/Asserted.antt =====
-- demo/src/client/passkey.ts: what a caller of `requestAssertion` can rely on.
use ckb_crypto_agile_account.Common.{
  ◌≤◌, ◌≡◌, ◌≢◌, sym, [], All, text_eq_of_eq, refl, ap, ◌∙◌, subst, true, not, ◌||◌, Option, none,
  some, ltb, ◌==◌, length, String, text_eq, text_eq→eq, codes, ok, err, ◌>>=◌, >>=-eq-ok,
  throw_if->>-eq-ok, Result-cases, Bool-cases, inl, inr, arith,
}
use ckb_crypto_agile_account.Failure.{
  Failure, not_allowed, passkey_cancelled, passkey_protocol, Throws,
}
use ckb_crypto_agile_account.Bytes.{Bytes, IsByte}
use ckb_crypto_agile_account.Demo.Schemas.{PasskeyRecord, is_passkey_record, Parsers}
use ckb_crypto_agile_account.Protocol.{Ckb}
use ckb_crypto_agile_account.Demo.Base64.{base64url}
use ckb_crypto_agile_account.Demo.Base64.Laws.{base64url_decode_iff}
use ckb_crypto_agile_account.Demo.Finalize.{AssertionMaterial}
use ckb_crypto_agile_account.Demo.Passkeys.{
  Scope, Credentials, Assertion, bytes_from_buffer, hide_error, caught, read_assertion,
  RequestOptions, require_web_authn, request_options, request_assertion, challenge_bytes,
}
use ckb_crypto_agile_account.Demo.Passkeys.Thrown.{
  require_web_authn-IsProtocol, base64url_decode-IsProtocol, hide_error-cases,
  read_assertion-IsProtocol,
}

-- An assertion of the recorded passkey, read from the answer of the browser.
pub record IsOf (passkey : PasskeyRecord) (assertion : Assertion) (read : AssertionMaterial)
    : Type 0 where
  pub public_key : assertion.credential_type ≡ codes "public-key"
  pub named : read.credential_id ≡ passkey.credential_id
  pub same_id : assertion.id ≡ passkey.credential_id
  pub raw_id : Bytes
  pub identified : assertion.raw_id ≡ some raw_id
  pub coded : base64url raw_id ≡ passkey.credential_id
  pub authenticator_data : assertion.authenticator_data ≡ some read.authenticator_data
  pub client_data_json : assertion.client_data_json ≡ some read.client_data_json
  pub signature : assertion.signature ≡ some read.signature
  pub authenticator_long : 37 ≤ length read.authenticator_data
  pub client_data_long : 1 ≤ length read.client_data_json
  pub signature_long : 1 ≤ length read.signature

pub bytes_from_buffer-eq-ok :
    (buffer : Option Bytes) (m : String) (bs : Bytes)
    → bytes_from_buffer buffer m ≡ ok bs
    → buffer ≡ some bs
unfolding bytes_from_buffer
bytes_from_buffer-eq-ok none m bs h = absurd (ground (arith, h))
bytes_from_buffer-eq-ok (some buffer) m bs h = ground (arith, h)

read_assertion-IsOf :
    (passkey : PasskeyRecord) (answer : Option Assertion) (read : AssertionMaterial)
    → read_assertion passkey answer ≡ ok read
    → (assertion : Assertion) × (answer ≡ some assertion) × IsOf passkey assertion read
unfolding read_assertion
read_assertion-IsOf passkey none read h = absurd (ground (arith, h))
read_assertion-IsOf passkey (some a) read h =
    let (typed, h1) =
      throw_if->>-eq-ok (not (text_eq a.credential_type (codes "public-key"))) _ _ h in
    let (raw, e2, h2) = >>=-eq-ok (bytes_from_buffer a.raw_id _) _ h1 in
    let (fits, h3) =
      throw_if->>-eq-ok
        (not (text_eq (base64url raw) passkey.credential_id) || not (text_eq a.id (base64url raw)))
        _ _ h2 in
    let (auth, e4, h4) = >>=-eq-ok (bytes_from_buffer a.authenticator_data _) _ h3 in
    let (client, e5, h5) = >>=-eq-ok (bytes_from_buffer a.client_data_json _) _ h4 in
    let (sig, e6, h6) = >>=-eq-ok (bytes_from_buffer a.signature _) _ h5 in
    let (long, h7) =
      throw_if->>-eq-ok (ltb (length auth) 37 || (length client == 0 || length sig == 0)) _ _ h6 in
    let named : base64url raw ≡ passkey.credential_id =
      text_eq→eq (base64url raw) passkey.credential_id (ground (arith, fits)) in
    let same : a.id ≡ base64url raw = text_eq→eq a.id (base64url raw) (ground (arith, fits)) in
    let made : AssertionMaterial = record {
      credential_id = base64url raw;
      authenticator_data = auth;
      client_data_json = client;
      signature = sig;
    } in
    let is : IsOf passkey a made = record {
      public_key = text_eq→eq a.credential_type (codes "public-key") (ground (arith, typed));
      named = named;
      same_id = same ∙ named;
      raw_id = raw;
      identified = bytes_from_buffer-eq-ok a.raw_id _ _ e2;
      coded = named;
      authenticator_data = bytes_from_buffer-eq-ok a.authenticator_data _ _ e4;
      client_data_json = bytes_from_buffer-eq-ok a.client_data_json _ _ e5;
      signature = bytes_from_buffer-eq-ok a.signature _ _ e6;
      authenticator_long = ground (arith, long);
      client_data_long = ground (arith, long);
      signature_long = ground (arith, long);
    } in
    let eq : made ≡ read = cc h7 in (a, refl, subst (IsOf passkey a) eq is)

-- Every such assertion is read.
read_assertion_of :
    (passkey : PasskeyRecord) (a : Assertion) (read : AssertionMaterial)
    → IsOf passkey a read
    → read_assertion passkey (some a) ≡ ok read
unfolding read_assertion bytes_from_buffer
read_assertion_of passkey a read is =
    let same : a.id ≡ base64url is.raw_id = is.same_id ∙ sym is.coded in
    rw
      (
        text_eq_of_eq a.credential_type (codes "public-key") is.public_key,
        is.identified,
        text_eq_of_eq (base64url is.raw_id) passkey.credential_id is.coded,
        text_eq_of_eq a.id (base64url is.raw_id) same,
        is.authenticator_data,
        is.client_data_json,
        is.signature,
      )
      (ground
        (arith, is.authenticator_long, is.client_data_long, is.signature_long, is.coded, is.named))

-- What the browser is asked for.
abbrev pub assertion_request : Bytes → Bytes → RequestOptions
assertion_request challenge id = record {
  challenge = challenge;
  rp_id = codes "localhost";
  allowed_id = id;
  user_verification = codes "required";
}

module _ (ckb : Ckb) (parsers : Parsers) (credentials : Credentials) (challenge : Bytes)
    (passkey : PasskeyRecord) (scope : Scope) where
  -- A page and a request that the browser can be asked with, for a credential.
  pub record IsAskable (id : Bytes) : Type 0 where
    pub secure : scope.is_secure_context ≡ true
    pub supported : scope.has_public_key_credential ≡ true
    pub long : length challenge ≡ 32
    pub valid : is_passkey_record passkey ≡ true
    pub coded : base64url id ≡ passkey.credential_id

  -- How a request for an assertion ends.
  pub data Outcome : Throws AssertionMaterial → Type 0 where
    bad_record : (e : Failure) → parsers.passkey passkey ≡ err e → Outcome (err e)
    not_asked :
        (m : String)
        → ((id : Bytes) → All IsByte id → id ≢ [] → ¬ IsAskable id)
        → Outcome (err (passkey_protocol m))
    cancelled :
        (id : Bytes)
        → IsAskable id
        → credentials.get (assertion_request challenge id) ≡ err not_allowed
        → Outcome (err passkey_cancelled)
    failed :
        (id : Bytes) (e : Failure) (m : String)
        → IsAskable id
        → credentials.get (assertion_request challenge id) ≡ err e
        → e ≢ not_allowed
        → Outcome (err (passkey_protocol m))
    unfit :
        (id : Bytes) (answer : Option Assertion) (m : String)
        → IsAskable id
        → credentials.get (assertion_request challenge id) ≡ ok answer
        → ((a : Assertion) (read : AssertionMaterial) → answer ≡ some a → ¬ IsOf passkey a read)
        → Outcome (err (passkey_protocol m))
    asserted :
        (id : Bytes) (assertion : Assertion) (read : AssertionMaterial)
        → IsAskable id
        → credentials.get (assertion_request challenge id) ≡ ok (some assertion)
        → IsOf passkey assertion read
        → Outcome (ok read)

  get-Outcome :
      (id : Bytes)
      → IsAskable id
      → Outcome (
          caught "Malformed passkey assertion response"
            (credentials.get (assertion_request challenge id) >>= read_assertion passkey))
  unfolding caught hide_error
  get-Outcome id askable =
      let asked = credentials.get (assertion_request challenge id) in
      let message : String = "Malformed passkey assertion response" in
      elim (Result-cases asked) [
        | inr (e, thrown) ↦ elim (hide_error-cases message e) [
          | inl (denied, hidden) ↦
              rw (thrown, hidden) (cancelled id askable (thrown ∙ ap err denied))
          | inr (other, m, hidden) ↦ rw (thrown, hidden) (failed id e m askable thrown other)
        ]
        | inl (answer, answered) ↦ elim (read_assertion-IsProtocol passkey answer) [
          | inr (m, bad) ↦
              rw (answered, bad, hide_error)
                (unfit id answer m askable answered
                  λ a read is fits. absurd (cc (bad, is, read_assertion_of passkey a read fits)))
          | inl (read, good) ↦
              let (assertion, is, fits) = read_assertion-IsOf passkey answer read good in
              rw (answered, good) (asserted id assertion read askable (answered ∙ ap ok is) fits)
        ]
      ]

  require_web_authn-refused :
      (m : String)
      → require_web_authn scope ≡ err (passkey_protocol m)
      → (id : Bytes) → ¬ IsAskable id
  unfolding require_web_authn
  require_web_authn-refused m h id is = absurd (ground (arith, h, is.secure, is.supported))

  -- A request for an assertion ends with the error of the record's schema; with a protocol error before
  -- the browser is asked, if the page is not secure or has no such API, the challenge has not 32 bytes or
  -- the record is of no credential; as cancelled if the browser denied it; with a protocol error if the
  -- browser threw another error, or answered with no assertion that fits the record; or with the
  -- assertion that it answered. The browser is asked for the one credential whose ID the record encodes,
  -- for this challenge on localhost with the user verified. An assertion fits that is of that
  -- credential, with 37 bytes of authenticator data at least, client data and a signature.
  pub request_assertion-Outcome :
      Outcome (request_assertion ckb parsers scope credentials challenge passkey)
  unfolding request_assertion request_options require_web_authn
  request_assertion-Outcome = elim (require_web_authn-IsProtocol scope) [
    | inr (m, bad) ↦ rw bad (not_asked m λ id bytes has. require_web_authn-refused m bad id)
    | inl (done, fine) ↦ elim (Bool-cases (length challenge == challenge_bytes)) [
      | inr short ↦
          rw (fine, short) (not_asked _ λ id bytes has is. absurd (ground (arith, short, is.long)))
      | inl long ↦ elim (Result-cases (parsers.passkey passkey)) [
        | inr (e, bad) ↦ rw (fine, long, bad) (bad_record e bad)
        | inl (same, good) ↦
            let (unchanged, valid) = parsers.passkey_valid passkey same good in
            let parsed : parsers.passkey passkey ≡ ok passkey = good ∙ ap ok unchanged in
            elim (base64url_decode-IsProtocol passkey.credential_id) [
              | inr (m, bad) ↦
                  rw (fine, long, parsed, bad)
                    (not_asked m λ id bytes has is. absurd (
                      cc (
                        bad,
                        (base64url_decode_iff passkey.credential_id id).1 (has, bytes, is.coded),
                      )))
              | inl (id, decoded) ↦
                  let (some_bytes, bytes, coded) =
                    (base64url_decode_iff passkey.credential_id id).0 decoded in
                  let askable : IsAskable id = record {
                    secure = ground (arith, fine);
                    supported = ground (arith, fine);
                    long = ground (arith, long);
                    valid = valid;
                    coded = coded;
                  } in
                  rw (fine, long, parsed, decoded) (get-Outcome id askable)
            ]
      ]
    ]
  ]
