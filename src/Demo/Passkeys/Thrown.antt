-- ===== src/Demo/Passkeys/Thrown.antt =====
-- demo/src/client/passkey.ts: the steps that throw only protocol errors.
use ckb_crypto_agile_account.Common.{
  ◌≡◌, ◌≢◌, refl, Bool, true, false, not, ◌||◌, Option, none, some, ltb, ◌==◌, length, String, Text,
  text_eq, codes, ok, err, ◌>>=◌, ◌>>◌, throw_if, Option-cases, Bool-cases, inl, inr, ◌⊎◌,
}
use ckb_crypto_agile_account.Failure.{
  Failure, type_error, range_error, error, api_error, timeout, not_allowed, passkey_cancelled,
  passkey_protocol, foreign, Throws,
}
use ckb_crypto_agile_account.Bytes.{Bytes}
use ckb_crypto_agile_account.Demo.Schemas.{is_base64url, PasskeyRecord}
use ckb_crypto_agile_account.Demo.Base64.{base64url, atob, base64url_decode}
use ckb_crypto_agile_account.Demo.Passkeys.{
  Scope, Assertion, require_web_authn, bytes_from_buffer, hide_error, read_assertion,
}

-- A step that may only throw a protocol error.
abbrev pub IsProtocol : {A : Type 0} → Throws A → Type 0
IsProtocol {A} r = ((a : A) × (r ≡ ok a)) ⊎ ((m : String) × (r ≡ err (passkey_protocol m)))

throw_if-IsProtocol :
    {A : Type 0} (test : Bool) (m : String) (rest : Throws A)
    → IsProtocol rest
    → IsProtocol (throw_if test (passkey_protocol m) >> rest)
throw_if-IsProtocol false m rest h = h
throw_if-IsProtocol true m rest h = inr (m, refl)

bytes_from_buffer-IsProtocol :
    {A : Type 0} (buffer : Option Bytes) (m : String) (rest : Bytes → Throws A)
    → ((bs : Bytes) → IsProtocol (rest bs))
    → IsProtocol (bytes_from_buffer buffer m >>= rest)
unfolding bytes_from_buffer
bytes_from_buffer-IsProtocol none m rest h = inr (m, refl)
bytes_from_buffer-IsProtocol (some bs) m rest h = h bs

pub require_web_authn-IsProtocol : (scope : Scope) → IsProtocol (require_web_authn scope)
unfolding require_web_authn
require_web_authn-IsProtocol scope =
    throw_if-IsProtocol (not scope.is_secure_context) _ _
      (elim (Bool-cases scope.has_public_key_credential) [
        | inl has ↦ inl (tt, rw has)
        | inr hasnt ↦ inr ("PublicKeyCredential is unavailable", rw hasnt)
      ])

pub base64url_decode-IsProtocol : (value : Text) → IsProtocol (base64url_decode value)
unfolding base64url_decode
base64url_decode-IsProtocol value =
    throw_if-IsProtocol (not (is_base64url value)) _ _ (elim (Option-cases (atob value)) [
      | inl bad ↦ rw bad (inr (_, refl))
      | inr (decoded, good) ↦ rw good (
          throw_if-IsProtocol (length decoded == 0 || not (text_eq (base64url decoded) value)) _
            (ok decoded) (inl (decoded, refl)))
    ])

pub hide_error-cases :
    (m : String) (e : Failure)
    → ((e ≡ not_allowed) × (hide_error m e ≡ passkey_cancelled))
      ⊎ ((e ≢ not_allowed) × (n : String) × (hide_error m e ≡ passkey_protocol n))
unfolding hide_error
hide_error-cases m not_allowed = inl (refl, refl)
hide_error-cases m (passkey_protocol n) = inr (λ h. absurd (cc h), n, refl)
hide_error-cases m (type_error n) = inr (λ h. absurd (cc h), m, refl)
hide_error-cases m (range_error n) = inr (λ h. absurd (cc h), m, refl)
hide_error-cases m (error n) = inr (λ h. absurd (cc h), m, refl)
hide_error-cases m (api_error n) = inr (λ h. absurd (cc h), m, refl)
hide_error-cases m (foreign n) = inr (λ h. absurd (cc h), m, refl)
hide_error-cases m timeout = inr (λ h. absurd (cc h), m, refl)
hide_error-cases m passkey_cancelled = inr (λ h. absurd (cc h), m, refl)

pub read_assertion-IsProtocol :
    (passkey : PasskeyRecord) (answer : Option Assertion)
    → IsProtocol (read_assertion passkey answer)
unfolding read_assertion
read_assertion-IsProtocol passkey none =
    inr ("Assertion did not return a public-key credential", refl)
read_assertion-IsProtocol passkey (some a) =
    throw_if-IsProtocol (not (text_eq a.credential_type (codes "public-key"))) _ _ (
      bytes_from_buffer-IsProtocol a.raw_id _ _ λ (raw : Bytes).
        throw_if-IsProtocol
          (not (text_eq (base64url raw) passkey.credential_id)
            || not (text_eq a.id (base64url raw)))
          _ _
          (bytes_from_buffer-IsProtocol a.authenticator_data _ _ λ (auth : Bytes).
            bytes_from_buffer-IsProtocol a.client_data_json _ _ λ (client : Bytes).
              bytes_from_buffer-IsProtocol a.signature _ _ λ (sig : Bytes).
                throw_if-IsProtocol
                  (ltb (length auth) 37 || (length client == 0 || length sig == 0)) _ _
                  (inl (_, refl))))
