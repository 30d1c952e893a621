-- ===== src/Demo/Passkeys.antt =====
-- demo/src/client/passkey.ts: registering a passkey and asking it for an assertion. The browser's
-- credentials container, its cryptography and the clock are parameters.
pub mod Registered
pub mod Thrown
pub mod Asserted
use ckb_crypto_agile_account.Common.{
  ℕ, ◌≡◌, Bool, true, false, not, ◌&&◌, ◌||◌, List, [], ◌∷◌, Option, none, some, ltb, ◌==◌,
  if◌then◌else◌, length, String, Text, text_eq, codes, Result, ok, err, ◌>>=◌, ◌>>◌, throw_if,
}
use ckb_crypto_agile_account.Failure.{
  Failure, not_allowed, passkey_cancelled, passkey_protocol, Throws,
}
use ckb_crypto_agile_account.Bytes.{Bytes, ℤ, negsuc, bytes_concat, hex_from_bytes}
use ckb_crypto_agile_account.Protocol.{byte_is, Ckb}
use ckb_crypto_agile_account.Demo.Constants.{client_origin, rp_id}
use ckb_crypto_agile_account.Demo.Schemas.{PasskeyRecord, Parsers}
use ckb_crypto_agile_account.Demo.Base64.{base64url, base64url_decode}
use ckb_crypto_agile_account.Demo.Finalize.{AssertionMaterial}

abbrev pub es256 : ℤ
es256 = negsuc 6

abbrev pub challenge_bytes : ℕ
challenge_bytes = 32

abbrev pub user_handle_bytes : ℕ
user_handle_bytes = 32

abbrev pub public_key_bytes : ℕ
public_key_bytes = 65

-- What the page finds in its global scope.
pub record Scope : Type 0 where
  pub is_secure_context : Bool
  pub has_public_key_credential : Bool
  pub has_attestation_response : Bool
  pub has_get_public_key : Bool

-- `passkeyCapabilityProblem`
unfoldable pub passkey_capability_problem : Scope → Option String
passkey_capability_problem scope =
    if not scope.is_secure_context
    then some "Passkeys need a secure localhost context and Chromium with WebAuthn support."
    else (if not scope.has_public_key_credential
        then some "This browser does not provide the PublicKeyCredential API required by the demo."
        else (if not scope.has_attestation_response || not scope.has_get_public_key
            then some
                "Chromium cannot export the passkey public key required by this AccountLock demo."
            else none))

-- `requireWebAuthn`
unfoldable pub require_web_authn : Scope → Throws (Unit {0})
require_web_authn scope = do
  throw_if (not scope.is_secure_context)
      (passkey_protocol "Passkeys require a secure localhost context")
  throw_if (not scope.has_public_key_credential)
      (passkey_protocol "PublicKeyCredential is unavailable")

-- The options of `create` that tell one call from another or that the checks rely on.
pub record CreationOptions : Type 0 where
  pub challenge : Bytes
  pub rp_id : Text
  pub user_id : Bytes
  pub alg : ℤ
  pub user_verification : Text

pub record RequestOptions : Type 0 where
  pub challenge : Bytes
  pub rp_id : Text
  pub allowed_id : Bytes
  pub user_verification : Text

-- A credential that `create` answers. A buffer is none where the value is no ArrayBuffer, and
-- `get_public_key` is none where it is no function.
pub record Registration : Type 0 where
  pub credential_type : Text
  pub id : Text
  pub raw_id : Option Bytes
  pub get_public_key : Option (Throws (Option Bytes))

-- A credential that `get` answers.
pub record Assertion : Type 0 where
  pub credential_type : Text
  pub id : Text
  pub raw_id : Option Bytes
  pub authenticator_data : Option Bytes
  pub client_data_json : Option Bytes
  pub signature : Option Bytes

-- `CredentialsContainer`
pub record Credentials : Type 0 where
  pub create : CreationOptions → Throws (Option Registration)
  pub get : RequestOptions → Throws (Option Assertion)

-- `Crypto`, with the imported keys as a type of their own. `random` takes the number of the call.
pub record Crypto (K : Type 0) : Type 0 where
  pub random : ℕ → ℕ → Bytes
  pub sha256 : Bytes → Throws Bytes
  pub import_spki : Bytes → Throws K
  pub export_raw : K → Throws Bytes

-- `bytesFromBuffer`, which tells what is missing
unfoldable pub bytes_from_buffer : Option Bytes → String → Throws Bytes
bytes_from_buffer none missing = err (passkey_protocol missing)
bytes_from_buffer (some buffer) missing = ok buffer

-- What the `catch` of both calls throws: a cancellation, a protocol error as it is, and the given
-- message for any other error.
unfoldable pub hide_error : String → Failure → Failure
hide_error message not_allowed = passkey_cancelled
hide_error message (passkey_protocol m) = passkey_protocol m
hide_error message _ = passkey_protocol message

unfoldable pub caught : String → {A : Type 0} → Throws A → Throws A
caught message (ok answer) = ok answer
caught message (err e) = err (hide_error message e)

-- `rawPublicKeyFromSpki`
unfoldable pub raw_public_key_from_spki : {K : Type 0} → Crypto K → Bytes → Throws Bytes
raw_public_key_from_spki crypto spki = elim (crypto.import_spki spki) [
  | err e ↦ err (passkey_protocol "Registration public key is not ES256/P-256")
  | ok imported ↦ do
    raw ← crypto.export_raw imported
    throw_if (not (length raw == public_key_bytes) || not (byte_is raw 0 0x04))
        (passkey_protocol "Registration public key is not uncompressed P-256")
    ok raw
]

-- `derivePasskeyAux`
unfoldable pub derive_passkey_aux : {K : Type 0} → Crypto K → Throws Bytes
derive_passkey_aux crypto = do
  rp_id_hash ← crypto.sha256 rp_id
  origin_hash ← crypto.sha256 client_origin
  bytes_concat ((1 ∷ []) ∷ rp_id_hash ∷ origin_hash ∷ [])

-- The public key that a registration exports.
unfoldable pub exported_key : {K : Type 0} → Crypto K → Registration → Throws Bytes
exported_key crypto created = elim created.get_public_key [
  | none ↦ err (passkey_protocol "Authenticator cannot export the registration public key")
  | some answer ↦ do
    spki ← answer
    elim spki [
      | none ↦ err (passkey_protocol "Authenticator returned no registration public key")
      | some bytes ↦ raw_public_key_from_spki crypto bytes
    ]
]

-- The options of `registerPasskey`.
unfoldable pub creation_options : {K : Type 0} → Crypto K → CreationOptions
creation_options crypto = record {
  challenge = crypto.random 0 challenge_bytes;
  rp_id = rp_id;
  user_id = crypto.random 1 user_handle_bytes;
  alg = es256;
  user_verification = codes "required";
}

-- What `requestAssertion` makes of the answer of `get`.
unfoldable pub read_assertion : PasskeyRecord → Option Assertion → Throws AssertionMaterial
read_assertion passkey none =
    err (passkey_protocol "Assertion did not return a public-key credential")
read_assertion passkey (some assertion) = do
  throw_if (not (text_eq assertion.credential_type (codes "public-key")))
      (passkey_protocol "Assertion did not return a public-key credential")
  raw_id ← bytes_from_buffer assertion.raw_id "Credential ID is missing"
  throw_if
      (not (text_eq (base64url raw_id) passkey.credential_id)
        || not (text_eq assertion.id (base64url raw_id)))
      (passkey_protocol "Assertion used an unexpected credential")
  authenticator_data ←
      bytes_from_buffer assertion.authenticator_data "Authenticator data is missing"
  client_data_json ← bytes_from_buffer assertion.client_data_json "Client data JSON is missing"
  signature ← bytes_from_buffer assertion.signature "Assertion signature is missing"
  throw_if
      (ltb (length authenticator_data) 37
        || (length client_data_json == 0 || length signature == 0))
      (passkey_protocol "Assertion response fields are malformed")
  ok (record {
    credential_id = base64url raw_id;
    authenticator_data = authenticator_data;
    client_data_json = client_data_json;
    signature = signature;
  })

unfoldable pub request_options : Bytes → Bytes → RequestOptions
request_options challenge allowed_id = record {
  challenge = challenge;
  rp_id = rp_id;
  allowed_id = allowed_id;
  user_verification = codes "required";
}

module _ (ckb : Ckb) (parsers : Parsers) where
  -- What `registerPasskey` makes of the answer of `create`, at the time `now`.
  unfoldable pub read_registration :
      {K : Type 0} → Crypto K → Text → Option Registration → Throws PasskeyRecord
  read_registration crypto now none =
      err (passkey_protocol "Registration did not return a public-key credential")
  read_registration crypto now (some created) = do
    throw_if (not (text_eq created.credential_type (codes "public-key")))
        (passkey_protocol "Registration did not return a public-key credential")
    raw_id ← bytes_from_buffer created.raw_id "Credential ID is missing"
    throw_if (not (text_eq created.id (base64url raw_id)))
        (passkey_protocol "Registration credential ID is inconsistent")
    public_key ← exported_key crypto created
    aux ← derive_passkey_aux crypto
    parsers.passkey (record {
      credential_id = base64url raw_id;
      public_key = hex_from_bytes public_key;
      key_id = hex_from_bytes (ckb.hash_ckb public_key);
      created_at = now;
    })

  -- `registerPasskey`
  unfoldable pub register_passkey :
      {K : Type 0} → Scope → Credentials → Crypto K → Text → Throws PasskeyRecord
  register_passkey scope credentials crypto now = do
    require_web_authn scope
    caught "Malformed passkey registration response"
        (credentials.create (creation_options crypto) >>= read_registration crypto now)

  -- `requestAssertion`
  unfoldable pub request_assertion :
      Scope → Credentials → Bytes → PasskeyRecord → Throws AssertionMaterial
  request_assertion scope credentials challenge record_value = do
    require_web_authn scope
    throw_if (not (length challenge == challenge_bytes))
        (passkey_protocol "Authorization challenge must be exactly 32-byte")
    passkey ← parsers.passkey record_value
    allowed_id ← base64url_decode passkey.credential_id
    caught "Malformed passkey assertion response"
        (credentials.get (request_options challenge allowed_id) >>= read_assertion passkey)
