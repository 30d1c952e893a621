-- ===== src/Tests/Browsing.antt =====
-- demo/src/client/passkey.ts on one passkey.
use ckb_crypto_agile_account.Common.{
  arith, ◌≡◌, ◌↔◌, ◌≢◌, refl, subst, ap, true, some, [], ◌∷◌, replicate, All, Text, codes, ok,
  ◌>>=◌,
}
use ckb_crypto_agile_account.Bytes.{
  Bytes, IsByte, hex_from_bytes, hex_digits, hex_digit, bytes_concat, concat_length,
}
use ckb_crypto_agile_account.Demo.Schemas.{
  PasskeyRecord, is_passkey_record, is_base64url, is_public_key,
}
use ckb_crypto_agile_account.Demo.Base64.{base64_char, base64url, base64url_decode}
use ckb_crypto_agile_account.Demo.Base64.Laws.{base64url_decode_iff}
use ckb_crypto_agile_account.Demo.Passkeys.{
  Scope, Registration, Assertion, CreationOptions, Credentials, Crypto, require_web_authn,
  read_registration, bytes_from_buffer, exported_key, raw_public_key_from_spki, derive_passkey_aux,
  creation_options, caught, read_assertion, register_passkey, request_assertion,
}
use ckb_crypto_agile_account.Demo.Passkeys.Asserted.{
  assertion_request, Outcome, request_assertion-Outcome,
}
use ckb_crypto_agile_account.Demo.Passkeys.Registered.{
  registration_request, IsRecordOf, register_passkey-request_assertion,
}
use ckb_crypto_agile_account.Tests.Sample.{sample_ckb}
use ckb_crypto_agile_account.Json.Patterns.{is_hash32, hex_bytes}
use ckb_crypto_agile_account.Tests.Prepared.{sample_passkey}
use ckb_crypto_agile_account.Tests.Spending.{sample_parsers, sample_key}

abbrev sample_id : Bytes
sample_id = 1 ∷ 2 ∷ 3 ∷ []

base64url_decode_iff_example :
    (base64url_decode (codes "AQID") ≡ ok sample_id)
    ↔ ((sample_id ≢ []) × All IsByte sample_id × (base64url sample_id ≡ codes "AQID"))
base64url_decode_iff_example = base64url_decode_iff (codes "AQID") sample_id

abbrev pub sample_scope : Scope
sample_scope = record {
  is_secure_context = true;
  has_public_key_credential = true;
  has_attestation_response = true;
  has_get_public_key = true;
}

-- A key is its bytes.
abbrev sample_crypto : Crypto Bytes
sample_crypto = record {
  random = λ call size. replicate size call;
  sha256 = λ bytes. ok (replicate 32 7);
  import_spki = λ spki. ok spki;
  export_raw = λ key. ok key;
}

abbrev sample_registration : Registration
sample_registration = record {
  credential_type = codes "public-key";
  id = codes "AQID";
  raw_id = some sample_id;
  get_public_key = some (ok (some sample_key));
}

abbrev sample_get : Assertion
sample_get = record {
  credential_type = codes "public-key";
  id = codes "AQID";
  raw_id = some sample_id;
  authenticator_data = some (replicate 37 1);
  client_data_json = some (1 ∷ []);
  signature = some (1 ∷ []);
}

abbrev sample_credentials : Credentials
sample_credentials = record {
  create = λ options. ok (some sample_registration);
  get = λ options. ok (some sample_get);
}

abbrev sample_time : Text
sample_time = codes "2026-01-01T00:00:00.000Z"

abbrev sample_registered : PasskeyRecord
sample_registered = record sample_passkey { credential_id = codes "AQID"; created_at = sample_time }

registered :
    register_passkey sample_ckb sample_parsers sample_scope sample_credentials sample_crypto
      sample_time
    ≡ ok sample_registered
unfolding register_passkey require_web_authn caught read_registration bytes_from_buffer exported_key
    raw_public_key_from_spki derive_passkey_aux creation_options base64url base64_char
    hex_from_bytes hex_digits hex_digit is_passkey_record is_base64url is_public_key is_hash32
    hex_bytes bytes_concat concat_length
registered = refl

sample_bytes : All IsByte sample_id
sample_bytes = (omega arith, (omega arith, (omega arith, tt)))

created_bytes :
    (options : CreationOptions) (created : Registration) (raw_id : Bytes)
    → sample_credentials.create options ≡ ok (some created)
    → created.raw_id ≡ some raw_id
    → All IsByte raw_id
created_bytes options created raw_id e has =
    let same : sample_registration ≡ created = cc e in
    let is : sample_id ≡ raw_id = cc (ap (λ (c : Registration). c.raw_id) same, has) in
    subst (All IsByte) is sample_bytes

register_passkey-request_assertion_example :
    (created : Registration) × (raw_id : Bytes) × (key : Bytes) × (sample_credentials.create
        (registration_request sample_crypto)
      ≡ ok (some created))
    × IsRecordOf sample_ckb sample_parsers sample_crypto sample_time created raw_id key
        sample_registered
    × (request_assertion sample_ckb sample_parsers sample_scope sample_credentials
          (replicate 32 9)
          sample_registered
        ≡ caught "Malformed passkey assertion response" (
            sample_credentials.get (assertion_request (replicate 32 9) raw_id)
            >>= read_assertion sample_registered))
register_passkey-request_assertion_example =
    register_passkey-request_assertion sample_ckb sample_parsers sample_crypto sample_time
      sample_scope sample_credentials created_bytes sample_registered (replicate 32 9) registered
      refl

request_assertion-Outcome_example :
    Outcome sample_ckb sample_parsers sample_credentials
      (replicate 32 9)
      sample_registered
      sample_scope
      (request_assertion sample_ckb sample_parsers sample_scope sample_credentials
        (replicate 32 9)
        sample_registered)
request_assertion-Outcome_example =
    request_assertion-Outcome sample_ckb sample_parsers sample_credentials (replicate 32 9)
      sample_registered sample_scope
