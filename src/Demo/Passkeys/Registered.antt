-- ===== src/Demo/Passkeys/Registered.antt =====
-- demo/src/client/passkey.ts: what a registered passkey can be asked for.
use ckb_crypto_agile_account.Common.{
  ◌≡◌, ◌≢◌, refl, sym, ap, ◌∙◌, subst, true, not, [], Option, none, some, ◌==◌, length, Text,
  text_eq, text_eq→eq, codes, ok, err, ◌>>=◌, >>=-eq-ok, throw_if->>-eq-ok, Result-cases,
  Option-cases, inl, inr, arith, All, String,
}
use ckb_crypto_agile_account.Failure.{Throws}
use ckb_crypto_agile_account.Bytes.{Bytes, negsuc, IsByte, hex_from_bytes}
use ckb_crypto_agile_account.Protocol.{Ckb, byte_is}
use ckb_crypto_agile_account.Demo.Schemas.{PasskeyRecord, is_passkey_record, is_base64url, Parsers}
use ckb_crypto_agile_account.Demo.Base64.{base64url, base64url_decode}
use ckb_crypto_agile_account.Demo.Base64.Laws.{base64url_decode_iff}
use ckb_crypto_agile_account.Demo.Passkeys.{
  Scope, Credentials, Crypto, CreationOptions, Registration, require_web_authn, bytes_from_buffer,
  caught, exported_key, raw_public_key_from_spki, derive_passkey_aux, creation_options,
  read_registration, register_passkey, read_assertion, request_options, request_assertion,
  challenge_bytes,
}
use ckb_crypto_agile_account.Demo.Passkeys.Asserted.{assertion_request, bytes_from_buffer-eq-ok}

caught-eq-ok :
    {A : Type 0} (message : String) (call : Throws A) (a : A)
    → caught message call ≡ ok a
    → call ≡ ok a
unfolding caught
caught-eq-ok message (ok b) a h = h
caught-eq-ok message (err e) a h = cc

-- The uncompressed form of a point of the curve.
pub record IsUncompressed (key : Bytes) : Type 0 where
  pub long : length key ≡ 65
  pub marked : byte_is key 0 0x04 ≡ true

raw_public_key_from_spki-IsUncompressed :
    {K : Type 0} (crypto : Crypto K) (spki key : Bytes)
    → raw_public_key_from_spki crypto spki ≡ ok key
    → (k : K) × (crypto.import_spki spki ≡ ok k)
      × (crypto.export_raw k ≡ ok key)
      × IsUncompressed key
unfolding raw_public_key_from_spki
raw_public_key_from_spki-IsUncompressed {K} crypto spki key h =
    elim (Result-cases (crypto.import_spki spki)) [
      | inr (e, bad) ↦ absurd (ground (arith, h, bad))
      | inl (k, good) ↦ elim (Result-cases (crypto.export_raw k)) [
        | inr (e, bad) ↦ absurd (ground (arith, h, good, bad))
        | inl (raw, fine) ↦
            let same : raw ≡ key = ground (arith, h, good, fine) in
            let is : IsUncompressed raw = record {
              long = ground (arith, h, good, fine);
              marked = ground (arith, h, good, fine);
            } in
            (k, good, fine ∙ ap ok same, subst IsUncompressed same is)
      ]
    ]

exported_key-IsUncompressed :
    {K : Type 0} (crypto : Crypto K) (created : Registration) (key : Bytes)
    → exported_key crypto created ≡ ok key
    → (spki : Bytes) × (k : K) × (created.get_public_key ≡ some (ok (some spki)))
      × (crypto.import_spki spki ≡ ok k)
      × (crypto.export_raw k ≡ ok key)
      × IsUncompressed key
unfolding exported_key
exported_key-IsUncompressed crypto created key h = elim (Option-cases created.get_public_key) [
  | inl bad ↦ absurd (ground (arith, h, bad))
  | inr (answer, has) ↦ elim (Result-cases answer) [
    | inr (e, bad) ↦ absurd (ground (arith, h, has, bad))
    | inl (spki, good) ↦ elim (Option-cases spki) [
      | inl bad ↦ absurd (ground (arith, h, has, good, bad))
      | inr (bytes, found) ↦
          let (k, imports, exports, is) =
            raw_public_key_from_spki-IsUncompressed crypto bytes key
              (ground (arith, h, has, good, found)) in
          (bytes, k, cc (has, good, found), imports, exports, is)
    ]
  ]
]

-- The credential ID of a valid record is not empty.
coded_some :
    (passkey : PasskeyRecord) (raw_id : Bytes)
    → is_passkey_record passkey ≡ true
    → passkey.credential_id ≡ base64url raw_id
    → raw_id ≢ []
unfolding is_passkey_record is_base64url base64url
coded_some passkey raw_id valid e empty =
    let nothing : passkey.credential_id ≡ [] = e ∙ ap base64url empty in
    let wrong : is_base64url [] ≡ true =
      subst (λ x. is_base64url x ≡ true) nothing (ground (arith, valid)) in
    absurd (cc wrong)

-- What the browser is asked to create: a credential of P-256 with SHA-256.
abbrev pub registration_request : {K : Type 0} → Crypto K → CreationOptions
registration_request crypto = record {
  challenge = crypto.random 0 32;
  rp_id = codes "localhost";
  user_id = crypto.random 1 32;
  alg = negsuc 6;
  user_verification = codes "required";
}

module _ (ckb : Ckb) (parsers : Parsers) {K : Type 0} (crypto : Crypto K) (now : Text) where
  -- What a record says of the credential that the browser created.
  pub record IsRecordOf (created : Registration) (raw_id key : Bytes) (passkey : PasskeyRecord)
      : Type 0 where
    pub identified : created.raw_id ≡ some raw_id
    pub public_key_credential : created.credential_type ≡ codes "public-key"
    pub same_id : created.id ≡ base64url raw_id
    pub spki : Bytes
    pub imported : K
    pub offered : created.get_public_key ≡ some (ok (some spki))
    pub imports : crypto.import_spki spki ≡ ok imported
    pub exports : crypto.export_raw imported ≡ ok key
    pub uncompressed : IsUncompressed key
    pub credential_id : passkey.credential_id ≡ base64url raw_id
    pub public_key : passkey.public_key ≡ hex_from_bytes key
    pub key_id : passkey.key_id ≡ hex_from_bytes (ckb.hash_ckb key)
    pub stable : parsers.passkey passkey ≡ ok passkey

  read_registration-IsRecordOf :
      (answer : Option Registration) (passkey : PasskeyRecord)
      → read_registration ckb parsers crypto now answer ≡ ok passkey
      → (created : Registration) × (raw_id : Bytes) × (key : Bytes) × (answer ≡ some created)
        × IsRecordOf created raw_id key passkey
  unfolding read_registration
  read_registration-IsRecordOf none passkey h = absurd (ground (arith, h))
  read_registration-IsRecordOf (some c) passkey h =
      let (typed, h1) =
        throw_if->>-eq-ok (not (text_eq c.credential_type (codes "public-key"))) _ _ h in
      let (raw, e2, h2) = >>=-eq-ok (bytes_from_buffer c.raw_id _) _ h1 in
      let (fits, h3) = throw_if->>-eq-ok (not (text_eq c.id (base64url raw))) _ _ h2 in
      let (key, e4, h4) = >>=-eq-ok (exported_key crypto c) _ h3 in
      let (spki, imported, offered, imports, exports, uncompressed) =
        exported_key-IsUncompressed crypto c key e4 in
      let (aux, e5, h5) = >>=-eq-ok (derive_passkey_aux crypto) _ h4 in
      let (same, valid) = parsers.passkey_valid _ passkey h5 in
      let is : IsRecordOf c raw key passkey = record {
        identified = bytes_from_buffer-eq-ok c.raw_id _ raw e2;
        public_key_credential =
            text_eq→eq c.credential_type (codes "public-key") (ground (arith, typed));
        same_id = text_eq→eq c.id (base64url raw) (ground (arith, fits));
        spki = spki;
        imported = imported;
        offered = offered;
        imports = imports;
        exports = exports;
        uncompressed = uncompressed;
        credential_id = ap (λ (r : PasskeyRecord). r.credential_id) same;
        public_key = ap (λ (r : PasskeyRecord). r.public_key) same;
        key_id = ap (λ (r : PasskeyRecord). r.key_id) same;
        stable = ap parsers.passkey same ∙ h5;
      } in
      (c, raw, key, refl, is)

  module _ (scope : Scope) (credentials : Credentials) where
    register_passkey-IsRecordOf :
        (passkey : PasskeyRecord)
        → register_passkey ckb parsers scope credentials crypto now ≡ ok passkey
        → (created : Registration) × (raw_id : Bytes) × (key : Bytes) × (credentials.create
              (creation_options crypto)
            ≡ ok (some created))
          × IsRecordOf created raw_id key passkey
          × (require_web_authn scope ≡ ok tt)
    unfolding register_passkey
    register_passkey-IsRecordOf passkey h =
        let (t, e1, h1) = >>=-eq-ok (require_web_authn scope) _ h in
        let h2 = caught-eq-ok _ _ passkey h1 in
        let (answer, e3, h3) = >>=-eq-ok (credentials.create (creation_options crypto)) _ h2 in
        let (c, raw, key, e4, is) = read_registration-IsRecordOf answer passkey h3 in
        (c, raw, key, e3 ∙ ap ok e4, is, e1)

    request_assertion_of :
        (created : Registration) (raw_id key : Bytes) (passkey : PasskeyRecord) (challenge : Bytes)
        → IsRecordOf created raw_id key passkey
        → All IsByte raw_id
        → require_web_authn scope ≡ ok tt
        → length challenge ≡ challenge_bytes
        → request_assertion ckb parsers scope credentials challenge passkey
          ≡ caught "Malformed passkey assertion response"
              (credentials.get (assertion_request challenge raw_id) >>= read_assertion passkey)
    unfolding request_assertion request_options
    request_assertion_of created raw_id key passkey challenge is bytes fine long =
        let test : (length challenge == challenge_bytes) ≡ true = ground (arith, long) in
        let (same, valid) = parsers.passkey_valid passkey passkey is.stable in
        let decoded : base64url_decode passkey.credential_id ≡ ok raw_id =
          (base64url_decode_iff passkey.credential_id raw_id).1
            (coded_some passkey raw_id valid is.credential_id, bytes, sym is.credential_id) in
        rw (fine, test, is.stable, decoded)

    -- When the raw IDs that the browser answers are bytes, a record that registration answers is of
    -- the credential that the browser created of a challenge and a user handle of 32 random bytes each, with its ID and the uncompressed key that was imported
    -- and exported of it and with the hash of that key, and a request for an assertion with that record
    -- and a challenge of 32 bytes asks the browser for just that ID and that challenge on localhost, with
    -- the user verified, and reads its answer.
    pub register_passkey-request_assertion :
        (bytes : (options : CreationOptions) (created : Registration) (raw_id : Bytes)
          → credentials.create options ≡ ok (some created)
          → created.raw_id ≡ some raw_id
          → All IsByte raw_id)
        → (passkey : PasskeyRecord) (challenge : Bytes)
        → register_passkey ckb parsers scope credentials crypto now ≡ ok passkey
        → length challenge ≡ 32
        → (created : Registration) × (raw_id : Bytes) × (key : Bytes) × (credentials.create
              (registration_request crypto)
            ≡ ok (some created))
          × IsRecordOf created raw_id key passkey
          × (request_assertion ckb parsers scope credentials challenge passkey
              ≡ caught "Malformed passkey assertion response"
                  (credentials.get (assertion_request challenge raw_id) >>= read_assertion passkey))
    unfolding creation_options
    register_passkey-request_assertion bytes passkey challenge h long =
        let (c, raw, key, made, is, fine) = register_passkey-IsRecordOf passkey h in
        let answered =
          request_assertion_of c raw key passkey challenge is
            (bytes (creation_options crypto) c raw made is.identified) fine long in
        (c, raw, key, made, is, answered)
