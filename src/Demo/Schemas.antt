-- ===== src/Demo/Schemas.antt =====
-- demo/src/shared/schemas.ts: the shapes of the manifests and records, and the tests that their
-- schemas make. The parsers of zod are a parameter: they answer only what passes these tests.
use ckb_crypto_agile_account.Common.{
  ℕ, ◌≡◌, Bool, true, false, ◌&&◌, ◌||◌, [], ◌∷◌, Option, none, some, leb, ◌==◌, length, take, drop,
  Text, text_eq, codes, ok,
}
use ckb_crypto_agile_account.Failure.{Throws}
use ckb_crypto_agile_account.Json.{Json}
use ckb_crypto_agile_account.Json.Patterns.{
  all, is_digit, is_hex_lower, is_hash32, is_positive_decimal,
}
use ckb_crypto_agile_account.Ccc.{OutPoint}

-- `/^(0|[1-9][0-9]*)$/`
unfoldable pub is_decimal : Text → Bool
is_decimal t = text_eq t (codes "0") || is_positive_decimal t

abbrev pub is_base64url_char : ℕ → Bool
is_base64url_char c =
    leb b'A' c && leb c b'Z'
    || (leb b'a' c && leb c b'z' || (is_digit c || (c == b'_' || c == b'-')))

-- `/^[A-Za-z0-9_-]+$/`
unfoldable pub is_base64url : Text → Bool
is_base64url [] = false
is_base64url (c ∷ t) = is_base64url_char c && all is_base64url_char t

-- `/^0x04[0-9a-f]{128}$/`
unfoldable pub is_public_key : Text → Bool
is_public_key t =
    text_eq (take 4 t) (codes "0x04") && (length (drop 4 t) == 128 && all is_hex_lower (drop 4 t))

-- `/^0x01[0-9a-f]{64}$/`
unfoldable pub is_account_lock_args : Text → Bool
is_account_lock_args t =
    text_eq (take 4 t) (codes "0x01") && (length (drop 4 t) == 64 && all is_hex_lower (drop 4 t))

pub record DeploymentArtifact : Type 0 where
  pub data_hash : Text
  pub tx_hash : Text
  pub index : ℕ
  pub capacity_shannons : Text

-- `DeploymentArtifactSchema`, beside its literals
unfoldable pub is_deployment_artifact : DeploymentArtifact → Bool
is_deployment_artifact a =
    is_hash32 a.data_hash && (is_hash32 a.tx_hash && is_decimal a.capacity_shannons)

pub record DeploymentManifest : Type 0 where
  pub account_lock : DeploymentArtifact
  pub verifier_p256 : DeploymentArtifact

-- `DeploymentManifestSchema`, beside its literals
unfoldable pub is_deployment_manifest : DeploymentManifest → Bool
is_deployment_manifest m =
    is_deployment_artifact m.account_lock && is_deployment_artifact m.verifier_p256

pub record AccountManifest : Type 0 where
  pub account_id : Text
  pub code_hash : Text
  pub lock_args : Text
  pub type_id_args : Text
  pub state_out_point : OutPoint
  pub asset_out_point : OutPoint
  pub state_bytes : ℕ

-- The `superRefine` of `AccountManifestSchema`
unfoldable pub refine_account : AccountManifest → Bool
refine_account m = text_eq (drop 4 m.lock_args) (drop 2 m.account_id)

-- `AccountManifestSchema`, beside its literals
unfoldable pub is_account_manifest : AccountManifest → Bool
is_account_manifest m =
    is_hash32 m.account_id
    && (is_hash32 m.code_hash
        && (is_account_lock_args m.lock_args
            && (is_hash32 m.type_id_args
                && (is_hash32 m.state_out_point.tx_hash
                    && (is_hash32 m.asset_out_point.tx_hash
                        && (leb 1 m.state_bytes && refine_account m))))))

pub record PasskeyRecord : Type 0 where
  pub credential_id : Text
  pub public_key : Text
  pub key_id : Text
  pub created_at : Text

-- `PasskeyRecordSchema`, beside its literals and the date
unfoldable pub is_passkey_record : PasskeyRecord → Bool
is_passkey_record r =
    is_base64url r.credential_id && (is_public_key r.public_key && is_hash32 r.key_id)

pub record BootstrapRequest : Type 0 where
  pub public_key : Text
  pub credential_id : Text

-- `BootstrapRequestSchema`
unfoldable pub is_bootstrap_request : BootstrapRequest → Bool
is_bootstrap_request r = is_public_key r.public_key && is_base64url r.credential_id

pub record DemoStatus : Type 0 where
  pub deployment_verified : Bool
  pub deployment : DeploymentManifest
  pub funder_address : Text
  pub funder_balance_shannons : Text
  pub account : Option AccountManifest

unfoldable pub is_nullable_account : Option AccountManifest → Bool
is_nullable_account none = true
is_nullable_account (some m) = is_account_manifest m

-- `DemoStatusSchema`, beside its literals
unfoldable pub is_demo_status : DemoStatus → Bool
is_demo_status s =
    is_deployment_manifest s.deployment
    && (leb 1 (length s.funder_address)
        && (leb (length s.funder_address) 200
            && (is_decimal s.funder_balance_shannons && is_nullable_account s.account)))

-- `safeParse` of the schemas, none where it does not succeed, and `parse` of the one for passkeys,
-- which changes no field.
pub record Parsers : Type 0 where
  pub deployment : Json → Option DeploymentManifest
  pub deployment_valid :
      (v : Json) (m : DeploymentManifest) → deployment v ≡ some m → is_deployment_manifest m ≡ true
  pub account : Json → Option AccountManifest
  pub account_valid :
      (v : Json) (m : AccountManifest) → account v ≡ some m → is_account_manifest m ≡ true
  pub bootstrap_request : Json → Option BootstrapRequest
  pub bootstrap_request_valid :
      (v : Json) (r : BootstrapRequest)
      → bootstrap_request v ≡ some r
      → is_bootstrap_request r ≡ true
  pub status : Json → Option DemoStatus
  pub status_valid : (v : Json) (s : DemoStatus) → status v ≡ some s → is_demo_status s ≡ true
  pub passkey : PasskeyRecord → Throws PasskeyRecord
  pub passkey_valid :
      (r s : PasskeyRecord) → passkey r ≡ ok s → (s ≡ r) × (is_passkey_record r ≡ true)
