-- ===== src/Deploy/Artifacts.antt =====
-- tools/deploy/src/artifacts.ts: the identities of the release binaries, and the capacity of cells.
use ckb_crypto_agile_account.Common.{
  ℕ, String, ◌+◌, ◌*◌, Bool, true, false, not, ◌||◌, List, [], ◌∷◌, Option, none, some, Text,
  text_eq, ok, err, ◌>>=◌, ◌>>◌, throw_if,
}
use ckb_crypto_agile_account.Failure.{Throws, error}
use ckb_crypto_agile_account.Bytes.{Bytes, Number, nat, not_nat}

abbrev pub shannons_per_ckb : ℕ
shannons_per_ckb = 100_000_000

abbrev pub secp256k1_lock_args_length : ℕ
secp256k1_lock_args_length = 20

-- CAPACITY_FIELD_BYTES
abbrev pub capacity_field_bytes : ℕ
capacity_field_bytes = 8

-- SCRIPT_FIXED_BYTES
abbrev pub script_fixed_bytes : ℕ
script_fixed_bytes = 33

pub record ArtifactIdentity : Type 0 where
  pub name : Text
  pub path : Text
  pub data_hash : Text

pub record VerifiedArtifact : Type 0 where
  pub identity : ArtifactIdentity
  pub bytes : Bytes

-- `Number.isInteger(value) && value >= 0`, or the error with the label.
abbrev pub require_nat : Number → String → Throws ℕ
require_nat (nat n) label = ok n
require_nat not_nat label = err (error label)

-- The bytes of a type script, zero for `null`.
unfoldable pub type_bytes : Option Number → Throws ℕ
type_bytes none = ok 0
type_bytes (some args_length) = do
  n ← require_nat args_length "invalid type args length"
  ok (script_fixed_bytes + n)

-- `cellCapacityShannons`
unfoldable pub cell_capacity_shannons : Number → Option Number → Number → Throws ℕ
cell_capacity_shannons lock_args_length type_args_length data_length = do
  lock_args ← require_nat lock_args_length "invalid lock args length"
  size ← require_nat data_length "invalid data length"
  type_part ← type_bytes type_args_length
  ok ((capacity_field_bytes + script_fixed_bytes + lock_args + type_part + size) * shannons_per_ckb)

-- `codeCellCapacityShannons`
unfoldable pub code_cell_capacity_shannons : Number → Number → Throws ℕ
code_cell_capacity_shannons data_length lock_args_length =
    cell_capacity_shannons lock_args_length none data_length

-- An entry of `local.artifacts`; a missing field and an empty one are refused alike.
pub record LocalEntry : Type 0 where
  pub path : Text
  pub data_hash : Text

pub record LocalManifest : Type 0 where
  pub artifacts : Option (List (Text × LocalEntry))

abbrev pub is_empty : Text → Bool
is_empty [] = true
is_empty (c ∷ t) = false

-- The loop over the entries.
unfoldable pub identities_of : List (Text × LocalEntry) → Throws (List ArtifactIdentity)
identities_of [] = ok []
identities_of ((name, entry) ∷ rest) = do
  throw_if (is_empty entry.path || is_empty entry.data_hash)
      (error "artifact is missing path or data_hash")
  others ← identities_of rest
  ok (record { name = name; path = entry.path; data_hash = entry.data_hash } ∷ others)

-- `readLocalArtifactIdentities`, of the manifest that was read.
unfoldable pub read_local_artifact_identities : LocalManifest → Throws (List ArtifactIdentity)
read_local_artifact_identities manifest = elim manifest.artifacts [
  | none ↦ err (error "manifest has no local.artifacts section")
  | some artifacts ↦ identities_of artifacts
]

-- The files of the repository, and the CKB hash of `@ckb-ccc/core`.
pub record Host : Type 0 where
  pub local_manifest : LocalManifest
  pub read_file : Text → Throws Bytes
  pub hash_ckb : Bytes → Text

module _ (host : Host) where
  -- `ckbDataHash`
  unfoldable pub ckb_data_hash : Bytes → Text
  ckb_data_hash content = host.hash_ckb content

  -- What `loadVerifiedArtifact` reads; any error of the read becomes its own.
  unfoldable pub read_artifact : Text → Throws Bytes
  read_artifact path = elim (host.read_file path) [
    | ok content ↦ ok content
    | err e ↦ err (error "cannot read artifact")
  ]

  -- `loadVerifiedArtifact`
  unfoldable pub load_verified_artifact : ArtifactIdentity → Throws VerifiedArtifact
  load_verified_artifact identity = do
    content ← read_artifact identity.path
    throw_if (not (text_eq (ckb_data_hash content) identity.data_hash)) (error "data hash mismatch")
    ok (record { identity = identity; bytes = content })
