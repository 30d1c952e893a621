-- ===== src/Protocol.antt =====
-- demo/src/shared/protocol.ts: the bytes of proofs and witnesses, and what a passkey signs.
pub mod Prefixed
pub mod Digest
use ckb_crypto_agile_account.Common.{
  ℕ, zero, suc, ◌+◌, ◌-◌, ◌*◌, ◌/◌, ◌%◌, ◌^◌, ◌≤◌, ◌<◌, ◌≡◌, Bool, true, false, not, ◌&&◌, ◌||◌,
  List, [], ◌∷◌, ◌++◌, Option, none, some, ltb, leb, ◌==◌, if◌then◌else◌, length, get_elem?, concat,
  map, codes, String, Result, ok, err, ◌>>=◌, ◌>>◌, throw_if, All,
}
use ckb_crypto_agile_account.Failure.{Failure, Throws, type_error, range_error}
use ckb_crypto_agile_account.Bytes.{
  Bytes, Number, nat, not_nat, ℤ, pos, negsuc, u16le, u32le, u64le, bytes_concat, hex_from_bytes,
}

abbrev pub account_witness_magic : Bytes
account_witness_magic = 0x43 ∷ 0x4b ∷ 0x41 ∷ 0x57 ∷ []

abbrev pub account_witness_version : ℕ
account_witness_version = 1

abbrev pub account_witness_max_lock_len : ℕ
account_witness_max_lock_len = 131072

abbrev pub authenticator_max_count : ℕ
authenticator_max_count = 16

abbrev pub auth_domain : Bytes
auth_domain = codes "CKB_ACCOUNT_LOCK_V1"

pub record P256ProofInput : Type 0 where
  pub public_key : Bytes
  pub origin : Bytes
  pub authenticator_data : Bytes
  pub client_data_json : Bytes
  pub signature : Bytes

pub record Proof : Type 0 where
  pub slot : Number
  pub bytes : Bytes

-- `bytes[i] === value`, false out of range.
abbrev pub byte_is : Bytes → ℕ → ℕ → Bool
byte_is bytes i value = elim (get_elem? bytes i) [ none ↦ false | some b ↦ b == value ]

-- `requireOperation`
unfoldable pub require_operation : ℕ → Throws (Unit {0})
require_operation operation =
    throw_if (not (operation == 1) && (not (operation == 2) && not (operation == 3)))
      (range_error "operation")

-- `requireLength`
unfoldable pub require_length : Bytes → ℕ → String → Throws (Unit {0})
require_length bytes size label = throw_if (not (length bytes == size)) (range_error label)

-- The checks at the head of `encodeP256Proof`.
unfoldable pub check_p256_proof : P256ProofInput → Throws (Unit {0})
check_p256_proof input = do
  throw_if (not (length input.public_key == 65) || not (byte_is input.public_key 0 0x04))
      (type_error "P-256 public key must be uncompressed SEC1")
  throw_if (length input.origin == 0 || ltb 0xff (length input.origin))
      (range_error "origin length")
  throw_if (ltb (length input.authenticator_data) 37) (range_error "authenticator data length")
  throw_if (length input.client_data_json == 0 || length input.signature == 0)
      (range_error "empty P-256 proof field")

-- `encodeP256Proof`
unfoldable pub encode_p256_proof : P256ProofInput → Throws Bytes
encode_p256_proof input = do
  check_p256_proof input
  authenticator_len ← u16le (nat (length input.authenticator_data))
  client_len ← u16le (nat (length input.client_data_json))
  signature_len ← u16le (nat (length input.signature))
  bytes_concat (
      input.public_key
      ∷ (length input.origin % 256 ∷ [])
      ∷ input.origin
      ∷ authenticator_len
      ∷ input.authenticator_data
      ∷ client_len
      ∷ input.client_data_json
      ∷ signature_len
      ∷ input.signature
      ∷ [])

-- `proof.slot <= previousSlot`, with `none` for the initial -1.
abbrev pub not_above : ℕ → Option ℕ → Bool
not_above slot none = false
not_above slot (some previous) = leb slot previous

-- One round of the loop of `encodeAccountWitness`, at a slot that is an integer of sixteen bits.
unfoldable pub encode_proof : ℕ → Bytes → Option ℕ → Throws Bytes
encode_proof slot bytes previous = do
  throw_if (not_above slot previous) (type_error "proof slots must be unique and ascending")
  throw_if (length bytes == 0) (range_error "empty proof")
  slot_bytes ← u16le (nat slot)
  len_bytes ← u32le (nat (length bytes))
  bytes_concat (slot_bytes ∷ (0 ∷ 0 ∷ []) ∷ len_bytes ∷ bytes ∷ [])

-- `proof.slot` as an integer from 0 to 0xffff.
unfoldable pub proof_slot : Number → Throws ℕ
proof_slot (nat n) = do throw_if (ltb 0xffff n) (range_error "proof slot"); ok n
proof_slot not_nat = err (range_error "proof slot")

-- The loop of `encodeAccountWitness`.
unfoldable pub encode_proofs : List Proof → Option ℕ → Throws (List Bytes)
encode_proofs [] previous = ok []
encode_proofs (proof ∷ proofs) previous = do
  slot ← proof_slot proof.slot
  first ← encode_proof slot proof.bytes previous
  rest ← encode_proofs proofs (some slot)
  ok (first ∷ rest)

-- The end of `encodeAccountWitness`, behind its loop.
unfoldable pub join_witness : ℕ → ℤ → ℕ → List Bytes → Throws Bytes
join_witness operation sequence count encoded_proofs = do
  sequence_bytes ← u64le sequence
  encoded ← bytes_concat (
      account_witness_magic
      ∷ (account_witness_version ∷ operation ∷ count ∷ 0 ∷ [])
      ∷ sequence_bytes
      ∷ encoded_proofs)
  throw_if (ltb account_witness_max_lock_len (length encoded))
      (range_error "AccountWitnessV1 length")
  ok encoded

-- `encodeAccountWitness`
unfoldable pub encode_account_witness : ℕ → ℤ → List Proof → Throws Bytes
encode_account_witness operation sequence proofs = do
  require_operation operation
  throw_if (ltb authenticator_max_count (length proofs)) (range_error "proof count")
  encoded_proofs ← encode_proofs proofs none
  join_witness operation sequence (length proofs) encoded_proofs

-- `lengthPrefixed`
unfoldable pub length_prefixed : Bytes → Throws Bytes
length_prefixed witness = do len ← u64le (pos (length witness)); bytes_concat (len ∷ witness ∷ [])

unfoldable pub length_prefixed_all : List Bytes → Throws (List Bytes)
length_prefixed_all [] = ok []
length_prefixed_all (w ∷ ws) = do
  first ← length_prefixed w
  rest ← length_prefixed_all ws
  ok (first ∷ rest)

-- The concatenation that `groupSighash` hashes.
unfoldable pub join_group : Bytes → Bytes → List Bytes → List Bytes → Throws Bytes
join_group tx_hash canonical others extra_witnesses = do
  first_prefixed ← length_prefixed canonical
  others_prefixed ← length_prefixed_all others
  extra_prefixed ← length_prefixed_all extra_witnesses
  bytes_concat (tx_hash ∷ first_prefixed ∷ (others_prefixed ++ extra_prefixed))

pub record WitnessArgs : Type 0 where
  pub lock : Option Bytes
  pub input_type : Option Bytes
  pub output_type : Option Bytes

-- What protocol.ts takes of `@ckb-ccc/core`: the CKB hash, and the codec of `WitnessArgs`, which
-- reads back the table that it wrote.
pub record Ckb : Type 0 where
  pub hash_ckb : Bytes → Bytes
  pub witness_args_from_bytes : Bytes → Throws WitnessArgs
  pub witness_args_to_bytes : WitnessArgs → Bytes
  pub witness_args_from_bytes-witness_args_to_bytes :
      (w : WitnessArgs) → witness_args_from_bytes (witness_args_to_bytes w) ≡ ok w

pub record AuthorizationInput : Type 0 where
  pub operation : ℕ
  pub account_id : Bytes
  pub sequence : ℤ
  pub state : Bytes
  pub group_sighash : Bytes

module _ (ckb : Ckb) where
  -- `ckbHash`
  unfoldable pub ckb_hash : Bytes → Bytes
  ckb_hash input = ckb.hash_ckb input

  -- What `groupSighash` hashes.
  unfoldable pub group_preimage : Bytes → List Bytes → List Bytes → Throws Bytes
  group_preimage tx_hash [] extra_witnesses = do
    require_length tx_hash 32 "transaction hash"
    err (range_error "missing group witness")
  group_preimage tx_hash (first_bytes ∷ others) extra_witnesses = do
    require_length tx_hash 32 "transaction hash"
    first ← ckb.witness_args_from_bytes first_bytes
    let canonical = ckb.witness_args_to_bytes (record first { lock = some [] })
    join_group tx_hash canonical others extra_witnesses

  -- `groupSighash`
  unfoldable pub group_sighash : Bytes → List Bytes → List Bytes → Throws Bytes
  group_sighash tx_hash group_witnesses extra_witnesses = do
    preimage ← group_preimage tx_hash group_witnesses extra_witnesses
    ok (ckb_hash preimage)

  -- What `authorizationDigest` hashes.
  unfoldable pub authorization_preimage : AuthorizationInput → Throws Bytes
  authorization_preimage input = do
    require_operation input.operation
    require_length input.account_id 32 "account ID"
    require_length input.group_sighash 32 "group sighash"
    sequence_bytes ← u64le input.sequence
    bytes_concat (
        auth_domain
        ∷ (input.operation ∷ [])
        ∷ input.account_id
        ∷ sequence_bytes
        ∷ ckb_hash input.state
        ∷ input.group_sighash
        ∷ [])

  -- `authorizationDigest`
  unfoldable pub authorization_digest : AuthorizationInput → Throws Bytes
  authorization_digest input = do preimage ← authorization_preimage input; ok (ckb_hash preimage)

  -- `packAccountWitness`: the lock travels as hex, which names the same bytes.
  unfoldable pub pack_account_witness : Bytes → Bytes
  pack_account_witness witness =
      ckb.witness_args_to_bytes
        (record { lock = some witness; input_type = none; output_type = none })

  -- `unpackAccountWitness`
  unfoldable pub unpack_account_witness : Bytes → Throws Bytes
  unpack_account_witness witness_args = do
    args ← ckb.witness_args_from_bytes witness_args
    elim args.lock [ none ↦ err (type_error "WitnessArgs lock is absent") | some lock ↦ ok lock ]
