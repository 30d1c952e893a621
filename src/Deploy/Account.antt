-- ===== src/Deploy/Account.antt =====
-- tools/deploy/src/account.ts: the scripts of an account, and the check of the transaction that
-- creates it.
pub mod Consistency
use ckb_crypto_agile_account.Common.{
  ℕ, ◌+◌, ◌-◌, ◌≡◌, Bool, true, false, not, ◌&&◌, ◌||◌, List, [], ◌∷◌, ◌++◌, Option, none, some,
  ltb, leb, ◌==◌, if◌then◌else◌, length, map, codes, Text, text_eq, Result, ok, err, ◌>>=◌, ◌>>◌,
  throw_if,
}
use ckb_crypto_agile_account.Failure.{Failure, Throws, error}
use ckb_crypto_agile_account.Ccc.{
  Ccc, HashType, by_type, by_data, by_data1, by_data2, Script, CellInput, CellOutput, Transaction,
}

abbrev pub type_id_code_hash : Text
type_id_code_hash = codes "0x00000000000000000000000000000000000000000000000000545950455f4944"

abbrev pub account_lock_version : ℕ
account_lock_version = 1

-- `typeIdScript`
unfoldable pub type_id_script : Text → Script
type_id_script type_id_args = record {
  code_hash = type_id_code_hash;
  hash_type = by_type;
  args = type_id_args;
}

-- `toLowerCase` on the letters that a hex text can hold.
unfoldable pub to_lower : Text → Text
to_lower [] = []
to_lower (c ∷ t) = (if leb b'A' c && leb c b'Z' then c + 32 else c) ∷ to_lower t

-- `sameHex`
unfoldable pub same_hex : Text → Text → Bool
same_hex left right = text_eq (to_lower left) (to_lower right)

abbrev pub is_data2 : HashType → Bool
is_data2 by_data2 = true
is_data2 _ = false

module _ (ccc : Ccc) where
  -- `accountIdFromTypeIdArgs`
  unfoldable pub account_id_from_type_id_args : Text → Text
  account_id_from_type_id_args type_id_args = ccc.script_hash (type_id_script type_id_args)

  -- `accountLockArgs`: the version byte and the 32 bytes of the identity.
  unfoldable pub account_lock_args : Text → Throws Text
  account_lock_args account_id = do
    id ← ccc.bytes_from account_id
    throw_if (not (length id == 32)) (error "account id must be 32 bytes")
    ok (ccc.hex_from (account_lock_version ∷ id))

  -- `accountLockScript`
  unfoldable pub account_lock_script : Text → Text → Throws Script
  account_lock_script code_hash account_id = do
    args ← account_lock_args account_id
    ok (record { code_hash = code_hash; hash_type = by_data2; args = args })

-- The loop over the outputs behind the first two.
unfoldable pub check_foreign : Text → List CellOutput → Throws (Unit {0})
check_foreign account_lock_code_hash [] = ok tt
check_foreign account_lock_code_hash (output ∷ outputs) = do
  throw_if (same_hex output.lock.code_hash account_lock_code_hash)
      (error "unexpected AccountLock output")
  check_foreign account_lock_code_hash outputs

-- A round of the loop over the first two outputs.
unfoldable pub check_lock : Text → Text → CellOutput → Throws (Unit {0})
check_lock account_lock_code_hash expected_args output = do
  throw_if (not (same_hex output.lock.code_hash account_lock_code_hash))
      (error "output lock code hash is not AccountLock")
  throw_if (not (is_data2 output.lock.hash_type)) (error "output lock hash type must be data2")
  throw_if (not (same_hex output.lock.args expected_args))
      (error "output lock args do not commit to the account id")

-- `tx.outputsData[0] ?? "0x"`
abbrev pub first_data : List Text → Text
first_data [] = codes "0x"
first_data (d ∷ ds) = d

module _ (ccc : Ccc) (tx : Transaction) (account_lock_code_hash expected_state_data : Text) where
  -- The checks on the outputs, with the type script of the first.
  unfoldable pub check_outputs :
      CellInput → CellOutput → CellOutput → List CellOutput → Script → Throws (Unit {0})
  check_outputs input state asset others state_type = do
    throw_if (not (same_hex state_type.args (ccc.hash_type_id input 0)))
        (error "output 0 type id args do not match hashTypeId(inputs[0], 0)")
    throw_if (not (same_hex state_type.code_hash type_id_code_hash))
        (error "output 0 type code hash is not the consensus TYPE_ID script")
    expected_args ← account_lock_args ccc (ccc.script_hash state_type)
    check_foreign account_lock_code_hash others
    check_lock account_lock_code_hash expected_args state
    check_lock account_lock_code_hash expected_args asset
    throw_if (not (same_hex (first_data tx.outputs_data) expected_state_data))
        (error "output 0 state data does not match the encoded AccountStateV1 bytes")

  unfoldable pub check_shape : CellInput → List CellOutput → Throws (Unit {0})
  check_shape input (state ∷ asset ∷ others) = elim state.type_script [
    | none ↦ err (error "output 0 has no type script; the state cell needs a Type ID")
    | some state_type ↦ check_outputs input state asset others state_type
  ]
  check_shape input _ = err (error "creation transaction must have at least 2 outputs")

  -- `assertCreationConsistency`
  unfoldable pub assert_creation_consistency : Throws (Unit {0})
  assert_creation_consistency = elim tx.inputs [
    | [] ↦ err (error "creation transaction has no inputs")
    | input ∷ _ ↦ check_shape input tx.outputs
  ]
