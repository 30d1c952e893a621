-- ===== src/Deploy/Bootstrap.antt =====
-- tools/deploy/src/bootstrap-lib.ts: the creation of an account.
pub mod Options
pub mod Sent
pub mod Created
use ckb_crypto_agile_account.Common.{
  ℕ, zero, suc, ◌+◌, ◌*◌, ◌≡◌, Bool, true, false, not, ◌&&◌, ◌||◌, List, [], ◌∷◌, ◌++◌, Option,
  none, some, ltb, ◌==◌, if◌then◌else◌, length, replicate, codes, Text, text_eq, Result, ok, err,
  ◌>>=◌, ◌>>◌, throw_if,
}
use ckb_crypto_agile_account.Failure.{Failure, Throws, error, type_error}
use ckb_crypto_agile_account.Bytes.{Bytes, Number, nat, not_nat, ℤ, pos, negsuc}
use ckb_crypto_agile_account.Json.{
  Json, null, bool, num, str, arr, obj, Fields, end, field, get_field,
}
use ckb_crypto_agile_account.Json.Patterns.{is_hash32}
use ckb_crypto_agile_account.Ccc.{Ccc, Script, OutPoint, CellInput, CellOutput, Transaction}
use ckb_crypto_agile_account.Deploy.Artifacts.{cell_capacity_shannons, shannons_per_ckb}
use ckb_crypto_agile_account.Deploy.Account.{
  type_id_script, account_lock_script, assert_creation_consistency,
}
use ckb_crypto_agile_account.Deploy.Manifest.{is_one, is_true, str_is}

abbrev pub account_lock_args_length : ℕ
account_lock_args_length = 33

abbrev pub type_id_args_length : ℕ
type_id_args_length = 32

abbrev pub bootstrap_fee_rate : ℕ
bootstrap_fee_rate = 1200

-- PLACEHOLDER_32
abbrev pub placeholder_32 : Text
placeholder_32 = codes "0x" ++ replicate 64 b'0'

pub record BootstrapOptions : Type 0 where
  pub state_data : Bytes
  pub asset_capacity_ckb : ℤ

pub record Capacities : Type 0 where
  pub state_capacity : ℕ
  pub asset_capacity : ℕ

-- `assetCapacityCkb`, if it is positive.
unfoldable pub positive_ckb : ℤ → Throws ℕ
positive_ckb (pos (suc n)) = ok (suc n)
positive_ckb _ = err (error "asset capacity must be a positive whole number of CKB")

-- `validateOptions`
unfoldable pub validate_options : BootstrapOptions → Throws Capacities
validate_options options = do
  throw_if (length options.state_data == 0) (error "AccountStateV1 state data is required")
  ckb ← positive_ckb options.asset_capacity_ckb
  state_capacity ←
      cell_capacity_shannons (nat account_lock_args_length) (some (nat type_id_args_length))
        (nat (length options.state_data))
  minimum_asset ← cell_capacity_shannons (nat account_lock_args_length) none (nat 0)
  throw_if (ltb (ckb * shannons_per_ckb) minimum_asset)
      (error "asset capacity is below the AccountLock cell minimum")
  ok (record { state_capacity = state_capacity; asset_capacity = ckb * shannons_per_ckb })

-- `value?.name` of a value that was read
abbrev pub field_of : Text → Option Json → Option Json
field_of name (some (obj fields)) = get_field name fields
field_of name _ = none

-- `typeof manifest !== "object" || manifest === null`
abbrev pub is_no_object : Json → Bool
is_no_object (obj fields) = false
is_no_object (arr items) = false
is_no_object _ = true

-- The hash if the test of `accountLockCodeHash` accepts it.
unfoldable pub code_hash_of : Option Json → Throws Text
code_hash_of (some (str t)) =
    if is_hash32 t
    then ok t
    else err (error "testnet deployment manifest has no verified data2 AccountLock")
code_hash_of _ = err (error "testnet deployment manifest has no verified data2 AccountLock")

-- `accountLockCodeHash`
unfoldable pub account_lock_code_hash : Json → Throws Text
account_lock_code_hash manifest = do
  let root = some manifest
  let account_lock = field_of (codes "account_lock") (field_of (codes "artifacts") root)
  throw_if (is_no_object manifest) (error "testnet deployment manifest is missing")
  throw_if
      (not (is_one (field_of (codes "schema_version") root))
        || (not (str_is (field_of (codes "network") root) (codes "testnet"))
            || (not (is_true (field_of (codes "published") root))
                || (not (str_is (field_of (codes "hash_type") root) (codes "data2"))
                    || not (str_is (field_of (codes "hashType") account_lock) (codes "data2"))))))
      (error "testnet deployment manifest has no verified data2 AccountLock")
  code_hash_of (field_of (codes "dataHash") account_lock)

pub record AccountManifest : Type 0 where
  pub account_id : Text
  pub code_hash : Text
  pub lock_args : Text
  pub type_id_args : Text
  pub state_out_point : OutPoint
  pub asset_out_point : OutPoint
  pub state_bytes : ℕ

-- `readJsonOrNull`, null where there is no file
abbrev pub or_null : Option Json → Json
or_null none = null
or_null (some value) = value

-- The two files of deploy/, none where there is none, and the transactions that were sent, the last
-- first. A file that is written holds the manifest.
pub record World : Type 0 where
  pub account_file : Option AccountManifest
  pub deployments_file : Option Json
  pub sent : List Transaction

-- The wallet and the network of `BootstrapDeps`.
pub record Network : Type 0 where
  pub complete_inputs : Transaction → Throws Transaction
  pub complete_fee : Transaction → ℕ → Throws Transaction
  pub send_transaction : Transaction → Throws Text
  pub wait_transaction : Text → Throws (Unit {0})

-- A creation that passed its check, before it is sent.
pub record Creation : Type 0 where
  pub tx : Transaction
  pub account_id : Text
  pub code_hash : Text
  pub type_id_args : Text

-- `tx.outputs[0].lock.args`
abbrev pub first_lock_args : List CellOutput → Text
first_lock_args [] = []
first_lock_args (o ∷ os) = o.lock.args

abbrev pub is_some : Option AccountManifest → Bool
is_some none = false
is_some (some m) = true

module _ (ccc : Ccc) (network : Network) where
  -- The outputs with their placeholders.
  unfoldable pub draft : Text → Capacities → Text → Throws Transaction
  draft code_hash capacities state_hex = do
    lock ← account_lock_script ccc code_hash placeholder_32
    ok (record {
      cell_deps = [];
      inputs = [];
      outputs =
          record {
            capacity = capacities.state_capacity;
            lock = lock;
            type_script = some (type_id_script placeholder_32);
          }
          ∷ record { capacity = capacities.asset_capacity; lock = lock; type_script = none }
          ∷ [];
      outputs_data = state_hex ∷ codes "0x" ∷ [];
      witnesses = [];
    })

  -- The identity put in place of the placeholders, once the inputs are known.
  unfoldable pub bind_identity : Script → Text → List CellOutput → Throws (List CellOutput)
  bind_identity state_type code_hash (state ∷ asset ∷ others) = do
    lock ← account_lock_script ccc code_hash (ccc.script_hash state_type)
    ok (
        record state { lock = lock; type_script = some state_type }
        ∷ record asset { lock = lock }
        ∷ others)
  bind_identity state_type code_hash _ = err (type_error "undefined output")

  unfoldable pub first_input : Transaction → Throws CellInput
  first_input tx = elim tx.inputs [
    | [] ↦ err (error "input collection returned no cells")
    | input ∷ _ ↦ ok input
  ]

  -- `bootstrapAccount` up to the check of the transaction.
  unfoldable pub create : BootstrapOptions → World → Throws Creation
  create options w = do
    capacities ← validate_options options
    throw_if (is_some w.account_file) (error "deploy/testnet-account.json already exists")
    code_hash ← account_lock_code_hash (or_null w.deployments_file)
    let state_hex = ccc.hex_from options.state_data
    drafted ← draft code_hash capacities state_hex
    funded ← network.complete_inputs drafted
    input ← first_input funded
    let state_type = type_id_script (ccc.hash_type_id input 0)
    outputs ← bind_identity state_type code_hash funded.outputs
    tx ← network.complete_fee (record funded { outputs = outputs }) bootstrap_fee_rate
    assert_creation_consistency ccc tx code_hash state_hex
    ok (record {
      tx = tx;
      account_id = ccc.script_hash state_type;
      code_hash = code_hash;
      type_id_args = ccc.hash_type_id input 0;
    })

  abbrev pub manifest_of : BootstrapOptions → Creation → Text → AccountManifest
  manifest_of options c tx_hash = record {
    account_id = c.account_id;
    code_hash = c.code_hash;
    lock_args = first_lock_args c.tx.outputs;
    type_id_args = c.type_id_args;
    state_out_point = record { tx_hash = tx_hash; index = 0 };
    asset_out_point = record { tx_hash = tx_hash; index = 1 };
    state_bytes = length options.state_data;
  }

  -- What follows the check: the transaction is sent and awaited, then the manifest is written.
  unfoldable pub send_creation :
      BootstrapOptions → Creation → World → Throws AccountManifest × World
  send_creation options c w = elim (network.send_transaction c.tx) [
    | err e ↦ (err e, w)
    | ok tx_hash ↦
        let sent : World = record w { sent = c.tx ∷ w.sent } in
        elim (network.wait_transaction tx_hash) [
          | err e ↦ (err e, sent)
          | ok _ ↦
              let manifest = manifest_of options c tx_hash in
              (ok manifest, record sent { account_file = some manifest })
        ]
  ]

  -- `bootstrapAccount`
  unfoldable pub bootstrap_account : BootstrapOptions → World → Throws AccountManifest × World
  bootstrap_account options w = elim (create options w) [
    | err e ↦ (err e, w)
    | ok c ↦ send_creation options c w
  ]
