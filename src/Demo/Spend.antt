-- ===== src/Demo/Spend.antt =====
-- demo/src/client/chain.ts: the transaction that spends the account's asset, and what is signed.
pub mod Committed
pub mod Conserved
use ckb_crypto_agile_account.Common.{
  ℕ, zero, suc, ◌+◌, ◌-◌, ◌*◌, ◌≡◌, Bool, true, false, not, ◌&&◌, ◌||◌, List, [], ◌∷◌, ◌++◌, Option,
  none, some, ltb, leb, ◌==◌, length, replicate, String, Text, text_eq, codes, Result, ok, err,
  ◌>>=◌, ◌>>◌, throw_if,
}
use ckb_crypto_agile_account.Failure.{Failure, Throws, type_error, range_error}
use ckb_crypto_agile_account.Bytes.{Bytes, nat, pos, bytes_from_hex, hex_from_bytes}
use ckb_crypto_agile_account.Protocol.{
  P256ProofInput, Proof, encode_p256_proof, encode_account_witness, Ckb, ckb_hash, group_sighash,
  authorization_digest, pack_account_witness,
}
use ckb_crypto_agile_account.Ccc.{Ccc, Script, OutPoint, CellOutput, Cell, Transaction}
use ckb_crypto_agile_account.Demo.Constants.{
  client_origin, shannons_per_ckb, transfer_capacity, fee_rate, op_spend,
}
use ckb_crypto_agile_account.Demo.Schemas.{PasskeyRecord, Parsers}
use ckb_crypto_agile_account.Demo.Manifests.{VerifiedAccount}
use ckb_crypto_agile_account.Demo.State.{ParsedState, parse_account_state}
use ckb_crypto_agile_account.Demo.Discover.{SpendClient, AccountCells, discover_account_cells}

abbrev pub max_authenticator_data_bytes : ℕ
max_authenticator_data_bytes = 1024

abbrev pub max_client_data_bytes : ℕ
max_client_data_bytes = 2048

abbrev pub max_der_signature_bytes : ℕ
max_der_signature_bytes = 72

abbrev pub min_authenticator_data_bytes : ℕ
min_authenticator_data_bytes = 37

pub data DependencyName : Type 0 where
  account_lock verifier_p256 account_state : DependencyName

pub record Dependency : Type 0 where
  pub name : DependencyName
  pub out_point : OutPoint

-- Amounts stay numbers here; the program prints them in decimal.
pub record SpendReview : Type 0 where
  pub input_capacity : ℕ
  pub transfer : ℕ
  pub change_capacity : ℕ
  pub fee : ℕ
  pub funder_address : Text
  pub input_out_point : OutPoint
  pub dependencies : List Dependency

pub record PrepareSpendInput : Type 0 where
  pub account : VerifiedAccount
  pub funder_address : Text
  pub passkey : PasskeyRecord

pub record PreparedSpend : Type 0 where
  pub transaction : Transaction
  pub digest : Bytes
  pub review : SpendReview
  pub max_witness_bytes : ℕ
  pub sequence : ℕ
  pub credential_id : Text
  pub public_key : Text
  pub account_id : Text
  pub state_data : Text

-- A witness of the spend that carries one proof, in the first slot.
unfoldable pub spend_witness : Ckb → ℕ → P256ProofInput → Throws Bytes
spend_witness ckb sequence input = do
  proof ← encode_p256_proof input
  witness ←
      encode_account_witness op_spend (pos sequence) (record { slot = nat 0; bytes = proof } ∷ [])
  ok (pack_account_witness ckb witness)

-- `maximumWitness`
unfoldable pub maximum_witness : Ckb → Bytes → ℕ → Throws Bytes
maximum_witness ckb public_key sequence = spend_witness ckb sequence (record {
  public_key = public_key;
  origin = client_origin;
  authenticator_data = replicate max_authenticator_data_bytes 0;
  client_data_json = replicate max_client_data_bytes 0;
  signature = 0x30 ∷ (max_der_signature_bytes - 2) ∷ replicate (max_der_signature_bytes - 2) 0;
})

-- The dependencies that the review shows.
unfoldable pub dependencies_of : VerifiedAccount → List Dependency
dependencies_of account =
    record { name = account_lock; out_point = account.deployment.account_lock_dep.out_point }
    ∷ record { name = verifier_p256; out_point = account.deployment.verifier_p256_dep.out_point }
    ∷ record { name = account_state; out_point = account.state_dep.out_point }
    ∷ []

module _ (ccc : Ccc) where
  -- `ensureOccupiedCapacity`
  unfoldable pub ensure_occupied_capacity : CellOutput → String → Throws (Unit {0})
  ensure_occupied_capacity output label =
      throw_if (ltb output.capacity (ccc.occupied_size output * shannons_per_ckb))
        (range_error label)

  abbrev pub plain_output : ℕ → Script → CellOutput
  plain_output capacity lock = record { capacity = capacity; lock = lock; type_script = none }

  -- The transaction, with the capacity of its change.
  unfoldable pub spend_transaction : VerifiedAccount → Cell → Script → ℕ → Bytes → Transaction
  spend_transaction account asset funder_lock change placeholder = record {
    cell_deps =
        account.deployment.account_lock_dep ∷ account.deployment.verifier_p256_dep
        ∷ account.state_dep ∷ [];
    inputs = record { previous_output = asset.out_point; since = 0 } ∷ [];
    outputs =
        plain_output transfer_capacity funder_lock ∷ plain_output change account.account_lock ∷ [];
    outputs_data = codes "0x" ∷ codes "0x" ∷ [];
    witnesses = hex_from_bytes placeholder ∷ [];
  }

  -- The fee that is paid, once it is known that the input covers it.
  unfoldable pub change_of : ℕ → ℕ → Throws ℕ
  change_of input_capacity fee = do
    throw_if (leb input_capacity (transfer_capacity + fee))
        (range_error "AccountLock asset cannot cover the fixed transfer and fee")
    ok (input_capacity - transfer_capacity - fee)

  -- The digest that the passkey signs for a transaction that is ready.
  unfoldable pub spend_digest :
      Ckb → VerifiedAccount → Transaction → Bytes → Text → ℕ → Throws Bytes
  spend_digest ckb account tx placeholder state_data sequence = do
    tx_hash ← ccc.bytes_from (ccc.transaction_hash tx)
    first_witness ← ccc.bytes_from (hex_from_bytes placeholder)
    sighash ← group_sighash ckb tx_hash (first_witness ∷ []) []
    account_id ← bytes_from_hex account.manifest.account_id
    state ← bytes_from_hex state_data
    authorization_digest ckb (record {
      operation = op_spend;
      account_id = account_id;
      sequence = pos sequence;
      state = state;
      group_sighash = sighash;
    })

  -- `prepareSpend` behind its checks of the passkey and the account's cells.
  unfoldable pub build_spend :
      Ckb
      → PrepareSpendInput
      → PasskeyRecord
      → Bytes
      → AccountCells
      → ParsedState
      → Script
      → Throws PreparedSpend
  build_spend ckb input passkey public_key cells parsed funder_lock = do
    let input_capacity = cells.asset.cell_output.capacity
    throw_if (leb input_capacity transfer_capacity)
        (range_error "AccountLock asset cannot cover the fixed transfer and fee")
    placeholder ← maximum_witness ckb public_key parsed.sequence
    let funded =
        spend_transaction input.account cells.asset funder_lock (input_capacity - transfer_capacity)
          placeholder
    let fee = ccc.estimate_fee funded fee_rate
    change ← change_of input_capacity fee
    let tx = spend_transaction input.account cells.asset funder_lock change placeholder
    ensure_occupied_capacity (plain_output transfer_capacity funder_lock)
        "Transfer output is below occupied capacity"
    ensure_occupied_capacity (plain_output change input.account.account_lock)
        "Change output is below occupied capacity"
    digest ← spend_digest ckb input.account tx placeholder cells.state.output_data parsed.sequence
    ok (record {
      transaction = tx;
      digest = digest;
      review = record {
        input_capacity = input_capacity;
        transfer = transfer_capacity;
        change_capacity = change;
        fee = fee;
        funder_address = input.funder_address;
        input_out_point = cells.asset.out_point;
        dependencies = dependencies_of input.account;
      };
      max_witness_bytes = length placeholder;
      sequence = parsed.sequence;
      credential_id = passkey.credential_id;
      public_key = passkey.public_key;
      account_id = input.account.manifest.account_id;
      state_data = cells.state.output_data;
    })

  -- `prepareSpend`
  unfoldable pub prepare_spend :
      Ckb → Parsers → SpendClient → PrepareSpendInput → Throws PreparedSpend
  prepare_spend ckb parsers client input = do
    passkey ← parsers.passkey input.passkey
    public_key ← bytes_from_hex passkey.public_key
    throw_if (not (text_eq (hex_from_bytes (ckb_hash ckb public_key)) passkey.key_id))
        (type_error "Stored passkey key ID does not match its public key")
    cells ← discover_account_cells ccc client input.account
    parsed ← parse_account_state cells.state.output_data input.account
    throw_if (not (text_eq (hex_from_bytes parsed.key_id) passkey.key_id))
        (type_error "Passkey does not match the live account state")
    funder_lock ← client.lock_of_address input.funder_address
    build_spend ckb input passkey public_key cells parsed funder_lock
