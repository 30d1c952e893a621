-- ===== src/Deploy/Bootstrap/Created.antt =====
-- `bootstrapAccount` of tools/deploy/src/bootstrap-lib.ts with a wallet and a network that do their part.
use ckb_crypto_agile_account.Common.{
  ◌≡◌, refl, List, [], ◌∷◌, ◌++◌, none, some, Text, codes, ok, length, All,
}
use ckb_crypto_agile_account.Ccc.{
  Ccc, by_data2, by_type, Script, CellDep, CellInput, CellOutput, Transaction,
}
use ckb_crypto_agile_account.Deploy.Account.{
  type_id_script, account_lock_args, account_lock_script, assert_creation_consistency,
}
use ckb_crypto_agile_account.Deploy.Account.Consistency.{SameHex, assert_creation_consistency_iff}
use ckb_crypto_agile_account.Deploy.Bootstrap.{
  BootstrapOptions, Capacities, validate_options, account_lock_code_hash, or_null, placeholder_32,
  World, Network, Creation, AccountManifest, draft, bind_identity, first_input, create,
  send_creation, bootstrap_account,
}

-- What the wallet appends to a transaction, and the witnesses that it leaves there.
pub record Completion : Type 0 where
  pub cell_deps : List CellDep
  pub inputs : List CellInput
  pub outputs : List CellOutput
  pub outputs_data : List Text
  pub witnesses : List Text

abbrev pub completed : Completion → Transaction → Transaction
completed c tx = record {
  cell_deps = tx.cell_deps ++ c.cell_deps;
  inputs = tx.inputs ++ c.inputs;
  outputs = tx.outputs ++ c.outputs;
  outputs_data = tx.outputs_data ++ c.outputs_data;
  witnesses = c.witnesses;
}

-- The wallet funds the transaction with an input in front of others, and pays the fee, where the change
-- has data of its own.
module _ (ccc : Ccc) (network : Network) (options : BootstrapOptions) (w : World)
    (capacities : Capacities) (code_hash placeholder_args args tx_hash : Text) (input : CellInput)
    (funds fees : Completion) where
  abbrev state_type : Script
  state_type = record {
    code_hash = codes "0x00000000000000000000000000000000000000000000000000545950455f4944";
    hash_type = by_type;
    args = ccc.hash_type_id input 0;
  }

  abbrev account_lock : Script
  account_lock = record { code_hash = code_hash; hash_type = by_data2; args = args }

  -- The transaction that is sent.
  abbrev pub creation_transaction : Transaction
  creation_transaction = record {
    cell_deps = funds.cell_deps ++ fees.cell_deps;
    inputs = input ∷ (funds.inputs ++ fees.inputs);
    outputs =
        record {
          capacity = capacities.state_capacity;
          lock = account_lock;
          type_script = some state_type;
        }
        ∷ record { capacity = capacities.asset_capacity; lock = account_lock; type_script = none }
        ∷ (funds.outputs ++ fees.outputs);
    outputs_data =
        ccc.hex_from options.state_data ∷ codes "0x" ∷ (funds.outputs_data ++ fees.outputs_data);
    witnesses = fees.witnesses;
  }

  abbrev pub creation : Creation
  creation = record {
    tx = creation_transaction;
    account_id = ccc.script_hash state_type;
    code_hash = code_hash;
    type_id_args = ccc.hash_type_id input 0;
  }

  -- The manifest of the account.
  abbrev pub written_manifest : AccountManifest
  written_manifest = record {
    account_id = ccc.script_hash state_type;
    code_hash = code_hash;
    lock_args = args;
    type_id_args = ccc.hash_type_id input 0;
    state_out_point = record { tx_hash = tx_hash; index = 0 };
    asset_out_point = record { tx_hash = tx_hash; index = 1 };
    state_bytes = length options.state_data;
  }

  consistent :
      account_lock_args ccc (ccc.script_hash state_type) ≡ ok args
      → All
          (λ (o : CellOutput). ¬ SameHex o.lock.code_hash code_hash)
          (funds.outputs ++ fees.outputs)
      → assert_creation_consistency ccc creation_transaction code_hash
          (ccc.hex_from options.state_data)
        ≡ ok tt
  unfolding type_id_script
  consistent identity foreign =
      (assert_creation_consistency_iff ccc creation_transaction code_hash
          (ccc.hex_from options.state_data)).1
        (record {
          input = input;
          more_inputs = funds.inputs ++ fees.inputs;
          state = _;
          asset = _;
          others = funds.outputs ++ fees.outputs;
          state_type = state_type;
          args = args;
          inputs = refl;
          outputs = refl;
          typed = refl;
          type_args = refl;
          type_code = refl;
          identity = identity;
          state_locked = record { code = refl; kind = refl; bound = refl };
          asset_locked = record { code = refl; kind = refl; bound = refl };
          foreign = foreign;
          stored = refl;
        })

  -- The transaction with its placeholders.
  abbrev pub drafted : Transaction
  drafted =
      let lock : Script = record {
        code_hash = code_hash;
        hash_type = by_data2;
        args = placeholder_args;
      } in
      record {
        cell_deps = [];
        inputs = [];
        outputs =
            record {
              capacity = capacities.state_capacity;
              lock = lock;
              type_script = some (type_id_script placeholder_32);
            }
            ∷ record { capacity = capacities.asset_capacity; lock = lock; type_script = none }
            ∷ [];
        outputs_data = ccc.hex_from options.state_data ∷ codes "0x" ∷ [];
        witnesses = [];
      }

  -- The transaction with its identity, before the fee.
  abbrev pub bound : Transaction
  bound = record {
    cell_deps = funds.cell_deps;
    inputs = input ∷ funds.inputs;
    outputs =
        record {
          capacity = capacities.state_capacity;
          lock = account_lock;
          type_script = some state_type;
        }
        ∷ record { capacity = capacities.asset_capacity; lock = account_lock; type_script = none }
        ∷ funds.outputs;
    outputs_data = ccc.hex_from options.state_data ∷ codes "0x" ∷ funds.outputs_data;
    witnesses = funds.witnesses;
  }

  create-creation :
      validate_options options ≡ ok capacities
      → w.account_file ≡ none
      → account_lock_code_hash (or_null w.deployments_file) ≡ ok code_hash
      → account_lock_args ccc placeholder_32 ≡ ok placeholder_args
      → account_lock_args ccc (ccc.script_hash state_type) ≡ ok args
      → All
          (λ (o : CellOutput). ¬ SameHex o.lock.code_hash code_hash)
          (funds.outputs ++ fees.outputs)
      → network.complete_inputs drafted
        ≡ ok (completed (record funds { inputs = input ∷ funds.inputs }) drafted)
      → network.complete_fee bound 1200 ≡ ok (completed fees bound)
      → create ccc network options w ≡ ok creation
  unfolding create type_id_script draft bind_identity first_input account_lock_script
  create-creation valid fresh deployed placeholder identity foreign pays pays_fee =
      let funded : Transaction =
        completed (record funds { inputs = input ∷ funds.inputs }) drafted in
      let paid : network.complete_inputs drafted ≡ ok funded = pays in
      let done : network.complete_fee bound 1200 ≡ ok creation_transaction = pays_fee in
      rw (valid, fresh, deployed, placeholder, paid, identity, done, consistent identity foreign)

  -- An account is created when the options are valid, no account is on file and AccountLock is
  -- published, the wallet completes the drafted transaction with its inputs and then the one with the
  -- identity with the fee, each time appending what it likes but cells behind AccountLock and leaving what
  -- witnesses it likes, and the network takes the transaction and confirms it: the transaction that is sent locks both cells to the Type
  -- ID of the wallet's first input, and the answer is the manifest that is then on file.
  pub bootstrap_account-created :
      validate_options options ≡ ok capacities
      → w.account_file ≡ none
      → account_lock_code_hash (or_null w.deployments_file) ≡ ok code_hash
      → account_lock_args ccc placeholder_32 ≡ ok placeholder_args
      → account_lock_args ccc (ccc.script_hash state_type) ≡ ok args
      → All
          (λ (o : CellOutput). ¬ SameHex o.lock.code_hash code_hash)
          (funds.outputs ++ fees.outputs)
      → network.complete_inputs drafted
        ≡ ok (completed (record funds { inputs = input ∷ funds.inputs }) drafted)
      → network.complete_fee bound 1200 ≡ ok (completed fees bound)
      → network.send_transaction creation_transaction ≡ ok tx_hash
      → network.wait_transaction tx_hash ≡ ok tt
      → bootstrap_account ccc network options w ≡ (
        ok (written_manifest),
        record w { sent = creation_transaction ∷ w.sent; account_file = some (written_manifest) },
      )
  unfolding bootstrap_account send_creation
  bootstrap_account-created valid fresh deployed placeholder identity foreign pays pays_fee sends
        waits =
      let made = create-creation valid fresh deployed placeholder identity foreign pays pays_fee in
      rw (bootstrap_account, made, send_creation, sends, waits)
