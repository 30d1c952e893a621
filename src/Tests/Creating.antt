-- ===== src/Tests/Creating.antt =====
-- tools/deploy/src/account.ts and tools/deploy/src/bootstrap-lib.ts on a creation.
use ckb_crypto_agile_account.Common.{
  true, false, text_eq_of_eq, List, All, refl, ◌≡◌, ◌↔◌, none, some, [], ◌∷◌, ◌++◌, replicate,
  codes, ok,
}
use ckb_crypto_agile_account.Bytes.{
  pos, nat, hex_from_bytes, hex_digits, hex_digit, bytes_from_hex, bytes_from_digits, hex_pairs,
  hex_value,
}
use ckb_crypto_agile_account.Json.Patterns.{is_hash32, hex_bytes}
use ckb_crypto_agile_account.Deploy.Artifacts.{cell_capacity_shannons, type_bytes}
use ckb_crypto_agile_account.Deploy.Bootstrap.Created.{
  written_manifest, Completion, completed, creation, bootstrap_account-created,
}
use ckb_crypto_agile_account.Tests.Spending.{funder_script}
use ckb_crypto_agile_account.Ccc.{by_data2, Script, CellInput, CellOutput, Transaction}
use ckb_crypto_agile_account.Deploy.Account.{
  type_id_script, to_lower, account_lock_args, assert_creation_consistency,
}
use ckb_crypto_agile_account.Deploy.Account.Consistency.{
  SameHex, IsCreation, assert_creation_consistency_iff,
}
use ckb_crypto_agile_account.Deploy.Manifest.{record_to_json, manifest_to_json}
use ckb_crypto_agile_account.Deploy.Bootstrap.{
  BootstrapOptions, Capacities, positive_ckb, validate_options, code_hash_of,
  account_lock_code_hash, or_null, placeholder_32, World, Network, Creation, AccountManifest,
  bootstrap_account,
}
use ckb_crypto_agile_account.Deploy.Bootstrap.Options.{IsFunded, validate_options_iff}
use ckb_crypto_agile_account.Deploy.Bootstrap.Sent.{Outcome, bootstrap_account-Outcome}
use ckb_crypto_agile_account.Tests.Sample.{sample_ccc, hash_of}

abbrev sample_options : BootstrapOptions
sample_options = record { state_data = 1 ∷ 2 ∷ 3 ∷ []; asset_capacity_ckb = pos 200 }

abbrev sample_capacities : Capacities
sample_capacities = record { state_capacity = 14_200_000_000; asset_capacity = 20_000_000_000 }

validate_options_iff_example :
    (validate_options sample_options ≡ ok sample_capacities)
    ↔ IsFunded sample_options sample_capacities
validate_options_iff_example = validate_options_iff sample_options sample_capacities

abbrev sample_lock : Script
sample_lock = record {
  code_hash = hash_of b'a';
  hash_type = by_data2;
  args = codes "0x01" ++ replicate 64 b'1';
}

abbrev pub sample_creation : Transaction
sample_creation = record {
  cell_deps = [];
  inputs =
      record { previous_output = record { tx_hash = hash_of b'c'; index = 0 }; since = 0 } ∷ [];
  outputs =
      record {
        capacity = 14_200_000_000;
        lock = sample_lock;
        type_script = some (type_id_script (hash_of b'2'));
      }
      ∷ record { capacity = 20_000_000_000; lock = sample_lock; type_script = none }
      ∷ [];
  outputs_data = codes "0x010203" ∷ codes "0x" ∷ [];
  witnesses = [];
}

assert_creation_consistency_iff_example :
    (assert_creation_consistency sample_ccc sample_creation (hash_of b'a') (codes "0x010203")
      ≡ ok tt)
    ↔ IsCreation sample_ccc (hash_of b'a') (codes "0x010203") sample_creation
assert_creation_consistency_iff_example =
    assert_creation_consistency_iff sample_ccc sample_creation (hash_of b'a') (codes "0x010203")

-- A wallet with one cell, and a chain that confirms what it is sent.
abbrev pub sample_network : Network
sample_network = record {
  complete_inputs = λ tx. ok (record tx { inputs = sample_creation.inputs });
  complete_fee = λ tx rate. ok tx;
  send_transaction = λ tx. ok (hash_of b'd');
  wait_transaction = λ tx_hash. ok tt;
}

abbrev pub sample_world : World
sample_world = record {
  account_file = none;
  deployments_file = some (
      manifest_to_json (record {
        note = codes "note";
        artifacts =
            (
              codes "account_lock",
              record_to_json (record {
                name = codes "account_lock";
                data_hash = hash_of b'a';
                hash_type = codes "data2";
                tx_hash = hash_of b'b';
                index = nat 0;
                capacity_shannons = codes "1";
              }),
            )
            ∷ [];
      }));
  sent = [];
}

bootstrap_account-Outcome_example :
    Outcome sample_ccc sample_network sample_options sample_world
      (bootstrap_account sample_ccc sample_network sample_options sample_world)
bootstrap_account-Outcome_example =
    bootstrap_account-Outcome sample_ccc sample_network sample_options sample_world

abbrev paid_change : List CellOutput
paid_change = record { capacity = 1000; lock = funder_script; type_script = none } ∷ []

abbrev paid_inputs : Completion
paid_inputs = record {
  cell_deps = [];
  inputs = sample_creation.inputs;
  outputs = [];
  outputs_data = [];
  witnesses = [];
}

-- The change with its data, and a witness to be signed.
abbrev paid_fee : Completion
paid_fee = record {
  cell_deps = [];
  inputs = [];
  outputs = paid_change;
  outputs_data = codes "0x" ∷ [];
  witnesses = codes "0x00" ∷ [];
}

-- A wallet that pays with one cell and takes its change.
abbrev paying_network : Network
paying_network = record sample_network {
  complete_inputs = λ tx. ok (completed paid_inputs tx);
  complete_fee = λ tx rate. ok (completed paid_fee tx);
}

abbrev first_input : CellInput
first_input = record { previous_output = record { tx_hash = hash_of b'c'; index = 0 }; since = 0 }

sample_valid : validate_options sample_options ≡ ok sample_capacities
unfolding validate_options positive_ckb cell_capacity_shannons type_bytes
sample_valid = refl

sample_published :
    account_lock_code_hash (or_null sample_world.deployments_file) ≡ ok (hash_of b'a')
unfolding account_lock_code_hash code_hash_of is_hash32 hex_bytes
sample_published = refl

placeholder_bound :
    account_lock_args sample_ccc placeholder_32 ≡ ok (codes "0x01" ++ replicate 64 b'0')
unfolding account_lock_args bytes_from_hex bytes_from_digits hex_pairs hex_value hex_from_bytes
    hex_digits hex_digit
placeholder_bound = refl

identity_bound :
    account_lock_args sample_ccc (hash_of b'1') ≡ ok (codes "0x01" ++ replicate 64 b'1')
unfolding account_lock_args bytes_from_hex bytes_from_digits hex_pairs hex_value hex_from_bytes
    hex_digits hex_digit
identity_bound = refl

differ : SameHex (hash_of b'f') (hash_of b'a') → ⊥
unfolding to_lower
differ e =
    let same : false ≡ true = text_eq_of_eq (to_lower (hash_of b'f')) (to_lower (hash_of b'a')) e in
    cc same

change_foreign :
    All (λ (o : CellOutput). ¬ SameHex o.lock.code_hash (hash_of b'a')) ([] ++ paid_change)
unfolding to_lower
change_foreign = (differ, tt)

-- What the wallet and the network make of it.
abbrev sample_made : Creation
sample_made =
    creation sample_ccc paying_network sample_options sample_world sample_capacities (hash_of b'a')
      (codes "0x01" ++ replicate 64 b'0') (codes "0x01" ++ replicate 64 b'1') (hash_of b'd')
      first_input (record paid_inputs { inputs = [] }) paid_fee

abbrev paid_manifest : AccountManifest
paid_manifest =
    written_manifest sample_ccc paying_network sample_options sample_world sample_capacities
      (hash_of b'a') (codes "0x01" ++ replicate 64 b'0') (codes "0x01" ++ replicate 64 b'1')
      (hash_of b'd') first_input (record paid_inputs { inputs = [] }) paid_fee

bootstrap_account-created_example :
    bootstrap_account sample_ccc paying_network sample_options sample_world ≡ (
      ok (paid_manifest),
      record sample_world { sent = sample_made.tx ∷ []; account_file = some (paid_manifest) },
    )
bootstrap_account-created_example =
    bootstrap_account-created sample_ccc paying_network sample_options sample_world
      sample_capacities (hash_of b'a') (codes "0x01" ++ replicate 64 b'0')
      (codes "0x01" ++ replicate 64 b'1') (hash_of b'd') first_input
      (record paid_inputs { inputs = [] }) paid_fee sample_valid refl sample_published
      placeholder_bound identity_bound change_foreign refl refl refl refl
