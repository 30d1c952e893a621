-- ===== src/Ccc.antt =====
-- What the repository takes of `@ckb-ccc/core`: the shapes of scripts, cells and transactions, and
-- the library's functions as a parameter. Hex strings are texts, amounts (bigint) are numbers.
use ckb_crypto_agile_account.Common.{ℕ, Bool, true, ◌≡◌, ◌↔◌, Option, List, Text}
use ckb_crypto_agile_account.Failure.{Throws}
use ckb_crypto_agile_account.Bytes.{Bytes}

pub data HashType : Type 0 where
  by_type by_data by_data1 by_data2 : HashType

pub record Script : Type 0 where
  pub code_hash : Text
  pub hash_type : HashType
  pub args : Text

pub record OutPoint : Type 0 where
  pub tx_hash : Text
  pub index : ℕ

pub record CellInput : Type 0 where
  pub previous_output : OutPoint
  pub since : ℕ

-- A cell dep of dep type "code".
pub record CellDep : Type 0 where
  pub out_point : OutPoint

pub record CellOutput : Type 0 where
  pub capacity : ℕ
  pub lock : Script
  pub type_script : Option Script

pub record Cell : Type 0 where
  pub out_point : OutPoint
  pub cell_output : CellOutput
  pub output_data : Text

pub record Transaction : Type 0 where
  pub cell_deps : List CellDep
  pub inputs : List CellInput
  pub outputs : List CellOutput
  pub outputs_data : List Text
  pub witnesses : List Text

-- `Script.eq` and `OutPoint.eq` tell whether two values are the same one.
pub record Ccc : Type 0 where
  pub hash_ckb : Bytes → Text
  pub bytes_from : Text → Throws Bytes
  pub hex_from : Bytes → Text
  pub script_hash : Script → Text
  pub hash_type_id : CellInput → ℕ → Text
  pub script_eq : Script → Script → Bool
  pub script_eq_iff : (s t : Script) → (script_eq s t ≡ true) ↔ (s ≡ t)
  pub out_point_eq : OutPoint → OutPoint → Bool
  pub out_point_eq_iff : (o p : OutPoint) → (out_point_eq o p ≡ true) ↔ (o ≡ p)
  pub transaction_hash : Transaction → Text
  pub occupied_size : CellOutput → ℕ
  pub estimate_fee : Transaction → ℕ → ℕ
