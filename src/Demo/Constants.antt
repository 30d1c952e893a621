-- ===== src/Demo/Constants.antt =====
-- demo/src/shared/constants.ts
use ckb_crypto_agile_account.Common.{ℕ, ◌*◌, Text, codes}

abbrev pub client_origin : Text
client_origin = codes "http://localhost:5173"

abbrev pub rp_id : Text
rp_id = codes "localhost"

abbrev pub api_port : ℕ
api_port = 8790

abbrev pub shannons_per_ckb : ℕ
shannons_per_ckb = 100_000_000

abbrev pub initial_asset : ℕ
initial_asset = 200 * shannons_per_ckb

abbrev pub transfer_capacity : ℕ
transfer_capacity = 100 * shannons_per_ckb

abbrev pub fee_rate : ℕ
fee_rate = 1000

abbrev pub op_spend : ℕ
op_spend = 1
