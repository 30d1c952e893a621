-- ===== src/Demo/State.antt =====
-- demo/src/client/chain.ts: the account's state, read from the data of its cell.
pub mod Shape
use ckb_crypto_agile_account.Common.{
  ℕ, ◌+◌, ◌-◌, ◌*◌, Bool, false, not, ◌||◌, [], ◌∷◌, ◌++◌, Option, none, some, ltb, ◌==◌, length,
  take, drop, Text, text_eq, codes, ok, ◌>>=◌, ◌>>◌, throw_if,
}
use ckb_crypto_agile_account.Failure.{Throws, type_error, range_error}
use ckb_crypto_agile_account.Bytes.{Bytes, bytes_from_hex, hex_from_bytes}
use ckb_crypto_agile_account.Protocol.{byte_is}
use ckb_crypto_agile_account.Ccc.{Ccc, Script, OutPoint, Cell}
use ckb_crypto_agile_account.Demo.Manifests.{VerifiedAccount}

abbrev pub state_header_bytes : ℕ
state_header_bytes = 32

abbrev pub state_entry_bytes_without_variable_data : ℕ
state_entry_bytes_without_variable_data = 48

abbrev pub expected_rp_id_hash : Text
expected_rp_id_hash = codes "49960de5880e8c687434170f6476605b8fe4aeb9a28632c7995cf3ba831d9763"

abbrev pub expected_origin_hash : Text
expected_origin_hash = codes "4e90ec8f9d9b8d5bd3877ac003797738ff48419fcf8f97821a875ea4671955b6"

pub record ParsedState : Type 0 where
  pub sequence : ℕ
  pub key_id : Bytes

-- `view.getUint16(i, true)` and `view.getBigUint64(i, true)` inside the data's bounds.
abbrev pub u16_from : Bytes → ℕ
u16_from (a ∷ b ∷ rest) = a + b * 256
u16_from _ = 0

abbrev pub u16_at : Bytes → ℕ → ℕ
u16_at data_bytes i = u16_from (drop i data_bytes)

abbrev pub little_endian : Bytes → ℕ
little_endian [] = 0
little_endian (b ∷ bs) = b + 256 * little_endian bs

abbrev pub u64_at : Bytes → ℕ → ℕ
u64_at data_bytes i = little_endian (take 8 (drop i data_bytes))

-- The checks of `parseAccountState` on the state's header.
unfoldable pub check_header : Bytes → VerifiedAccount → Throws (Unit {0})
check_header data_bytes account = do
  throw_if
      (not (length data_bytes == account.manifest.state_bytes)
        || ltb (length data_bytes) state_header_bytes)
      (type_error "Live account state data length does not match the manifest")
  throw_if (not (text_eq (take 4 data_bytes) (codes "CKAS")) || not (byte_is data_bytes 4 1))
      (type_error "Live account state data has an unsupported header")
  throw_if
      (not (byte_is data_bytes 5 1)
        || (not (u16_at data_bytes 6 == state_header_bytes)
            || (not (u16_at data_bytes 16 == 1)
                || (not (u16_at data_bytes 18 == 1)
                    || (not (u16_at data_bytes 20 == 1)
                        || (not (byte_is data_bytes 22 1)
                            || (not (byte_is data_bytes 23 0)
                                || not (u64_at data_bytes 24 == 0))))))))
      (type_error "Live account state data does not match the supported account profile")

-- The condition under which the one authenticator's entry is not supported.
unfoldable pub is_unsupported_entry : Bytes → Bool
is_unsupported_entry data_bytes =
    let entry_length = u16_at data_bytes 32 in
    let key_id_length = u16_at data_bytes 76 in
    let aux_length = u16_at data_bytes 78 in
    not (entry_length == length data_bytes - state_header_bytes)
    || (not (entry_length == state_entry_bytes_without_variable_data + key_id_length + aux_length)
        || (not (u16_at data_bytes 34 == 0)
            || (not (u16_at data_bytes 36 == 1)
                || (not (u16_at data_bytes 38 == 7)
                    || (not (u16_at data_bytes 40 == 1)
                        || (not (byte_is data_bytes 42 0)
                            || (not (byte_is data_bytes 43 1)
                                || (not (key_id_length == 32) || not (aux_length == 65)))))))))

-- The checks on the entry. A read behind the end of the data throws.
unfoldable pub check_entry : Bytes → VerifiedAccount → Throws (Unit {0})
check_entry data_bytes account = do
  throw_if (ltb (length data_bytes) 80) (range_error "Offset is outside the bounds of the DataView")
  let key_id_length = u16_at data_bytes 76
  throw_if (is_unsupported_entry data_bytes)
      (type_error "Live account state authenticator is not the supported P-256 profile")
  throw_if
      (not (
        text_eq (hex_from_bytes (take 32 (drop 44 data_bytes)))
          account.deployment.verifier_p256_code.code_hash))
      (type_error "Live account state verifier does not match the deployment")
  throw_if
      (not (
        text_eq (drop 2 (hex_from_bytes (drop (80 + key_id_length) data_bytes)))
          (codes "01" ++ expected_rp_id_hash ++ expected_origin_hash)))
      (type_error "Live account state data has an unexpected WebAuthn binding")

-- `parseAccountState`
unfoldable pub parse_account_state : Text → VerifiedAccount → Throws ParsedState
parse_account_state data_hex account = do
  data_bytes ← bytes_from_hex data_hex
  check_header data_bytes account
  check_entry data_bytes account
  ok (record {
    sequence = u64_at data_bytes 8;
    key_id = take (u16_at data_bytes 76) (drop 80 data_bytes);
  })

module _ (ccc : Ccc) where
  -- `sameOutPoint`
  unfoldable pub same_out_point : Cell → OutPoint → Bool
  same_out_point cell value = ccc.out_point_eq cell.out_point value

  -- `type !== undefined && type.eq(expected)`
  abbrev pub type_is : Option Script → Script → Bool
  type_is none expected = false
  type_is (some s) expected = ccc.script_eq s expected

  -- `verifyStateCell`
  unfoldable pub verify_state_cell : Cell → VerifiedAccount → Throws ParsedState
  verify_state_cell state account = do
    throw_if (not (same_out_point state account.manifest.state_out_point))
        (type_error "Live state outpoint does not match the account manifest")
    throw_if (not (ccc.script_eq state.cell_output.lock account.account_lock))
        (type_error "Live state lock does not match AccountLock")
    throw_if (not (type_is state.cell_output.type_script account.state_type))
        (type_error "Live state Type ID script does not match the account")
    parse_account_state state.output_data account
