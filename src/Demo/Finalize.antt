-- ===== src/Demo/Finalize.antt =====
-- demo/src/client/chain.ts: the assertion put in the witness of a prepared spend, and the spend sent
-- and confirmed.
pub mod Signed
pub mod Confirmed
use ckb_crypto_agile_account.Common.{
  ℕ, zero, suc, ◌+◌, ◌-◌, ◌*◌, ◌/◌, ◌%◌, ◌≡◌, Bool, true, false, not, ◌&&◌, ◌||◌, List, [], ◌∷◌,
  ◌++◌, Option, none, some, ltb, leb, ◌==◌, if◌then◌else◌, length, Text, text_eq, codes, Result, ok,
  err, ◌>>=◌, ◌>>◌, throw_if,
}
use ckb_crypto_agile_account.Failure.{Failure, Throws, type_error, range_error, timeout, foreign}
use ckb_crypto_agile_account.Bytes.{Bytes, bytes_from_hex, hex_from_bytes}
use ckb_crypto_agile_account.Protocol.{byte_is, Ckb}
use ckb_crypto_agile_account.Json.{Json, null, bool, obj, arr}
use ckb_crypto_agile_account.Json.Patterns.{is_hash32}
use ckb_crypto_agile_account.Ccc.{Ccc, OutPoint, CellOutput, Cell, Transaction}
use ckb_crypto_agile_account.Deploy.Bootstrap.{field_of, is_no_object}
use ckb_crypto_agile_account.Deploy.Manifest.{str_is}
use ckb_crypto_agile_account.Demo.Constants.{client_origin}
use ckb_crypto_agile_account.Demo.Schemas.{PasskeyRecord, Parsers}
use ckb_crypto_agile_account.Demo.Base64.{base64url}
use ckb_crypto_agile_account.Demo.Discover.{SpendClient, is_typed}
use ckb_crypto_agile_account.Demo.Spend.{
  PreparedSpend, spend_witness, max_authenticator_data_bytes, max_client_data_bytes,
  max_der_signature_bytes, min_authenticator_data_bytes,
}

pub record AssertionMaterial : Type 0 where
  pub credential_id : Text
  pub authenticator_data : Bytes
  pub client_data_json : Bytes
  pub signature : Bytes

-- `crossOrigin !== undefined && crossOrigin !== false`
abbrev pub is_cross_origin : Option Json → Bool
is_cross_origin none = false
is_cross_origin (some (bool false)) = false
is_cross_origin (some value) = true

-- `validateDerSignature`
unfoldable pub validate_der_signature : Bytes → Throws (Unit {0})
validate_der_signature signature =
    throw_if
      (ltb (length signature) 8
        || (ltb max_der_signature_bytes (length signature)
            || (not (byte_is signature 0 0x30)
                || not (byte_is signature 1 (length signature - 2)))))
      (type_error "Assertion signature is not bounded P-256 DER")

-- `validateClientData` behind the parsing of its bytes, none where that throws.
unfoldable pub validate_client_data : PreparedSpend → Option Json → Throws (Unit {0})
validate_client_data prepared none =
    err (type_error "Assertion client data is not valid UTF-8 JSON")
validate_client_data prepared (some value) = do
  throw_if (is_no_object value) (type_error "Assertion client data is malformed")
  throw_if
      (not (str_is (field_of (codes "type") (some value)) (codes "webauthn.get"))
        || (not (str_is (field_of (codes "challenge") (some value)) (base64url prepared.digest))
            || (not (str_is (field_of (codes "origin") (some value)) client_origin)
                || is_cross_origin (field_of (codes "crossOrigin") (some value)))))
      (type_error "Assertion client data does not authorize this transaction")

-- The checks of `finalizeSpend` on the assertion, with what its client data parses to.
unfoldable pub check_assertion :
    PreparedSpend → PasskeyRecord → AssertionMaterial → Option Json → Throws (Unit {0})
check_assertion prepared passkey assertion parsed = do
  throw_if
      (not (text_eq assertion.credential_id prepared.credential_id)
        || (not (text_eq passkey.credential_id prepared.credential_id)
            || not (text_eq passkey.public_key prepared.public_key)))
      (type_error "Assertion credential does not match the prepared spend")
  throw_if
      (ltb (length assertion.authenticator_data) min_authenticator_data_bytes
        || ltb max_authenticator_data_bytes (length assertion.authenticator_data))
      (range_error "Assertion authenticator data is outside supported bounds")
  throw_if
      (length assertion.client_data_json == 0
        || ltb max_client_data_bytes (length assertion.client_data_json))
      (range_error "Assertion client data is outside supported bounds")
  validate_der_signature assertion.signature
  validate_client_data prepared parsed

-- EXPLORER_URL
abbrev explorer_url : Text
explorer_url = codes "https://pudge.explorer.nervos.org/transaction/"

-- `witnesses[0] = witness`, which makes the first one where there is none.
unfoldable pub set_first : Text → List Text → List Text
set_first witness [] = witness ∷ []
set_first witness (w ∷ ws) = witness ∷ ws

-- The receipt of `submitSpend`, and of a transaction that was awaited. The amount stays a number here;
-- the program prints it in decimal.
pub record SubmittedReceipt : Type 0 where
  pub tx_hash : Text
  pub explorer_url : Text
  pub remaining_capacity : ℕ

-- The fields of the receipt schemas, which `SubmittedReceiptSchema`, `CommittedReceiptSchema` and
-- `ConfirmationTimedOutReceiptSchema` share; the test of a URL is the schema library's. An amount passes
-- as it is, since it is printed in decimal.
unfoldable pub parse_receipt : (Text → Bool) → SubmittedReceipt → Throws SubmittedReceipt
parse_receipt is_url r = do
  throw_if (not (is_hash32 r.tx_hash)) (foreign "Receipt has no transaction hash")
  throw_if (not (is_url r.explorer_url)) (foreign "Receipt has no URL")
  ok r

pub data Receipt : Type 0 where
  committed confirmation_timeout : SubmittedReceipt → Receipt

-- The capacity of `outputs[1]`, of a transaction with two outputs and the data of two.
unfoldable pub remaining_of : List CellOutput → List Text → Throws ℕ
remaining_of (transfer ∷ change ∷ []) (d ∷ e ∷ []) = ok change.capacity
remaining_of _ _ = err (type_error "Spend transaction has an unexpected output shape")

-- The last check of `confirmSpend`.
unfoldable pub check_change : (Text → Bool) → SubmittedReceipt → Option Cell → Throws Receipt
check_change is_url submitted none =
    err (type_error "Committed AccountLock change could not be verified")
check_change is_url submitted (some change) = do
  throw_if
      (is_typed change.cell_output.type_script
        || (not (text_eq change.output_data (codes "0x"))
            || not (change.cell_output.capacity == submitted.remaining_capacity)))
      (type_error "Committed AccountLock change could not be verified")
  answer ← parse_receipt is_url submitted
  ok (committed answer)

module _ (ccc : Ccc) where
  -- `finalizeSpend`, with the JSON parser that it calls
  unfoldable pub finalize_spend :
      Ckb
      → Parsers
      → (Bytes → Option Json)
      → PreparedSpend
      → PasskeyRecord
      → AssertionMaterial
      → Throws Transaction
  finalize_spend ckb parsers parse_json prepared passkey_value assertion = do
    passkey ← parsers.passkey passkey_value
    check_assertion prepared passkey assertion (parse_json assertion.client_data_json)
    public_key ← bytes_from_hex passkey.public_key
    witness ← spend_witness ckb prepared.sequence (record {
      public_key = public_key;
      origin = client_origin;
      authenticator_data = assertion.authenticator_data;
      client_data_json = assertion.client_data_json;
      signature = assertion.signature;
    })
    throw_if (ltb prepared.max_witness_bytes (length witness))
        (range_error "Assertion witness exceeds the prepared fee reservation")
    let tx = prepared.transaction
    let finalized : Transaction = record tx {
      witnesses = set_first (hex_from_bytes witness) tx.witnesses;
    }
    throw_if (not (text_eq (ccc.transaction_hash finalized) (ccc.transaction_hash tx)))
        (type_error "Finalizing the witness changed raw transaction fields")
    ok finalized

  -- `submitSpend`
  unfoldable pub submit_spend : (Text → Bool) → SpendClient → Transaction → Throws SubmittedReceipt
  submit_spend is_url client tx = do
    remaining ← remaining_of tx.outputs tx.outputs_data
    tx_hash ← client.send_transaction tx
    parse_receipt is_url (record {
      tx_hash = tx_hash;
      explorer_url = explorer_url ++ tx_hash;
      remaining_capacity = remaining;
    })

  -- `confirmSpend` with a receipt that is valid: only the timeout of the wait becomes a receipt.
  unfoldable pub await_spend : (Text → Bool) → SpendClient → SubmittedReceipt → Throws Receipt
  await_spend is_url client submitted = elim (client.wait_transaction submitted.tx_hash) [
    | err timeout ↦ parse_receipt is_url submitted >>= λ answer. ok (confirmation_timeout answer)
    | err e ↦ err e
    | ok none ↦ err (type_error "Committed transaction response is unavailable")
    | ok (some response) ↦
        client.get_cell_live (record { tx_hash = submitted.tx_hash; index = 1 })
        >>= check_change is_url submitted
  ]

  -- `confirmSpend`
  unfoldable pub confirm_spend : (Text → Bool) → SpendClient → SubmittedReceipt → Throws Receipt
  confirm_spend is_url client value = parse_receipt is_url value >>= await_spend is_url client
