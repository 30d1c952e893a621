-- ===== src/Tests/Keeping.antt =====
-- demo/src/client/storage.ts and the end of demo/src/client/chain.ts on concrete values.
use ckb_crypto_agile_account.Common.{
  ◌≡◌, refl, true, none, some, [], ◌++◌, replicate, Text, codes, ok, ◌>>=◌,
}
use ckb_crypto_agile_account.Failure.{Throws}
use ckb_crypto_agile_account.Bytes.{
  Bytes, bytes_from_hex, bytes_from_digits, hex_pairs, hex_value, hex_from_bytes, hex_digits,
  hex_digit,
}
use ckb_crypto_agile_account.Demo.State.{
  ParsedState, check_header, check_entry, is_unsupported_entry, parse_account_state,
}
use ckb_crypto_agile_account.Demo.State.Shape.{IsState, parse_account_state-IsState}
use ckb_crypto_agile_account.Demo.Schemas.{
  PasskeyRecord, is_passkey_record, is_public_key, is_base64url,
}
use ckb_crypto_agile_account.Json.Patterns.{hex_bytes, is_hash32}
use ckb_crypto_agile_account.Demo.Finalize.{
  SubmittedReceipt, committed, parse_receipt, check_change, await_spend, confirm_spend,
}
use ckb_crypto_agile_account.Demo.Finalize.Confirmed.{IsConfirmed, confirm_spend-IsConfirmed}
use ckb_crypto_agile_account.Demo.Storage.{
  PasskeyJson, load_passkey_record, save_passkey_record, load_passkey_record-save_passkey_record,
}
use ckb_crypto_agile_account.Tests.Sample.{
  sample_ccc, hash_of, write_body, read_body, read_body-write_body,
}
use ckb_crypto_agile_account.Tests.Spending.{
  sample_key_id, sample_state, sample_account, sample_parsers, sample_client, check_passkey,
}

abbrev sample_submitted : SubmittedReceipt
sample_submitted = record {
  tx_hash = hash_of b'3';
  explorer_url = [];
  remaining_capacity = 20_000_000_000;
}

confirmed :
    confirm_spend sample_ccc (λ url. true) sample_client sample_submitted
    ≡ ok (committed sample_submitted)
unfolding confirm_spend await_spend check_change parse_receipt is_hash32 hex_bytes
confirmed = refl

confirm_spend-IsConfirmed_example :
    IsConfirmed sample_client sample_submitted (committed sample_submitted)
confirm_spend-IsConfirmed_example =
    confirm_spend-IsConfirmed sample_ccc (λ url. true) sample_client sample_submitted
      (committed sample_submitted) confirmed

-- A stand-in for JSON: the four texts, one behind the other.
abbrev write_record : PasskeyRecord → Text
write_record r =
    write_body r.credential_id
      (write_body r.public_key (write_body r.key_id (write_body r.created_at [])))

abbrev read_record : Text → Throws PasskeyRecord
read_record t = read_body t >>= λ (credential_id, t1). read_body t1 >>= λ (public_key, t2).
    read_body t2 >>= λ (key_id, t3). read_body t3 >>= λ (created_at, t4). check_passkey (record {
      credential_id = credential_id;
      public_key = public_key;
      key_id = key_id;
      created_at = created_at;
    })

read_record-write_record : (r : PasskeyRecord) → read_record (write_record r) ≡ check_passkey r
read_record-write_record r = rw (
  read_body-write_body r.credential_id
      (write_body r.public_key (write_body r.key_id (write_body r.created_at []))),
  read_body-write_body r.public_key (write_body r.key_id (write_body r.created_at [])),
  read_body-write_body r.key_id (write_body r.created_at []),
  read_body-write_body r.created_at [],
)

abbrev sample_json : PasskeyJson sample_parsers
sample_json = record {
  stringify = write_record;
  parse = read_record;
  parse-stringify = read_record-write_record;
}

abbrev kept_passkey : PasskeyRecord
kept_passkey = record {
  credential_id = codes "cred";
  public_key = codes "0x04" ++ replicate 128 b'1';
  key_id = hash_of b'4';
  created_at = codes "now";
}

saved :
    save_passkey_record sample_parsers sample_json kept_passkey none
    ≡ (ok tt, some (write_record kept_passkey))
unfolding save_passkey_record is_passkey_record is_public_key is_base64url is_hash32 hex_bytes
saved = refl

load_passkey_record-save_passkey_record_example :
    load_passkey_record sample_parsers sample_json (some (write_record kept_passkey))
    ≡ (some kept_passkey, some (write_record kept_passkey))
load_passkey_record-save_passkey_record_example =
    load_passkey_record-save_passkey_record sample_parsers sample_json kept_passkey none
      (some (write_record kept_passkey)) saved

abbrev sample_parsed : ParsedState
sample_parsed = record { sequence = 7; key_id = sample_key_id }

parsed : parse_account_state sample_state sample_account ≡ ok sample_parsed
unfolding parse_account_state check_header check_entry is_unsupported_entry bytes_from_hex
    bytes_from_digits hex_pairs hex_value hex_from_bytes hex_digits hex_digit
parsed = refl

parse_account_state-IsState_example :
    (bytes : Bytes) × (bytes_from_hex sample_state ≡ ok bytes)
    × IsState sample_account bytes sample_parsed
parse_account_state-IsState_example =
    parse_account_state-IsState sample_state sample_account sample_parsed parsed
