-- ===== src/Demo/Storage.antt =====
-- demo/src/client/storage.ts: the passkey that the browser keeps. The state is what is stored under
-- the one key, none where nothing is.
use ckb_crypto_agile_account.Common.{
  ◌≡◌, ap, ◌∙◌, subst, inl, inr, Option, none, some, Text, Result-cases, ok, err, arith,
}
use ckb_crypto_agile_account.Failure.{Throws}
use ckb_crypto_agile_account.Demo.Schemas.{PasskeyRecord, Parsers}

-- `JSON.stringify` of a record, and `PasskeyRecordSchema.parse(JSON.parse(...))`. A record that was
-- written parses as itself.
pub record PasskeyJson (parsers : Parsers) : Type 0 where
  pub stringify : PasskeyRecord → Text
  pub parse : Text → Throws PasskeyRecord
  pub parse-stringify : (r : PasskeyRecord) → parse (stringify r) ≡ parsers.passkey r

module _ (parsers : Parsers) (json : PasskeyJson parsers) where
  -- `loadPasskeyRecord`: what does not parse is removed.
  unfoldable pub load_passkey_record : Option Text → Option PasskeyRecord × Option Text
  load_passkey_record none = (none, none)
  load_passkey_record (some serialized) = elim (json.parse serialized) [
    | ok r ↦ (some r, some serialized)
    | err e ↦ (none, none)
  ]

  -- `savePasskeyRecord`
  unfoldable pub save_passkey_record : PasskeyRecord → Option Text → Throws (Unit {0}) × Option Text
  save_passkey_record r storage = elim (parsers.passkey r) [
    | err e ↦ (err e, storage)
    | ok verified ↦ (ok tt, some (json.stringify verified))
  ]

  -- A record that was saved is loaded again, and stays stored.
  pub load_passkey_record-save_passkey_record :
      (r : PasskeyRecord) (before after : Option Text)
      → save_passkey_record r before ≡ (ok tt, after)
      → load_passkey_record after ≡ (some r, after)
  unfolding load_passkey_record save_passkey_record
  load_passkey_record-save_passkey_record r before after h =
      elim (Result-cases (parsers.passkey r)) [
        | inr (e, refused) ↦ absurd (ground (arith, h, refused))
        | inl (v, accepted) ↦
            let (same, valid) = parsers.passkey_valid r v accepted in
            let stored : some (json.stringify r) ≡ after = ground (arith, h, accepted, same) in
            let reads : json.parse (json.stringify r) ≡ ok r =
              json.parse-stringify r ∙ accepted ∙ ap (λ x. ok x) same in
            subst (λ s. load_passkey_record s ≡ (some r, s)) stored
              (rw (reads, load_passkey_record))
      ]
