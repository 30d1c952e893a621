-- ===== src/Json.antt =====
-- Values of `JSON.parse`, and the texts that the repository's regular expressions accept.
pub mod Patterns
use ckb_crypto_agile_account.Common.{
  ℕ, Bool, true, false, Option, none, some, List, [], ◌∷◌, Text, text_eq, if◌then◌else◌,
}
use ckb_crypto_agile_account.Bytes.{Number}

mutual
  pub data Json : Type 0 where
    null : Json
    bool : Bool → Json
    num : Number → Json
    str : Text → Json
    arr : Items → Json
    obj : Fields → Json

  pub data Items : Type 0 where
    nil : Items
    item : Json → Items → Items

  pub data Fields : Type 0 where
    end : Fields
    field : Text → Json → Fields → Fields

-- `Object.entries` of an object.
abbrev pub entries : Fields → List (Text × Json)
entries end = []
entries (field name value rest) = (name, value) ∷ entries rest

-- `object[name]`, none for `undefined`.
abbrev pub get_field : Text → Fields → Option Json
get_field name end = none
get_field name (field n value rest) = if text_eq n name then some value else get_field name rest
