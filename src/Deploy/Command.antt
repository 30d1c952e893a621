-- ===== src/Deploy/Command.antt =====
-- tools/deploy/src/bootstrap.ts: the command that creates an account, and formatCkb of
-- tools/deploy/src/plan.ts, which prints its amounts. The rest of what it prints is left out.
pub mod Run
pub mod Amount
use ckb_crypto_agile_account.Common.{
  ℕ, zero, suc, ◌+◌, ◌*◌, ◌/◌, ◌%◌, ◌≡◌, Bool, true, false, not, ◌&&◌, ◌||◌, List, [], ◌∷◌, ◌++◌,
  Option, none, some, ltb, leb, ◌==◌, if◌then◌else◌, length, Text, text_eq, codes, Result, ok, err,
  ◌>>=◌, ◌>>◌, throw_if,
}
use ckb_crypto_agile_account.Failure.{Failure, Throws, error, type_error}
use ckb_crypto_agile_account.Bytes.{Bytes, nat, not_nat, pos}
use ckb_crypto_agile_account.Decimal.{decimal, read_digits}
use ckb_crypto_agile_account.Json.{Json, null, bool, num, str, arr, obj}
use ckb_crypto_agile_account.Json.Patterns.{all, is_digit}
use ckb_crypto_agile_account.Ccc.{Ccc}
use ckb_crypto_agile_account.Deploy.Artifacts.{
  Host, shannons_per_ckb, cell_capacity_shannons, read_local_artifact_identities,
}
use ckb_crypto_agile_account.Deploy.Plan.{identity_of}
use ckb_crypto_agile_account.Deploy.Args.{includes}
use ckb_crypto_agile_account.Deploy.Bootstrap.{
  account_lock_args_length, type_id_args_length, field_of, AccountManifest, World, Network,
  bootstrap_account,
}

-- Three digits of a number below a thousand, as they stand behind a comma.
abbrev pub three_digits : ℕ → Text
three_digits n = (b'0' + n / 100 % 10) ∷ (b'0' + n / 10 % 10) ∷ (b'0' + n % 10) ∷ []

-- `toLocaleString("en-US")` in front of a text, of as many groups as the fuel allows.
unfoldable pub grouped_onto : ℕ → ℕ → Text → Text
grouped_onto zero n t = t
grouped_onto (suc fuel) n t =
    let front = grouped_onto fuel (n / 1000) (b',' ∷ three_digits (n % 1000) ++ t) in
    if ltb n 1000 then decimal n ++ t else front

-- `padStart(8, "0")` of the digits of a number below 10 ^ 8.
abbrev pub eight_digits : ℕ → Text
eight_digits n =
    (b'0' + n / 10_000_000 % 10)
    ∷ (b'0' + n / 1_000_000 % 10)
    ∷ (b'0' + n / 100_000 % 10)
    ∷ (b'0' + n / 10_000 % 10)
    ∷ (b'0' + n / 1000 % 10)
    ∷ (b'0' + n / 100 % 10)
    ∷ (b'0' + n / 10 % 10)
    ∷ (b'0' + n % 10)
    ∷ []

-- `replace(/0+$/, "")`
unfoldable pub strip_zeros : Text → Text
strip_zeros [] = []
strip_zeros (c ∷ t) = elim (strip_zeros t) [
  | [] ↦ if c == b'0' then [] else c ∷ []
  | d ∷ rest ↦ c ∷ d ∷ rest
]

-- `formatCkb`
unfoldable pub format_ckb : ℕ → Text
format_ckb shannons =
    let whole = shannons / shannons_per_ckb in
    let fraction = shannons % shannons_per_ckb in
    if fraction == 0
    then grouped_onto (suc whole) whole (codes " CKB")
    else grouped_onto (suc whole) whole (b'.' ∷ strip_zeros (eight_digits fraction) ++ codes " CKB")

pub record Options : Type 0 where
  pub state_path : Text
  pub asset_capacity_ckb : ℕ
  pub broadcast : Bool

abbrev pub first : List Text → Option Text
first [] = none
first (t ∷ ts) = some t

-- `value` of `parseArgs`: what stands behind the first place of a flag.
unfoldable pub value_behind : Text → List Text → Option Text
value_behind flag [] = none
value_behind flag (argument ∷ rest) =
    let later = value_behind flag rest in if text_eq argument flag then first rest else later

-- `/^\d+$/`
unfoldable pub is_whole_number : Text → Bool
is_whole_number [] = false
is_whole_number (c ∷ t) = is_digit c && all is_digit t

abbrev pub or_default : Option Text → Text → Text
or_default none default_text = default_text
or_default (some t) default_text = t

-- `parseArgs`
unfoldable pub parse_args : List Text → Throws Options
parse_args argv = elim (or_default (value_behind (codes "--state") argv) []) [
  | [] ↦ err (error "--state <path> is required")
  | c ∷ path ↦ do
    let asset_raw = or_default (value_behind (codes "--asset-capacity") argv) (codes "200")
    throw_if (not (is_whole_number asset_raw))
        (error "--asset-capacity must be a whole number of CKB")
    ok (record {
      state_path = c ∷ path;
      asset_capacity_ckb = read_digits 0 asset_raw;
      broadcast = includes argv (codes "--broadcast");
    })
]

-- Whether a value counts as true.
abbrev pub is_truthy : Option Json → Bool
is_truthy none = false
is_truthy (some null) = false
is_truthy (some (bool b)) = b
is_truthy (some (num (nat n))) = not (n == 0)
is_truthy (some (num not_nat)) = true
is_truthy (some (str [])) = false
is_truthy (some _) = true

-- `resolveAccountLockCodeHash`, of the file if there is one: whether AccountLock is published. The hash
-- itself is only printed. A property of null throws.
unfoldable pub resolve_account_lock_code_hash : Host → Option Json → Throws Bool
resolve_account_lock_code_hash host (some null) =
    err (type_error "Cannot read properties of null (reading 'artifacts')")
resolve_account_lock_code_hash host manifest =
    let account_lock = field_of (codes "account_lock") (field_of (codes "artifacts") manifest) in
    if is_truthy (field_of (codes "dataHash") account_lock) then ok true else (do
      identities ← read_local_artifact_identities host.local_manifest
      elim (identity_of (codes "account_lock") identities) [
        | none ↦ err (error "no account_lock identity in deploy/reference-deployments.json")
        | some identity ↦ ok false
      ])

-- The checks of `main` before it looks for the key: the options, the state, and whether AccountLock is
-- published.
unfoldable pub checked_options : Host → List Text → World → Throws (Options × Bytes × Bool)
checked_options host argv w = do
  options ← parse_args argv
  state_data ← host.read_file options.state_path
  throw_if (length state_data == 0) (error "the state is empty")
  deployed ← resolve_account_lock_code_hash host w.deployments_file
  state_capacity ←
      cell_capacity_shannons (nat account_lock_args_length) (some (nat type_id_args_length))
        (nat (length state_data))
  minimum_asset ← cell_capacity_shannons (nat account_lock_args_length) none (nat 0)
  throw_if (ltb (options.asset_capacity_ckb * shannons_per_ckb) minimum_asset)
      (error "--asset-capacity is below the minimum for an AccountLock-locked cell")
  ok (options, state_data, deployed)

-- `CKB_PRIVKEY`, if it is set and not empty
unfoldable pub require_key : Option Text → Throws Text
require_key (some (c ∷ key)) = ok (c ∷ key)
require_key _ = err (error "CKB_PRIVKEY is not set; refusing to broadcast")

abbrev pub dropped : Throws AccountManifest × World → Throws (Unit {0}) × World
dropped (ok m, w) = (ok tt, w)
dropped (err e, w) = (err e, w)

-- `main`, of the command line and the value of CKB_PRIVKEY
unfoldable pub create_main :
    Ccc → Host → (Text → Network) → List Text → Option Text → World → Throws (Unit {0}) × World
create_main ccc host network_of argv private_key w = elim (checked_options host argv w) [
  | err e ↦ (err e, w)
  | ok (options, state_data, deployed) ↦
      if not options.broadcast then (ok tt, w) else elim (require_key private_key) [
        | err e ↦ (err e, w)
        | ok key ↦ dropped (
            bootstrap_account ccc (network_of key)
              (record {
                state_data = state_data;
                asset_capacity_ckb = pos options.asset_capacity_ckb;
              })
              w)
      ]
]
