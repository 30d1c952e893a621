-- ===== src/Deploy/Args.antt =====
-- tools/deploy/src/deployment.ts: the command line of the publisher.
pub mod Laws
use ckb_crypto_agile_account.Common.{
  ℕ, ◌+◌, ◌-◌, ◌≡◌, Bool, true, false, not, ◌&&◌, ◌||◌, List, [], ◌∷◌, ◌++◌, Option, none, some,
  ltb, leb, ◌==◌, if◌then◌else◌, length, take, map, codes, Text, text_eq, Result, ok, err, ◌>>=◌,
  ◌>>◌, throw_if,
}
use ckb_crypto_agile_account.Failure.{Failure, Throws, error}
use ckb_crypto_agile_account.Bytes.{Number, nat, not_nat, max_safe_integer}
use ckb_crypto_agile_account.Json.{
  Json, null, bool, num, str, arr, obj, Fields, end, field, entries, get_field,
}
use ckb_crypto_agile_account.Json.Patterns.{is_hash32, is_positive_decimal}

abbrev pub account_lock : Text
account_lock = codes "account_lock"

abbrev pub verifier_p256 : Text
verifier_p256 = codes "verifier_p256"

-- `PHASED_P256_ARTIFACTS` of plan.ts
abbrev pub phased_p256_artifacts : List Text
phased_p256_artifacts = account_lock ∷ verifier_p256 ∷ []

-- `ALL_ARTIFACTS` of plan.ts
abbrev pub all_artifacts : List Text
all_artifacts =
    account_lock ∷ verifier_p256 ∷ codes "verifier_mldsa65" ∷ codes "verifier_slhdsa_sha2_128s" ∷ []

-- `list.includes(name)`
abbrev pub includes : List Text → Text → Bool
includes [] name = false
includes (x ∷ xs) name = text_eq x name || includes xs name

-- `name.startsWith("--")`
abbrev pub is_flag : Text → Bool
is_flag t = text_eq (take 2 t) (codes "--")

-- The variables of the loop of `parseDeploymentArgs`.
pub record Flags : Type 0 where
  pub broadcast : Bool
  pub all : Bool
  pub only : Option Text

abbrev pub is_given : Option Text → Bool
is_given none = false
is_given (some t) = true

-- The name behind `--only`.
unfoldable pub only_name : List Text → Throws Text
only_name [] = err (error "--only requires an artifact name")
only_name (name ∷ rest) = do
  throw_if (is_flag name) (error "--only requires an artifact name")
  ok name

-- Which of the tests of the loop an argument passes.
pub data Argument : Type 0 where
  broadcast_arg all_arg only_arg unknown_arg : Argument

unfoldable pub classify : Text → Argument
classify argument =
    if text_eq argument (codes "--broadcast")
    then broadcast_arg
    else (if text_eq argument (codes "--all")
        then all_arg
        else (if text_eq argument (codes "--only") then only_arg else unknown_arg))

-- The loop of `parseDeploymentArgs`; what follows an `--only` is skipped with it.
unfoldable pub parse_flags : List Text → Flags → Throws Flags
parse_flags [] flags = ok flags
parse_flags (argument ∷ []) flags = elim (classify argument) [
  | broadcast_arg ↦ ok (record flags { broadcast = true })
  | all_arg ↦ ok (record flags { all = true })
  | only_arg ↦ do
    throw_if (is_given flags.only) (error "--only may be specified once")
    name ← only_name []
    ok (record flags { only = some name })
  | unknown_arg ↦ err (error "unknown argument")
]
parse_flags (argument ∷ next ∷ rest) flags = elim (classify argument) [
  | broadcast_arg ↦ parse_flags (next ∷ rest) (record flags { broadcast = true })
  | all_arg ↦ parse_flags (next ∷ rest) (record flags { all = true })
  | only_arg ↦ do
    throw_if (is_given flags.only) (error "--only may be specified once")
    name ← only_name (next ∷ rest)
    parse_flags rest (record flags { only = some name })
  | unknown_arg ↦ err (error "unknown argument")
]

pub record DeploymentArgs : Type 0 where
  pub broadcast : Bool
  pub selection : List Text

-- The end of `parseDeploymentArgs`.
unfoldable pub select_artifacts : Flags → Throws DeploymentArgs
select_artifacts flags = do
  throw_if (flags.all && is_given flags.only) (error "cannot combine --all with --only")
  elim flags.only [
    | none ↦ ok (record {
      broadcast = flags.broadcast;
      selection = if flags.all then all_artifacts else phased_p256_artifacts;
    })
    | some name ↦
        if not (includes all_artifacts name)
        then err (error "unknown artifact")
        else ok (record { broadcast = flags.broadcast; selection = name ∷ [] })
  ]

-- `parseDeploymentArgs`
unfoldable pub parse_deployment_args : List Text → Throws DeploymentArgs
parse_deployment_args argv = do
  flags ← parse_flags argv (record { broadcast = false; all = false; only = none })
  select_artifacts flags
