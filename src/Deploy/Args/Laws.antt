-- ===== src/Deploy/Args/Laws.antt =====
-- What an accepted command line of tools/deploy/src/deployment.ts selects.
use ckb_crypto_agile_account.Common.{
  ◌≡◌, ◌⊎◌, inl, inr, refl, ap, ◌∙◌, Bool, true, false, ◌||◌, List, [], ◌∷◌, Option, none, some,
  codes, Text, text_eq, text_eq→eq, Bool-cases, ok, >>=-eq-ok, arith, subst,
}
use ckb_crypto_agile_account.Deploy.Args.{
  all_artifacts, phased_p256_artifacts, includes, is_flag, Flags, Argument, broadcast_arg, all_arg,
  classify, only_name, parse_flags, DeploymentArgs, select_artifacts, parse_deployment_args,
}

abbrev broadcast_flag : Text
broadcast_flag = codes "--broadcast"

abbrev all_flag : Text
all_flag = codes "--all"

not_flag :
    (name flag : Text) → is_flag flag ≡ true → is_flag name ≡ false → text_eq name flag ≡ false
not_flag name flag h k = elim (Bool-cases (text_eq name flag)) [
  | inr e ↦ e
  | inl e ↦ cc (ap is_flag (text_eq→eq name flag e))
]

-- A text is one flag at most.
one_flag :
    (a left right : Text)
    → text_eq left right ≡ false
    → text_eq a left ≡ true
    → text_eq a right ≡ false
one_flag a left right differ h = rw (text_eq→eq a left h) differ

abbrev only_flag : Text
only_flag = codes "--only"

abbrev is_broadcast : Argument → Bool
is_broadcast broadcast_arg = true
is_broadcast _ = false

abbrev is_all : Argument → Bool
is_all all_arg = true
is_all _ = false

classify_lem :
    (a : Text)
    → (text_eq a broadcast_flag ≡ is_broadcast (classify a))
      × (text_eq a all_flag ≡ is_all (classify a))
unfolding classify
classify_lem a = ground (
  arith,
  one_flag a broadcast_flag all_flag refl,
  one_flag a only_flag broadcast_flag refl,
  one_flag a only_flag all_flag refl,
)

-- The two switches of the loop say which flags the arguments hold.
abbrev Switches : List Text → Flags → Flags → Type 0
Switches argv f g =
    (g.broadcast ≡ (f.broadcast || includes argv broadcast_flag))
    × (g.all ≡ (f.all || includes argv all_flag))

parse_flags_lem : (argv : List Text) (f g : Flags) → parse_flags argv f ≡ ok g → Switches argv f g
unfolding parse_flags only_name
parse_flags_lem [] f g h = ground arith
parse_flags_lem (a ∷ []) f g h = ground (arith, classify_lem a)
parse_flags_lem (a ∷ next ∷ rest) f g h = ground (
  arith,
  classify_lem a,
  not_flag next broadcast_flag refl,
  not_flag next all_flag refl,
  parse_flags_lem (next ∷ rest) (record f { broadcast = true }) g,
  parse_flags_lem (next ∷ rest) (record f { all = true }) g,
  parse_flags_lem rest (record f { only = some next }) g,
)

-- What a selection may be, given the `--all` switch.
abbrev pub IsSelection : Bool → List Text → Type 0
IsSelection true selection = selection ≡ all_artifacts
IsSelection false selection =
    (selection ≡ phased_p256_artifacts)
    ⊎ ((name : Text) × (selection ≡ name ∷ []) × (includes all_artifacts name ≡ true))

select_artifacts_lem :
    (flags : Flags) (args : DeploymentArgs)
    → select_artifacts flags ≡ ok args
    → (args.broadcast ≡ flags.broadcast) × IsSelection flags.all args.selection
unfolding select_artifacts
select_artifacts_lem flags args h = (ground arith, selected flags.all flags.only refl refl)
  where
    selected :
        (all : Bool) (only : Option Text)
        → flags.all ≡ all
        → flags.only ≡ only
        → IsSelection all args.selection
    selected true only e f = ground (arith, h)
    selected false none e f = inl (ground (arith, h))
    selected false (some name) e f = inr (name, ground (arith, h), ground (arith, h))

-- An accepted command line broadcasts exactly if `--broadcast` is among its arguments. It selects
-- every artifact if `--all` is among them, and otherwise the two of the first phase or a single
-- known one.
pub parse_deployment_args_lem :
    (argv : List Text) (args : DeploymentArgs)
    → parse_deployment_args argv ≡ ok args
    → (args.broadcast ≡ includes argv (codes "--broadcast"))
      × IsSelection (includes argv (codes "--all")) args.selection
unfolding parse_deployment_args
parse_deployment_args_lem argv args h =
    let (flags, parsed, selected) = >>=-eq-ok (parse_flags argv _) _ h in
    let (broadcast, all) = parse_flags_lem argv _ flags parsed in
    let (same, valid) = select_artifacts_lem flags args selected in
    (same ∙ broadcast, subst (λ b. IsSelection b args.selection) all valid)
