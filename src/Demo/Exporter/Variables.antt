-- ===== src/Demo/Exporter/Variables.antt =====
-- demo/src/server/state-exporter.ts: the environment that the process is given.
use ckb_crypto_agile_account.Common.{
  ℕ, ◌≡◌, ◌≤◌, ◌+◌, ◌-◌, ◌↔◌, ◌&&◌, ◌==◌, leb, subst, All, codes, text_eq_of_eq, refl, ap, ◌∙◌,
  true, false, List, [], ◌∷◌, if◌then◌else◌, Text, text_eq, text_eq→eq, Bool-cases, inl, inr, arith,
}
use ckb_crypto_agile_account.Demo.Exporter.{
  Environment, to_upper, is_private_key, sanitized_environment,
}

-- The values of a variable.
unfoldable pub value_of : Text → Environment → List Text
value_of name [] = []
value_of name ((n, value) ∷ env) =
    let rest = value_of name env in if text_eq n name then value ∷ rest else rest

value_of-sanitized_environment_private :
    (name : Text) (env : Environment)
    → is_private_key name ≡ true
    → value_of name (sanitized_environment env) ≡ []
unfolding value_of sanitized_environment
value_of-sanitized_environment_private name [] private = refl
value_of-sanitized_environment_private name ((n, value) ∷ env) private =
    let rest = value_of-sanitized_environment_private name env private in
    elim (Bool-cases (is_private_key n)) [
      | inl dropped ↦ rw dropped rest
      | inr stays ↦ elim (Bool-cases (text_eq n name)) [
        | inr other ↦ rw (stays, other) rest
        | inl same ↦
            let e = ap is_private_key (text_eq→eq n name same) in
            absurd (ground (arith, stays, private, e))
      ]
    ]

value_of-sanitized_environment_other :
    (name : Text) (env : Environment)
    → is_private_key name ≡ false
    → value_of name (sanitized_environment env) ≡ value_of name env
unfolding value_of sanitized_environment
value_of-sanitized_environment_other name [] other = refl
value_of-sanitized_environment_other name ((n, value) ∷ env) other =
    let rest = value_of-sanitized_environment_other name env other in
    elim (Bool-cases (text_eq n name)) [
      | inl same ↦
          let e = ap is_private_key (text_eq→eq n name same) in
          let stays : is_private_key n ≡ false = e ∙ other in rw (stays, same, rest)
      | inr differs ↦ elim (Bool-cases (is_private_key n)) [
        | inl dropped ↦ rw (dropped, differs, rest)
        | inr stays ↦ rw (stays, differs, rest)
      ]
    ]

-- A character whose upper case is the given capital letter or other sign.
data IsCase : ℕ → ℕ → Type 0 where
  itself : (c : ℕ) → IsCase c c
  small : (c : ℕ) → b'A' ≤ c → c ≤ b'Z' → IsCase (c + 32) c
  dotless : IsCase 0x131 b'I'

-- A text that is another one but for small letters.
data IsSpelling : Text → Text → Type 0 where
  empty : IsSpelling [] []
  letter :
      (c d : ℕ) (name upper : Text)
      → IsCase c d
      → IsSpelling name upper
      → IsSpelling (c ∷ name) (d ∷ upper)

-- The name of the variable of the private key in small or capital letters.
pub IsPrivate : Text → Type 0
IsPrivate name = IsSpelling name (codes "CKB_PRIVKEY")

-- No small letter, and no dotless i.
abbrev IsUpper : Text → Type 0
IsUpper upper = All (λ c. c ≤ 95) upper

to_upper-IsSpelling : (name : Text) → IsSpelling name (to_upper name)
unfolding to_upper
to_upper-IsSpelling [] = empty
to_upper-IsSpelling (c ∷ name) =
    let rest = to_upper-IsSpelling name in
    elim (Bool-cases (leb b'a' c && leb c b'z')) [
      | inl lower ↦
          let back : c - 32 + 32 ≡ c = ground (arith, lower) in
          let case : IsCase c (c - 32) =
            subst (λ x. IsCase x (c - 32)) back
              (small (c - 32) (ground (arith, lower)) (ground (arith, lower))) in
          rw lower (letter c (c - 32) name (to_upper name) case rest)
      | inr other ↦ elim (Bool-cases (c == 0x131)) [
        | inl is ↦
            let same : 0x131 ≡ c = ground (arith, is) in
            let case : IsCase c b'I' = subst (λ x. IsCase x b'I') same dotless in
            rw (other, is) (letter c b'I' name (to_upper name) case rest)
        | inr plain ↦ rw (other, plain) (letter c c name (to_upper name) (itself c) rest)
      ]
    ]

to_upper-of_spelling :
    (name upper : Text) → IsSpelling name upper → IsUpper upper → to_upper name ≡ upper
unfolding to_upper
to_upper-of_spelling name upper empty h = refl
to_upper-of_spelling name upper (letter c d n u (itself x) rest) (low, h) =
    let others = to_upper-of_spelling n u rest h in
    let first : (leb b'a' x && leb x b'z') ≡ false = ground (arith, low) in
    let second : (x == 0x131) ≡ false = ground (arith, low) in rw (first, second, others)
to_upper-of_spelling name upper (letter c d n u (small x from to) rest) (low, h) =
    let others = to_upper-of_spelling n u rest h in
    let first : (leb b'a' (x + 32) && leb (x + 32) b'z') ≡ true = ground (arith, from, to) in
    let back : x + 32 - 32 ≡ x = omega arith in rw (first, others, back)
to_upper-of_spelling name upper (letter c d n u dotless rest) (low, h) =
    let others = to_upper-of_spelling n u rest h in rw others

is_private_key_iff : (name : Text) → (is_private_key name ≡ true) ↔ IsPrivate name
unfolding IsPrivate
is_private_key_iff name =
    let upper : IsUpper (codes "CKB_PRIVKEY") = (
      omega arith,
      (
        omega arith,
        (
          omega arith,
          (
            omega arith,
            (
              omega arith,
              (
                omega arith,
                (omega arith, (omega arith, (omega arith, (omega arith, (omega arith, tt))))),
              ),
            ),
          ),
        ),
      ),
    ) in
    (
      λ h.
          subst (IsSpelling name) (text_eq→eq (to_upper name) (codes "CKB_PRIVKEY") h)
            (to_upper-IsSpelling name),
      λ spelling.
          text_eq_of_eq (to_upper name) (codes "CKB_PRIVKEY")
            (to_upper-of_spelling name (codes "CKB_PRIVKEY") spelling upper),
    )

-- The process is given no value of a variable whose name is that of the private key in small or capital
-- letters, and of any other the values that the server was given.
pub value_of-sanitized_environment :
    (name : Text) (env : Environment)
    → (IsPrivate name → value_of name (sanitized_environment env) ≡ [])
      × (¬ IsPrivate name → value_of name (sanitized_environment env) ≡ value_of name env)
value_of-sanitized_environment name env = (
  λ private. value_of-sanitized_environment_private name env ((is_private_key_iff name).1 private),
  λ other. elim (Bool-cases (is_private_key name)) [
    | inl private ↦ absurd (other ((is_private_key_iff name).0 private))
    | inr public ↦ value_of-sanitized_environment_other name env public
  ],
)
