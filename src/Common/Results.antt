-- ===== src/Common/Results.antt =====
-- A computation that may throw: the value, or the error that left it.
use mathlib.Core.Path.{◌≡◌, refl}
use mathlib.Core.Logic.{◌⊎◌, inl, inr}
use mathlib.Core.Bool.{Bool, true, false}

pub data Result {ℓ κ} (E : Type ℓ) (A : Type κ) : Type (ℓ ⊔ κ) where
  err : E → Result E A
  ok : A → Result E A

module _ {ℓ} {E : Type ℓ} where
  -- `if (test) throw thrown`
  abbrev pub throw_if : Bool → E → Result E (Unit {0})
  throw_if false thrown = ok tt
  throw_if true thrown = err thrown

  infixl 5 ◌>>=◌ ◌>>◌
  -- The statements behind a call, which a throw skips.
  abbrev pub ◌>>=◌ {κ μ} : {A : Type κ} {B : Type μ} → Result E A → (A → Result E B) → Result E B
  err thrown >>= rest = err thrown
  ok answer >>= rest = rest answer

  abbrev pub ◌>>◌ {μ} : {B : Type μ} → Result E (Unit {0}) → Result E B → Result E B
  check >> rest = check >>= λ done. rest

  pub Result-cases {κ} :
      {A : Type κ} (r : Result E A) → ((a : A) × (r ≡ ok a)) ⊎ ((e : E) × (r ≡ err e))
  Result-cases (err e) = inr (e, refl)
  Result-cases (ok a) = inl (a, refl)

  -- A guard that let the rest run was false.
  pub throw_if->>-eq-ok {μ} :
      {B : Type μ} (test : Bool) (thrown : E) (rest : Result E B) {b : B}
      → (throw_if test thrown >> rest) ≡ ok b
      → (test ≡ false) × (rest ≡ ok b)
  throw_if->>-eq-ok false thrown rest h = (refl, h)
  throw_if->>-eq-ok true thrown rest h = cc

  -- What a call that did not throw has answered.
  pub >>=-eq-ok {κ μ} :
      {A : Type κ} {B : Type μ} (call : Result E A) (rest : A → Result E B) {b : B}
      → (call >>= rest) ≡ ok b
      → (a : A) × (call ≡ ok a) × (rest a ≡ ok b)
  >>=-eq-ok (err thrown) rest h = cc
  >>=-eq-ok (ok answer) rest h = (answer, refl, h)
