-- ===== src/Demo/Service/Flight.antt =====
-- demo/src/server/service.ts: requests that come while an account is being created. Each call of
-- `bootstrapOnce` is a promise with a number of its own, and settles at some later step.
use ckb_crypto_agile_account.Common.{
  ℕ, suc, ◌≡◌, refl, ◌⊎◌, inl, inr, Bool-cases, List, [], ◌∷◌, Option, none, some, Option-cases,
  ◌==◌, if◌then◌else◌, Text, text_eq,
}
use ckb_crypto_agile_account.Failure.{Failure, account_mismatch, invalid_request}
use ckb_crypto_agile_account.Json.{Json}
use ckb_crypto_agile_account.Demo.Schemas.{BootstrapRequest, Parsers}
use ckb_crypto_agile_account.Demo.Service.{api}

-- `active`, with the number of its promise.
pub record Active : Type 0 where
  pub public_key : Text
  pub promise : ℕ

-- The active creation, the promises that have not settled, and the number of the next one.
pub record Flights : Type 0 where
  pub active : Option Active
  pub running : List ℕ
  pub next : ℕ

pub data Answer : Type 0 where
  rejected : Failure → Answer
  promised : ℕ → Answer

unfoldable pub remove : ℕ → List ℕ → List ℕ
remove promise [] = []
remove promise (p ∷ ps) = let rest = remove promise ps in if p == promise then rest else p ∷ rest

-- `if (active?.promise === promise) active = undefined`
unfoldable pub clear : ℕ → Option Active → Option Active
clear promise none = none
clear promise (some a) = if a.promise == promise then none else some a

-- What `finally` does when a promise settles.
unfoldable pub settle : ℕ → Flights → Flights
settle promise f = record f { active = clear promise f.active; running = remove promise f.running }

-- `bootstrap` on a request that was parsed.
unfoldable pub admit : BootstrapRequest → Flights → Answer × Flights
admit request f = elim f.active [
  | some a ↦ if text_eq a.public_key request.public_key then (promised a.promise, f) else (
    rejected (api account_mismatch 409 "A different account creation is already in progress"),
    f,
  )
  | none ↦ (
    promised f.next,
    record {
      active = some (record { public_key = request.public_key; promise = f.next });
      running = f.next ∷ f.running;
      next = suc f.next;
    },
  )
]

module _ (parsers : Parsers) where
  -- `bootstrap`
  unfoldable pub bootstrap : Json → Flights → Answer × Flights
  bootstrap value f = elim (parsers.bootstrap_request value) [
    | none ↦ (rejected (api invalid_request 400 "Invalid account bootstrap request"), f)
    | some request ↦ admit request f
  ]

  -- What requests and settling promises, in any order, make of a new service.
  pub data Reachable : Flights → Type 0 where
    start : Reachable (record { active = none; running = []; next = 0 })
    requested : (value : Json) (f : Flights) → Reachable f → Reachable (bootstrap value f).1
    settled : (promise : ℕ) (f : Flights) → Reachable f → Reachable (settle promise f)

  -- Nothing runs, or just the active creation.
  abbrev pub IsSingle : Flights → Type 0
  IsSingle f =
      ((f.active ≡ none) × (f.running ≡ []))
      ⊎ ((a : Active) × (f.active ≡ some a) × (f.running ≡ a.promise ∷ []))

  settle-IsSingle : (promise : ℕ) (f : Flights) → IsSingle f → IsSingle (settle promise f)
  unfolding settle clear remove
  settle-IsSingle promise f (inl (idle, empty)) = inl (rw idle, rw empty)
  settle-IsSingle promise f (inr (a, active, only)) = elim (Bool-cases (a.promise == promise)) [
    | inl same ↦ inl (rw (active, same), rw (only, same))
    | inr other ↦ inr (a, rw (active, other), rw (only, other))
  ]

  admit-IsSingle :
      (request : BootstrapRequest) (f : Flights) → IsSingle f → IsSingle (admit request f).1
  unfolding admit
  admit-IsSingle request f (inl (idle, empty)) =
      rw (idle, admit)
        (inr (record { public_key = request.public_key; promise = f.next }, refl, rw empty))
  admit-IsSingle request f (inr (a, active, only)) =
      elim (Bool-cases (text_eq a.public_key request.public_key)) [
        | inl same ↦ rw (active, admit, same) (inr (a, active, only))
        | inr other ↦ rw (active, admit, other) (inr (a, active, only))
      ]

  bootstrap-IsSingle : (value : Json) (f : Flights) → IsSingle f → IsSingle (bootstrap value f).1
  unfolding bootstrap
  bootstrap-IsSingle value f single = elim (Option-cases (parsers.bootstrap_request value)) [
    | inl bad ↦ rw (bad, bootstrap) single
    | inr (request, good) ↦ rw (good, bootstrap) (admit-IsSingle request f single)
  ]

  -- In whatever order requests come and promises settle, at most one creation runs at a time, and
  -- it is the active one.
  pub Reachable-IsSingle : (f : Flights) → Reachable f → IsSingle f
  Reachable-IsSingle f start = inl (refl, refl)
  Reachable-IsSingle f (requested value g r) = bootstrap-IsSingle value g (Reachable-IsSingle g r)
  Reachable-IsSingle f (settled promise g r) = settle-IsSingle promise g (Reachable-IsSingle g r)
