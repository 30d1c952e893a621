-- ===== src/Decimal.antt =====
-- `toString` of a bigint that is not negative, as tools/deploy and demo print amounts.
use ckb_crypto_agile_account.Common.{
  ℕ, zero, suc, ◌+◌, ◌-◌, ◌*◌, ◌/◌, ◌%◌, ◌<◌, ◌≡◌, ap, ◌∙◌, [], ◌∷◌, ltb, if◌then◌else◌, Text,
  Bool-cases, inl, inr, arith,
}

-- The digits of a number in front of a text, of as many steps as the fuel allows.
unfoldable pub digits_onto : ℕ → ℕ → Text → Text
digits_onto zero n t = t
digits_onto (suc fuel) n t =
    let front = digits_onto fuel (n / 10) ((b'0' + n % 10) ∷ t) in
    if ltb n 10 then (b'0' + n) ∷ t else front

-- A number has fewer digits than its successor counts.
unfoldable pub decimal : ℕ → Text
decimal n = digits_onto (suc n) n []

-- The number that a text of digits stands for, behind the one read so far.
unfoldable pub read_digits : ℕ → Text → ℕ
read_digits so_far [] = so_far
read_digits so_far (c ∷ t) = read_digits (so_far * 10 + (c - b'0')) t

read_digits-digits_onto :
    (fuel n : ℕ) (t : Text) → n < fuel → read_digits 0 (digits_onto fuel n t) ≡ read_digits n t
unfolding digits_onto read_digits
read_digits-digits_onto zero n t h = absurd (omega arith)
read_digits-digits_onto (suc fuel) n t h = elim (Bool-cases (ltb n 10)) [
  | inl small ↦
      let e : 0 * 10 + (b'0' + n - b'0') ≡ n = omega arith in
      rw small (ap (λ (x : ℕ). read_digits x t) e)
  | inr large ↦
      let shorter : n / 10 < fuel = ground (arith, large, h) in
      let e : n / 10 * 10 + (b'0' + n % 10 - b'0') ≡ n = omega arith in
      let rest = read_digits-digits_onto fuel (n / 10) ((b'0' + n % 10) ∷ t) shorter in
      rw large (rest ∙ ap (λ (x : ℕ). read_digits x t) e)
]

-- A number that is printed reads back as itself.
pub read_digits-decimal : (n : ℕ) → read_digits 0 (decimal n) ≡ n
unfolding decimal read_digits
read_digits-decimal n = read_digits-digits_onto (suc n) n [] (omega arith)
