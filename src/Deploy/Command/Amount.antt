-- ===== src/Deploy/Command/Amount.antt =====
-- formatCkb of tools/deploy/src/plan.ts: the whole part of an amount, printed in groups and read again.
use ckb_crypto_agile_account.Common.{
  ℕ, zero, suc, ◌+◌, ◌-◌, ◌*◌, ◌/◌, ◌%◌, ◌<◌, ◌≡◌, refl, ap, ◌∙◌, false, [], ◌∷◌, ◌++◌, ltb, ◌==◌,
  if◌then◌else◌, Text, Bool-cases, inl, inr, arith,
}
use ckb_crypto_agile_account.Decimal.{digits_onto, decimal}
use ckb_crypto_agile_account.Deploy.Command.{three_digits, grouped_onto}

-- The number that digits and commas stand for, behind the one read so far.
unfoldable pub read_whole : ℕ → Text → ℕ
read_whole so_far [] = so_far
read_whole so_far (c ∷ t) =
    let skipped = read_whole so_far t in
    let read = read_whole (so_far * 10 + (c - b'0')) t in if c == b',' then skipped else read

read_digit :
    (so_far d : ℕ) (t : Text) → read_whole so_far ((b'0' + d) ∷ t) ≡ read_whole (so_far * 10 + d) t
unfolding read_whole
read_digit so_far d t =
    let digit : ((b'0' + d) == b',') ≡ false = ground arith in
    let e : so_far * 10 + (b'0' + d - b'0') ≡ so_far * 10 + d = omega arith in
    rw digit (ap (λ (x : ℕ). read_whole x t) e)

read_whole-digits_onto :
    (fuel n : ℕ) (t : Text) → n < fuel → read_whole 0 (digits_onto fuel n t) ≡ read_whole n t
unfolding digits_onto
read_whole-digits_onto zero n t h = absurd (omega arith)
read_whole-digits_onto (suc fuel) n t h = elim (Bool-cases (ltb n 10)) [
  | inl small ↦
      let e : 0 * 10 + n ≡ n = omega arith in
      rw small (read_digit 0 n t ∙ ap (λ (x : ℕ). read_whole x t) e)
  | inr large ↦
      let shorter : n / 10 < fuel = ground (arith, large, h) in
      let e : n / 10 * 10 + n % 10 ≡ n = omega arith in
      rw large (
        read_whole-digits_onto fuel (n / 10) ((b'0' + n % 10) ∷ t) shorter
        ∙ read_digit (n / 10) (n % 10) t
        ∙ ap (λ (x : ℕ). read_whole x t) e)
]

digits_onto-append :
    (fuel n : ℕ) (t u : Text) → digits_onto fuel n t ++ u ≡ digits_onto fuel n (t ++ u)
unfolding digits_onto
digits_onto-append zero n t u = refl
digits_onto-append (suc fuel) n t u = elim (Bool-cases (ltb n 10)) [
  | inl small ↦ rw small
  | inr large ↦ rw large (digits_onto-append fuel (n / 10) ((b'0' + n % 10) ∷ t) u)
]

read_group :
    (so_far n : ℕ) (t : Text)
    → n < 1000
    → read_whole so_far (b',' ∷ three_digits n ++ t) ≡ read_whole (so_far * 1000 + n) t
unfolding read_whole
read_group so_far n t h =
    let e : ((so_far * 10 + n / 100 % 10) * 10 + n / 10 % 10) * 10 + n % 10 ≡ so_far * 1000 + n =
      omega arith in
    read_digit so_far (n / 100 % 10) ((b'0' + n / 10 % 10) ∷ (b'0' + n % 10) ∷ t)
    ∙ read_digit (so_far * 10 + n / 100 % 10) (n / 10 % 10) ((b'0' + n % 10) ∷ t)
    ∙ read_digit ((so_far * 10 + n / 100 % 10) * 10 + n / 10 % 10) (n % 10) t
    ∙ ap (λ (x : ℕ). read_whole x t) e

-- The fuel of formatCkb, one more than the number, prints the number whole: what is printed in groups
-- of three reads back as it.
pub read_whole-grouped_onto :
    (fuel n : ℕ) (t : Text) → n < fuel → read_whole 0 (grouped_onto fuel n t) ≡ read_whole n t
unfolding grouped_onto decimal
read_whole-grouped_onto zero n t h = absurd (omega arith)
read_whole-grouped_onto (suc fuel) n t h = elim (Bool-cases (ltb n 1000)) [
  | inl small ↦
      rw (small, digits_onto-append (suc n) n [] t)
        (read_whole-digits_onto (suc n) n t (omega arith))
  | inr large ↦
      let shorter : n / 1000 < fuel = ground (arith, large, h) in
      let low : n % 1000 < 1000 = omega arith in
      let e : n / 1000 * 1000 + n % 1000 ≡ n = omega arith in
      rw large (
        read_whole-grouped_onto fuel (n / 1000) (b',' ∷ three_digits (n % 1000) ++ t) shorter
        ∙ read_group (n / 1000) (n % 1000) t low
        ∙ ap (λ (x : ℕ). read_whole x t) e)
]
