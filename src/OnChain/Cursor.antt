-- ===== src/OnChain/Cursor.antt =====
-- Reading at an offset: what stands in the input from there on.
use ckb_crypto_agile_account.Common.{
  ℕ, zero, suc, ◌+◌, ◌-◌, ◌%◌, ◌/◌, ◌≤◌, ◌≡◌, refl, ap, sym, ◌∙◌, [], ◌∷◌, ◌++◌, length, drop,
  take-append, drop-append, drop-drop, length-append, ok, arith, ltb, false,
}
use ckb_crypto_agile_account.Bytes.{Bytes}
use ckb_crypto_agile_account.Bytes.LittleEndian.{le_value}
use ckb_crypto_agile_account.OnChain.{slice, byte_at, take_bytes, take_u16}

-- `rest` is what the input holds from `off` on.
pub record IsRest (input : Bytes) (off : ℕ) (rest : Bytes) : Type 0 where
  pub dropped : drop off input ≡ rest
  pub sized : off + length rest ≡ length input

pub start-IsRest : (input : Bytes) → IsRest input 0 input
start-IsRest input = record { dropped = refl; sized = omega arith }

byte_at-drop : (n : ℕ) (xs : Bytes) → byte_at (drop n xs) 0 ≡ byte_at xs n
byte_at-drop zero xs = refl
byte_at-drop (suc n) [] = refl
byte_at-drop (suc n) (x ∷ xs) = byte_at-drop n xs

module _ {input : Bytes} {off : ℕ} where
  pub slice-IsRest :
      (front back : Bytes) (to : ℕ)
      → IsRest input off (front ++ back)
      → to ≡ off + length front
      → slice input off to ≡ front
  slice-IsRest front back to r e =
      rw (e, add-sub off (length front), r.dropped) (take-append front back)
    where
      add-sub : (a b : ℕ) → a + b - a ≡ b
      add-sub a b = omega arith

  pub next-IsRest :
      (front back : Bytes) (to : ℕ)
      → IsRest input off (front ++ back)
      → to ≡ off + length front
      → IsRest input to back
  next-IsRest front back to r e = record {
    dropped = rw e (
        sym (drop-drop off (length front) input)
        ∙ ap (drop (length front)) r.dropped
        ∙ drop-append front back);
    sized = omega (arith, length-append front back, r.sized);
  }

  pub byte_at-IsRest :
      (front : Bytes) (b : ℕ) (back : Bytes) (i : ℕ)
      → IsRest input off (front ++ b ∷ back)
      → i ≡ off + length front
      → byte_at input i ≡ b
  byte_at-IsRest front b back i r e =
      sym (byte_at-drop i input)
      ∙ ap (λ xs. byte_at xs 0) (next-IsRest front (b ∷ back) i r e).dropped

module _ {input : Bytes} {off : ℕ} (back : Bytes) where
  -- `take` at an offset where `front` is next.
  pub take_bytes-IsRest :
      (front : Bytes) (n : ℕ)
      → IsRest input off (front ++ back)
      → n ≡ length front
      → (take_bytes input off n ≡ ok (front, off + n)) × IsRest input (off + n) back
  unfolding take_bytes
  take_bytes-IsRest front n r e =
      let inside : ltb (length input) (off + n) ≡ false =
        ground (arith, r.sized, length-append front back) in
      (
        rw (inside, slice-IsRest front back (off + n) r (omega arith)),
        next-IsRest front back (off + n) r (omega arith),
      )

  -- `take_u16` at an offset where the two bytes of `n` are next.
  pub take_u16-IsRest :
      (n : ℕ)
      → n ≤ 0xffff
      → IsRest input off (n % 256 ∷ n / 256 % 256 ∷ back)
      → (take_u16 input off ≡ ok (n, off + 2)) × IsRest input (off + 2) back
  unfolding take_u16
  take_u16-IsRest n small r =
      let (taken, rest) = take_bytes-IsRest (n % 256 ∷ n / 256 % 256 ∷ []) 2 r refl in
      let value : le_value (n % 256 ∷ n / 256 % 256 ∷ []) ≡ n = omega arith in
      (ground (arith, taken, value), rest)
