-- ===== src/Bytes/Hex.antt =====
-- `bytesFromHex` and `hexFromBytes` of demo/src/shared/bytes.ts, against one another.
use ckb_crypto_agile_account.Common.{
  ℕ, ◌+◌, ◌*◌, ◌/◌, ◌%◌, ◌<◌, ◌≡◌, refl, sym, ap, ◌∙◌, ◌≢◌, inl, inr, [], ◌∷◌, some, ok, arith, All,
  Text, Option-cases,
}
use ckb_crypto_agile_account.Bytes.{
  Bytes, IsByte, hex_digit, hex_digits, hex_from_bytes, hex_value, hex_pairs, bytes_from_digits,
  bytes_from_hex,
}

hex_value-hex_digit : (d : ℕ) → d < 16 → hex_value (hex_digit d) ≡ some d
unfolding hex_value hex_digit
hex_value-hex_digit d h = ground arith

hex_digit-hex_value : (c d : ℕ) → hex_value c ≡ some d → (hex_digit d ≡ c) × (d < 16)
unfolding hex_value hex_digit
hex_digit-hex_value c d h = ground arith

hex_pairs-hex_digits : (bs : Bytes) → All IsByte bs → hex_pairs (hex_digits bs) ≡ some bs
unfolding hex_pairs hex_digits
hex_pairs-hex_digits [] h = refl
hex_pairs-hex_digits (b ∷ bs) h = ground (
  arith,
  hex_value-hex_digit (b / 16) (omega arith),
  hex_value-hex_digit (b % 16) (omega arith),
  hex_pairs-hex_digits bs h.1,
)

hex_digits-hex_pairs :
    (t : Text) (bs : Bytes) → hex_pairs t ≡ some bs → (hex_digits bs ≡ t) × All IsByte bs
unfolding hex_pairs hex_digits
hex_digits-hex_pairs [] bs h = ground arith
hex_digits-hex_pairs (c ∷ []) bs h = cc
hex_digits-hex_pairs (c ∷ d ∷ t) bs h = elim (Option-cases (hex_value c)) [
  | inl e ↦ ground arith
  | inr (high, e) ↦ elim (Option-cases (hex_value d)) [
    | inl f ↦ ground arith
    | inr (low, f) ↦ elim (Option-cases (hex_pairs t)) [
      | inl g ↦ ground arith
      | inr (more, g) ↦
          pair_read c d t more bs high low (hex_digit-hex_value c high e)
            (hex_digit-hex_value d low f) (hex_digits-hex_pairs t more g) (ground arith)
    ]
  ]
]
  where
    pair_read :
        (c d : ℕ) (t : Text) (more bs : Bytes) (high low : ℕ)
        → (hex_digit high ≡ c) × (high < 16)
        → (hex_digit low ≡ d) × (low < 16)
        → (hex_digits more ≡ t) × All IsByte more
        → bs ≡ (high * 16 + low) ∷ more
        → (hex_digits bs ≡ c ∷ d ∷ t) × All IsByte bs
    pair_read c d t more bs high low p q r e =
        let upper : (high * 16 + low) / 16 ≡ high = omega arith in
        let lower : (high * 16 + low) % 16 ≡ low = omega arith in
        rw e (cc (upper, lower), (omega arith, r.1))

-- `hexFromBytes` writes what `bytesFromHex` reads back, for every list of bytes that is not empty.
pub bytes_from_hex-hex_from_bytes :
    (b : ℕ) (bs : Bytes)
    → All IsByte (b ∷ bs)
    → bytes_from_hex (hex_from_bytes (b ∷ bs)) ≡ ok (b ∷ bs)
unfolding bytes_from_hex hex_from_bytes bytes_from_digits
bytes_from_hex-hex_from_bytes b bs h = ground (arith, hex_pairs-hex_digits (b ∷ bs) h)

bytes_from_digits-eq-ok :
    (t : Text) (bs : Bytes) → bytes_from_digits t ≡ ok bs → (hex_pairs t ≡ some bs) × (t ≢ [])
unfolding bytes_from_digits
bytes_from_digits-eq-ok [] bs h = cc
bytes_from_digits-eq-ok (c ∷ t) bs h = ground arith

-- A text that `bytesFromHex` accepts is the one that `hexFromBytes` writes for the bytes it
-- answers, and these are bytes: there is one accepted spelling of each list of bytes.
pub hex_from_bytes-bytes_from_hex :
    (t : Text) (bs : Bytes)
    → bytes_from_hex t ≡ ok bs
    → (hex_from_bytes bs ≡ t) × All IsByte bs × (bs ≢ [])
unfolding bytes_from_hex hex_from_bytes
hex_from_bytes-bytes_from_hex [] bs h = cc
hex_from_bytes-bytes_from_hex (c ∷ []) bs h = cc
hex_from_bytes-bytes_from_hex (c ∷ d ∷ t) bs h =
    let (z, x, rest) : (c ≡ 48) × (d ≡ 120) × (bytes_from_digits t ≡ ok bs) =
      (ground arith, ground arith, ground arith) in
    let (read, some_digits) = bytes_from_digits-eq-ok t bs rest in
    let (same, bytes) = hex_digits-hex_pairs t bs read in
    (cc, bytes, λ e. some_digits (sym same ∙ ap hex_digits e))
