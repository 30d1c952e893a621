-- ===== src/Bytes/LittleEndian.antt =====
-- `u16le`, `u32le` and `u64le` of demo/src/shared/bytes.ts against the reading of their bytes.
use ckb_crypto_agile_account.Common.{
  length, ap, sym, ◌∙◌, ℕ, ◌+◌, ◌*◌, ◌/◌, ◌%◌, ◌≤◌, ◌≡◌, refl, ◌↔◌, [], ◌∷◌, ok, arith, length,
}
use ckb_crypto_agile_account.Bytes.{
  Bytes, Number, nat, not_nat, ℤ, pos, negsuc, u16le, u32le, u64le, eight_bytes,
}

-- The number that little-endian bytes stand for.
abbrev pub le_value : Bytes → ℕ
le_value [] = 0
le_value (b ∷ bs) = b + 256 * le_value bs

pub le_value-two : (n : ℕ) → n ≤ 0xffff → n % 256 + n / 256 % 256 * 256 ≡ n
le_value-two n h = omega arith

pub le_value-four :
    (n : ℕ)
    → n ≤ 0xffff_ffff
    → n % 256 + n / 256 % 256 * 256 + n / 65536 % 256 * 65536 + n / 16777216 % 256 * 16777216 ≡ n
le_value-four n h = omega arith

pub le_value-eight_bytes : (n : ℕ) → n ≤ 0xffff_ffff_ffff_ffff → le_value (eight_bytes n) ≡ n
le_value-eight_bytes n h = omega arith

-- When the three writers answer, and with what.
pub u16le_lem :
    (x : Number) (bs : Bytes)
    → (u16le x ≡ ok bs)
      ↔ ((n : ℕ) × (x ≡ nat n) × (n ≤ 0xffff) × (bs ≡ n % 256 ∷ n / 256 % 256 ∷ []))
unfolding u16le
u16le_lem (nat n) bs = (λ h. (n, refl, ground arith, ground arith), λ h. ground arith)
u16le_lem not_nat bs = (λ h. cc, λ h. cc)

pub u32le_lem :
    (x : Number) (bs : Bytes)
    → (u32le x ≡ ok bs) ↔ (
        (n : ℕ) × (x ≡ nat n)
        × (n ≤ 0xffff_ffff)
        × (bs ≡ n % 256 ∷ n / 256 % 256 ∷ n / 65536 % 256 ∷ n / 16777216 % 256 ∷ []))
unfolding u32le
u32le_lem (nat n) bs = (λ h. (n, refl, ground arith, ground arith), λ h. ground arith)
u32le_lem not_nat bs = (λ h. cc, λ h. cc)

pub u64le_lem :
    (x : ℤ) (bs : Bytes)
    → (u64le x ≡ ok bs)
      ↔ ((n : ℕ) × (x ≡ pos n) × (n ≤ 0xffff_ffff_ffff_ffff) × (bs ≡ eight_bytes n))
unfolding u64le
u64le_lem (pos n) bs = (λ h. (n, refl, ground arith, ground arith), λ h. ground arith)
u64le_lem (negsuc n) bs = (λ h. cc, λ h. cc)

-- What `u64le` writes are eight bytes that read back as the number, which is not negative.
pub le_value-u64le :
    (x : ℤ) (bs : Bytes) → u64le x ≡ ok bs → (x ≡ pos (le_value bs)) × (length bs ≡ 8)
le_value-u64le x bs h =
    let (n, e, fits, layout) = (u64le_lem x bs).0 h in
    (e ∙ ap pos (sym (ap le_value layout ∙ le_value-eight_bytes n fits)), ap length layout)
