-- ===== src/Bytes.antt =====
-- demo/src/shared/bytes.ts. A Uint8Array is the list of its bytes.
pub mod LittleEndian
pub mod Concat
pub mod Hex
use ckb_crypto_agile_account.Common.{
  ℕ, zero, suc, ◌+◌, ◌-◌, ◌*◌, ◌/◌, ◌%◌, ◌^◌, ◌≤◌, ◌<◌, ◌≡◌, Bool, true, false, not, ◌&&◌, ◌||◌,
  List, [], ◌∷◌, ◌++◌, Option, none, some, ltb, leb, ◌==◌, if◌then◌else◌, length, concat, Text,
  Result, ok, err, ◌>>=◌, ◌>>◌, throw_if, All,
}
use ckb_crypto_agile_account.Failure.{Failure, Throws, type_error, range_error}

abbrev pub Bytes : Type 0
Bytes = List ℕ

abbrev pub IsByte : ℕ → Type 0
IsByte b = b < 256

-- A JavaScript number: a natural one, or anything that `Number.isInteger(n) && n >= 0` refuses.
pub data Number : Type 0 where
  nat : ℕ → Number
  not_nat : Number

-- A bigint; `negsuc n` is -(n + 1).
pub data ℤ : Type 0 where
  pos : ℕ → ℤ
  negsuc : ℕ → ℤ

-- `Number.isSafeInteger` of a length.
abbrev pub max_safe_integer : ℕ
max_safe_integer = 9007199254740991

-- `u16le`
unfoldable pub u16le : Number → Throws Bytes
u16le (nat n) = do throw_if (ltb 0xffff n) (range_error "u16"); ok (n % 256 ∷ n / 256 % 256 ∷ [])
u16le not_nat = err (range_error "u16")

-- `u32le`: `setUint32(0, value, true)` writes the lowest byte first.
unfoldable pub u32le : Number → Throws Bytes
u32le (nat n) = do
  throw_if (ltb 0xffff_ffff n) (range_error "u32")
  ok (n % 256 ∷ n / 256 % 256 ∷ n / 65536 % 256 ∷ n / 16777216 % 256 ∷ [])
u32le not_nat = err (range_error "u32")

-- The eight bytes that `setBigUint64(0, value, true)` writes.
abbrev pub eight_bytes : ℕ → Bytes
eight_bytes n =
    n % 256
    ∷ n / 256 % 256
    ∷ n / 256 ^ 2 % 256
    ∷ n / 256 ^ 3 % 256
    ∷ n / 256 ^ 4 % 256
    ∷ n / 256 ^ 5 % 256
    ∷ n / 256 ^ 6 % 256
    ∷ n / 256 ^ 7 % 256
    ∷ []

-- `u64le`
unfoldable pub u64le : ℤ → Throws Bytes
u64le (pos n) = do throw_if (ltb 0xffff_ffff_ffff_ffff n) (range_error "u64"); ok (eight_bytes n)
u64le (negsuc n) = err (range_error "u64")

-- The first loop of `bytesConcat`, which checks the running length.
unfoldable pub concat_length : List Bytes → ℕ → Throws ℕ
concat_length [] so_far = ok so_far
concat_length (part ∷ parts) so_far = do
  throw_if (ltb max_safe_integer (so_far + length part)) (range_error "byte length")
  concat_length parts (so_far + length part)

-- `bytesConcat`: the second loop copies each part behind the last.
unfoldable pub bytes_concat : List Bytes → Throws Bytes
unfolding concat_length
bytes_concat parts = do size ← concat_length parts 0; ok (concat parts)

-- `byte.toString(16).padStart(2, "0")`: the two lowercase hex digits of a byte.
unfoldable pub hex_digit : ℕ → ℕ
hex_digit d = if ltb d 10 then b'0' + d else b'a' + (d - 10)

unfoldable pub hex_digits : Bytes → Text
hex_digits [] = []
hex_digits (byte ∷ bytes) = hex_digit (byte / 16) ∷ hex_digit (byte % 16) ∷ hex_digits bytes

-- `hexFromBytes`
unfoldable pub hex_from_bytes : Bytes → Text
unfolding hex_digits
hex_from_bytes bytes = b'0' ∷ b'x' ∷ hex_digits bytes

-- The value of a character of the class `[0-9a-f]`.
unfoldable pub hex_value : ℕ → Option ℕ
hex_value c =
    if leb b'0' c && leb c b'9'
    then some (c - b'0')
    else (if leb b'a' c && leb c b'f' then some (c - b'a' + 10) else none)

-- The digits of `(?:[0-9a-f]{2})*$` read two at a time, as the regular expression and the loop do.
unfoldable pub hex_pairs : Text → Option Bytes
hex_pairs [] = some []
hex_pairs (c ∷ []) = none
hex_pairs (c ∷ d ∷ rest) = elim (hex_value c) [
  | none ↦ none
  | some high ↦ elim (hex_value d) [
    | none ↦ none
    | some low ↦ elim (hex_pairs rest) [
      | none ↦ none
      | some bytes ↦ some ((high * 16 + low) ∷ bytes)
    ]
  ]
]

unfoldable pub not_canonical : Failure
not_canonical = type_error "expected canonical lowercase 0x hex"

-- The body behind `0x`: one pair at least.
unfoldable pub bytes_from_digits : Text → Throws Bytes
unfolding not_canonical
bytes_from_digits [] = err not_canonical
bytes_from_digits (c ∷ digits) = elim (hex_pairs (c ∷ digits)) [
  | none ↦ err not_canonical
  | some bytes ↦ ok bytes
]

-- `bytesFromHex`
unfoldable pub bytes_from_hex : Text → Throws Bytes
unfolding not_canonical
bytes_from_hex (c ∷ d ∷ digits) =
    if c == b'0' && d == b'x' then bytes_from_digits digits else err not_canonical
bytes_from_hex _ = err not_canonical
