-- ===== src/Json/Patterns.antt =====
-- The regular expressions of tools/deploy/src/deployment.ts and demo/src/shared/schemas.ts as tests.
use ckb_crypto_agile_account.Common.{
  ℕ, ◌*◌, Bool, true, false, ◌&&◌, ◌||◌, [], ◌∷◌, Text, leb, ◌==◌, length,
}

-- `[0-9a-f]`
abbrev pub is_hex_lower : ℕ → Bool
is_hex_lower c = leb b'0' c && leb c b'9' || leb b'a' c && leb c b'f'

-- `[0-9]`
abbrev pub is_digit : ℕ → Bool
is_digit c = leb b'0' c && leb c b'9'

abbrev pub all : (ℕ → Bool) → Text → Bool
all p [] = true
all p (c ∷ t) = p c && all p t

-- `^0x[0-9a-f]{2 * bytes}$`
unfoldable pub hex_bytes : ℕ → Text → Bool
hex_bytes bytes (z ∷ x ∷ digits) =
    z == b'0' && (x == b'x' && (length digits == 2 * bytes && all is_hex_lower digits))
hex_bytes bytes _ = false

-- `^0x[0-9a-f]{64}$`
unfoldable pub is_hash32 : Text → Bool
is_hash32 t = hex_bytes 32 t

-- `^[1-9][0-9]*$`
unfoldable pub is_positive_decimal : Text → Bool
is_positive_decimal [] = false
is_positive_decimal (c ∷ t) = leb b'1' c && leb c b'9' && all is_digit t
