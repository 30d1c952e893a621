-- ===== src/Demo/Base64.antt =====
-- demo/src/client/chain.ts and demo/src/client/passkey.ts: base64url, as credentials and challenges
-- are written.
pub mod Laws
use ckb_crypto_agile_account.Common.{
  ℕ, ◌+◌, ◌-◌, ◌*◌, ◌/◌, ◌%◌, ◌≡◌, Bool, true, false, not, ◌&&◌, ◌||◌, List, [], ◌∷◌, Option, none,
  some, ltb, leb, ◌==◌, if◌then◌else◌, length, Text, text_eq, Result, ok, err, ◌>>=◌, ◌>>◌,
  throw_if,
}
use ckb_crypto_agile_account.Failure.{Failure, Throws, passkey_protocol}
use ckb_crypto_agile_account.Bytes.{Bytes}
use ckb_crypto_agile_account.Demo.Schemas.{is_base64url}

-- A digit of base64, with `-` and `_` for `+` and `/`.
unfoldable pub base64_char : ℕ → ℕ
base64_char d =
    if ltb d 26
    then b'A' + d
    else (if ltb d 52
        then b'a' + (d - 26)
        else (if ltb d 62 then b'0' + (d - 52) else (if d == 62 then b'-' else b'_')))

-- `base64url`: three bytes are four digits, and the padding is dropped.
unfoldable pub base64url : Bytes → Text
base64url [] = []
base64url (a ∷ []) = base64_char (a / 4) ∷ base64_char (a % 4 * 16) ∷ []
base64url (a ∷ b ∷ []) =
    base64_char (a / 4) ∷ base64_char (a % 4 * 16 + b / 16) ∷ base64_char (b % 16 * 4) ∷ []
base64url (a ∷ b ∷ c ∷ rest) =
    base64_char (a / 4)
    ∷ base64_char (a % 4 * 16 + b / 16)
    ∷ base64_char (b % 16 * 4 + c / 64)
    ∷ base64_char (c % 64)
    ∷ base64url rest

-- The value of a digit, `-` and `_` read as `+` and `/`.
unfoldable pub base64_value : ℕ → Option ℕ
base64_value c =
    if leb b'A' c && leb c b'Z'
    then some (c - b'A')
    else (if leb b'a' c && leb c b'z'
        then some (c - b'a' + 26)
        else (if leb b'0' c && leb c b'9'
            then some (c - b'0' + 52)
            else (if c == b'-' then some 62 else (if c == b'_' then some 63 else none))))

-- The values of all digits.
unfoldable pub base64_values : Text → Option (List ℕ)
base64_values [] = some []
base64_values (c ∷ t) = elim (base64_value c) [
  | none ↦ none
  | some v ↦ elim (base64_values t) [ none ↦ none | some vs ↦ some (v ∷ vs) ]
]

-- The bytes of the digits, four at a time. Two or three that are left over lose their last bits, and a
-- single one is refused.
unfoldable pub pack_values : List ℕ → Option Bytes
pack_values [] = some []
pack_values (p ∷ []) = none
pack_values (p ∷ q ∷ []) = some ((p * 4 + q / 16) ∷ [])
pack_values (p ∷ q ∷ r ∷ []) = some ((p * 4 + q / 16) ∷ (q % 16 * 16 + r / 4) ∷ [])
pack_values (p ∷ q ∷ r ∷ s ∷ rest) = elim (pack_values rest) [
  | none ↦ none
  | some bytes ↦ some ((p * 4 + q / 16) ∷ (q % 16 * 16 + r / 4) ∷ (r % 4 * 64 + s) ∷ bytes)
]

-- `atob` of a text that is padded to a multiple of four digits.
unfoldable pub atob : Text → Option Bytes
atob t = elim (base64_values t) [ none ↦ none | some values ↦ pack_values values ]

abbrev pub not_base64url : Failure
not_base64url = passkey_protocol "Credential ID is not canonical base64url"

-- `base64urlDecode`: the bytes must be some, and encode to the same text again.
unfoldable pub base64url_decode : Text → Throws Bytes
base64url_decode value = do
  throw_if (not (is_base64url value)) not_base64url
  elim (atob value) [
    | none ↦ err not_base64url
    | some decoded ↦ do
      throw_if (length decoded == 0 || not (text_eq (base64url decoded) value)) not_base64url
      ok decoded
  ]
