-- ===== src/Demo/Base64/Laws.antt =====
-- demo/src/client/passkey.ts: base64url read and written.
use ckb_crypto_agile_account.Common.{
  ℕ, ◌+◌, ◌*◌, ◌/◌, ◌%◌, ◌<◌, ◌≡◌, ◌≢◌, ◌↔◌, refl, sym, ap, ◌∙◌, subst, true, false, List, [], ◌∷◌,
  some, ◌==◌, length, Text, text_eq, text_eq→eq, text_eq_self, ok, All, arith, Option-cases, inl,
  inr,
}
use ckb_crypto_agile_account.Bytes.{Bytes, IsByte}
use ckb_crypto_agile_account.Json.Patterns.{all}
use ckb_crypto_agile_account.Demo.Schemas.{is_base64url, is_base64url_char}
use ckb_crypto_agile_account.Demo.Base64.{
  base64_char, base64url, base64_value, base64_values, pack_values, atob, base64url_decode,
}

abbrev IsDigit : ℕ → Type 0
IsDigit d = d < 64

base64_value-base64_char : (d : ℕ) → d < 64 → base64_value (base64_char d) ≡ some d
unfolding base64_value base64_char
base64_value-base64_char d h = ground arith

base64_char-is_base64url_char : (d : ℕ) → d < 64 → is_base64url_char (base64_char d) ≡ true
unfolding base64_char
base64_char-is_base64url_char d h = ground arith

base64_value-IsDigit : (c v : ℕ) → base64_value c ≡ some v → v < 64
unfolding base64_value
base64_value-IsDigit c v h = ground (arith, h)

high-high_low : (a b : ℕ) → b < 256 → a / 4 * 4 + (a % 4 * 16 + b / 16) / 16 ≡ a
high-high_low a b h = omega arith

-- The values of the digits that stand for some bytes.
digits : Bytes → List ℕ
digits [] = []
digits (a ∷ []) = a / 4 ∷ a % 4 * 16 ∷ []
digits (a ∷ b ∷ []) = a / 4 ∷ (a % 4 * 16 + b / 16) ∷ b % 16 * 4 ∷ []
digits (a ∷ b ∷ c ∷ rest) =
    a / 4 ∷ (a % 4 * 16 + b / 16) ∷ (b % 16 * 4 + c / 64) ∷ c % 64 ∷ digits rest

digits-IsDigit : (bs : Bytes) → All IsByte bs → All IsDigit (digits bs)
unfolding digits
digits-IsDigit [] h = tt
digits-IsDigit (a ∷ []) (ha, h) = (omega arith, (omega arith, tt))
digits-IsDigit (a ∷ b ∷ []) (ha, (hb, h)) = (omega arith, (omega arith, (omega arith, tt)))
digits-IsDigit (a ∷ b ∷ c ∷ rest) (ha, (hb, (hc, h))) =
    (omega arith, (omega arith, (omega arith, (omega arith, digits-IsDigit rest h))))

-- The text of a list of values.
written : List ℕ → Text
written [] = []
written (d ∷ ds) = base64_char d ∷ written ds

written-digits : (bs : Bytes) → written (digits bs) ≡ base64url bs
unfolding written digits base64url
written-digits [] = refl
written-digits (a ∷ []) = refl
written-digits (a ∷ b ∷ []) = refl
written-digits (a ∷ b ∷ c ∷ rest) = rw (written-digits rest)

base64_values-written : (ds : List ℕ) → All IsDigit ds → base64_values (written ds) ≡ some ds
unfolding base64_values written
base64_values-written [] h = refl
base64_values-written (d ∷ ds) (hd, h) =
    rw (base64_values, base64_value-base64_char d hd, base64_values-written ds h)

base64_values-IsDigit : (t : Text) (vs : List ℕ) → base64_values t ≡ some vs → All IsDigit vs
unfolding base64_values
base64_values-IsDigit [] [] h = tt
base64_values-IsDigit [] (v ∷ vs) h = cc
base64_values-IsDigit (c ∷ t) vs h = elim (Option-cases (base64_value c)) [
  | inl bad ↦ absurd (ground (arith, h, bad))
  | inr (v, good) ↦ elim (Option-cases (base64_values t)) [
    | inl bad ↦ absurd (ground (arith, h, good, bad))
    | inr (rest, fine) ↦
        let made : ◌≡◌ {A = List ℕ} (v ∷ rest) vs = ground (arith, h, good, fine) in
        subst (All IsDigit) made (base64_value-IsDigit c v good, base64_values-IsDigit t rest fine)
  ]
]

pack_values-digits : (bs : Bytes) → All IsByte bs → pack_values (digits bs) ≡ some bs
unfolding pack_values digits
pack_values-digits [] h = refl
pack_values-digits (a ∷ []) (ha, h) =
    let e1 : a / 4 * 4 + a % 4 * 16 / 16 ≡ a = omega arith in rw e1
pack_values-digits (a ∷ b ∷ []) (ha, (hb, h)) =
    let e1 : a / 4 * 4 + (a % 4 * 16 + b / 16) / 16 ≡ a = omega arith in
    let e2 : (a % 4 * 16 + b / 16) % 16 * 16 + b % 16 * 4 / 4 ≡ b = omega arith in rw (e1, e2)
pack_values-digits (a ∷ b ∷ c ∷ rest) (ha, (hb, (hc, h))) =
    let e1 : a / 4 * 4 + (a % 4 * 16 + b / 16) / 16 ≡ a = omega arith in
    let e2 : (a % 4 * 16 + b / 16) % 16 * 16 + (b % 16 * 4 + c / 64) / 4 ≡ b = omega arith in
    let e3 : (b % 16 * 4 + c / 64) % 4 * 64 + c % 64 ≡ c = omega arith in
    rw (pack_values, pack_values-digits rest h, e1, e2, e3)

pack_values-IsByte :
    (vs : List ℕ) (bs : Bytes) → All IsDigit vs → pack_values vs ≡ some bs → All IsByte bs
unfolding pack_values
pack_values-IsByte [] bs h e = let made : ◌≡◌ {A = Bytes} [] bs = cc e in subst (All IsByte) made tt
pack_values-IsByte (p ∷ []) bs h e = cc
pack_values-IsByte (p ∷ q ∷ []) bs (hp, (hq, h)) e =
    let made : ◌≡◌ {A = Bytes} ((p * 4 + q / 16) ∷ []) bs = cc e in
    subst (All IsByte) made (omega arith, tt)
pack_values-IsByte (p ∷ q ∷ r ∷ []) bs (hp, (hq, (hr, h))) e =
    let made : ◌≡◌ {A = Bytes} ((p * 4 + q / 16) ∷ (q % 16 * 16 + r / 4) ∷ []) bs = cc e in
    subst (All IsByte) made (omega arith, (omega arith, tt))
pack_values-IsByte (p ∷ q ∷ r ∷ s ∷ rest) bs (hp, (hq, (hr, (hs, h)))) e =
    elim (Option-cases (pack_values rest)) [
      | inl bad ↦ absurd (ground (arith, e, bad))
      | inr (more, good) ↦
          let made : ◌≡◌ {A = Bytes}
              ((p * 4 + q / 16) ∷ (q % 16 * 16 + r / 4) ∷ (r % 4 * 64 + s) ∷ more) bs =
            ground (arith, e, good) in
          subst (All IsByte) made
            (omega arith, (omega arith, (omega arith, pack_values-IsByte rest more h good)))
    ]

unpack : (t : Text) (bs : Bytes) → atob t ≡ some bs → All IsByte bs
unfolding atob
unpack t bs e = elim (Option-cases (base64_values t)) [
  | inl bad ↦ absurd (ground (arith, e, bad))
  | inr (vs, good) ↦
      pack_values-IsByte vs bs (base64_values-IsDigit t vs good) (ground (arith, e, good))
]

atob-base64url : (bs : Bytes) → All IsByte bs → atob (base64url bs) ≡ some bs
unfolding atob
atob-base64url bs h = rw (
  sym (written-digits bs),
  atob,
  base64_values-written (digits bs) (digits-IsDigit bs h),
  pack_values-digits bs h,
)

written-is_base64url_char :
    (ds : List ℕ) → All IsDigit ds → all is_base64url_char (written ds) ≡ true
unfolding written
written-is_base64url_char [] h = refl
written-is_base64url_char (d ∷ ds) (hd, h) =
    rw (base64_char-is_base64url_char d hd, written-is_base64url_char ds h)

base64url-is_base64url : (bs : Bytes) → bs ≢ [] → All IsByte bs → is_base64url (base64url bs) ≡ true
unfolding is_base64url base64url digits written
base64url-is_base64url [] some_bytes h = absurd (some_bytes refl)
base64url-is_base64url (a ∷ []) some_bytes h =
    written-is_base64url_char (digits (a ∷ [])) (digits-IsDigit (a ∷ []) h)
base64url-is_base64url (a ∷ b ∷ []) some_bytes h =
    written-is_base64url_char (digits (a ∷ b ∷ [])) (digits-IsDigit (a ∷ b ∷ []) h)
base64url-is_base64url (a ∷ b ∷ c ∷ rest) some_bytes h =
    rw (sym (written-digits rest))
      (written-is_base64url_char (digits (a ∷ b ∷ c ∷ rest)) (digits-IsDigit (a ∷ b ∷ c ∷ rest) h))

decoded_bytes :
    (t : Text) (bs : Bytes)
    → base64url_decode t ≡ ok bs
    → (bs ≢ []) × All IsByte bs × (base64url bs ≡ t)
unfolding base64url_decode
decoded_bytes t bs e = elim (Option-cases (atob t)) [
  | inl bad ↦ absurd (ground (arith, e, bad))
  | inr (found, good) ↦
      let same : found ≡ bs = ground (arith, e, good) in
      let written_again : text_eq (base64url found) t ≡ true = ground (arith, e, good) in
      let long : (length found == 0) ≡ false = ground (arith, e, good) in
      (
        λ empty. absurd (ground (arith, long, same, empty)),
        unpack t bs (good ∙ ap some same),
        subst (λ x. base64url x ≡ t) same (text_eq→eq (base64url found) t written_again),
      )
]

length-some_bytes : (bs : Bytes) → bs ≢ [] → (length bs == 0) ≡ false
length-some_bytes [] h = absurd (h refl)
length-some_bytes (b ∷ bs) h = ground arith

decode_written : (bs : Bytes) → bs ≢ [] → All IsByte bs → base64url_decode (base64url bs) ≡ ok bs
unfolding base64url_decode
decode_written bs some_bytes h = rw (
  base64url-is_base64url bs some_bytes h,
  atob-base64url bs h,
  length-some_bytes bs some_bytes,
  text_eq_self (base64url bs),
)

-- `base64urlDecode` answers exactly for the base64url of a list of bytes that is not empty, and then
-- with those bytes.
pub base64url_decode_iff :
    (t : Text) (bs : Bytes)
    → (base64url_decode t ≡ ok bs) ↔ ((bs ≢ []) × All IsByte bs × (base64url bs ≡ t))
base64url_decode_iff t bs = (
  decoded_bytes t bs,
  λ (some_bytes, h, e). subst (λ x. base64url_decode x ≡ ok bs) e (decode_written bs some_bytes h),
)
