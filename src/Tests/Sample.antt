-- ===== src/Tests/Sample.antt =====
-- Concrete stand-ins for the libraries that the code calls, for the examples.
use ckb_crypto_agile_account.Common.{
  ℕ, zero, suc, ◌≡◌, ◌↔◌, refl, Bool, true, false, ◌&&◌, [], ◌∷◌, ◌++◌, Option, none, some, take,
  replicate, Text, text_eq, text_eq→eq, text_eq_self, codes, ◌==◌, ==_iff, ==_self, ok, err, ◌>>=◌,
  arith,
}
use ckb_crypto_agile_account.Failure.{Throws, type_error}
use ckb_crypto_agile_account.Bytes.{Bytes, bytes_from_hex, hex_from_bytes}
use ckb_crypto_agile_account.Protocol.{WitnessArgs, Ckb}
use ckb_crypto_agile_account.Ccc.{
  HashType, by_type, by_data, by_data1, by_data2, Script, OutPoint, Ccc,
}

-- A field of a witness: a mark, and if there is one its bytes, each behind a one, up to a zero.
abbrev pub write_body : Bytes → Bytes → Bytes
write_body [] rest = 0 ∷ rest
write_body (b ∷ bs) rest = 1 ∷ b ∷ write_body bs rest

abbrev pub write_field : Option Bytes → Bytes → Bytes
write_field none rest = 0 ∷ rest
write_field (some bs) rest = 1 ∷ write_body bs rest

abbrev pub read_body : Bytes → Throws (Bytes × Bytes)
read_body (zero ∷ rest) = ok ([], rest)
read_body (suc zero ∷ b ∷ more) = read_body more >>= λ (bs, rest). ok (b ∷ bs, rest)
read_body _ = err (type_error "field")

abbrev pub read_field : Bytes → Throws (Option Bytes × Bytes)
read_field (zero ∷ rest) = ok (none, rest)
read_field (suc zero ∷ more) = read_body more >>= λ (bs, rest). ok (some bs, rest)
read_field _ = err (type_error "field")

pub read_body-write_body : (bs rest : Bytes) → read_body (write_body bs rest) ≡ ok (bs, rest)
read_body-write_body [] rest = refl
read_body-write_body (b ∷ bs) rest = rw (read_body-write_body bs rest)

read_field-write_field :
    (f : Option Bytes) (rest : Bytes) → read_field (write_field f rest) ≡ ok (f, rest)
read_field-write_field none rest = refl
read_field-write_field (some bs) rest = rw (read_body-write_body bs rest)

abbrev pub write_args : WitnessArgs → Bytes
write_args w = write_field w.lock (write_field w.input_type (write_field w.output_type []))

abbrev pub read_args : Bytes → Throws WitnessArgs
read_args bytes = read_field bytes >>= λ (lock, more). read_field more >>= λ (input_type, last).
    read_field last >>= λ (output_type, rest).
    ok (record { lock = lock; input_type = input_type; output_type = output_type })

pub read_args-write_args : (w : WitnessArgs) → read_args (write_args w) ≡ ok w
read_args-write_args w = rw (
  read_field-write_field w.lock (write_field w.input_type (write_field w.output_type [])),
  read_field-write_field w.input_type (write_field w.output_type []),
  read_field-write_field w.output_type [],
)

abbrev pub sample_ckb : Ckb
sample_ckb = record {
  hash_ckb = λ bs. take 32 (bs ++ replicate 32 0);
  witness_args_from_bytes = read_args;
  witness_args_to_bytes = write_args;
  witness_args_from_bytes-witness_args_to_bytes = read_args-write_args;
}

abbrev pub same_hash_type : HashType → HashType → Bool
same_hash_type by_type by_type = true
same_hash_type by_data by_data = true
same_hash_type by_data1 by_data1 = true
same_hash_type by_data2 by_data2 = true
same_hash_type _ _ = false

same_hash_type→eq : (s t : HashType) → same_hash_type s t ≡ true → s ≡ t
same_hash_type→eq by_type by_type h = refl
same_hash_type→eq by_data by_data h = refl
same_hash_type→eq by_data1 by_data1 h = refl
same_hash_type→eq by_data2 by_data2 h = refl
same_hash_type→eq by_type by_data h = cc
same_hash_type→eq by_type by_data1 h = cc
same_hash_type→eq by_type by_data2 h = cc
same_hash_type→eq by_data by_type h = cc
same_hash_type→eq by_data by_data1 h = cc
same_hash_type→eq by_data by_data2 h = cc
same_hash_type→eq by_data1 by_type h = cc
same_hash_type→eq by_data1 by_data h = cc
same_hash_type→eq by_data1 by_data2 h = cc
same_hash_type→eq by_data2 by_type h = cc
same_hash_type→eq by_data2 by_data h = cc
same_hash_type→eq by_data2 by_data1 h = cc

same_hash_type_self : (s : HashType) → same_hash_type s s ≡ true
same_hash_type_self by_type = refl
same_hash_type_self by_data = refl
same_hash_type_self by_data1 = refl
same_hash_type_self by_data2 = refl

abbrev pub same_script : Script → Script → Bool
same_script s t =
    text_eq s.code_hash t.code_hash
    && (same_hash_type s.hash_type t.hash_type && text_eq s.args t.args)

same_script_self : (s : Script) → same_script s s ≡ true
same_script_self s =
    rw (text_eq_self s.code_hash, same_hash_type_self s.hash_type, text_eq_self s.args)

pub same_script_iff : (s t : Script) → (same_script s t ≡ true) ↔ (s ≡ t)
same_script_iff s t = (
  λ h.
      let code : s.code_hash ≡ t.code_hash =
        text_eq→eq s.code_hash t.code_hash (ground (arith, h)) in
      let kind : s.hash_type ≡ t.hash_type =
        same_hash_type→eq s.hash_type t.hash_type (ground (arith, h)) in
      let args : s.args ≡ t.args = text_eq→eq s.args t.args (ground (arith, h)) in
      cc (code, kind, args),
  λ e. rw e (same_script_self t),
)

abbrev pub same_place : OutPoint → OutPoint → Bool
same_place o p = text_eq o.tx_hash p.tx_hash && o.index == p.index

same_place_self : (o : OutPoint) → same_place o o ≡ true
same_place_self o = rw (text_eq_self o.tx_hash, ==_self o.index)

pub same_place_iff : (o p : OutPoint) → (same_place o p ≡ true) ↔ (o ≡ p)
same_place_iff o p = (
  λ h.
      let hash : o.tx_hash ≡ p.tx_hash = text_eq→eq o.tx_hash p.tx_hash (ground (arith, h)) in
      let index : o.index ≡ p.index = (==_iff o.index p.index).0 (ground (arith, h)) in
      cc (hash, index),
  λ e. rw e (same_place_self p),
)

-- A hash of 32 bytes, each the one that is given by its two hex digits.
abbrev pub hash_of : ℕ → Text
hash_of digit = codes "0x" ++ replicate 64 digit

abbrev pub sample_ccc : Ccc
sample_ccc = record {
  hash_ckb = λ bs. hash_of b'0';
  bytes_from = bytes_from_hex;
  hex_from = hex_from_bytes;
  script_hash = λ s. hash_of b'1';
  hash_type_id = λ input index. hash_of b'2';
  script_eq = same_script;
  script_eq_iff = same_script_iff;
  out_point_eq = same_place;
  out_point_eq_iff = same_place_iff;
  transaction_hash = λ tx. hash_of b'3';
  occupied_size = λ output. 61;
  estimate_fee = λ tx rate. 1000;
}
