-- ===== src/Demo/State/Shape.antt =====
-- What `parseAccountState` of demo/src/client/chain.ts accepts.
use ckb_crypto_agile_account.Common.{
  ℕ, ◌+◌, ◌-◌, ◌≤◌, ◌≡◌, refl, sym, ap, ◌∙◌, subst, Bool, true, false, not, ◌||◌, ◌==◌, ltb, ◌++◌,
  length, take, drop, length-take, length-drop, Text, text_eq, text_eq→eq, codes, ok, >>=-eq-ok,
  throw_if, arith,
}
use ckb_crypto_agile_account.Failure.{Failure}
use ckb_crypto_agile_account.Bytes.{Bytes, bytes_from_hex, hex_from_bytes}
use ckb_crypto_agile_account.Protocol.{byte_is}
use ckb_crypto_agile_account.Demo.Manifests.{VerifiedAccount}
use ckb_crypto_agile_account.Demo.State.{
  ParsedState, expected_rp_id_hash, expected_origin_hash, u16_at, u64_at, is_unsupported_entry,
  check_header, check_entry, parse_account_state,
}

-- The bytes of a state with one P-256 passkey for this origin, and what is read of them.
pub record IsState (account : VerifiedAccount) (bytes : Bytes) (s : ParsedState) : Type 0 where
  pub sized : length bytes ≡ 177
  pub recorded : account.manifest.state_bytes ≡ 177
  pub magic : take 4 bytes ≡ codes "CKAS"
  pub verifier :
      hex_from_bytes (take 32 (drop 44 bytes)) ≡ account.deployment.verifier_p256_code.code_hash
  pub key_id : s.key_id ≡ take 32 (drop 80 bytes)
  pub key_id_length : length s.key_id ≡ 32
  pub bound :
      drop 2 (hex_from_bytes (drop 112 bytes))
      ≡ codes "01" ++ expected_rp_id_hash ++ expected_origin_hash
  pub sequence : s.sequence ≡ u64_at bytes 8

check_header-eq-ok :
    (bytes : Bytes) (account : VerifiedAccount)
    → check_header bytes account ≡ ok tt
    → (length bytes ≡ account.manifest.state_bytes) × (take 4 bytes ≡ codes "CKAS")
unfolding check_header
check_header-eq-ok bytes account h =
    (ground (arith, h), text_eq→eq (take 4 bytes) (codes "CKAS") (ground (arith, h)))

throw_if_passed : (test : Bool) (e : Failure) (t : Unit {0}) → throw_if test e ≡ ok t → test ≡ false
throw_if_passed false e t h = refl
throw_if_passed true e t h = cc

not-eq-false : (b : Bool) → not b ≡ false → b ≡ true
not-eq-false true h = refl
not-eq-false false h = cc

not_below : (a b : ℕ) → ltb a b ≡ false → b ≤ a
not_below a b h = ground arith

-- The lengths of an entry that is supported.
entry_lengths :
    (e n k a : ℕ) (b1 b2 b3 b4 b5 b6 : Bool)
    → (not (e == n - 32)
        || (not (e == 48 + k + a)
            || (b1 || (b2 || (b3 || (b4 || (b5 || (b6 || (not (k == 32) || not (a == 65))))))))))
      ≡ false
    → 80 ≤ n
    → (n ≡ 177) × (k ≡ 32)
entry_lengths e n k a b1 b2 b3 b4 b5 b6 h least =
    (ground (arith, h, least), ground (arith, h, least))

entry_supported :
    (bytes : Bytes)
    → is_unsupported_entry bytes ≡ false
    → 80 ≤ length bytes
    → (length bytes ≡ 177) × (u16_at bytes 76 ≡ 32)
unfolding is_unsupported_entry
entry_supported bytes h least =
    entry_lengths (u16_at bytes 32) (length bytes) (u16_at bytes 76) (u16_at bytes 78)
      (not (u16_at bytes 34 == 0)) (not (u16_at bytes 36 == 1)) (not (u16_at bytes 38 == 7))
      (not (u16_at bytes 40 == 1)) (not (byte_is bytes 42 0)) (not (byte_is bytes 43 1)) h least

check_entry-eq-ok :
    (bytes : Bytes) (account : VerifiedAccount)
    → check_entry bytes account ≡ ok tt
    → (length bytes ≡ 177)
      × (u16_at bytes 76 ≡ 32)
      × (hex_from_bytes (take 32 (drop 44 bytes)) ≡ account.deployment.verifier_p256_code.code_hash)
      × (drop 2 (hex_from_bytes (drop (80 + u16_at bytes 76) bytes))
          ≡ codes "01" ++ expected_rp_id_hash ++ expected_origin_hash)
unfolding check_entry
check_entry-eq-ok bytes account h =
    let code_hash = account.deployment.verifier_p256_code.code_hash in
    let aux = codes "01" ++ expected_rp_id_hash ++ expected_origin_hash in
    let named = hex_from_bytes (take 32 (drop 44 bytes)) in
    let bound = drop 2 (hex_from_bytes (drop (80 + u16_at bytes 76) bytes)) in
    let (t1, e1, h1) = >>=-eq-ok (throw_if (ltb (length bytes) 80) _) _ h in
    let (t2, e2, h2) = >>=-eq-ok (throw_if (is_unsupported_entry bytes) _) _ h1 in
    let (t3, e3, h3) = >>=-eq-ok (throw_if (not (text_eq named code_hash)) _) _ h2 in
    let least = throw_if_passed (ltb (length bytes) 80) _ t1 e1 in
    let fits = throw_if_passed (is_unsupported_entry bytes) _ t2 e2 in
    let (sized, key_length) = entry_supported bytes fits (not_below (length bytes) 80 least) in
    (
      sized,
      key_length,
      text_eq→eq named code_hash (
          not-eq-false (text_eq named code_hash)
            (throw_if_passed (not (text_eq named code_hash)) _ t3 e3)),
      text_eq→eq bound aux
          (not-eq-false (text_eq bound aux) (throw_if_passed (not (text_eq bound aux)) _ tt h3)),
    )

-- A state that `parseAccountState` accepts has 177 bytes, as the manifest says. It names the
-- deployment's verifier and the hashes of the expected relying party and origin, and the key ID that
-- is answered are the 32 bytes behind the entry's header.
pub parse_account_state-IsState :
    (data_hex : Text) (account : VerifiedAccount) (s : ParsedState)
    → parse_account_state data_hex account ≡ ok s
    → (bytes : Bytes) × (bytes_from_hex data_hex ≡ ok bytes) × IsState account bytes s
unfolding parse_account_state
parse_account_state-IsState data_hex account s h =
    let (bytes, read, h1) = >>=-eq-ok (bytes_from_hex data_hex) _ h in
    let (t1, e1, h2) = >>=-eq-ok (check_header bytes account) _ h1 in
    let (t2, e2, h3) = >>=-eq-ok (check_entry bytes account) _ h2 in
    let (recorded, magic) = check_header-eq-ok bytes account e1 in
    let (sized, key_length, verifier, bound) = check_entry-eq-ok bytes account e2 in
    let made : ParsedState = record {
      sequence = u64_at bytes 8;
      key_id = take (u16_at bytes 76) (drop 80 bytes);
    } in
    let same : made ≡ s = ground (arith, h3) in
    let key : made.key_id ≡ take 32 (drop 80 bytes) = ap (λ n. take n (drop 80 bytes)) key_length in
    let rest = length-drop 80 bytes (omega (arith, sized)) in
    let state : IsState account bytes made = record {
      sized = sized;
      recorded = sym recorded ∙ sized;
      magic = magic;
      verifier = verifier;
      key_id = key;
      key_id_length = ap length key ∙ length-take 32 (drop 80 bytes) (omega (arith, rest, sized));
      bound = ap (λ n. drop 2 (hex_from_bytes (drop (80 + n) bytes))) (sym key_length) ∙ bound;
      sequence = refl;
    } in
    (bytes, read, subst (IsState account bytes) same state)
