-- ===== src/Bytes/Concat.antt =====
-- `bytesConcat` of demo/src/shared/bytes.ts.
use ckb_crypto_agile_account.Common.{
  ℕ, ◌+◌, ◌≤◌, ◌≡◌, ◌↔◌, List, [], ◌∷◌, ok, arith, length, concat, length-append, >>=-eq-ok,
}
use ckb_crypto_agile_account.Bytes.{Bytes, concat_length, bytes_concat, max_safe_integer}

concat_length-eq-ok :
    (parts : List Bytes) (k n : ℕ) → concat_length parts k ≡ ok n → n ≡ k + length (concat parts)
unfolding concat_length
concat_length-eq-ok [] k n h = ground arith
concat_length-eq-ok (p ∷ ps) k n h =
    ground (arith, concat_length-eq-ok ps (k + length p) n, length-append p (concat ps))

concat_length-fits :
    (parts : List Bytes) (k n : ℕ)
    → k ≤ max_safe_integer
    → concat_length parts k ≡ ok n
    → n ≤ max_safe_integer
unfolding concat_length
concat_length-fits [] k n small h = ground arith
concat_length-fits (p ∷ ps) k n small h = ground (arith, concat_length-fits ps (k + length p) n)

concat_length_total :
    (parts : List Bytes) (k : ℕ)
    → k + length (concat parts) ≤ max_safe_integer
    → concat_length parts k ≡ ok (k + length (concat parts))
unfolding concat_length
concat_length_total [] k h = ground arith
concat_length_total (p ∷ ps) k h =
    ground (arith, concat_length_total ps (k + length p), length-append p (concat ps))

-- `bytesConcat` answers exactly when the total length is a safe integer, and then with the parts
-- one behind the other.
pub bytes_concat_iff :
    (parts : List Bytes) (bs : Bytes)
    → (bytes_concat parts ≡ ok bs)
      ↔ ((bs ≡ concat parts) × (length (concat parts) ≤ max_safe_integer))
unfolding bytes_concat
bytes_concat_iff parts bs = (
  λ h.
      let (n, counted, done) = >>=-eq-ok (concat_length parts 0) _ h in
      (
        ground arith,
        omega (
          arith,
          concat_length-eq-ok parts 0 n counted,
          concat_length-fits parts 0 n (omega arith) counted,
        ),
      ),
  λ h. ground (arith, concat_length_total parts 0),
)
