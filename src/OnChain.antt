-- ===== src/OnChain.antt =====
-- The readers that run on chain: the witness parser of crates/protocol/src/wire.rs, which
-- AccountLock runs, and the proof parser of contracts/verifier-p256/src/main.rs.
pub mod Cursor
pub mod Proofs
pub mod Witness
pub mod P256Proof
use ckb_crypto_agile_account.Common.{
  ℕ, zero, suc, ◌+◌, ◌-◌, ◌*◌, ◌≡◌, Bool, true, false, not, ◌&&◌, ◌||◌, List, [], ◌∷◌, ◌++◌, Option,
  none, some, ltb, leb, ◌==◌, if◌then◌else◌, length, take, drop, text_eq, Result, ok, err, ◌>>=◌,
  ◌>>◌, throw_if, All,
}
use ckb_crypto_agile_account.Bytes.{Bytes}
use ckb_crypto_agile_account.Bytes.LittleEndian.{le_value}
use ckb_crypto_agile_account.Protocol.{
  byte_is, not_above, account_witness_magic, account_witness_version, account_witness_max_lock_len,
}

-- The variants of `ProtocolError` that the witness parser returns.
pub data ProtocolError : Type 0 where
  invalid_state invalid_witness length_overflow : ProtocolError

abbrev pub Checked {ℓ} : Type ℓ → Type ℓ
Checked A = Result ProtocolError A

-- `&data[from..to]`
abbrev pub slice : Bytes → ℕ → ℕ → Bytes
slice input from to = take (to - from) (drop from input)

-- `le_u16`
unfoldable pub le_u16 : Bytes → Checked ℕ
le_u16 b = do throw_if (not (length b == 2)) invalid_state; ok (le_value b)

-- `le_u32`
unfoldable pub le_u32 : Bytes → Checked ℕ
le_u32 b = do throw_if (not (length b == 4)) invalid_witness; ok (le_value b)

-- `le_u64`
unfoldable pub le_u64 : Bytes → Checked ℕ
le_u64 b = do throw_if (not (length b == 8)) invalid_state; ok (le_value b)

-- `checked_end`. `total` is the length of a slice, so an end that overflows `usize` is past it.
unfoldable pub checked_end : ℕ → ℕ → ℕ → Checked ℕ
checked_end offset len total = do
  throw_if (ltb total (offset + len)) length_overflow
  ok (offset + len)

-- `.map_err(|_| e)`
abbrev pub map_err {ℓ} : {A : Type ℓ} → ProtocolError → Checked A → Checked A
map_err e (ok a) = ok a
map_err e (err _) = err e

pub record AccountWitnessHeader : Type 0 where
  pub operation : ℕ
  pub proof_count : ℕ
  pub state_sequence : ℕ

-- `input[i]` behind a check of the length, which keeps it from a panic.
abbrev pub byte_at : Bytes → ℕ → ℕ
byte_at [] i = 0
byte_at (b ∷ bs) zero = b
byte_at (b ∷ bs) (suc i) = byte_at bs i

-- `parse_witness_header`
unfoldable pub parse_witness_header : Bytes → Checked AccountWitnessHeader
parse_witness_header input = do
  throw_if (ltb (length input) 16 || ltb account_witness_max_lock_len (length input))
      invalid_witness
  throw_if
      (not (text_eq (slice input 0 4) account_witness_magic)
        || (not (byte_at input 4 == account_witness_version) || not (byte_at input 7 == 0)))
      invalid_witness
  throw_if
      (not (byte_at input 5 == 1) && (not (byte_at input 5 == 2) && not (byte_at input 5 == 3)))
      invalid_witness
  sequence ← map_err invalid_witness (le_u64 (slice input 8 16))
  ok (record {
    operation = byte_at input 5;
    proof_count = byte_at input 6;
    state_sequence = sequence;
  })

-- The callback `f` is given its captured state as an argument and returns the next.
module _ {ℓ} {S : Type ℓ} (f : S → ℕ → Bytes → Checked S) where
  -- The loop of `parse_proofs` with the rounds that are left, and the check behind it.
  unfoldable pub parse_proofs_loop : ℕ → Bytes → ℕ → Option ℕ → S → Checked S
  parse_proofs_loop zero input off prev s = do
    throw_if (not (off == length input)) invalid_witness
    ok s
  parse_proofs_loop (suc rounds) input off prev s = do
    head_end ← map_err invalid_witness (checked_end off 8 (length input))
    slot ← map_err invalid_witness (le_u16 (slice input off (off + 2)))
    throw_if (not (byte_at input (off + 2) == 0) || not (byte_at input (off + 3) == 0))
        invalid_witness
    len ← le_u32 (slice input (off + 4) (off + 8))
    end ← map_err invalid_witness (checked_end (off + 8) len (length input))
    throw_if (len == 0) invalid_witness
    throw_if (not_above slot prev) invalid_witness
    s' ← f s slot (slice input (off + 8) end)
    parse_proofs_loop rounds input end (some slot) s'

  -- `parse_proofs`
  unfoldable pub parse_proofs : Bytes → AccountWitnessHeader → S → Checked S
  parse_proofs input header s = parse_proofs_loop header.proof_count input 16 none s

-- The exit code of the verifier for a proof that does not parse.
pub data Exit : Type 0 where
  malformed_proof : Exit

pub record PasskeyProof : Type 0 where
  pub public_key : Bytes
  pub origin : Bytes
  pub authenticator_data : Bytes
  pub client_data_json : Bytes
  pub signature : Bytes

-- `take`: the bytes and the offset behind them.
unfoldable pub take_bytes : Bytes → ℕ → ℕ → Result Exit (Bytes × ℕ)
take_bytes input offset len = do
  throw_if (ltb (length input) (offset + len)) malformed_proof
  ok (slice input offset (offset + len), offset + len)

-- `take_u16`
unfoldable pub take_u16 : Bytes → ℕ → Result Exit (ℕ × ℕ)
take_u16 input offset = do (bytes, next) ← take_bytes input offset 2; ok (le_value bytes, next)

-- `parse_proof`
unfoldable pub parse_proof : Bytes → Result Exit PasskeyProof
parse_proof input = do
  (public_key, o1) ← take_bytes input 0 65
  (origin_len, o2) ← take_bytes input o1 1
  (origin, o3) ← take_bytes input o2 (byte_at origin_len 0)
  (authenticator_len, o4) ← take_u16 input o3
  (authenticator_data, o5) ← take_bytes input o4 authenticator_len
  (client_len, o6) ← take_u16 input o5
  (client_data_json, o7) ← take_bytes input o6 client_len
  (signature_len, o8) ← take_u16 input o7
  (signature, o9) ← take_bytes input o8 signature_len
  throw_if
      (not (o9 == length input)
        || (length origin == 0
            || (ltb (length authenticator_data) 37
                || (length client_data_json == 0 || length signature == 0))))
      malformed_proof
  ok (record {
    public_key = public_key;
    origin = origin;
    authenticator_data = authenticator_data;
    client_data_json = client_data_json;
    signature = signature;
  })
