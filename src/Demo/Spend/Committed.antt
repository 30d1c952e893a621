-- ===== src/Demo/Spend/Committed.antt =====
-- demo/src/client/chain.ts: the witness of a spend, and the digest that is signed for it.
use ckb_crypto_agile_account.Common.{ℕ, ◌≡◌, [], ◌∷◌, none, some, Text, ok, >>=-eq-ok, arith}
use ckb_crypto_agile_account.Bytes.{Bytes, nat, pos, bytes_from_hex, hex_from_bytes}
use ckb_crypto_agile_account.Protocol.{
  Ckb, P256ProofInput, encode_p256_proof, encode_account_witness, pack_account_witness,
  group_sighash, authorization_digest,
}
use ckb_crypto_agile_account.Ccc.{Ccc, Transaction}
use ckb_crypto_agile_account.Demo.Manifests.{VerifiedAccount}
use ckb_crypto_agile_account.Demo.Spend.{spend_witness, spend_digest}

module _ (ccc : Ccc) where
  -- The witness of a spend: its proof in the first slot, packed as the lock of WitnessArgs.
  pub record IsWitness (ckb : Ckb) (sequence : ℕ) (input : P256ProofInput) (witness : Bytes)
      : Type 0 where
    pub proof : Bytes
    pub account_witness : Bytes
    pub proved : encode_p256_proof input ≡ ok proof
    pub enclosed :
        encode_account_witness 1 (pos sequence) (record { slot = nat 0; bytes = proof } ∷ [])
        ≡ ok account_witness
    pub packed :
        witness
        ≡ ckb.witness_args_to_bytes
            (record { lock = some account_witness; input_type = none; output_type = none })

  pub spend_witness-IsWitness :
      (ckb : Ckb) (sequence : ℕ) (input : P256ProofInput) (witness : Bytes)
      → spend_witness ckb sequence input ≡ ok witness
      → IsWitness ckb sequence input witness
  unfolding spend_witness pack_account_witness
  spend_witness-IsWitness ckb sequence input witness h =
      let (proof, e1, h1) = >>=-eq-ok (encode_p256_proof input) _ h in
      let (account_witness, e2, h2) =
        >>=-eq-ok
          (encode_account_witness 1 (pos sequence) (record { slot = nat 0; bytes = proof } ∷ [])) _
          h1 in
      record {
        proof = proof;
        account_witness = account_witness;
        proved = e1;
        enclosed = e2;
        packed = ground (arith, h2);
      }

  -- The digest that the passkey signs: that of the operation, the account, the sequence, the live state
  -- and the transaction with the bytes of its witness.
  pub record IsDigest (ckb : Ckb) (account_id state_data : Text) (sequence : ℕ) (tx : Transaction)
      (placeholder digest : Bytes) : Type 0 where
    pub tx_hash : Bytes
    pub first_witness : Bytes
    pub sighash : Bytes
    pub account : Bytes
    pub state : Bytes
    pub hashed : ccc.bytes_from (ccc.transaction_hash tx) ≡ ok tx_hash
    pub carried : ccc.bytes_from (hex_from_bytes placeholder) ≡ ok first_witness
    pub grouped : group_sighash ckb tx_hash (first_witness ∷ []) [] ≡ ok sighash
    pub identified : bytes_from_hex account_id ≡ ok account
    pub stated : bytes_from_hex state_data ≡ ok state
    pub signed :
        authorization_digest ckb (record {
          operation = 1;
          account_id = account;
          sequence = pos sequence;
          state = state;
          group_sighash = sighash;
        })
        ≡ ok digest

  pub spend_digest-IsDigest :
      (ckb : Ckb) (account : VerifiedAccount) (tx : Transaction) (placeholder : Bytes)
      (state_data : Text) (sequence : ℕ) (digest : Bytes)
      → spend_digest ccc ckb account tx placeholder state_data sequence ≡ ok digest
      → IsDigest ckb account.manifest.account_id state_data sequence tx placeholder digest
  unfolding spend_digest
  spend_digest-IsDigest ckb account tx placeholder state_data sequence digest h =
      let (tx_hash, e1, h1) = >>=-eq-ok (ccc.bytes_from (ccc.transaction_hash tx)) _ h in
      let (first_witness, e2, h2) = >>=-eq-ok (ccc.bytes_from (hex_from_bytes placeholder)) _ h1 in
      let (sighash, e3, h3) = >>=-eq-ok (group_sighash ckb tx_hash (first_witness ∷ []) []) _ h2 in
      let (id, e4, h4) = >>=-eq-ok (bytes_from_hex account.manifest.account_id) _ h3 in
      let (state, e5, h5) = >>=-eq-ok (bytes_from_hex state_data) _ h4 in
      record {
        tx_hash = tx_hash;
        first_witness = first_witness;
        sighash = sighash;
        account = id;
        state = state;
        hashed = e1;
        carried = e2;
        grouped = e3;
        identified = e4;
        stated = e5;
        signed = h5;
      }
