-- ===== src/Demo/Finalize/Signed.antt =====
-- What `finalizeSpend` of demo/src/client/chain.ts changes of a prepared spend.
use ckb_crypto_agile_account.Common.{
  ℕ, ◌≤◌, ◌≡◌, refl, sym, ap, ◌∙◌, subst, not, List, [], ◌∷◌, Text, codes, drop, ltb, length,
  Option, none, some, text_eq, text_eq→eq, ok, throw_if, >>=-eq-ok, arith,
}
use ckb_crypto_agile_account.Bytes.{Bytes, bytes_from_hex, hex_from_bytes, nat, pos}
use ckb_crypto_agile_account.Protocol.{
  Ckb, P256ProofInput, encode_p256_proof, encode_account_witness, pack_account_witness,
  group_sighash,
}
use ckb_crypto_agile_account.Protocol.Digest.{group_sighash_lock}
use ckb_crypto_agile_account.Json.{Json}
use ckb_crypto_agile_account.Ccc.{Ccc, Transaction}
use ckb_crypto_agile_account.Demo.Constants.{client_origin, op_spend}
use ckb_crypto_agile_account.Demo.Schemas.{PasskeyRecord, Parsers}
use ckb_crypto_agile_account.Demo.Spend.{PreparedSpend, spend_witness}
use ckb_crypto_agile_account.Demo.Spend.Committed.{IsWitness, spend_witness-IsWitness}
use ckb_crypto_agile_account.Demo.Finalize.{
  AssertionMaterial, check_assertion, set_first, finalize_spend,
}

-- Two witnesses of a spend, whatever their proofs, keys and sequences are, give the group the same
-- sighash: the digest signed for the largest witness holds for the final one.
pub spend_witness-group_sighash :
    (ckb : Ckb) (tx_hash : Bytes) (m n : ℕ) (a b : P256ProofInput) (u v : Bytes)
    → spend_witness ckb m a ≡ ok u
    → spend_witness ckb n b ≡ ok v
    → group_sighash ckb tx_hash (u ∷ []) [] ≡ group_sighash ckb tx_hash (v ∷ []) []
unfolding spend_witness pack_account_witness
spend_witness-group_sighash ckb tx_hash m n a b u v hu hv =
    let (pa, e1, h1) = >>=-eq-ok (encode_p256_proof a) _ hu in
    let (wa, e2, h2) =
      >>=-eq-ok (encode_account_witness op_spend (pos m) (record { slot = nat 0; bytes = pa } ∷ []))
        _ h1 in
    let (pb, e3, h3) = >>=-eq-ok (encode_p256_proof b) _ hv in
    let (wb, e4, h4) =
      >>=-eq-ok (encode_account_witness op_spend (pos n) (record { slot = nat 0; bytes = pb } ∷ []))
        _ h3 in
    let made_u : pack_account_witness ckb wa ≡ u = ground (arith, h2) in
    let made_v : pack_account_witness ckb wb ≡ v = ground (arith, h4) in
    let alike =
      group_sighash_lock ckb tx_hash
        (record { lock = some wa; input_type = none; output_type = none }) (some wb) [] [] in
    ap (λ w. group_sighash ckb tx_hash (w ∷ []) []) (sym made_u)
    ∙ alike
    ∙ ap (λ w. group_sighash ckb tx_hash (w ∷ []) []) made_v

module _ (ccc : Ccc) where
  -- A spend whose first witness holds the assertion's proof, and that is else as it was prepared.
  pub record IsFinal (ckb : Ckb) (prepared : PreparedSpend) (assertion : AssertionMaterial)
      (t : Transaction) : Type 0 where
    pub public_key : Bytes
    pub witness : Bytes
    pub keyed : bytes_from_hex prepared.public_key ≡ ok public_key
    pub credential : assertion.credential_id ≡ prepared.credential_id
    pub proved :
        IsWitness ccc ckb prepared.sequence
          (record {
            public_key = public_key;
            origin = codes "http://localhost:5173";
            authenticator_data = assertion.authenticator_data;
            client_data_json = assertion.client_data_json;
            signature = assertion.signature;
          })
          witness
    pub within : length witness ≤ prepared.max_witness_bytes
    pub same_deps : t.cell_deps ≡ prepared.transaction.cell_deps
    pub same_inputs : t.inputs ≡ prepared.transaction.inputs
    pub same_outputs : t.outputs ≡ prepared.transaction.outputs
    pub same_data : t.outputs_data ≡ prepared.transaction.outputs_data
    pub witnesses : t.witnesses ≡ hex_from_bytes witness ∷ drop 1 prepared.transaction.witnesses
    pub unchanged : ccc.transaction_hash t ≡ ccc.transaction_hash prepared.transaction

  set_first-drop : (witness : Text) (ws : List Text) → set_first witness ws ≡ witness ∷ drop 1 ws
  unfolding set_first
  set_first-drop witness [] = refl
  set_first-drop witness (w ∷ ws) = refl

  -- A transaction that `finalizeSpend` answers has the inputs, outputs, data and dependencies of the
  -- prepared one and all its witnesses but the first. That is WitnessArgs whose lock holds the operation
  -- to spend, the whole prepared sequence, and in the first slot the proof of the prepared key, the
  -- origin and the assertion, which is of the prepared credential. It is not longer than the fee was
  -- reserved for, and the hash is unchanged.
  pub finalize_spend-IsFinal :
      (ckb : Ckb) (parsers : Parsers) (parse_json : Bytes → Option Json) (prepared : PreparedSpend)
      (passkey : PasskeyRecord) (assertion : AssertionMaterial) (t : Transaction)
      → finalize_spend ccc ckb parsers parse_json prepared passkey assertion ≡ ok t
      → IsFinal ckb prepared assertion t
  unfolding finalize_spend check_assertion
  finalize_spend-IsFinal ckb parsers parse_json prepared passkey_value assertion t h =
      let (passkey, e1, h1) = >>=-eq-ok (parsers.passkey passkey_value) _ h in
      let (t2, e2, h2) =
        >>=-eq-ok
          (check_assertion prepared passkey assertion (parse_json assertion.client_data_json)) _
          h1 in
      let (public_key, e3, h3) = >>=-eq-ok (bytes_from_hex passkey.public_key) _ h2 in
      let input : P256ProofInput = record {
        public_key = public_key;
        origin = client_origin;
        authenticator_data = assertion.authenticator_data;
        client_data_json = assertion.client_data_json;
        signature = assertion.signature;
      } in
      let (witness, e4, h4) = >>=-eq-ok (spend_witness ckb prepared.sequence input) _ h3 in
      let (t5, e5, h5) =
        >>=-eq-ok (throw_if (ltb prepared.max_witness_bytes (length witness)) _) _ h4 in
      let tx = prepared.transaction in
      let made : Transaction = record tx {
        witnesses = set_first (hex_from_bytes witness) tx.witnesses;
      } in
      let (t6, e6, h6) =
        >>=-eq-ok (throw_if (not (text_eq (ccc.transaction_hash made) (ccc.transaction_hash tx))) _)
          _ h5 in
      let same : made ≡ t = ground (arith, h6) in
      let key : passkey.public_key ≡ prepared.public_key =
        text_eq→eq passkey.public_key prepared.public_key (ground (arith, e2)) in
      let final : IsFinal ckb prepared assertion made = record {
        public_key = public_key;
        witness = witness;
        keyed = ap bytes_from_hex (sym key) ∙ e3;
        credential = text_eq→eq assertion.credential_id prepared.credential_id (ground (arith, e2));
        proved = spend_witness-IsWitness ccc ckb prepared.sequence input witness e4;
        within = ground (arith, e5);
        same_deps = refl;
        same_inputs = refl;
        same_outputs = refl;
        same_data = refl;
        witnesses = set_first-drop (hex_from_bytes witness) tx.witnesses;
        unchanged =
            text_eq→eq (ccc.transaction_hash made) (ccc.transaction_hash tx) (ground (arith, e6));
      } in
      subst (IsFinal ckb prepared assertion) same final
