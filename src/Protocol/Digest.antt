-- ===== src/Protocol/Digest.antt =====
-- What the digests of demo/src/shared/protocol.ts commit to.
use ckb_crypto_agile_account.Common.{
  ℕ, ◌≤◌, ◌≡◌, refl, ap, sym, ◌∙◌, inl, inr, Option, none, some, List, [], ◌∷◌, ◌++◌, length,
  concat, length-append, append-injective, append-injective_right, ok, Result-cases, arith,
  append-nil,
}
use ckb_crypto_agile_account.Bytes.{Bytes, pos, u64le, eight_bytes}
use ckb_crypto_agile_account.Bytes.LittleEndian.{u64le_lem}
use ckb_crypto_agile_account.Bytes.Concat.{bytes_concat_iff}
use ckb_crypto_agile_account.Protocol.{
  auth_domain, require_length, join_group, WitnessArgs, Ckb, AuthorizationInput, ckb_hash,
  group_preimage, group_sighash, authorization_preimage, pack_account_witness,
  unpack_account_witness,
}
use ckb_crypto_agile_account.Protocol.Prefixed.{
  eight_bytes-injective, join_group-eq-ok, prefixed_all-injective,
}

module _ (ckb : Ckb) where
  -- The fields of an authorization, in the order in which they are hashed.
  abbrev pub authorization_layout : AuthorizationInput → Bytes → List Bytes
  authorization_layout input sequence_bytes =
      auth_domain
      ∷ (input.operation ∷ [])
      ∷ input.account_id
      ∷ sequence_bytes
      ∷ ckb_hash ckb input.state
      ∷ input.group_sighash
      ∷ []

  authorization_preimage-eq-ok :
      (input : AuthorizationInput) (bs : Bytes)
      → authorization_preimage ckb input ≡ ok bs
      → (n : ℕ) × (input.sequence ≡ pos n)
        × (n ≤ 0xffff_ffff_ffff_ffff)
        × (length input.account_id ≡ 32)
        × (length input.group_sighash ≡ 32)
        × (bs ≡ concat (authorization_layout input (eight_bytes n)))
  unfolding authorization_preimage require_length
  authorization_preimage-eq-ok input bs h = elim (Result-cases (u64le input.sequence)) [
    | inr (e, failed) ↦ ground arith
    | inl (seq, made) ↦
        let (n, is, fits, layout) = (u64le_lem input.sequence seq).0 made in
        let joined : bs ≡ concat (authorization_layout input seq) =
          ground (arith, (bytes_concat_iff (authorization_layout input seq) bs).0) in
        (
          n,
          is,
          fits,
          ground arith,
          ground arith,
          joined ∙ ap (λ q. concat (authorization_layout input q)) layout,
        )
  ]

  -- Two authorizations whose preimages are the same agree in every field: in the operation, the
  -- account, the sequence and the transaction that they sign, and in the hash of the state.
  pub authorization_preimage-injective :
      (a b : AuthorizationInput) (bs : Bytes)
      → authorization_preimage ckb a ≡ ok bs
      → authorization_preimage ckb b ≡ ok bs
      → (a.operation ≡ b.operation)
        × (a.account_id ≡ b.account_id)
        × (a.sequence ≡ b.sequence)
        × (ckb_hash ckb a.state ≡ ckb_hash ckb b.state)
        × (a.group_sighash ≡ b.group_sighash)
  authorization_preimage-injective a b bs ha hb =
      let (m, seq_a, fits_a, id_a, sig_a, la) = authorization_preimage-eq-ok a bs ha in
      let (n, seq_b, fits_b, id_b, sig_b, lb) = authorization_preimage-eq-ok b bs hb in
      let (op, e1) =
        append-injective (auth_domain ++ a.operation ∷ []) (auth_domain ++ b.operation ∷ []) _ _
          refl (sym la ∙ lb) in
      let (ids, e2) = append-injective a.account_id b.account_id _ _ (id_a ∙ sym id_b) e1 in
      let (seqs, e3) = append-injective (eight_bytes m) (eight_bytes n) _ _ refl e2 in
      let sig_len : length (a.group_sighash ++ []) ≡ length (b.group_sighash ++ []) =
        omega (
          arith,
          sig_a,
          sig_b,
          length-append a.group_sighash [],
          length-append b.group_sighash [],
        ) in
      let (hashes, sigs) =
        append-injective_right (ckb_hash ckb a.state) (ckb_hash ckb b.state) _ _ sig_len e3 in
      (
        cc op,
        ids,
        seq_a ∙ ap pos (eight_bytes-injective m n fits_a fits_b seqs) ∙ sym seq_b,
        hashes,
        sym (append-nil a.group_sighash) ∙ sigs ∙ append-nil b.group_sighash,
      )

  -- A group sighash does not depend on the lock of the first witness: whatever a wallet puts
  -- there, it signs the same bytes.
  pub group_sighash_lock :
      (tx_hash : Bytes) (w : WitnessArgs) (lock : Option Bytes) (others extra : List Bytes)
      → group_sighash ckb tx_hash (ckb.witness_args_to_bytes w ∷ others) extra
        ≡ group_sighash ckb tx_hash
            (ckb.witness_args_to_bytes (record w { lock = lock }) ∷ others)
            extra
  unfolding group_sighash group_preimage
  group_sighash_lock tx_hash w lock others extra = rw (
    ckb.witness_args_from_bytes-witness_args_to_bytes w,
    ckb.witness_args_from_bytes-witness_args_to_bytes (record w { lock = lock }),
  )

  -- A packed account witness is unpacked again.
  pub unpack_account_witness-pack_account_witness :
      (witness : Bytes) → unpack_account_witness ckb (pack_account_witness ckb witness) ≡ ok witness
  unfolding unpack_account_witness pack_account_witness
  unpack_account_witness-pack_account_witness witness = rw (
      ckb.witness_args_from_bytes-witness_args_to_bytes
        (record { lock = some witness; input_type = none; output_type = none }))

  to_bytes-injective :
      (a b : WitnessArgs) → ckb.witness_args_to_bytes a ≡ ckb.witness_args_to_bytes b → a ≡ b
  to_bytes-injective a b e = cc (
    ckb.witness_args_from_bytes-witness_args_to_bytes a,
    ckb.witness_args_from_bytes-witness_args_to_bytes b,
  )

  group_preimage-eq-ok :
      (tx_hash : Bytes) (w : WitnessArgs) (others extra : List Bytes) (bs : Bytes)
      → group_preimage ckb tx_hash (ckb.witness_args_to_bytes w ∷ others) extra ≡ ok bs
      → (length tx_hash ≡ 32)
        × (join_group tx_hash (ckb.witness_args_to_bytes (record w { lock = some [] })) others extra
            ≡ ok bs)
  unfolding group_preimage require_length
  group_preimage-eq-ok tx_hash w others extra bs h =
      let read = ckb.witness_args_from_bytes-witness_args_to_bytes w in
      (ground (arith, read), ground (arith, read))

  -- Two groups whose preimages are the same have the same transaction hash, the same type fields in
  -- the first witness, and the same list of further witnesses.
  pub group_preimage-injective :
      (tx_a tx_b : Bytes) (wa wb : WitnessArgs) (others_a others_b extra_a extra_b : List Bytes)
      (bs : Bytes)
      → group_preimage ckb tx_a (ckb.witness_args_to_bytes wa ∷ others_a) extra_a ≡ ok bs
      → group_preimage ckb tx_b (ckb.witness_args_to_bytes wb ∷ others_b) extra_b ≡ ok bs
      → (tx_a ≡ tx_b)
        × (wa.input_type ≡ wb.input_type)
        × (wa.output_type ≡ wb.output_type)
        × (others_a ++ extra_a ≡ others_b ++ extra_b)
  group_preimage-injective tx_a tx_b wa wb others_a others_b extra_a extra_b bs ha hb =
      let canonical_a = record wa { lock = some [] } in
      let canonical_b = record wb { lock = some [] } in
      let (len_a, joined_a) = group_preimage-eq-ok tx_a wa others_a extra_a bs ha in
      let (len_b, joined_b) = group_preimage-eq-ok tx_b wb others_b extra_b bs hb in
      let (fit_a, la) =
        join_group-eq-ok tx_a (ckb.witness_args_to_bytes canonical_a) others_a extra_a bs
          joined_a in
      let (fit_b, lb) =
        join_group-eq-ok tx_b (ckb.witness_args_to_bytes canonical_b) others_b extra_b bs
          joined_b in
      let (txs, e1) = append-injective tx_a tx_b _ _ (len_a ∙ sym len_b) (sym la ∙ lb) in
      let all =
        prefixed_all-injective (ckb.witness_args_to_bytes canonical_a ∷ (others_a ++ extra_a))
          (ckb.witness_args_to_bytes canonical_b ∷ (others_b ++ extra_b)) fit_a fit_b e1 in
      let same = to_bytes-injective canonical_a canonical_b (cc all) in
      (txs, ap (λ w. w.input_type) same, ap (λ w. w.output_type) same, cc all)
