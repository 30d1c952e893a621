-- ===== src/Deploy/Publisher/Verified.antt =====
-- `main` of tools/deploy/src/deploy.ts: when it sends a transaction, and what it then records.
use ckb_crypto_agile_account.Common.{
  ◌≡◌, refl, ap, ◌∙◌, subst, List, [], ◌∷◌, Option, none, some, Text, text_eq→eq, ok, >>=-eq-ok,
  Result-cases, inl, inr, arith,
}
use ckb_crypto_agile_account.Bytes.{Bytes, nat}
use ckb_crypto_agile_account.Ccc.{Ccc, Transaction}
use ckb_crypto_agile_account.Deploy.Plan.{PlannedCell}
use ckb_crypto_agile_account.Deploy.Manifest.{DeployedRecord}
use ckb_crypto_agile_account.Deploy.Publisher.{
  Wallet, World, check_published, confirm_published, cell_transaction, publish_cell,
}

module _ (ccc : Ccc) (wallet : Wallet) where
  -- A record of a cell whose transaction was sent and confirmed and whose live data hash to what was
  -- planned.
  pub record IsPublished (cell : PlannedCell) (r : DeployedRecord) : Type 0 where
    pub tx : Transaction
    pub output_data : Text
    pub bytes : Bytes
    pub built : cell_transaction ccc wallet cell ≡ ok tx
    pub submitted : wallet.send_transaction tx ≡ ok r.tx_hash
    pub awaited : wallet.wait_transaction r.tx_hash ≡ ok tt
    pub live :
        wallet.get_cell_live (record { tx_hash = r.tx_hash; index = 0 }) ≡ ok (some output_data)
    pub decoded : ccc.bytes_from output_data ≡ ok bytes
    pub hashed : ccc.hash_ckb bytes ≡ cell.artifact.identity.data_hash
    pub recorded : r.data_hash ≡ cell.artifact.identity.data_hash
    pub named : r.name ≡ cell.artifact.identity.name
    pub first : r.index ≡ nat 0

  -- The records of some cells, one for each in order.
  pub data ArePublished : List PlannedCell → List DeployedRecord → Type 0 where
    nothing : ArePublished [] []
    next :
        (cell : PlannedCell) (r : DeployedRecord) (cells : List PlannedCell)
        (records : List DeployedRecord)
        → IsPublished cell r
        → ArePublished cells records
        → ArePublished (cell ∷ cells) (r ∷ records)

  check_published-hashed :
      (cell : PlannedCell) (answer : Option Text)
      → check_published ccc wallet cell answer ≡ ok tt
      → (output_data : Text) × (bytes : Bytes) × (answer ≡ some output_data)
        × (ccc.bytes_from output_data ≡ ok bytes)
        × (ccc.hash_ckb bytes ≡ cell.artifact.identity.data_hash)
  unfolding check_published
  check_published-hashed cell none h = absurd (ground (arith, h))
  check_published-hashed cell (some output_data) h =
      let (bytes, e1, h1) = >>=-eq-ok (ccc.bytes_from output_data) _ h in
      (
        output_data,
        bytes,
        refl,
        e1,
        text_eq→eq (ccc.hash_ckb bytes) cell.artifact.identity.data_hash (ground (arith, h1)),
      )

  confirmed-IsPublished :
      (cell : PlannedCell) (tx : Transaction) (tx_hash : Text) (r : DeployedRecord)
      → cell_transaction ccc wallet cell ≡ ok tx
      → wallet.send_transaction tx ≡ ok tx_hash
      → confirm_published ccc wallet cell tx_hash ≡ ok r
      → IsPublished cell r
  unfolding confirm_published
  confirmed-IsPublished cell tx tx_hash r built sent h =
      let (t, e1, h1) = >>=-eq-ok (wallet.wait_transaction tx_hash) _ h in
      let (answer, e2, h2) =
        >>=-eq-ok (wallet.get_cell_live (record { tx_hash = tx_hash; index = 0 })) _ h1 in
      let (u, e3, h3) = >>=-eq-ok (check_published ccc wallet cell answer) _ h2 in
      let (output_data, bytes, is, decoded, hashed) = check_published-hashed cell answer e3 in
      let named : r.name ≡ cell.artifact.identity.name = ground (arith, h3) in
      let recorded : r.data_hash ≡ cell.artifact.identity.data_hash = ground (arith, h3) in
      let first : r.index ≡ nat 0 = ground (arith, h3) in
      let same : tx_hash ≡ r.tx_hash = ground (arith, h3) in
      record {
        tx = tx;
        output_data = output_data;
        bytes = bytes;
        built = built;
        submitted = sent ∙ ap ok same;
        awaited = subst (λ x. wallet.wait_transaction x ≡ ok tt) same e1;
        live =
            subst
              (λ x.
                wallet.get_cell_live (record { tx_hash = x; index = 0 }) ≡ ok (some output_data))
              same (e2 ∙ ap ok is);
        decoded = decoded;
        hashed = hashed;
        recorded = recorded;
        named = named;
        first = first;
      }

  pub publish_cell-IsPublished :
      (cell : PlannedCell) (w : World) (r : DeployedRecord)
      → (publish_cell ccc wallet cell w).0 ≡ ok r
      → IsPublished cell r
  unfolding publish_cell
  publish_cell-IsPublished cell w r h = elim (Result-cases (cell_transaction ccc wallet cell)) [
    | inr (e, bad) ↦ absurd (ground (arith, h, bad))
    | inl (tx, built) ↦ elim (Result-cases (wallet.send_transaction tx)) [
      | inr (e, bad) ↦ absurd (ground (arith, h, built, bad))
      | inl (tx_hash, sent) ↦
          confirmed-IsPublished cell tx tx_hash r built sent (ground (arith, h, built, sent))
    ]
  ]

  pub publish_cell-manifest_file :
      (cell : PlannedCell) (w : World)
      → (publish_cell ccc wallet cell w).1.manifest_file ≡ w.manifest_file
  unfolding publish_cell
  publish_cell-manifest_file cell w = elim (Result-cases (cell_transaction ccc wallet cell)) [
    | inr (e, bad) ↦ rw (publish_cell, bad)
    | inl (tx, built) ↦ elim (Result-cases (wallet.send_transaction tx)) [
      | inr (e, bad) ↦ rw (publish_cell, built, bad)
      | inl (tx_hash, sent) ↦ rw (publish_cell, built, sent)
    ]
  ]
