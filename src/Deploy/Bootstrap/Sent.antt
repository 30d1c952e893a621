-- ===== src/Deploy/Bootstrap/Sent.antt =====
-- What `bootstrapAccount` of tools/deploy/src/bootstrap-lib.ts sends and writes.
use ckb_crypto_agile_account.Common.{
  ◌≡◌, inl, inr, refl, subst, ◌∷◌, none, some, Text, Result-cases, ok, err, throw_if, codes, length,
  >>=-eq-ok, arith,
}
use ckb_crypto_agile_account.Failure.{Throws, Failure}
use ckb_crypto_agile_account.Ccc.{Ccc, by_type}
use ckb_crypto_agile_account.Deploy.Account.{type_id_script, assert_creation_consistency}
use ckb_crypto_agile_account.Deploy.Account.Consistency.{
  IsCreation, assert_creation_consistency_iff,
}
use ckb_crypto_agile_account.Deploy.Bootstrap.{
  BootstrapOptions, validate_options, account_lock_code_hash, or_null, AccountManifest, World,
  Network, Creation, first_lock_args, is_some, draft, bind_identity, first_input, create,
  send_creation, bootstrap_account,
}

module _ (ccc : Ccc) (network : Network) where
  -- What a creation that is ready has gone through.
  pub record IsReady (options : BootstrapOptions) (w : World) (c : Creation) : Type 0 where
    pub fresh : w.account_file ≡ none
    pub deployed : account_lock_code_hash (or_null w.deployments_file) ≡ ok c.code_hash
    pub consistent : IsCreation ccc c.code_hash (ccc.hex_from options.state_data) c.tx
    pub identity :
        c.account_id
        ≡ ccc.script_hash (record {
          code_hash = codes "0x00000000000000000000000000000000000000000000000000545950455f4944";
          hash_type = by_type;
          args = c.type_id_args;
        })

  create-IsReady :
      (options : BootstrapOptions) (w : World) (c : Creation)
      → create ccc network options w ≡ ok c
      → IsReady options w c
  unfolding create type_id_script
  create-IsReady options w c h =
      let (capacities, e1, h1) = >>=-eq-ok (validate_options options) _ h in
      let (t, e2, h2) = >>=-eq-ok (throw_if (is_some w.account_file) _) _ h1 in
      let (code_hash, e3, h3) =
        >>=-eq-ok (account_lock_code_hash (or_null w.deployments_file)) _ h2 in
      let (drafted, e4, h4) =
        >>=-eq-ok (draft ccc network code_hash capacities (ccc.hex_from options.state_data)) _ h3 in
      let (funded, e5, h5) = >>=-eq-ok (network.complete_inputs drafted) _ h4 in
      let (input, e6, h6) = >>=-eq-ok (first_input ccc network funded) _ h5 in
      let (outputs, e7, h7) =
        >>=-eq-ok
          (bind_identity ccc network (type_id_script (ccc.hash_type_id input 0)) code_hash
            funded.outputs)
          _ h6 in
      let (tx, e8, h8) =
        >>=-eq-ok (network.complete_fee (record funded { outputs = outputs }) _) _ h7 in
      let (u, e9, h9) =
        >>=-eq-ok (assert_creation_consistency ccc tx code_hash (ccc.hex_from options.state_data)) _
          h8 in
      let made : Creation = record {
        tx = tx;
        account_id = ccc.script_hash (type_id_script (ccc.hash_type_id input 0));
        code_hash = code_hash;
        type_id_args = ccc.hash_type_id input 0;
      } in
      let same : made ≡ c = ground (arith, h9) in
      let ready : IsReady options w made = record {
        fresh = ground (arith, e2);
        deployed = e3;
        consistent =
            (assert_creation_consistency_iff ccc tx code_hash (ccc.hex_from options.state_data)).0
              e9;
        identity = refl;
      } in
      subst (IsReady options w) same ready

  -- The manifest of a creation: the two cells are the first outputs of its transaction.
  abbrev manifest : BootstrapOptions → Creation → Text → AccountManifest
  manifest options c tx_hash = record {
    account_id = c.account_id;
    code_hash = c.code_hash;
    lock_args = first_lock_args c.tx.outputs;
    type_id_args = c.type_id_args;
    state_out_point = record { tx_hash = tx_hash; index = 0 };
    asset_out_point = record { tx_hash = tx_hash; index = 1 };
    state_bytes = length options.state_data;
  }

  -- What a run of `bootstrapAccount` may answer, and do to the world.
  pub data Outcome (options : BootstrapOptions) (w : World)
      : Throws AccountManifest × World → Type 0 where
    refused : (e : Failure) → Outcome options w (err e, w)
    unconfirmed :
        (e : Failure) (c : Creation) (tx_hash : Text)
        → IsReady options w c
        → network.send_transaction c.tx ≡ ok tx_hash
        → network.wait_transaction tx_hash ≡ err e
        → Outcome options w (err e, record w { sent = c.tx ∷ w.sent })
    created :
        (c : Creation) (tx_hash : Text)
        → IsReady options w c
        → network.send_transaction c.tx ≡ ok tx_hash
        → network.wait_transaction tx_hash ≡ ok tt
        → Outcome options w (
          ok (manifest options c tx_hash),
          record w { sent = c.tx ∷ w.sent; account_file = some (manifest options c tx_hash) },
        )

  send_creation-Outcome :
      (options : BootstrapOptions) (w : World) (c : Creation)
      → IsReady options w c
      → Outcome options w (send_creation ccc network options c w)
  unfolding send_creation
  send_creation-Outcome options w c ready = elim (Result-cases (network.send_transaction c.tx)) [
    | inr (e, failed) ↦ rw (failed, send_creation) (refused e)
    | inl (tx_hash, sent) ↦ elim (Result-cases (network.wait_transaction tx_hash)) [
      | inr (e, failed) ↦
          rw (sent, send_creation, failed) (unconfirmed e c tx_hash ready sent failed)
      | inl (t, waited) ↦ rw (sent, send_creation, waited) (created c tx_hash ready sent waited)
    ]
  ]

  -- Every run of `bootstrapAccount` refuses and leaves the world as it was, or sends one creation
  -- transaction that is consistent, for the published AccountLock and with no account on file. Only
  -- when that is confirmed does it write the manifest, which is also its answer; otherwise it
  -- answers the error and writes nothing.
  pub bootstrap_account-Outcome :
      (options : BootstrapOptions) (w : World)
      → Outcome options w (bootstrap_account ccc network options w)
  unfolding bootstrap_account
  bootstrap_account-Outcome options w = elim (Result-cases (create ccc network options w)) [
    | inr (e, failed) ↦ rw (failed, bootstrap_account) (refused e)
    | inl (c, ready) ↦
        rw (ready, bootstrap_account)
          (send_creation-Outcome options w c (create-IsReady options w c ready))
  ]
