-- ===== src/Deploy/Command/Run.antt =====
-- `main` of tools/deploy/src/bootstrap.ts while AccountLock is not published.
use ckb_crypto_agile_account.Common.{
  ◌≡◌, refl, Bool, true, Option, List, Text, Result-cases, ok, err, inl, inr,
}
use ckb_crypto_agile_account.Failure.{Failure, Throws}
use ckb_crypto_agile_account.Bytes.{Bytes, pos}
use ckb_crypto_agile_account.Ccc.{Ccc}
use ckb_crypto_agile_account.Deploy.Artifacts.{Host}
use ckb_crypto_agile_account.Deploy.Bootstrap.{
  BootstrapOptions, account_lock_code_hash, or_null, AccountManifest, World, Network,
  bootstrap_account,
}
use ckb_crypto_agile_account.Deploy.Bootstrap.Sent.{
  Outcome, refused, unconfirmed, created, bootstrap_account-Outcome,
}
use ckb_crypto_agile_account.Deploy.Command.{Options, checked_options, require_key, create_main}

module _ (ccc : Ccc) where
  -- A creation without a published AccountLock is refused.
  Outcome-unpublished :
      (network : Network) (options : BootstrapOptions) (w : World) (e : Failure)
      (end : Throws AccountManifest × World)
      → account_lock_code_hash (or_null w.deployments_file) ≡ err e
      → Outcome ccc network options w end
      → (f : Failure) × (end ≡ (err f, w))
  Outcome-unpublished network options w e end missing (refused f) = (f, refl)
  Outcome-unpublished network options w e end missing (unconfirmed f c tx_hash ready sent waited) =
      absurd (cc (missing, ready.deployed))
  Outcome-unpublished network options w e end missing (created c tx_hash ready sent waited) =
      absurd (cc (missing, ready.deployed))

  -- With arguments and a state that pass the checks of the command, a run to broadcast throws and leaves
  -- the files and the chain as they were, if the file of the deployments has no published AccountLock
  -- that bootstrapAccount accepts.
  pub create_main-unpublished :
      (host : Host) (network_of : Text → Network) (argv : List Text) (private_key : Option Text)
      (w : World) (options : Options) (state_data : Bytes) (deployed : Bool) (e : Failure)
      → account_lock_code_hash (or_null w.deployments_file) ≡ err e
      → checked_options host argv w ≡ ok (options, state_data, deployed)
      → options.broadcast ≡ true
      → (f : Failure) × (create_main ccc host network_of argv private_key w ≡ (err f, w))
  unfolding create_main
  create_main-unpublished host network_of argv private_key w options state_data deployed e missing
        checked broadcast =
      elim (Result-cases (require_key private_key)) [
        | inr (f, bad) ↦ (f, rw (create_main, checked, broadcast, bad))
        | inl (key, good) ↦
            let creation : BootstrapOptions = record {
              state_data = state_data;
              asset_capacity_ckb = pos options.asset_capacity_ckb;
            } in
            let run = bootstrap_account ccc (network_of key) creation w in
            let (f, same) =
              Outcome-unpublished (network_of key) creation w e run missing
                (bootstrap_account-Outcome ccc (network_of key) creation w) in
            (f, rw (create_main, checked, broadcast, good, same))
      ]
