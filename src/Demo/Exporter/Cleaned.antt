-- ===== src/Demo/Exporter/Cleaned.antt =====
-- demo/src/server/state-exporter.ts: what is left behind an export, and what the process is given.
use ckb_crypto_agile_account.Common.{◌≡◌, ◌≢◌, ◌∷◌, false, [], Text, codes, ok, err, ◌>>=◌}
use ckb_crypto_agile_account.Failure.{ApiError, Failure, api_error, Throws}
use ckb_crypto_agile_account.Bytes.{Bytes}
use ckb_crypto_agile_account.Protocol.{Ckb}
use ckb_crypto_agile_account.Demo.Exporter.Variables.{value_of, IsPrivate}
use ckb_crypto_agile_account.Demo.Exporter.{
  SpawnProcessOptions, ExporterDeps, Platform, safe_temporary_directory,
}

module _ (ckb : Ckb) (platform : Platform) {W : Type 0} (deps : ExporterDeps W) where
  -- The output of a process that ended with 0, in a directory.
  pub record IsExported (directory : Text) (output : Bytes) : Type 0 where
    pub at_start : W
    pub at_end : W
    pub options : SpawnProcessOptions
    pub placed : options.cwd ≡ deps.repo_root
    pub no_shell : options.shell ≡ false
    pub hides : (name : Text) → IsPrivate name → value_of name options.env ≡ []
    pub keeps :
        (name : Text)
        → ¬ IsPrivate name
        → value_of name options.env ≡ value_of name deps.process_env
    pub exited :
        (deps.spawn_process
          (codes "cargo")
          (codes "run"
            ∷ codes "-q"
            ∷ codes "-p"
            ∷ codes "ckb-account-host"
            ∷ codes "--example"
            ∷ codes "export_account_state"
            ∷ codes "--"
            ∷ platform.join directory (codes "account.json")
            ∷ platform.join directory (codes "state.bin")
            ∷ [])
          options
          at_start).0
        ≡ ok 0
    pub read : (deps.read_file (platform.join directory (codes "state.bin")) at_end).0 ≡ ok output
    pub filled : output ≢ []

  -- An answer of the `catch`.
  pub data IsAnswer (directory : Text) : Throws Bytes → Type 0 where
    exported : (output : Bytes) → IsExported directory output → IsAnswer directory (ok output)
    failed : (e : ApiError) → IsAnswer directory (err (api_error e))

  -- How an export ends, and the state behind it.
  pub data Ended (w : W) : Throws Bytes × W → Type 0 where
    refused : (e : ApiError) → Ended w (err (api_error e), w)
    no_directory : (e : ApiError) → Ended w (err (api_error e), (deps.make_temp_dir w).1)
    cleaned :
        (directory : Text) (before : W) (answer : Throws Bytes)
        → ((deps.make_temp_dir w).0 >>= safe_temporary_directory ckb platform) ≡ ok directory
        → IsAnswer directory answer
        → (deps.remove_dir directory before).0 ≡ ok tt
        → Ended w (answer, (deps.remove_dir directory before).1)
    not_removed :
        (directory : Text) (before : W) (e : Failure)
        → ((deps.make_temp_dir w).0 >>= safe_temporary_directory ckb platform) ≡ ok directory
        → (deps.remove_dir directory before).0 ≡ err e
        → Ended w (err e, (deps.remove_dir directory before).1)
