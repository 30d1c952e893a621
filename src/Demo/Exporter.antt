-- ===== src/Demo/Exporter.antt =====
-- demo/src/server/state-exporter.ts: the state of a new account, exported by a child process that works
-- in a temporary directory. Files and processes are steps on the states of a world.
pub mod Cleaned
pub mod Variables
use ckb_crypto_agile_account.Common.{
  ℕ, ◌+◌, ◌-◌, ◌≡◌, Bool, true, false, not, ◌&&◌, ◌||◌, List, [], ◌∷◌, ◌++◌, Option, none, some,
  ltb, leb, ◌==◌, if◌then◌else◌, length, take, Text, text_eq, codes, Result, ok, err, ◌>>=◌, ◌>>◌,
  throw_if,
}
use ckb_crypto_agile_account.Failure.{
  invalid_request, deployment_invalid, bootstrap_failed, Failure, Throws,
}
use ckb_crypto_agile_account.Bytes.{Bytes, nat, hex_digits, hex_from_bytes, bytes_from_hex}
use ckb_crypto_agile_account.Protocol.{Ckb}
use ckb_crypto_agile_account.Json.{Json, num, str, arr, obj, nil, item, end, field}
use ckb_crypto_agile_account.Demo.Constants.{client_origin, rp_id}
use ckb_crypto_agile_account.Demo.Schemas.{
  BootstrapRequest, is_bootstrap_request, DeploymentManifest, is_deployment_manifest,
}
use ckb_crypto_agile_account.Demo.Service.{api, or_api}

abbrev pub temp_directory_prefix : Text
temp_directory_prefix = codes "ckb-passkey-state-"

abbrev pub Environment : Type 0
Environment = List (Text × Text)

pub record SpawnProcessOptions : Type 0 where
  pub cwd : Text
  pub shell : Bool
  pub env : Environment

-- `ExporterDeps`; a process answers its exit code.
pub record ExporterDeps (W : Type 0) : Type 0 where
  pub repo_root : Text
  pub deployment : DeploymentManifest
  pub process_env : Environment
  pub make_temp_dir : W → Throws Text × W
  pub write_file : Text → Json → ℕ → W → Throws (Unit {0}) × W
  pub spawn_process : Text → List Text → SpawnProcessOptions → W → Throws ℕ × W
  pub read_file : Text → W → Throws Bytes × W
  pub remove_dir : Text → W → Throws (Unit {0}) × W

-- The functions of node:path and node:os that the exporter calls, and the SHA-256 of node:crypto.
pub record Platform : Type 0 where
  pub resolve : Text → Text
  pub dirname : Text → Text
  pub basename : Text → Text
  pub join : Text → Text → Text
  pub tmpdir : Text
  pub sha256 : Text → Bytes

-- `toUpperCase` on the letters whose upper case is in a name of ASCII letters: besides those of ASCII the
-- dotless i.
unfoldable pub to_upper : Text → Text
to_upper [] = []
to_upper (c ∷ t) =
    (if leb b'a' c && leb c b'z' then c - 32 else (if c == 0x131 then b'I' else c)) ∷ to_upper t

abbrev pub is_private_key : Text → Bool
is_private_key name = text_eq (to_upper name) (codes "CKB_PRIVKEY")

-- `sanitizedEnvironment`
unfoldable pub sanitized_environment : Environment → Environment
sanitized_environment [] = []
sanitized_environment ((name, value) ∷ env) =
    let rest = sanitized_environment env in
    if is_private_key name then rest else (name, value) ∷ rest

abbrev pub export_failed : Failure
export_failed = api bootstrap_failed 500 "Account state export failed"

-- A step that may throw, and the rest, which runs on the state behind it.
infixl 5 ◌|>◌
unfoldable pub ◌|>◌ : {A B W : Type 0} → Throws A × W → (A → W → Throws B × W) → Throws B × W
(err e, w) |> rest = (err e, w)
(ok a, w) |> rest = rest a w

module _ (ckb : Ckb) (platform : Platform) where
  -- `sha256Hex`
  unfoldable pub sha256_hex : Text → Text
  sha256_hex value = hex_digits (platform.sha256 value)

  -- `accountConfiguration`
  unfoldable pub account_configuration : BootstrapRequest → DeploymentManifest → Throws Json
  account_configuration request deployment = do
    public_key ← bytes_from_hex request.public_key
    let key_id = hex_from_bytes (ckb.hash_ckb public_key)
    let aux = codes "0x01" ++ sha256_hex rp_id ++ sha256_hex client_origin
    let authenticator = obj (
        field (codes "slot") (num (nat 0)) (
          field (codes "algorithm_id") (num (nat 1)) (
            field (codes "capabilities") (num (nat 7)) (
              field (codes "weight") (num (nat 1)) (
                field (codes "verifier_hash_type") (num (nat 0)) (
                  field (codes "verifier_abi") (num (nat 1)) (
                    field (codes "verifier_code_hash") (str deployment.verifier_p256.data_hash) (
                      field (codes "key_id") (str key_id)
                        (field (codes "aux") (str aux) end)))))))))
    ok (
        obj (
          field (codes "flags") (num (nat 1)) (
            field (codes "sequence") (num (nat 0)) (
              field (codes "spend_threshold") (num (nat 1)) (
                field (codes "rotate_threshold") (num (nat 1)) (
                  field (codes "recovery_threshold") (num (nat 1)) (
                    field (codes "recovery_since") (num (nat 0))
                      (field (codes "authenticators") (arr (item authenticator nil)) end))))))))

  -- `safeTemporaryDirectory`
  unfoldable pub safe_temporary_directory : Text → Throws Text
  safe_temporary_directory path =
      let resolved = platform.resolve path in
      if not (text_eq (platform.dirname resolved) (platform.resolve platform.tmpdir))
        || not (
            text_eq (take (length temp_directory_prefix) (platform.basename resolved))
              temp_directory_prefix)
      then err export_failed
      else ok resolved

  abbrev pub config_path : Text → Text
  config_path directory = platform.join directory (codes "account.json")

  abbrev pub output_path : Text → Text
  output_path directory = platform.join directory (codes "state.bin")

  -- The arguments of `cargo`.
  abbrev pub cargo_args : Text → List Text
  cargo_args directory =
      codes "run"
      ∷ codes "-q"
      ∷ codes "-p"
      ∷ codes "ckb-account-host"
      ∷ codes "--example"
      ∷ codes "export_account_state"
      ∷ codes "--"
      ∷ config_path directory
      ∷ output_path directory
      ∷ []

  module _ {W : Type 0} (deps : ExporterDeps W) where
    abbrev pub spawn_options : SpawnProcessOptions
    spawn_options = record {
      cwd = deps.repo_root;
      shell = false;
      env = sanitized_environment deps.process_env;
    }

    -- The check of the output.
    unfoldable pub filled_output : Bytes → W → Throws Bytes × W
    filled_output output w = ((if length output == 0 then err export_failed else ok output), w)

    -- The check of the exit code, and the reading of the output.
    unfoldable pub read_output : Text → ℕ → W → Throws Bytes × W
    read_output directory exit_code w =
        if not (exit_code == 0)
        then (err export_failed, w)
        else deps.read_file (output_path directory) w |> filled_output

    -- The process, once its configuration is written.
    unfoldable pub run_exporter : Text → Unit {0} → W → Throws Bytes × W
    run_exporter directory done w =
        deps.spawn_process (codes "cargo") (cargo_args directory) spawn_options w
        |> read_output directory

    -- The `try` behind the test of the directory.
    unfoldable pub export_in : Text → BootstrapRequest → W → Throws Bytes × W
    export_in directory request w = elim (account_configuration request deps.deployment) [
      | err e ↦ (err e, w)
      | ok config ↦ deps.write_file (config_path directory) config 0o600 w |> run_exporter directory
    ]

    -- The `catch`.
    unfoldable pub hidden : {A : Type 0} → Throws A → Throws A
    hidden (ok answer) = ok answer
    hidden (err e) = err (or_api e export_failed)

    -- The `finally`: an error of the removal takes the place of the answer.
    unfoldable pub remove_behind : Text → Throws Bytes × W → Throws Bytes × W
    remove_behind directory (answer, w) =
        deps.remove_dir directory w |> λ done after. (hidden answer, after)

    -- `exportAccountState`
    unfoldable pub export_account_state : BootstrapRequest → W → Throws Bytes × W
    export_account_state request w =
        if not (is_bootstrap_request request)
        then (err (api invalid_request 400 "Invalid account bootstrap request"), w)
        else (if not (is_deployment_manifest deps.deployment)
            then (err (api deployment_invalid 500 "Testnet deployment is invalid"), w)
            else (let (made, after) = deps.make_temp_dir w in
                elim (made >>= safe_temporary_directory) [
                  | err e ↦ (err (or_api e export_failed), after)
                  | ok directory ↦ remove_behind directory (export_in directory request after)
                ]))
