-- ===== src/Tests/Exporting.antt =====
-- demo/src/server/state-exporter.ts on one request.
use ckb_crypto_agile_account.Common.{ℕ, suc, ◌≡◌, [], ◌∷◌, ◌++◌, replicate, codes, ok}
use ckb_crypto_agile_account.Demo.Exporter.{
  ExporterDeps, Platform, Environment, sanitized_environment,
}
use ckb_crypto_agile_account.Demo.Exporter.Variables.{
  IsPrivate, value_of, value_of-sanitized_environment,
}
use ckb_crypto_agile_account.Tests.Spending.{sample_deployment}

abbrev pub sample_paths : Platform
sample_paths = record {
  resolve = λ p. p;
  dirname = λ p. codes "/tmp";
  basename = λ p. codes "ckb-passkey-state-a";
  join = λ directory name. directory ++ codes "/" ++ name;
  tmpdir = codes "/tmp";
  sha256 = λ t. replicate 32 7;
}

abbrev sample_environment : Environment
sample_environment = (codes "PATH", codes "/bin") ∷ (codes "ckb_privkey", codes "0x1") ∷ []

-- A world that counts the calls.
abbrev pub sample_exporter : ExporterDeps ℕ
sample_exporter = record {
  repo_root = codes "/repo";
  deployment = sample_deployment.manifest;
  process_env = sample_environment;
  make_temp_dir = λ w. (ok (codes "/tmp/ckb-passkey-state-a"), suc w);
  write_file = λ path value mode w. (ok tt, suc w);
  spawn_process = λ command args options w. (ok 0, suc w);
  read_file = λ path w. (ok (1 ∷ 2 ∷ []), suc w);
  remove_dir = λ path w. (ok tt, suc w);
}

value_of-sanitized_environment_example :
    (IsPrivate (codes "ckb_privkey")
      → value_of (codes "ckb_privkey") (sanitized_environment sample_environment) ≡ [])
    × (¬ IsPrivate (codes "ckb_privkey")
        → value_of (codes "ckb_privkey") (sanitized_environment sample_environment)
          ≡ value_of (codes "ckb_privkey") sample_environment)
value_of-sanitized_environment_example =
    value_of-sanitized_environment (codes "ckb_privkey") sample_environment
