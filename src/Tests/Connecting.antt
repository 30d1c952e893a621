-- ===== src/Tests/Connecting.antt =====
-- demo/src/client/api.ts, demo/src/server/http.ts, demo/src/server/state-exporter.ts and
-- demo/src/server/index.ts on requests for one account.
use ckb_crypto_agile_account.Common.{
  ℕ, ◌+◌, ◌≡◌, refl, ap, true, [], ◌∷◌, ◌++◌, none, some, length, replicate, append-nil, arith,
  codes, ok, err,
}
use ckb_crypto_agile_account.Failure.{account_mismatch, Throws}
use ckb_crypto_agile_account.Bytes.{Bytes}
use ckb_crypto_agile_account.Decimal.{decimal, read_digits, read_digits-decimal}
use ckb_crypto_agile_account.Json.{null}
use ckb_crypto_agile_account.Deploy.Bootstrap
use ckb_crypto_agile_account.Demo.Constants.{client_origin, initial_asset}
use ckb_crypto_agile_account.Demo.Schemas.{AccountManifest, BootstrapRequest}
use ckb_crypto_agile_account.Demo.Service.{DemoService, Service, api, account_state_capacity}
use ckb_crypto_agile_account.Demo.Http.{Request, Platform, required_host, serve}
use ckb_crypto_agile_account.Demo.Http.Served.{Served, serve-Served}
use ckb_crypto_agile_account.Demo.Api.{api_bootstrap}
use ckb_crypto_agile_account.Demo.Api.Carried.{Wire, through_proxy, page_answer}
use ckb_crypto_agile_account.Demo.Api.Refined.{api_bootstrap-through_proxy}
use ckb_crypto_agile_account.Demo.Server.{Outside, ServerWorld, creation_options}
use ckb_crypto_agile_account.Demo.Server.Kept.{
  validate_options-creation_options, bootstrap_all, bootstrap_all-kept,
}
use ckb_crypto_agile_account.Tests.Sample.{sample_ccc, sample_ckb, hash_of}
use ckb_crypto_agile_account.Tests.Spending.{sample_deployment, sample_manifest}
use ckb_crypto_agile_account.Tests.Exporting.{sample_paths, sample_exporter}
use ckb_crypto_agile_account.Tests.Creating.{sample_network, sample_world}
use ckb_crypto_agile_account.Tests.Serving.{sample_bootstrap, asking_parsers}

abbrev sample_platform : Platform
sample_platform = record {
  pathname = λ url. ok url;
  number = λ t. some (read_digits 0 t);
  parse_json = λ body. some null;
  status_json = λ s. null;
  account_json = λ m. null;
}

-- A service that counts the creations, and cannot tell its status.
abbrev sample_service : DemoService ℕ
sample_service = record {
  status = λ w. (err (api account_mismatch 409 "mismatch"), w);
  account = λ w. (ok none, w);
  bootstrap = λ request w. (ok sample_manifest, w + 1);
}

abbrev posted_bootstrap : Request
posted_bootstrap = record {
  method = codes "POST";
  url = some (codes "/api/account/bootstrap");
  host = some required_host;
  origin = some client_origin;
  content_type = some (codes "application/json; charset=utf-8");
  content_length = some (codes "2");
  body = record { chunks = codes "{" ∷ codes "}" ∷ []; failed = none };
}

serve-Served_example :
    Served sample_platform asking_parsers sample_service posted_bootstrap 0
      (serve sample_platform asking_parsers sample_service posted_bootstrap 0)
serve-Served_example = serve-Served sample_platform asking_parsers sample_service posted_bootstrap 0

abbrev sample_wire : Wire
sample_wire = record {
  chunks = λ body. body ∷ [];
  concat-chunks = λ body. append-nil body;
  content_length = λ body. decimal (length body);
}

abbrev sample_text : BootstrapRequest → Bytes
sample_text request = codes "{}"

created_back :
    (m : AccountManifest)
    → ◌≡◌ {A = Throws AccountManifest} (ok sample_manifest) (ok m)
    → asking_parsers.account null ≡ some m
created_back m h = cc h

api_bootstrap-through_proxy_example :
    api_bootstrap asking_parsers
      (through_proxy sample_platform asking_parsers sample_service sample_wire)
      sample_text
      null
      0
    ≡ (page_answer (sample_service.bootstrap sample_bootstrap 0).0, 1)
api_bootstrap-through_proxy_example =
    api_bootstrap-through_proxy sample_platform asking_parsers sample_service sample_wire
      sample_text null null sample_bootstrap 0 refl (omega arith) refl refl refl
      (ap some (read_digits-decimal 2)) created_back (λ e h. cc h)

validate_options-creation_options_example :
    Bootstrap.validate_options (creation_options (1 ∷ 2 ∷ 3 ∷ []))
    ≡ ok (record { state_capacity = account_state_capacity 3; asset_capacity = initial_asset })
validate_options-creation_options_example =
    validate_options-creation_options (1 ∷ 2 ∷ 3 ∷ []) (λ e. cc e)

abbrev sample_outside : Outside
sample_outside = record {
  cell_data = λ place. ok (some (codes "0x01"));
  funder_address = ok (codes "ckt1");
  funder_balance = ok 100_000_000_000;
  manifest_json = λ m. null;
}

abbrev filed_manifest : Bootstrap.AccountManifest
filed_manifest = record {
  account_id = hash_of b'1';
  code_hash = hash_of b'a';
  lock_args = codes "0x01" ++ replicate 64 b'1';
  type_id_args = hash_of b'2';
  state_out_point = record { tx_hash = hash_of b'd'; index = 0 };
  asset_out_point = record { tx_hash = hash_of b'd'; index = 1 };
  state_bytes = 2;
}

abbrev filed_service : Service (ServerWorld ℕ)
filed_service = record {
  verified = true;
  world = record {
    deployed = record sample_world { account_file = some filed_manifest };
    exporting = 0;
  };
}

bootstrap_all-kept_example :
    (bootstrap_all sample_ccc sample_ckb sample_paths sample_exporter sample_network sample_outside
      asking_parsers sample_deployment.manifest
      (sample_bootstrap ∷ sample_bootstrap ∷ [])
      filed_service).world.deployed
    ≡ filed_service.world.deployed
bootstrap_all-kept_example =
    bootstrap_all-kept sample_ccc sample_ckb sample_paths sample_exporter sample_network
      sample_outside asking_parsers sample_deployment.manifest
      (sample_bootstrap ∷ sample_bootstrap ∷ []) filed_service filed_manifest refl
