-- ===== src/Tests/Serving.antt =====
-- demo/src/server/service.ts on one request.
use ckb_crypto_agile_account.Common.{
  ℕ, suc, ◌≡◌, refl, subst, true, Option, none, some, [], ◌∷◌, ◌++◌, replicate, codes, ok,
}
use ckb_crypto_agile_account.Json.{null}
use ckb_crypto_agile_account.Demo.Schemas.{
  is_public_key, is_base64url, BootstrapRequest, is_bootstrap_request, Parsers,
}
use ckb_crypto_agile_account.Demo.Service.{ServiceDeps, Service, bootstrap_once}
use ckb_crypto_agile_account.Demo.Service.Guarded.{Run, bootstrap_once-Run}
use ckb_crypto_agile_account.Demo.Service.Flight.{
  Flights, bootstrap, Reachable, start, requested, IsSingle, Reachable-IsSingle,
}
use ckb_crypto_agile_account.Tests.Sample.{sample_ccc}
use ckb_crypto_agile_account.Tests.Spending.{sample_parsers, sample_deployment}

abbrev pub sample_bootstrap : BootstrapRequest
sample_bootstrap = record {
  public_key = codes "0x04" ++ replicate 128 b'1';
  credential_id = codes "cred";
}

pub sample_bootstrap_valid : is_bootstrap_request sample_bootstrap ≡ true
unfolding is_bootstrap_request is_public_key is_base64url
sample_bootstrap_valid = refl

pub only_bootstrap :
    (r : BootstrapRequest)
    → ◌≡◌ {A = Option BootstrapRequest} (some sample_bootstrap) (some r)
    → is_bootstrap_request r ≡ true
only_bootstrap r e =
    let same : sample_bootstrap ≡ r = cc e in
    subst (λ x. is_bootstrap_request x ≡ true) same sample_bootstrap_valid

abbrev pub asking_parsers : Parsers
asking_parsers = record sample_parsers {
  bootstrap_request = λ v. some sample_bootstrap;
  bootstrap_request_valid = λ v r e. only_bootstrap r e;
}

-- A world that counts the creations, and has no account on file.
abbrev pub counting_deps : ServiceDeps ℕ
counting_deps = record {
  read_account_manifest = λ w. ok null;
  get_deployment_cell = λ o w. ok (some (codes "0x01"));
  get_state_cell = λ o w. ok none;
  export_state = λ r w. (ok (1 ∷ 2 ∷ []), w);
  funder_address = λ w. ok (codes "ckt1");
  funder_balance = λ w. ok 100_000_000_000;
  bootstrap = λ state w. (ok null, suc w);
}

abbrev pub verified_service : Service ℕ
verified_service = record { verified = true; world = 0 }

bootstrap_once-Run_example :
    Run sample_ccc asking_parsers counting_deps sample_deployment.manifest sample_bootstrap
      verified_service
      (bootstrap_once sample_ccc asking_parsers counting_deps sample_deployment.manifest
        sample_bootstrap verified_service)
bootstrap_once-Run_example =
    bootstrap_once-Run sample_ccc asking_parsers counting_deps sample_deployment.manifest
      sample_bootstrap verified_service

abbrev no_flights : Flights
no_flights = record { active = none; running = []; next = 0 }

-- Two requests for one key.
abbrev busy_flights : Flights
busy_flights = (bootstrap asking_parsers null (bootstrap asking_parsers null no_flights).1).1

busy-Reachable : Reachable asking_parsers busy_flights
busy-Reachable =
    requested null (bootstrap asking_parsers null no_flights).1 (requested null no_flights start)

Reachable-IsSingle_example : IsSingle asking_parsers busy_flights
Reachable-IsSingle_example = Reachable-IsSingle asking_parsers busy_flights busy-Reachable
