-- ===== src/Demo/Service/Guarded.antt =====
-- When `bootstrapOnce` of demo/src/server/service.ts creates an account.
use ckb_crypto_agile_account.Common.{
  ℕ, ◌+◌, ◌*◌, ◌≤◌, ◌≡◌, ◌>>=◌, ap, ◌∙◌, refl, subst, inl, inr, true, ltb, Option, none, some,
  length, Text, text_eq→eq, Result-cases, ok, err, >>=-eq-ok, throw_if, arith,
}
use ckb_crypto_agile_account.Failure.{Failure, Throws}
use ckb_crypto_agile_account.Bytes.{Bytes, hex_from_bytes}
use ckb_crypto_agile_account.Json.{Json, null, bool, num, str, arr, obj}
use ckb_crypto_agile_account.Ccc.{Ccc}
use ckb_crypto_agile_account.Deploy.Account.{to_lower}
use ckb_crypto_agile_account.Demo.Constants.{shannons_per_ckb, initial_asset}
use ckb_crypto_agile_account.Demo.Schemas.{
  DeploymentManifest, AccountManifest, BootstrapRequest, Parsers,
}
use ckb_crypto_agile_account.Demo.Service.{
  ServiceDeps, Service, Decision, reuse, create, account_state_capacity, bootstrap_fee_reserve,
  parse_account, verify_deployment, exported, check_existing, decide_on, decide, created_answer,
  bootstrap_once,
}
use ckb_crypto_agile_account.Demo.Service.Verified.{IsVerified, verify_deployment-IsVerified}

module _ {W : Type 0} (ccc : Ccc) (parsers : Parsers) (deps : ServiceDeps W)
    (deployment : DeploymentManifest) where
  -- The recorded account, whose live state is the one that was exported for the request. All is read
  -- behind the export.
  pub record IsReusable (request : BootstrapRequest) (w : W) (m : AccountManifest) : Type 0 where
    pub state : Bytes
    pub recorded : Json
    pub live : Text
    pub exports : (deps.export_state request w).0 ≡ ok state
    pub reads : deps.read_account_manifest (deps.export_state request w).1 ≡ ok recorded
    pub parses : parse_account ccc parsers deps deployment recorded ≡ ok (some m)
    pub lives :
        deps.get_state_cell m.state_out_point (deps.export_state request w).1 ≡ ok (some live)
    pub sized : m.state_bytes ≡ length state
    pub same : to_lower live ≡ hex_from_bytes state

  -- A state to create an account with, where none is recorded and the funder can pay for it.
  pub record IsCreatable (request : BootstrapRequest) (w : W) (state : Bytes) : Type 0 where
    pub balance : ℕ
    pub exports : (deps.export_state request w).0 ≡ ok state
    pub absent : deps.read_account_manifest (deps.export_state request w).1 ≡ ok null
    pub balances : deps.funder_balance (deps.export_state request w).1 ≡ ok balance
    pub covered : (139 + length state) * shannons_per_ckb + 201 * shannons_per_ckb ≤ balance

  IsDecision : BootstrapRequest → W → Decision → Type 0
  IsDecision request w (reuse m) = IsReusable request w m
  IsDecision request w (create state) = IsCreatable request w state

  exported-eq-ok :
      (answer : Throws Bytes) (state : Bytes)
      → exported ccc parsers deps deployment answer ≡ ok state
      → answer ≡ ok state
  unfolding exported
  exported-eq-ok (ok s) state h = h
  exported-eq-ok (err e) state h = absurd (cc h)

  check_existing-eq-ok :
      (m : AccountManifest) (state : Bytes) (answer : Option Text)
      → check_existing ccc parsers deps deployment m state answer ≡ ok tt
      → (live : Text) × (answer ≡ some live)
        × (m.state_bytes ≡ length state)
        × (to_lower live ≡ hex_from_bytes state)
  unfolding check_existing
  check_existing-eq-ok m state none h = absurd (ground (arith, h))
  check_existing-eq-ok m state (some live) h = (
    live,
    refl,
    ground (arith, h),
    text_eq→eq (to_lower live) (hex_from_bytes state) (ground (arith, h)),
  )

  some_of-none :
      (call : Throws AccountManifest)
      → ¬ ◌≡◌ {A = Throws (Option AccountManifest)} (call >>= λ m. ok (some m)) (ok none)
  some_of-none (ok m) h = cc h
  some_of-none (err e) h = cc h

  parse_account-none :
      (value : Json) → parse_account ccc parsers deps deployment value ≡ ok none → value ≡ null
  unfolding parse_account
  parse_account-none null h = refl
  parse_account-none (bool b) h = absurd (some_of-none _ h)
  parse_account-none (num n) h = absurd (some_of-none _ h)
  parse_account-none (str t) h = absurd (some_of-none _ h)
  parse_account-none (arr items) h = absurd (some_of-none _ h)
  parse_account-none (obj fields) h = absurd (some_of-none _ h)

  decide_on-IsDecision :
      (request : BootstrapRequest) (w : W) (existing : Option AccountManifest) (state : Bytes)
      (recorded : Json) (d : Decision)
      → (deps.export_state request w).0 ≡ ok state
      → deps.read_account_manifest (deps.export_state request w).1 ≡ ok recorded
      → parse_account ccc parsers deps deployment recorded ≡ ok existing
      → decide_on ccc parsers deps deployment existing state (deps.export_state request w).1 ≡ ok d
      → IsDecision request w d
  unfolding decide_on IsDecision account_state_capacity
  decide_on-IsDecision request w (some m) state recorded d exports reads parses h =
      let after = (deps.export_state request w).1 in
      let (answer, e1, h1) = >>=-eq-ok (deps.get_state_cell m.state_out_point after) _ h in
      let (t, e2, h2) =
        >>=-eq-ok (check_existing ccc parsers deps deployment m state answer) _ h1 in
      let (live, is, sized, same) = check_existing-eq-ok m state answer e2 in
      let made : reuse m ≡ d = ground (arith, h2) in
      let lives : deps.get_state_cell m.state_out_point after ≡ ok (some live) = cc (e1, is) in
      let reusable : IsReusable request w m = record {
        state = state;
        recorded = recorded;
        live = live;
        exports = exports;
        reads = reads;
        parses = parses;
        lives = lives;
        sized = sized;
        same = same;
      } in
      subst (IsDecision request w) made reusable
  decide_on-IsDecision request w none state recorded d exports reads parses h =
      let (balance, balances, h1) =
        >>=-eq-ok (deps.funder_balance (deps.export_state request w).1) _ h in
      let required =
        account_state_capacity (length state) + initial_asset + bootstrap_fee_reserve in
      let (t, paid, h2) = >>=-eq-ok (throw_if (ltb balance required) _) _ h1 in
      let made : create state ≡ d = ground (arith, h2) in
      let creatable : IsCreatable request w state = record {
        balance = balance;
        exports = exports;
        absent = reads ∙ ap ok (parse_account-none recorded parses);
        balances = balances;
        covered = ground (arith, paid);
      } in
      subst (IsDecision request w) made creatable

  decide-IsDecision :
      (request : BootstrapRequest) (w : W) (d : Decision)
      → decide ccc parsers deps deployment
          (deps.export_state request w).0
          (deps.export_state request w).1
        ≡ ok d
      → IsDecision request w d
  unfolding decide
  decide-IsDecision request w d h =
      let export = deps.export_state request w in
      let (state, e1, h1) = >>=-eq-ok (exported ccc parsers deps deployment export.0) _ h in
      let (recorded, reads, h2) = >>=-eq-ok (deps.read_account_manifest export.1) _ h1 in
      let (existing, parses, h3) =
        >>=-eq-ok (parse_account ccc parsers deps deployment recorded) _ h2 in
      decide_on-IsDecision request w existing state recorded d (exported-eq-ok export.0 state e1)
        reads parses h3

  -- What a run of `bootstrapOnce` may answer, and do to the service.
  pub data Run (request : BootstrapRequest) (s : Service W)
      : Throws AccountManifest × Service W → Type 0 where
    unverified : (e : Failure) → Run request s (err e, s)
    refused :
        (e : Failure)
        → Run request s
            (err e, record { verified = true; world = (deps.export_state request s.world).1 })
    reused :
        (m : AccountManifest)
        → IsVerified ccc parsers deps deployment s
        → IsReusable request s.world m
        → Run request s
            (ok m, record { verified = true; world = (deps.export_state request s.world).1 })
    attempted :
        (state : Bytes)
        → IsVerified ccc parsers deps deployment s
        → IsCreatable request s.world state
        → Run request s (
          created_answer ccc parsers deps deployment
              (deps.bootstrap state (deps.export_state request s.world).1).0,
          record {
            verified = true;
            world = (deps.bootstrap state (deps.export_state request s.world).1).1;
          },
        )

  -- Every run of `bootstrapOnce` leaves the world as it was, or as the export of the state left it, or
  -- attempts one creation in the latter. It attempts
  -- one only if the deployment was verified before or both of its cells are live with data of
  -- the recorded hashes, no account is recorded, and the funder's balance covers
  -- the state, the asset of 200 CKB and a reserve of 1 CKB. Without an attempt it fails, or answers the account that is
  -- recorded, if its live state is the one that was exported for the request.
  pub bootstrap_once-Run :
      (request : BootstrapRequest) (s : Service W)
      → Run request s (bootstrap_once ccc parsers deps deployment request s)
  unfolding bootstrap_once IsDecision
  bootstrap_once-Run request s =
      elim (Result-cases (verify_deployment ccc parsers deps deployment s)) [
        | inr (e, failed) ↦ rw (failed, bootstrap_once) (unverified e)
        | inl (t, passed) ↦
            elim (Result-cases (
              decide ccc parsers deps deployment (deps.export_state request s.world).0
                (deps.export_state request s.world).1)) [
                  | inr (e, failed) ↦ rw (passed, bootstrap_once, failed) (refused e)
                  | inl (reuse m, decided) ↦
                      rw (passed, bootstrap_once, decided)
                        (reused m
                          (verify_deployment-IsVerified ccc parsers deps deployment s passed)
                          (decide-IsDecision request s.world (reuse m) decided))
                  | inl (create state, decided) ↦
                      rw (passed, bootstrap_once, decided)
                        (attempted state
                          (verify_deployment-IsVerified ccc parsers deps deployment s passed)
                          (decide-IsDecision request s.world (create state) decided))
                ]
      ]
