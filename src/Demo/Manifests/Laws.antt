-- ===== src/Demo/Manifests/Laws.antt =====
-- What `validateAccount` of demo/src/shared/manifests.ts lets through.
use ckb_crypto_agile_account.Common.{
  ◌≡◌, ◌↔◌, inl, inr, ◌++◌, some, Option-cases, drop, Text, text_eq→eq, text_eq_of_eq, codes, ok,
  arith,
}
use ckb_crypto_agile_account.Json.{Json}
use ckb_crypto_agile_account.Ccc.{Ccc, Script, by_type, by_data2}
use ckb_crypto_agile_account.Deploy.Account.{type_id_script}
use ckb_crypto_agile_account.Demo.Schemas.{AccountManifest, Parsers}
use ckb_crypto_agile_account.Demo.Manifests.{
  VerifiedDeployment, VerifiedAccount, check_account, validate_account,
}

-- The Type ID script with the given args.
abbrev pub type_script : Text → Script
type_script args = record {
  code_hash = codes "0x00000000000000000000000000000000000000000000000000545950455f4944";
  hash_type = by_type;
  args = args;
}

-- The answer for a manifest: the lock with its code hash and args, the Type ID script with its args, and
-- the state cell as a dep.
abbrev pub answer_of : AccountManifest → VerifiedDeployment → VerifiedAccount
answer_of m deployment = record {
  manifest = m;
  deployment = deployment;
  account_lock = record { code_hash = m.code_hash; hash_type = by_data2; args = m.lock_args };
  state_type = type_script m.type_id_args;
  state_dep = record {
    out_point = record { tx_hash = m.state_out_point.tx_hash; index = m.state_out_point.index };
  };
}

module _ (ccc : Ccc) (parsers : Parsers) where
  -- A manifest that belongs to the deployment and is bound to its own identity.
  pub record IsBound (value : Json) (deployment : VerifiedDeployment) (m : AccountManifest)
      : Type 0 where
    pub parsed : parsers.account value ≡ some m
    pub deployed : m.code_hash ≡ deployment.account_lock_code.code_hash
    pub state_first : m.state_out_point.index ≡ 0
    pub asset_second : m.asset_out_point.index ≡ 1
    pub together : m.state_out_point.tx_hash ≡ m.asset_out_point.tx_hash
    pub args : m.lock_args ≡ codes "0x01" ++ drop 2 m.account_id
    pub identity : ccc.script_hash (type_script m.type_id_args) ≡ m.account_id

  check_account_iff :
      (m : AccountManifest) (deployment : VerifiedDeployment) (value : Json) (a : VerifiedAccount)
      → parsers.account value ≡ some m
      → (check_account ccc parsers m deployment ≡ ok a)
        ↔ (IsBound value deployment m × (a ≡ answer_of m deployment))
  unfolding check_account type_id_script
  check_account_iff m deployment value a parsed =
      let expected = codes "0x01" ++ drop 2 m.account_id in
      let hash = ccc.script_hash (type_script m.type_id_args) in
      let code = deployment.account_lock_code.code_hash in
      (
        λ h. (
          record {
            parsed = parsed;
            deployed = text_eq→eq m.code_hash code (ground (arith, h));
            state_first = ground (arith, h);
            asset_second = ground (arith, h);
            together =
                text_eq→eq m.state_out_point.tx_hash m.asset_out_point.tx_hash (ground (arith, h));
            args = text_eq→eq m.lock_args expected (ground (arith, h));
            identity = text_eq→eq hash m.account_id (ground (arith, h));
          },
          ground (arith, h),
        ),
        λ (v, made). ground (
          arith,
          made,
          v.state_first,
          v.asset_second,
          text_eq_of_eq m.code_hash code v.deployed,
          text_eq_of_eq m.state_out_point.tx_hash m.asset_out_point.tx_hash v.together,
          text_eq_of_eq m.lock_args expected v.args,
          text_eq_of_eq hash m.account_id v.identity,
        ),
      )

  -- `validateAccount` answers exactly for a manifest that the schema parses, whose code is that of
  -- the deployment, whose cells are the first two of one transaction, whose lock args are the
  -- version and the identity, and whose identity is the hash of its Type ID script. The answer holds
  -- that manifest with the deployment, the lock of its code hash and args, the Type ID script of its args
  -- and its state cell as a dep.
  pub validate_account_iff :
      (value : Json) (deployment : VerifiedDeployment) (a : VerifiedAccount)
      → (validate_account ccc parsers value deployment ≡ ok a)
        ↔ ((m : AccountManifest) × IsBound value deployment m × (a ≡ answer_of m deployment))
  unfolding validate_account
  validate_account_iff value deployment a = (
    λ h. elim (Option-cases (parsers.account value)) [
      | inl missing ↦ absurd (ground (arith, h, missing))
      | inr (m, parsed) ↦
          let (v, made) =
            (check_account_iff m deployment value a parsed).0 (ground (arith, h, parsed)) in
          (m, v, made)
    ],
    λ (m, v, made).
        rw (v.parsed, validate_account)
          ((check_account_iff m deployment value a v.parsed).1 (v, made)),
  )
