-- ===== src/Demo/Service/Verified.antt =====
-- `verifyDeployment` of demo/src/server/service.ts: what it has seen of the code cells.
use ckb_crypto_agile_account.Common.{
  ◌≡◌, ap, ◌∙◌, not, ◌>>=◌, ◌>>◌, text_eq, Option-cases, Bool-cases, inl, inr, true, some, Text,
  text_eq→eq, Result-cases, ok, >>=-eq-ok, throw_if, arith,
}
use ckb_crypto_agile_account.Bytes.{Bytes}
use ckb_crypto_agile_account.Ccc.{Ccc}
use ckb_crypto_agile_account.Demo.Schemas.{DeploymentArtifact, DeploymentManifest, Parsers}
use ckb_crypto_agile_account.Demo.Service.{
  ServiceDeps, Service, invalid_deployment, check_code_cell, verify_deployment,
}

module _ {W : Type 0} (ccc : Ccc) (parsers : Parsers) (deps : ServiceDeps W)
    (deployment : DeploymentManifest) where
  -- A cell of published code that is live with data of the artifact's hash.
  pub record IsLiveCode (artifact : DeploymentArtifact) (w : W) : Type 0 where
    pub output_data : Text
    pub bytes : Bytes
    pub found :
        deps.get_deployment_cell (record { tx_hash = artifact.tx_hash; index = artifact.index }) w
        ≡ ok (some output_data)
    pub decoded : ccc.bytes_from output_data ≡ ok bytes
    pub hashed : ccc.hash_ckb bytes ≡ artifact.data_hash

  -- A deployment that was verified before, or whose two cells are there now.
  pub data IsVerified (s : Service W) : Type 0 where
    before : s.verified ≡ true → IsVerified s
    now :
        IsLiveCode deployment.account_lock s.world
        → IsLiveCode deployment.verifier_p256 s.world
        → IsVerified s

  check_code_cell-IsLiveCode :
      (artifact : DeploymentArtifact) (w : W)
      → check_code_cell ccc parsers deps deployment artifact w ≡ ok tt
      → IsLiveCode artifact w
  unfolding check_code_cell
  check_code_cell-IsLiveCode artifact w h =
      let (answer, e1, h1) =
        >>=-eq-ok
          (deps.get_deployment_cell (record { tx_hash = artifact.tx_hash; index = artifact.index })
            w)
          _ h in
      elim (Option-cases answer) [
        | inl missing ↦ absurd (ground (arith, h1, missing))
        | inr (output_data, is) ↦
            let h2 : (ccc.bytes_from output_data >>= λ bytes.
            throw_if (not (text_eq (ccc.hash_ckb bytes) artifact.data_hash)) invalid_deployment)
                ≡ ok tt =
              ground (arith, h1, is) in
            let (bytes, e3, h3) = >>=-eq-ok (ccc.bytes_from output_data) _ h2 in
            record {
              output_data = output_data;
              bytes = bytes;
              found = e1 ∙ ap ok is;
              decoded = e3;
              hashed = text_eq→eq (ccc.hash_ckb bytes) artifact.data_hash (ground (arith, h3));
            }
      ]

  pub verify_deployment-IsVerified :
      (s : Service W) → verify_deployment ccc parsers deps deployment s ≡ ok tt → IsVerified s
  unfolding verify_deployment
  verify_deployment-IsVerified s h = elim (Bool-cases s.verified) [
    | inl already ↦ before already
    | inr not_yet ↦
        let lock = check_code_cell ccc parsers deps deployment deployment.account_lock s.world in
        let verifier =
          check_code_cell ccc parsers deps deployment deployment.verifier_p256 s.world in
        elim (Result-cases (lock >> verifier)) [
          | inr (e, bad) ↦ absurd (ground (arith, h, not_yet, bad))
          | inl (done, good) ↦
              let (t, e1, e2) = >>=-eq-ok lock _ good in
              now (check_code_cell-IsLiveCode deployment.account_lock s.world e1)
                (check_code_cell-IsLiveCode deployment.verifier_p256 s.world e2)
        ]
  ]
