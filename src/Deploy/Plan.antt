-- ===== src/Deploy/Plan.antt =====
-- tools/deploy/src/plan.ts: the plan of a deployment.
pub mod Laws
use ckb_crypto_agile_account.Common.{
  ℕ, zero, suc, String, ◌+◌, ◌*◌, ◌≡◌, Bool, true, false, not, ◌&&◌, ◌||◌, List, [], ◌∷◌, Option,
  none, some, ◌==◌, if◌then◌else◌, length, Text, text_eq, Result, ok, err, ◌>>=◌, ◌>>◌, throw_if,
}
use ckb_crypto_agile_account.Failure.{Failure, Throws, error}
use ckb_crypto_agile_account.Bytes.{Bytes, Number, nat, not_nat}
use ckb_crypto_agile_account.Deploy.Artifacts.{
  ArtifactIdentity, VerifiedArtifact, Host, code_cell_capacity_shannons,
  read_local_artifact_identities, load_verified_artifact,
}

pub record PlannedCell : Type 0 where
  pub artifact : VerifiedArtifact
  pub capacity_shannons : ℕ

pub record DeploymentPlan : Type 0 where
  pub cells : List PlannedCell
  pub total_capacity_shannons : ℕ

-- `selection.indexOf(name) === index`
unfoldable pub is_first_at : List Text → Text → ℕ → Bool
is_first_at [] name index = false
is_first_at (x ∷ xs) name zero = text_eq x name
is_first_at (x ∷ xs) name (suc index) = not (text_eq x name) && is_first_at xs name index

-- `selection.filter((name, index) => selection.indexOf(name) !== index)`, from an index on.
unfoldable pub duplicates : List Text → ℕ → List Text → List Text
duplicates selection index [] = []
duplicates selection index (name ∷ rest) =
    let others = duplicates selection (suc index) rest in
    if is_first_at selection name index then others else name ∷ others

-- `identities[name]`: of entries of one name the last, as in an object.
unfoldable pub identity_of : Text → List ArtifactIdentity → Option ArtifactIdentity
identity_of name [] = none
identity_of name (i ∷ identities) = elim (identity_of name identities) [
  | some later ↦ some later
  | none ↦ if text_eq i.name name then some i else none
]

abbrev pub is_nil : List Text → Bool
is_nil [] = true
is_nil (x ∷ xs) = false

-- `cells.reduce((total, cell) => total + cell.capacityShannons, 0n)`
unfoldable pub total_of : ℕ → List PlannedCell → ℕ
total_of total [] = total
total_of total (c ∷ cells) = total_of (total + c.capacity_shannons) cells

module _ (host : Host) (lock_args_length : Number) where
  -- The callback of `selection.map`.
  unfoldable pub plan_cell : List ArtifactIdentity → Text → Throws PlannedCell
  plan_cell identities name = elim (identity_of name identities) [
    | none ↦ err (error "unknown artifact")
    | some identity ↦ do
      verified ← load_verified_artifact host identity
      capacity ← code_cell_capacity_shannons (nat (length verified.bytes)) lock_args_length
      ok (record { artifact = verified; capacity_shannons = capacity })
  ]

  unfoldable pub plan_cells : List ArtifactIdentity → List Text → Throws (List PlannedCell)
  plan_cells identities [] = ok []
  plan_cells identities (name ∷ rest) = do
    cell ← plan_cell identities name
    cells ← plan_cells identities rest
    ok (cell ∷ cells)

  -- `buildDeploymentPlan`
  unfoldable pub build_deployment_plan : List Text → Throws DeploymentPlan
  build_deployment_plan selection = do
    throw_if (is_nil selection) (error "no artifacts selected for deployment")
    throw_if (not (is_nil (duplicates selection 0 selection)))
        (error "duplicate artifact in selection")
    identities ← read_local_artifact_identities host.local_manifest
    cells ← plan_cells identities selection
    ok (record { cells = cells; total_capacity_shannons = total_of 0 cells })
