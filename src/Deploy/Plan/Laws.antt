-- ===== src/Deploy/Plan/Laws.antt =====
-- What a plan of tools/deploy/src/plan.ts holds.
use ckb_crypto_agile_account.Common.{
  ℕ, suc, ◌+◌, ◌*◌, ◌≡◌, ◌≢◌, refl, sym, ap, ◌∙◌, subst, true, not, List, [], ◌∷◌, ◌++◌,
  append_assoc, some, length, length-append, All, Text, text_eq→eq, text_eq_self, Option-cases,
  Result-cases, ok, throw_if, >>=-eq-ok, arith, inl, inr,
}
use ckb_crypto_agile_account.Failure.{Throws}
use ckb_crypto_agile_account.Bytes.{nat}
use ckb_crypto_agile_account.Deploy.Artifacts.{
  ArtifactIdentity, VerifiedArtifact, Host, type_bytes, cell_capacity_shannons,
  code_cell_capacity_shannons, read_local_artifact_identities, ckb_data_hash, read_artifact,
  load_verified_artifact, shannons_per_ckb,
}
use ckb_crypto_agile_account.Deploy.Plan.{
  PlannedCell, DeploymentPlan, is_first_at, duplicates, identity_of, is_nil, total_of, plan_cell,
  plan_cells, build_deployment_plan,
}

-- No name stands twice.
abbrev pub Distinct : List Text → Type 0
Distinct [] = Unit
Distinct (x ∷ xs) = All (λ y. x ≢ y) xs × Distinct xs

is_first_at-append :
    (pre post : List Text) (name : Text)
    → is_first_at (pre ++ name ∷ post) name (length pre) ≡ true
    → All (λ x. x ≢ name) pre
unfolding is_first_at
is_first_at-append [] post name h = tt
is_first_at-append (x ∷ pre) post name h = (
  λ e. ground (arith, h, e, text_eq_self name),
  is_first_at-append pre post name (ground (arith, h)),
)

-- Every name of `rest` differs from every name of `pre`.
abbrev Apart : List Text → List Text → Type 0
Apart pre rest = All (λ y. All (λ x. x ≢ y) pre) rest

All-append_left :
    (pre : List Text) (name y : Text)
    → All (λ x. x ≢ y) (pre ++ name ∷ [])
    → All (λ x. x ≢ y) pre × (name ≢ y)
All-append_left [] name y h = (tt, h.0)
All-append_left (x ∷ pre) name y h =
    let (front, last) = All-append_left pre name y h.1 in ((h.0, front), last)

Apart-append :
    (pre : List Text) (name : Text) (rest : List Text)
    → Apart (pre ++ name ∷ []) rest
    → Apart pre rest × All (λ y. name ≢ y) rest
Apart-append pre name [] h = (tt, tt)
Apart-append pre name (y ∷ rest) h =
    let (front, last) = All-append_left pre name y h.0 in
    let (fronts, lasts) = Apart-append pre name rest h.1 in ((front, fronts), (last, lasts))

duplicates-append :
    (pre rest : List Text)
    → duplicates (pre ++ rest) (length pre) rest ≡ []
    → Apart pre rest × Distinct rest
unfolding duplicates
duplicates-append pre [] h = (tt, tt)
duplicates-append pre (name ∷ rest) h =
    let first : is_first_at (pre ++ name ∷ rest) name (length pre) ≡ true = ground (arith, h) in
    let none_later : duplicates (pre ++ name ∷ rest) (suc (length pre)) rest ≡ [] =
      ground (arith, h) in
    let next : length (pre ++ name ∷ []) ≡ suc (length pre) =
      omega (arith, length-append pre (name ∷ [])) in
    let (apart, distinct) =
      duplicates-append (pre ++ name ∷ []) rest
        (rw (next, append_assoc pre (name ∷ []) rest) none_later) in
    let (before, after) = Apart-append pre name rest apart in
    ((is_first_at-append pre rest name first, before), (after, distinct))

module _ (host : Host) (lock_args : ℕ) (identities : List ArtifactIdentity) where
  -- The cell that is planned for a name: its bytes are those of the file that the recorded identity
  -- of the name gives, they hash to the recorded hash, and they are paid for.
  pub record IsPlanned (name : Text) (cell : PlannedCell) : Type 0 where
    pub recorded : identity_of name identities ≡ some cell.artifact.identity
    pub named : cell.artifact.identity.name ≡ name
    pub read : host.read_file cell.artifact.identity.path ≡ ok cell.artifact.bytes
    pub hashed : host.hash_ckb cell.artifact.bytes ≡ cell.artifact.identity.data_hash
    pub funded :
        cell.capacity_shannons ≡ (41 + lock_args + length cell.artifact.bytes) * shannons_per_ckb

  -- A cell for each name, in their order.
  abbrev pub ArePlanned : List Text → List PlannedCell → Type 0
  ArePlanned [] [] = Unit
  ArePlanned [] (c ∷ cells) = ⊥
  ArePlanned (name ∷ names) [] = ⊥
  ArePlanned (name ∷ names) (c ∷ cells) = IsPlanned name c × ArePlanned names cells

identity_of-name :
    (name : Text) (identities : List ArtifactIdentity) (i : ArtifactIdentity)
    → identity_of name identities ≡ some i
    → i.name ≡ name
unfolding identity_of
identity_of-name name [] i h = cc
identity_of-name name (j ∷ identities) i h = elim (Option-cases (identity_of name identities)) [
  | inr (later, found) ↦ identity_of-name name identities i (ground (arith, h, found))
  | inl missing ↦ ground (arith, h, missing, text_eq→eq j.name name)
]

load_verified_artifact-eq-ok :
    (host : Host) (identity : ArtifactIdentity) (v : VerifiedArtifact)
    → load_verified_artifact host identity ≡ ok v
    → (v.identity ≡ identity)
      × (host.read_file identity.path ≡ ok v.bytes)
      × (host.hash_ckb v.bytes ≡ identity.data_hash)
unfolding load_verified_artifact read_artifact ckb_data_hash
load_verified_artifact-eq-ok host identity v h =
    elim (Result-cases (host.read_file identity.path)) [
      | inr (e, failed) ↦ ground (arith, h, failed)
      | inl (content, read) ↦
          let same : content ≡ v.bytes = ground (arith, h, read) in
          (
            ground (arith, h, read),
            read ∙ ap ok same,
            subst (λ b. host.hash_ckb b ≡ identity.data_hash) same
                (text_eq→eq _ _ (ground (arith, h, read))),
          )
    ]

code_cell_capacity_shannons_lem :
    (size lock_args : ℕ)
    → code_cell_capacity_shannons (nat size) (nat lock_args)
      ≡ ok ((41 + lock_args + size) * shannons_per_ckb)
unfolding code_cell_capacity_shannons cell_capacity_shannons type_bytes
code_cell_capacity_shannons_lem size lock_args = ap ok (omega arith)

is_nil-eq-true : (xs : List Text) → is_nil xs ≡ true → xs ≡ []
is_nil-eq-true [] h = refl
is_nil-eq-true (x ∷ xs) h = cc

module _ (host : Host) (lock_args : ℕ) (identities : List ArtifactIdentity) where
  plan_cell-IsPlanned :
      (name : Text) (cell : PlannedCell)
      → plan_cell host (nat lock_args) identities name ≡ ok cell
      → IsPlanned host lock_args identities name cell
  unfolding plan_cell
  plan_cell-IsPlanned name cell h = elim (Option-cases (identity_of name identities)) [
    | inl missing ↦ ground (arith, h, missing)
    | inr (i, found) ↦
        let (v, loaded, h1) =
          >>=-eq-ok (load_verified_artifact host i) _ (rw (found, plan_cell) at h) in
        let (same, read, hashed) = load_verified_artifact-eq-ok host i v loaded in
        let planned : PlannedCell = record {
          artifact = v;
          capacity_shannons = (41 + lock_args + length v.bytes) * shannons_per_ckb;
        } in
        let made : planned ≡ cell =
          ground (arith, h1, code_cell_capacity_shannons_lem (length v.bytes) lock_args) in
        let is : IsPlanned host lock_args identities name planned = record {
          recorded = found ∙ ap some (sym same);
          named = ap (λ j. j.name) same ∙ identity_of-name name identities i found;
          read = subst (λ j. host.read_file j.path ≡ ok v.bytes) (sym same) read;
          hashed = hashed ∙ ap (λ j. j.data_hash) (sym same);
          funded = refl;
        } in
        subst (IsPlanned host lock_args identities name) made is
  ]

  plan_cells-ArePlanned :
      (names : List Text) (cells : List PlannedCell)
      → plan_cells host (nat lock_args) identities names ≡ ok cells
      → ArePlanned host lock_args identities names cells
  unfolding plan_cells
  plan_cells-ArePlanned [] cells h = subst (ArePlanned host lock_args identities []) (nothing h) tt
    where
      nothing : ◌≡◌ {A = Throws (List PlannedCell)} (ok []) (ok cells) → [] ≡ cells
      nothing e = ground arith
  plan_cells-ArePlanned (name ∷ names) cells h =
      let (cell, e1, h1) = >>=-eq-ok (plan_cell host (nat lock_args) identities name) _ h in
      let (rest, e2, h2) = >>=-eq-ok (plan_cells host (nat lock_args) identities names) _ h1 in
      let made : cell ∷ rest ≡ cells = ground (arith, h2) in
      subst (ArePlanned host lock_args identities (name ∷ names)) made
        (plan_cell-IsPlanned name cell e1, plan_cells-ArePlanned names rest e2)

abbrev pub sum_capacity : List PlannedCell → ℕ
sum_capacity [] = 0
sum_capacity (c ∷ cells) = c.capacity_shannons + sum_capacity cells

total_of_lem : (cells : List PlannedCell) (k : ℕ) → total_of k cells ≡ k + sum_capacity cells
unfolding total_of
total_of_lem [] k = omega arith
total_of_lem (c ∷ cells) k = omega (arith, total_of_lem cells (k + c.capacity_shannons))

-- A plan that is built is for a selection that is not empty and names no artifact twice. It has a
-- cell for each name, in their order: the bytes of the recorded file of that name, which hash to
-- the recorded hash, and a capacity of 10^8 shannons for each of the bytes, the args of the lock
-- and 41 more. The total is the sum of the capacities.
pub build_deployment_plan_lem :
    (host : Host) (lock_args : ℕ) (selection : List Text) (plan : DeploymentPlan)
    → build_deployment_plan host (nat lock_args) selection ≡ ok plan
    → (identities : List ArtifactIdentity) × (read_local_artifact_identities host.local_manifest
        ≡ ok identities)
      × (selection ≢ [])
      × Distinct selection
      × ArePlanned host lock_args identities selection plan.cells
      × (plan.total_capacity_shannons ≡ sum_capacity plan.cells)
unfolding build_deployment_plan
build_deployment_plan_lem host lock_args selection plan h =
    let (t, some_names, h1) = >>=-eq-ok (throw_if (is_nil selection) _) _ h in
    let (u, distinct, h2) =
      >>=-eq-ok (throw_if (not (is_nil (duplicates selection 0 selection))) _) _ h1 in
    let (identities, recorded, h3) =
      >>=-eq-ok (read_local_artifact_identities host.local_manifest) _ h2 in
    let (cells, planned, h4) =
      >>=-eq-ok (plan_cells host (nat lock_args) identities selection) _ h3 in
    let made : cells ≡ plan.cells = ground (arith, h4) in
    (
      identities,
      recorded,
      λ e. ground (arith, some_names, e),
      (duplicates-append [] selection
          (is_nil-eq-true (duplicates selection 0 selection) (ground (arith, distinct)))).1,
      subst (ArePlanned host lock_args identities selection) made
          (plan_cells-ArePlanned host lock_args identities selection cells planned),
      ground (arith, h4, total_of_lem cells 0),
    )
