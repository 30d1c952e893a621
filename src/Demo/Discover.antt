-- ===== src/Demo/Discover.antt =====
-- demo/src/client/chain.ts: the account's two cells, found on the chain and checked.
pub mod Live
use ckb_crypto_agile_account.Common.{
  ℕ, ◌≡◌, Bool, true, false, not, ◌&&◌, ◌||◌, List, [], ◌∷◌, ◌++◌, Option, none, some, ltb, ◌==◌,
  length, Text, text_eq, codes, Result, ok, err, ◌>>=◌, ◌>>◌, throw_if,
}
use ckb_crypto_agile_account.Failure.{Failure, Throws, type_error}
use ckb_crypto_agile_account.Ccc.{Ccc, Script, OutPoint, Cell, Transaction}
use ckb_crypto_agile_account.Demo.Manifests.{VerifiedAccount}
use ckb_crypto_agile_account.Demo.State.{same_out_point, verify_state_cell}

-- What the chain's client answers. An indexer's scan is the list of its steps: each yields a cell or
-- throws.
pub record SpendClient : Type 0 where
  pub get_cell_live : OutPoint → Throws (Option Cell)
  pub find_cells_by_lock : Script → ℕ → List (Throws Cell)
  pub lock_of_address : Text → Throws Script
  pub send_transaction : Transaction → Throws Text
  pub wait_transaction : Text → Throws (Option (Unit {0}))

pub record AccountCells : Type 0 where
  pub state : Cell
  pub asset : Cell

-- `type !== undefined`
abbrev pub is_typed : Option Script → Bool
is_typed none = false
is_typed (some s) = true

module _ (ccc : Ccc) where
  -- The loop of `discoverAccountCells`, with the assets that it has found.
  unfoldable pub scan : VerifiedAccount → List (Throws Cell) → List Cell → Throws (List Cell)
  scan account [] assets = ok assets
  scan account (step ∷ steps) assets = do
    cell ← step
    throw_if (not (ccc.script_eq cell.cell_output.lock account.account_lock))
        (type_error "Indexer returned a cell with a foreign lock")
    elim (same_out_point ccc cell account.manifest.state_out_point) [
      | true ↦ verify_state_cell ccc cell account >>= λ parsed. scan account steps assets
      | false ↦
          throw_if (is_typed cell.cell_output.type_script)
            (type_error "AccountLock scan returned a typed asset candidate")
          >> throw_if (not (text_eq cell.output_data (codes "0x")))
              (type_error "AccountLock asset candidate contains data")
          >> elim (ltb 1 (length (assets ++ cell ∷ []))) [
            | true ↦ ok (assets ++ cell ∷ [])
            | false ↦ scan account steps (assets ++ cell ∷ [])
          ]
    ]

  -- `assets[0]`, if it is the only one.
  unfoldable pub only_asset : List Cell → Throws Cell
  only_asset (asset ∷ []) = ok asset
  only_asset _ = err (type_error "Expected exactly one AccountLock asset cell")

  -- The last check of `discoverAccountCells`.
  unfoldable pub check_live_asset : VerifiedAccount → Cell → Option Cell → Throws Cell
  check_live_asset account asset none =
      err (type_error "AccountLock asset cell is spent or changed")
  check_live_asset account asset (some live) = do
    throw_if
        (not (same_out_point ccc live account.manifest.asset_out_point)
          || (not (ccc.script_eq live.cell_output.lock account.account_lock)
              || (is_typed live.cell_output.type_script
                  || (not (text_eq live.output_data (codes "0x"))
                      || not (live.cell_output.capacity == asset.cell_output.capacity)))))
        (type_error "AccountLock asset cell is spent or changed")
    ok live

  unfoldable pub live_state : Option Cell → Throws Cell
  live_state none = err (type_error "Account state cell is spent or unavailable")
  live_state (some cell) = ok cell

  -- `discoverAccountCells`
  unfoldable pub discover_account_cells : SpendClient → VerifiedAccount → Throws AccountCells
  discover_account_cells client account = do
    answer ← client.get_cell_live account.manifest.state_out_point
    state ← live_state answer
    parsed ← verify_state_cell ccc state account
    assets ← scan account (client.find_cells_by_lock account.account_lock 3) []
    asset ← only_asset assets
    throw_if (not (same_out_point ccc asset account.manifest.asset_out_point))
        (type_error "Live asset outpoint does not match the account manifest")
    again ← client.get_cell_live account.manifest.asset_out_point
    live_asset ← check_live_asset account asset again
    ok (record { state = state; asset = live_asset })
