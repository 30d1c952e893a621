-- ===== src/Demo/Discover/Live.antt =====
-- What `discoverAccountCells` of demo/src/client/chain.ts answers.
use ckb_crypto_agile_account.Common.{
  ◌≡◌, ap, subst, true, not, [], Option, none, some, text_eq→eq, codes, ok, throw_if, >>=-eq-ok,
  arith,
}
use ckb_crypto_agile_account.Ccc.{Ccc, Script, Cell}
use ckb_crypto_agile_account.Demo.Manifests.{VerifiedAccount}
use ckb_crypto_agile_account.Demo.State.{
  ParsedState, same_out_point, type_is, parse_account_state, verify_state_cell,
}
use ckb_crypto_agile_account.Demo.Discover.{
  SpendClient, AccountCells, scan, only_asset, check_live_asset, live_state, discover_account_cells,
}

module _ (ccc : Ccc) where
  -- A state cell of the account that parses.
  pub record IsStateCell (account : VerifiedAccount) (state : Cell) : Type 0 where
    pub placed : state.out_point ≡ account.manifest.state_out_point
    pub locked : state.cell_output.lock ≡ account.account_lock
    pub typed : state.cell_output.type_script ≡ some account.state_type
    pub parsed : ParsedState
    pub parses : parse_account_state state.output_data account ≡ ok parsed

  -- An asset cell of the account, without type or data.
  pub record IsAssetCell (account : VerifiedAccount) (asset : Cell) : Type 0 where
    pub placed : asset.out_point ≡ account.manifest.asset_out_point
    pub locked : asset.cell_output.lock ≡ account.account_lock
    pub untyped : asset.cell_output.type_script ≡ none
    pub empty : asset.output_data ≡ codes "0x"

  type_is→eq : (o : Option Script) (s : Script) → type_is ccc o s ≡ true → o ≡ some s
  type_is→eq none s h = cc
  type_is→eq (some t) s h = ap some ((ccc.script_eq_iff t s).0 h)

  verify_state_cell-IsStateCell :
      (account : VerifiedAccount) (state : Cell) (parsed : ParsedState)
      → verify_state_cell ccc state account ≡ ok parsed
      → IsStateCell account state
  unfolding verify_state_cell same_out_point
  verify_state_cell-IsStateCell account state parsed h = record {
    placed =
        (ccc.out_point_eq_iff state.out_point account.manifest.state_out_point).0
          (ground (arith, h));
    locked = (ccc.script_eq_iff state.cell_output.lock account.account_lock).0 (ground (arith, h));
    typed = type_is→eq state.cell_output.type_script account.state_type (ground (arith, h));
    parsed = parsed;
    parses = ground (arith, h);
  }

  check_live_asset-IsAssetCell :
      (account : VerifiedAccount) (asset : Cell) (answer : Option Cell) (live : Cell)
      → check_live_asset ccc account asset answer ≡ ok live
      → (answer ≡ some live)
        × IsAssetCell account live
        × (live.cell_output.capacity ≡ asset.cell_output.capacity)
  unfolding check_live_asset same_out_point
  check_live_asset-IsAssetCell account asset none live h = absurd (ground (arith, h))
  check_live_asset-IsAssetCell account asset (some cell) live h =
      let same : cell ≡ live = ground (arith, h) in
      let is_asset : IsAssetCell account cell = record {
        placed =
            (ccc.out_point_eq_iff cell.out_point account.manifest.asset_out_point).0
              (ground (arith, h));
        locked =
            (ccc.script_eq_iff cell.cell_output.lock account.account_lock).0 (ground (arith, h));
        untyped = ground (arith, h);
        empty = text_eq→eq cell.output_data (codes "0x") (ground (arith, h));
      } in
      let capacity : cell.cell_output.capacity ≡ asset.cell_output.capacity = ground (arith, h) in
      (
        ap some same,
        subst (IsAssetCell account) same is_asset,
        subst (λ (c : Cell). c.cell_output.capacity ≡ asset.cell_output.capacity) same capacity,
      )

  -- The two cells are live, as the client tells, and the account's: each at its outpoint of the
  -- manifest and behind AccountLock, the state of the account's Type ID and readable, the asset
  -- without type or data.
  pub discover_account_cells-IsStateCell :
      (client : SpendClient) (account : VerifiedAccount) (cells : AccountCells)
      → discover_account_cells ccc client account ≡ ok cells
      → (client.get_cell_live account.manifest.state_out_point ≡ ok (some cells.state))
        × (client.get_cell_live account.manifest.asset_out_point ≡ ok (some cells.asset))
        × IsStateCell account cells.state
        × IsAssetCell account cells.asset
  unfolding discover_account_cells live_state
  discover_account_cells-IsStateCell client account cells h =
      let (answer, e1, h1) =
        >>=-eq-ok (client.get_cell_live account.manifest.state_out_point) _ h in
      let (state, e2, h2) = >>=-eq-ok (live_state ccc answer) _ h1 in
      let (parsed, e3, h3) = >>=-eq-ok (verify_state_cell ccc state account) _ h2 in
      let (assets, e4, h4) =
        >>=-eq-ok (scan ccc account (client.find_cells_by_lock account.account_lock 3) []) _ h3 in
      let (asset, e5, h5) = >>=-eq-ok (only_asset ccc assets) _ h4 in
      let (t, e6, h6) =
        >>=-eq-ok (throw_if (not (same_out_point ccc asset account.manifest.asset_out_point)) _) _
          h5 in
      let (again, e7, h7) =
        >>=-eq-ok (client.get_cell_live account.manifest.asset_out_point) _ h6 in
      let (live, e8, h8) = >>=-eq-ok (check_live_asset ccc account asset again) _ h7 in
      let (found, is_asset, capacity) = check_live_asset-IsAssetCell account asset again live e8 in
      let made : AccountCells = record { state = state; asset = live } in
      let same : made ≡ cells = ground (arith, h8) in
      let answered : answer ≡ some state = ground (arith, e2) in
      let state_answer : client.get_cell_live account.manifest.state_out_point ≡ ok (some state) =
        cc (e1, answered) in
      let asset_answer : client.get_cell_live account.manifest.asset_out_point ≡ ok (some live) =
        cc (e7, found) in
      subst
        (λ (c : AccountCells).
          (client.get_cell_live account.manifest.state_out_point ≡ ok (some c.state))
          × (client.get_cell_live account.manifest.asset_out_point ≡ ok (some c.asset))
          × IsStateCell account c.state
          × IsAssetCell account c.asset)
        same
        (
          state_answer,
          asset_answer,
          verify_state_cell-IsStateCell account state parsed e3,
          is_asset,
        )
