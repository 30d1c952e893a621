-- ===== src/Demo/Finalize/Confirmed.antt =====
-- What the receipts of `confirmSpend` of demo/src/client/chain.ts stand for.
use ckb_crypto_agile_account.Common.{
  ◌≡◌, refl, sym, ap, ◌∙◌, Bool, not, ◌||◌, ◌==◌, Text, text_eq, throw_if, subst, inl, inr, Option,
  none, some, text_eq→eq, codes, Result-cases, ok, err, ◌>>=◌, >>=-eq-ok, arith,
}
use ckb_crypto_agile_account.Failure.{
  type_error, range_error, error, api_error, timeout, not_allowed, passkey_cancelled,
  passkey_protocol, foreign,
}
use ckb_crypto_agile_account.Ccc.{Ccc, OutPoint, Cell}
use ckb_crypto_agile_account.Demo.Discover.{SpendClient, is_typed}
use ckb_crypto_agile_account.Demo.Finalize.{
  SubmittedReceipt, Receipt, committed, confirmation_timeout, parse_receipt, check_change,
  await_spend, confirm_spend,
}

-- The live change of a spend, as it was submitted.
pub record IsChange (submitted : SubmittedReceipt) (change : Cell) : Type 0 where
  pub untyped : change.cell_output.type_script ≡ none
  pub empty : change.output_data ≡ codes "0x"
  pub kept : change.cell_output.capacity ≡ submitted.remaining_capacity

-- A receipt and what the client answered for it.
pub data IsConfirmed (client : SpendClient) (submitted : SubmittedReceipt) : Receipt → Type 0 where
  timed_out :
      client.wait_transaction submitted.tx_hash ≡ err timeout
      → IsConfirmed client submitted (confirmation_timeout submitted)
  checked :
      (change : Cell)
      → client.wait_transaction submitted.tx_hash ≡ ok (some tt)
      → client.get_cell_live (record { tx_hash = submitted.tx_hash; index = 1 }) ≡ ok (some change)
      → IsChange submitted change
      → IsConfirmed client submitted (committed submitted)

parse_receipt-eq-ok :
    (is_url : Text → Bool) (submitted r : SubmittedReceipt)
    → parse_receipt is_url submitted ≡ ok r
    → submitted ≡ r
unfolding parse_receipt
parse_receipt-eq-ok is_url submitted r h = ground (arith, h)

check_change-IsChange :
    (is_url : Text → Bool) (submitted : SubmittedReceipt) (answer : Option Cell) (r : Receipt)
    → check_change is_url submitted answer ≡ ok r
    → (change : Cell) × (answer ≡ some change)
      × IsChange submitted change
      × (committed submitted ≡ r)
unfolding check_change
check_change-IsChange is_url submitted none r h = absurd (ground (arith, h))
check_change-IsChange is_url submitted (some change) r h =
    let (t, e1, h1) =
      >>=-eq-ok
        (throw_if
          (is_typed change.cell_output.type_script
            || (not (text_eq change.output_data (codes "0x"))
                || not (change.cell_output.capacity == submitted.remaining_capacity)))
          _)
        _ h in
    let (answer, e2, h2) = >>=-eq-ok (parse_receipt is_url submitted) _ h1 in
    let same : submitted ≡ answer = parse_receipt-eq-ok is_url submitted answer e2 in
    let is : IsChange submitted change = record {
      untyped = ground (arith, e1);
      empty = text_eq→eq change.output_data (codes "0x") (ground (arith, e1));
      kept = ground (arith, e1);
    } in
    (change, refl, is, ap committed same ∙ ground (arith, h2))

module _ (ccc : Ccc) (is_url : Text → Bool) where
  await_spend_waited :
      (client : SpendClient) (submitted : SubmittedReceipt) (r : Receipt)
      → client.wait_transaction submitted.tx_hash ≡ ok (some tt)
      → await_spend ccc is_url client submitted ≡ ok r
      → IsConfirmed client submitted r
  unfolding await_spend
  await_spend_waited client submitted r waited h =
      let place : OutPoint = record { tx_hash = submitted.tx_hash; index = 1 } in
      let found : (client.get_cell_live place >>= check_change is_url submitted) ≡ ok r =
        ground (arith, h, waited) in
      let (answer, e1, h1) =
        >>=-eq-ok (client.get_cell_live place) (check_change is_url submitted) found in
      let (change, is, fits, made) = check_change-IsChange is_url submitted answer r h1 in
      let live : client.get_cell_live place ≡ ok (some change) = cc (e1, is) in
      subst (IsConfirmed client submitted) made (checked change waited live fits)

  await_spend-IsConfirmed :
      (client : SpendClient) (submitted : SubmittedReceipt) (r : Receipt)
      → await_spend ccc is_url client submitted ≡ ok r
      → IsConfirmed client submitted r
  unfolding await_spend
  await_spend-IsConfirmed client submitted r h =
      elim (Result-cases (client.wait_transaction submitted.tx_hash)) [
        | inl (none, e) ↦ absurd (ground (arith, h, e))
        | inl (some t, e) ↦ await_spend_waited client submitted r e h
        | inr (timeout, e) ↦
            let timed : (parse_receipt is_url submitted >>= λ answer.
            ok (confirmation_timeout answer))
                ≡ ok r =
              ground (arith, h, e) in
            let (answer, e1, h1) = >>=-eq-ok (parse_receipt is_url submitted) _ timed in
            let same : submitted ≡ answer = parse_receipt-eq-ok is_url submitted answer e1 in
            let made : confirmation_timeout submitted ≡ r =
              ap confirmation_timeout same ∙ ground (arith, h1) in
            subst (IsConfirmed client submitted) made (timed_out e)
        | inr (type_error m, e) ↦ absurd (ground (arith, h, e))
        | inr (range_error m, e) ↦ absurd (ground (arith, h, e))
        | inr (error m, e) ↦ absurd (ground (arith, h, e))
        | inr (api_error m, e) ↦ absurd (ground (arith, h, e))
        | inr (not_allowed, e) ↦ absurd (ground (arith, h, e))
        | inr (passkey_cancelled, e) ↦ absurd (ground (arith, h, e))
        | inr (passkey_protocol m, e) ↦ absurd (ground (arith, h, e))
        | inr (foreign m, e) ↦ absurd (ground (arith, h, e))
      ]

  -- A receipt that `confirmSpend` answers tells of a timeout only if the wait timed out. It tells of a
  -- committed spend only if the transaction was answered and its second output is live, without type
  -- or data, and has the capacity that was submitted.
  pub confirm_spend-IsConfirmed :
      (client : SpendClient) (submitted : SubmittedReceipt) (r : Receipt)
      → confirm_spend ccc is_url client submitted ≡ ok r
      → IsConfirmed client submitted r
  unfolding confirm_spend
  confirm_spend-IsConfirmed client submitted r h =
      let (parsed, e1, h1) = >>=-eq-ok (parse_receipt is_url submitted) _ h in
      let same : submitted ≡ parsed = parse_receipt-eq-ok is_url submitted parsed e1 in
      subst (λ x. IsConfirmed client x r) (sym same) (await_spend-IsConfirmed client parsed r h1)
