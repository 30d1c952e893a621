-- ===== src/Deploy/Account/Consistency.antt =====
-- What `assertCreationConsistency` of tools/deploy/src/account.ts lets through.
use ckb_crypto_agile_account.Common.{
  ◌≡◌, ◌↔◌, refl, true, List, [], ◌∷◌, some, Text, text_eq→eq, text_eq_self, ok, All, arith,
  Result-cases, Option-cases, inl, inr,
}
use ckb_crypto_agile_account.Ccc.{Ccc, by_data2, Script, CellInput, CellOutput, Transaction}
use ckb_crypto_agile_account.Deploy.Account.{
  type_id_code_hash, to_lower, same_hex, account_lock_args, check_foreign, check_lock, first_data,
  check_outputs, check_shape, assert_creation_consistency,
}

-- Two hex texts that name the same bytes: equal up to the case of their letters.
abbrev pub SameHex : Text → Text → Type 0
SameHex s t = to_lower s ≡ to_lower t

pub same_hex_iff : (s t : Text) → (same_hex s t ≡ true) ↔ SameHex s t
unfolding same_hex
same_hex_iff s t = (text_eq→eq (to_lower s) (to_lower t), λ e. rw e (text_eq_self (to_lower t)))

-- A cell behind the lock of the account whose args are given.
pub record IsAccountCell (code_hash args : Text) (output : CellOutput) : Type 0 where
  pub code : SameHex output.lock.code_hash code_hash
  pub kind : output.lock.hash_type ≡ by_data2
  pub bound : SameHex output.lock.args args

-- A creation transaction that makes one account: a state cell whose type script has the code hash of
-- Type ID and the args of the first input, an asset cell, both locked to that identity, and no other cell behind AccountLock.
pub record IsCreation (ccc : Ccc) (code_hash state_data : Text) (tx : Transaction) : Type 0 where
  pub input : CellInput
  pub more_inputs : List CellInput
  pub state : CellOutput
  pub asset : CellOutput
  pub others : List CellOutput
  pub state_type : Script
  pub args : Text
  pub inputs : tx.inputs ≡ input ∷ more_inputs
  pub outputs : tx.outputs ≡ state ∷ asset ∷ others
  pub typed : state.type_script ≡ some state_type
  pub type_args : SameHex state_type.args (ccc.hash_type_id input 0)
  pub type_code : SameHex state_type.code_hash type_id_code_hash
  pub identity : account_lock_args ccc (ccc.script_hash state_type) ≡ ok args
  pub state_locked : IsAccountCell code_hash args state
  pub asset_locked : IsAccountCell code_hash args asset
  pub foreign : All (λ o. ¬ SameHex o.lock.code_hash code_hash) others
  pub stored : SameHex (first_data tx.outputs_data) state_data

check_lock_iff :
    (code_hash args : Text) (o : CellOutput)
    → (check_lock code_hash args o ≡ ok tt) ↔ IsAccountCell code_hash args o
unfolding check_lock
check_lock_iff code_hash args o = (
  λ h. record {
    code = ground (arith, h, same_hex_iff o.lock.code_hash code_hash);
    kind = ground (arith, h);
    bound = ground (arith, h, same_hex_iff o.lock.args args);
  },
  λ v. ground (arith, v, same_hex_iff o.lock.code_hash code_hash, same_hex_iff o.lock.args args),
)

check_foreign_iff :
    (code_hash : Text) (os : List CellOutput)
    → (check_foreign code_hash os ≡ ok tt) ↔ All (λ o. ¬ SameHex o.lock.code_hash code_hash) os
unfolding check_foreign
check_foreign_iff code_hash [] = (λ h. tt, λ h. refl)
check_foreign_iff code_hash (o ∷ os) = (
  λ h. (
    λ e. ground (arith, h, same_hex_iff o.lock.code_hash code_hash),
    ground (arith, check_foreign_iff code_hash os),
  ),
  λ h. ground (arith, h, same_hex_iff o.lock.code_hash code_hash, check_foreign_iff code_hash os),
)

module _ (ccc : Ccc) (tx : Transaction) (code_hash state_data : Text) (input : CellInput)
    (state asset : CellOutput) (others : List CellOutput) (state_type : Script) where
  -- What `check_outputs` establishes, at the args that the identity gives.
  record Checked (args : Text) : Type 0 where
    type_args : SameHex state_type.args (ccc.hash_type_id input 0)
    type_code : SameHex state_type.code_hash type_id_code_hash
    state_locked : IsAccountCell code_hash args state
    asset_locked : IsAccountCell code_hash args asset
    foreign : All (λ o. ¬ SameHex o.lock.code_hash code_hash) others
    stored : SameHex (first_data tx.outputs_data) state_data

  check_outputs-eq-ok :
      (args : Text)
      → account_lock_args ccc (ccc.script_hash state_type) ≡ ok args
      → check_outputs ccc tx code_hash state_data input state asset others state_type ≡ ok tt
      → Checked args
  unfolding check_outputs
  check_outputs-eq-ok args made h = record {
    type_args =
        (same_hex_iff state_type.args (ccc.hash_type_id input 0)).0 (ground (arith, h, made));
    type_code = (same_hex_iff state_type.code_hash type_id_code_hash).0 (ground (arith, h, made));
    state_locked = (check_lock_iff code_hash args state).0 (ground (arith, h, made));
    asset_locked = (check_lock_iff code_hash args asset).0 (ground (arith, h, made));
    foreign = (check_foreign_iff code_hash others).0 (ground (arith, h, made));
    stored = (same_hex_iff (first_data tx.outputs_data) state_data).0 (ground (arith, h, made));
  }

  check_outputs_total :
      (args : Text)
      → account_lock_args ccc (ccc.script_hash state_type) ≡ ok args
      → Checked args
      → check_outputs ccc tx code_hash state_data input state asset others state_type ≡ ok tt
  unfolding check_outputs
  check_outputs_total args made c = rw (
    (same_hex_iff _ _).1 c.type_args,
    (same_hex_iff _ _).1 c.type_code,
    made,
    (check_foreign_iff code_hash others).1 c.foreign,
    (check_lock_iff code_hash args state).1 c.state_locked,
    (check_lock_iff code_hash args asset).1 c.asset_locked,
    (same_hex_iff _ _).1 c.stored,
  )

  check_outputs_identity :
      check_outputs ccc tx code_hash state_data input state asset others state_type ≡ ok tt
      → (args : Text) × (account_lock_args ccc (ccc.script_hash state_type) ≡ ok args)
  unfolding check_outputs
  check_outputs_identity h =
      elim (Result-cases (account_lock_args ccc (ccc.script_hash state_type))) [
        | inl found ↦ found
        | inr (e, failed) ↦ ground (arith, h, failed)
      ]

module _ (ccc : Ccc) (tx : Transaction) (code_hash state_data : Text) where
  check_shape-IsCreation :
      (input : CellInput) (more_inputs : List CellInput) (outputs : List CellOutput)
      → tx.inputs ≡ input ∷ more_inputs
      → tx.outputs ≡ outputs
      → check_shape ccc tx code_hash state_data input outputs ≡ ok tt
      → IsCreation ccc code_hash state_data tx
  unfolding check_shape
  check_shape-IsCreation input more_inputs [] is os h = cc
  check_shape-IsCreation input more_inputs (state ∷ []) is os h = cc
  check_shape-IsCreation input more_inputs (state ∷ asset ∷ others) is os h =
      elim (Option-cases state.type_script) [
        | inl untyped ↦ ground (arith, h, untyped)
        | inr (state_type, typed) ↦
            let checked : check_outputs ccc tx code_hash state_data input state asset others
                  state_type
                ≡ ok tt =
              ground (arith, h, typed) in
            let (args, made) =
              check_outputs_identity ccc tx code_hash state_data input state asset others state_type
                checked in
            let c =
              check_outputs-eq-ok ccc tx code_hash state_data input state asset others state_type
                args made checked in
            record {
              input = input;
              more_inputs = more_inputs;
              state = state;
              asset = asset;
              others = others;
              state_type = state_type;
              args = args;
              inputs = is;
              outputs = os;
              typed = typed;
              type_args = c.type_args;
              type_code = c.type_code;
              identity = made;
              state_locked = c.state_locked;
              asset_locked = c.asset_locked;
              foreign = c.foreign;
              stored = c.stored;
            }
      ]

  assert-IsCreation :
      assert_creation_consistency ccc tx code_hash state_data ≡ ok tt
      → IsCreation ccc code_hash state_data tx
  unfolding assert_creation_consistency
  assert-IsCreation h = by_inputs tx.inputs refl
    where
      by_inputs : (is : List CellInput) → tx.inputs ≡ is → IsCreation ccc code_hash state_data tx
      by_inputs [] e = ground (arith, h, e)
      by_inputs (input ∷ more) e =
          check_shape-IsCreation input more tx.outputs e refl (ground (arith, h, e))

  -- `assertCreationConsistency` passes exactly the transactions whose first output has a type script
  -- with the code hash of Type ID and the args of the first input, of whatever hash type, whose first
  -- two outputs are locked by AccountLock under data2 to the hash of that script, whose other outputs,
  -- wherever they return to, are not behind AccountLock, and whose first data are the expected state.
  -- Hex is compared up to the case of its letters.
  pub assert_creation_consistency_iff :
      (assert_creation_consistency ccc tx code_hash state_data ≡ ok tt)
      ↔ IsCreation ccc code_hash state_data tx
  unfolding assert_creation_consistency check_shape
  assert_creation_consistency_iff = (
    assert-IsCreation,
    λ v.
        let c =
          check_outputs_total ccc tx code_hash state_data v.input v.state v.asset v.others
            v.state_type v.args v.identity
            (record {
              type_args = v.type_args;
              type_code = v.type_code;
              state_locked = v.state_locked;
              asset_locked = v.asset_locked;
              foreign = v.foreign;
              stored = v.stored;
            }) in
        ground (arith, v.inputs, v.outputs, v.typed, c),
  )
