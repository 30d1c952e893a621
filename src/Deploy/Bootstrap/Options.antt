-- ===== src/Deploy/Bootstrap/Options.antt =====
-- `validateOptions` of tools/deploy/src/bootstrap-lib.ts.
use ckb_crypto_agile_account.Common.{ℕ, zero, suc, ◌+◌, ◌*◌, ◌≤◌, ◌≡◌, ◌↔◌, refl, length, ok, arith}
use ckb_crypto_agile_account.Bytes.{ℤ, pos, negsuc}
use ckb_crypto_agile_account.Deploy.Artifacts.{cell_capacity_shannons, type_bytes, shannons_per_ckb}
use ckb_crypto_agile_account.Deploy.Bootstrap.{
  BootstrapOptions, Capacities, positive_ckb, validate_options,
}

-- The options that a creation can be paid with.
pub record IsFunded (options : BootstrapOptions) (c : Capacities) : Type 0 where
  pub ckb : ℕ
  pub stored : 1 ≤ length options.state_data
  pub whole : options.asset_capacity_ckb ≡ pos ckb
  pub least : 74 ≤ ckb
  pub state_capacity : c.state_capacity ≡ (139 + length options.state_data) * shannons_per_ckb
  pub asset_capacity : c.asset_capacity ≡ ckb * shannons_per_ckb

positive_ckb_lem : (n : ℕ) → 1 ≤ n → positive_ckb (pos n) ≡ ok n
unfolding positive_ckb
positive_ckb_lem zero h = elim h [ ]
positive_ckb_lem (suc n) h = refl

-- `validateOptions` answers exactly for a state that is not empty and an asset of 74 CKB at least;
-- it answers 139 CKB and one for each byte of the state, and the asset's amount, in shannons.
pub validate_options_iff :
    (options : BootstrapOptions) (c : Capacities)
    → (validate_options options ≡ ok c) ↔ IsFunded options c
unfolding validate_options positive_ckb cell_capacity_shannons type_bytes
validate_options_iff options c = (to options.asset_capacity_ckb refl, from)
  where
    to :
        (z : ℤ)
        → options.asset_capacity_ckb ≡ z
        → validate_options options ≡ ok c
        → IsFunded options c
    to (pos zero) e h = absurd (ground (arith, e, h))
    to (negsuc n) e h = absurd (ground (arith, e, h))
    to (pos (suc n)) e h = record {
      ckb = suc n;
      stored = ground (arith, e, h);
      whole = e;
      least = ground (arith, e, h);
      state_capacity = ground (arith, e, h);
      asset_capacity = ground (arith, e, h);
    }

    from : IsFunded options c → validate_options options ≡ ok c
    from v = ground (arith, v, positive_ckb_lem v.ckb)
