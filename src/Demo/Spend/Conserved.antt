-- ===== src/Demo/Spend/Conserved.antt =====
-- What `prepareSpend` of demo/src/client/chain.ts makes of the capacity that it spends.
use ckb_crypto_agile_account.Common.{
  ℕ, ◌+◌, ◌-◌, ◌*◌, ◌≤◌, ◌<◌, ◌≡◌, [], ◌∷◌, none, codes, replicate, length, ok,
}
use ckb_crypto_agile_account.Bytes.{Bytes, bytes_from_hex, hex_from_bytes}
use ckb_crypto_agile_account.Protocol.{Ckb, ckb_hash}
use ckb_crypto_agile_account.Ccc.{Ccc, Script, CellOutput, Cell, Transaction}
use ckb_crypto_agile_account.Demo.Constants.{shannons_per_ckb}
use ckb_crypto_agile_account.Demo.Schemas.{PasskeyRecord, Parsers}
use ckb_crypto_agile_account.Demo.Manifests.{VerifiedAccount}
use ckb_crypto_agile_account.Demo.State.{ParsedState, parse_account_state}
use ckb_crypto_agile_account.Demo.Discover.{SpendClient, AccountCells, discover_account_cells}
use ckb_crypto_agile_account.Demo.Spend.{PreparedSpend, PrepareSpendInput}
use ckb_crypto_agile_account.Demo.Spend.Committed.{IsWitness, IsDigest}

module _ (ccc : Ccc) where
  -- An output that holds what it occupies.
  abbrev pub IsCovered : CellOutput → Type 0
  IsCovered output = ccc.occupied_size output * shannons_per_ckb ≤ output.capacity

  -- The transaction of a spend: the asset in, 100 CKB and the change out.
  abbrev pub expected_transaction : VerifiedAccount → Cell → Script → ℕ → Bytes → Transaction
  expected_transaction account asset funder_lock change placeholder = record {
    cell_deps =
        account.deployment.account_lock_dep ∷ account.deployment.verifier_p256_dep
        ∷ account.state_dep ∷ [];
    inputs = record { previous_output = asset.out_point; since = 0 } ∷ [];
    outputs =
        record { capacity = 10_000_000_000; lock = funder_lock; type_script = none }
        ∷ record { capacity = change; lock = account.account_lock; type_script = none }
        ∷ [];
    outputs_data = codes "0x" ∷ codes "0x" ∷ [];
    witnesses = hex_from_bytes placeholder ∷ [];
  }

  -- A spend of the account's live asset, as it is shown and signed.
  pub record IsSpend (ckb : Ckb) (parsers : Parsers) (client : SpendClient)
      (input : PrepareSpendInput) (p : PreparedSpend) : Type 0 where
    pub cells : AccountCells
    pub parsed : ParsedState
    pub passkey : PasskeyRecord
    pub funder_lock : Script
    pub public_key : Bytes
    pub placeholder : Bytes
    pub live : discover_account_cells ccc client input.account ≡ ok cells
    pub read : parse_account_state cells.state.output_data input.account ≡ ok parsed
    pub recorded : parsers.passkey input.passkey ≡ ok passkey
    pub addressed : client.lock_of_address input.funder_address ≡ ok funder_lock
    pub keyed : bytes_from_hex passkey.public_key ≡ ok public_key
    pub own_key : hex_from_bytes (ckb_hash ckb public_key) ≡ passkey.key_id
    pub state_key : hex_from_bytes parsed.key_id ≡ passkey.key_id
    pub sequence : p.sequence ≡ parsed.sequence
    pub credential : p.credential_id ≡ passkey.credential_id
    pub same_key : p.public_key ≡ passkey.public_key
    pub same_account : p.account_id ≡ input.account.manifest.account_id
    pub same_state : p.state_data ≡ cells.state.output_data
    pub reserved :
        IsWitness ccc ckb parsed.sequence
          (record {
            public_key = public_key;
            origin = codes "http://localhost:5173";
            authenticator_data = replicate 1024 0;
            client_data_json = replicate 2048 0;
            signature = 0x30 ∷ 70 ∷ replicate 70 0;
          })
          placeholder
    pub reserved_bytes : p.max_witness_bytes ≡ length placeholder
    pub conserved :
        10_000_000_000 + p.review.change_capacity + p.review.fee ≡ cells.asset.cell_output.capacity
    pub some_change : 0 < p.review.change_capacity
    pub estimated :
        p.review.fee
        ≡ ccc.estimate_fee
            (expected_transaction input.account cells.asset funder_lock
              (cells.asset.cell_output.capacity - 10_000_000_000)
              placeholder)
            1000
    pub transaction :
        p.transaction
        ≡ expected_transaction input.account cells.asset funder_lock p.review.change_capacity
            placeholder
    pub transfer_covered :
        IsCovered (record { capacity = 10_000_000_000; lock = funder_lock; type_script = none })
    pub change_covered : IsCovered (record {
      capacity = p.review.change_capacity;
      lock = input.account.account_lock;
      type_script = none;
    })
    pub digest :
        IsDigest ccc ckb input.account.manifest.account_id cells.state.output_data parsed.sequence
          p.transaction placeholder p.digest
    pub shown_input : p.review.input_capacity ≡ cells.asset.cell_output.capacity
    pub shown_transfer : p.review.transfer ≡ 10_000_000_000
    pub shown_asset : p.review.input_out_point ≡ cells.asset.out_point
    pub shown_address : p.review.funder_address ≡ input.funder_address
