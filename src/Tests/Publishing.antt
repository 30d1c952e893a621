-- ===== src/Tests/Publishing.antt =====
-- tools/deploy/src/deploy.ts and the writing of a file by tools/deploy/src/bootstrap-lib.ts.
use ckb_crypto_agile_account.Common.{
  refl, List, if◌then◌else◌, none, some, [], ◌∷◌, Text, text_eq, codes, ok,
}
use ckb_crypto_agile_account.Failure.{error}
use ckb_crypto_agile_account.Deploy.AtomicFile.{Files, Faults, write_json_atomic_file}
use ckb_crypto_agile_account.Deploy.AtomicFile.Atomic.{IsEnd, write_json_atomic_file-IsEnd}
use ckb_crypto_agile_account.Deploy.Publisher.{Wallet, World}
use ckb_crypto_agile_account.Deploy.Publisher.Ended.{Ended}
use ckb_crypto_agile_account.Tests.Sample.{hash_of}
use ckb_crypto_agile_account.Tests.Spending.{funder_script}

-- A wallet that can pay, on a chain that holds what it is sent.
abbrev sample_wallet : Wallet
sample_wallet = record {
  recommended_lock = ok funder_script;
  balance = ok 100_000_000_000;
  complete_inputs = λ tx. ok tx;
  complete_fee = λ tx rate. ok tx;
  send_transaction = λ tx. ok (hash_of b'b');
  wait_transaction = λ tx_hash. ok tt;
  get_cell_live = λ place. ok (some (codes "0x010203"));
}

abbrev empty_world : World
empty_world = record { manifest_file = ok none; sent = [] }

abbrev broadcast_lock : List Text
broadcast_lock = codes "--only" ∷ codes "account_lock" ∷ codes "--broadcast" ∷ []

abbrev account_path : Text
account_path = codes "testnet-account.json"

abbrev temporary_path : Text
temporary_path = codes ".testnet-account.json.1.a.tmp"

-- A directory with an old file in it.
abbrev old_files : Files
old_files = λ p. if text_eq p account_path then some (codes "old") else none

-- The disk is full in the middle of the text.
abbrev full_disk : Faults
full_disk = record {
  opening = none;
  writing = some (error "ENOSPC");
  partial_content = codes "{";
  syncing = none;
  closing = none;
  renaming = none;
  closing_again = none;
  unlinking = none;
}

write_json_atomic_file-IsEnd_example :
    IsEnd account_path temporary_path
      (codes "{}")
      old_files
      refl
      (write_json_atomic_file account_path temporary_path (codes "{}") full_disk old_files)
write_json_atomic_file-IsEnd_example =
    write_json_atomic_file-IsEnd account_path temporary_path (codes "{}") old_files refl full_disk
