-- ===== src/Deploy/AtomicFile.antt =====
-- `writeJsonAtomicFile` of tools/deploy/src/bootstrap-lib.ts on the files of a directory. Each system call
-- may fail, as the run is told, and the files that a reader meets between the calls are kept.
pub mod Atomic
use ckb_crypto_agile_account.Common.{
  ◌≡◌, Bool, true, false, List, [], ◌∷◌, Option, none, some, if◌then◌else◌, Text, text_eq, Result,
  ok, err,
}
use ckb_crypto_agile_account.Failure.{Failure, Throws, error}

-- The content of each path, none where there is no file.
abbrev pub Files : Type 0
Files = Text → Option Text

unfoldable pub put : Text → Option Text → Files → Files
put path content files = λ p. if text_eq p path then content else files p

-- The files, and what they were behind each call so far, the last first.
pub record Disk : Type 0 where
  pub files : Files
  pub seen : List Files

-- Which calls fail, the second one of `closeSync` included, and what a failing write leaves.
pub record Faults : Type 0 where
  pub opening : Option Failure
  pub writing : Option Failure
  pub partial_content : Text
  pub syncing : Option Failure
  pub closing : Option Failure
  pub renaming : Option Failure
  pub closing_again : Option Failure
  pub unlinking : Option Failure

abbrev pub change : Files → Disk → Disk
change files d = record { files = files; seen = files ∷ d.seen }

-- A call that fails as the run is told: what follows it, or what its error leads to.
unfoldable pub attempt : {R : Type 0} → Option Failure → (Failure → R) → R → R
attempt none handler rest = rest
attempt (some e) handler rest = handler e

module _ (path temporary content : Text) (faults : Faults) where
  -- `unlinkSync`, whose error is dropped, and the error that is thrown again.
  unfoldable pub unlink_and_throw : Failure → Disk → Throws (Unit {0}) × Disk
  unlink_and_throw e d =
      attempt faults.unlinking (λ dropped. (err e, d))
        (err e, change (put temporary none d.files) d)

  -- The `catch` while the descriptor is open: an error of closing it is thrown instead.
  unfoldable pub close_and_throw : Failure → Disk → Throws (Unit {0}) × Disk
  close_and_throw e d =
      attempt faults.closing_again (λ other. (err other, d)) (unlink_and_throw e d)

  -- `renameSync`, once the descriptor is closed.
  unfoldable pub rename_file : Disk → Throws (Unit {0}) × Disk
  rename_file d =
      attempt faults.renaming (λ e. unlink_and_throw e d)
        (ok tt, change (put temporary none (put path (d.files temporary) d.files)) d)

  -- `closeSync`
  unfoldable pub close_file : Disk → Throws (Unit {0}) × Disk
  close_file d = attempt faults.closing (λ e. close_and_throw e d) (rename_file d)

  -- `fsyncSync`
  unfoldable pub sync_file : Disk → Throws (Unit {0}) × Disk
  sync_file d = attempt faults.syncing (λ e. close_and_throw e d) (close_file d)

  -- `writeFileSync`
  unfoldable pub write_file : Disk → Throws (Unit {0}) × Disk
  write_file d =
      attempt faults.writing
        (λ e. close_and_throw e (change (put temporary (some faults.partial_content) d.files) d))
        (sync_file (change (put temporary (some content) d.files) d))

  -- `openSync` with "wx", which refuses a file that exists.
  unfoldable pub open_new : Option Text → Disk → Throws (Unit {0}) × Disk
  open_new (some there) d = unlink_and_throw (error "EEXIST") d
  open_new none d = write_file (change (put temporary (some []) d.files) d)

  unfoldable pub open_file : Disk → Throws (Unit {0}) × Disk
  open_file d = attempt faults.opening (λ e. unlink_and_throw e d) (open_new (d.files temporary) d)

  -- `writeJsonAtomicFile`, with the name of its temporary file and the text of the value.
  unfoldable pub write_json_atomic_file : Files → Throws (Unit {0}) × Disk
  write_json_atomic_file files = open_file (record { files = files; seen = [] })
