-- ===== src/Deploy/AtomicFile/Atomic.antt =====
-- `writeJsonAtomicFile` of tools/deploy/src/bootstrap-lib.ts: what a reader can meet.
use ckb_crypto_agile_account.Common.{
  ◌≡◌, ◌⊎◌, refl, ◌∙◌, false, [], Option, none, some, Text, text_eq, text_eq_self, ok, err, All,
  inl, inr,
}
use ckb_crypto_agile_account.Failure.{Failure, Throws}
use ckb_crypto_agile_account.Deploy.AtomicFile.{
  Files, put, Disk, Faults, change, unlink_and_throw, close_and_throw, rename_file, close_file,
  sync_file, write_file, open_new, attempt, open_file, write_json_atomic_file,
}

attempt-lem :
    {R : Type 0} (P : R → Type 0) (fault : Option Failure) (handler : Failure → R) (rest : R)
    → ((e : Failure) → P (handler e))
    → P rest
    → P (attempt fault handler rest)
unfolding attempt
attempt-lem P none handler rest failed passed = passed
attempt-lem P (some e) handler rest failed passed = failed e

module _ (path temporary content : Text) (before : Files)
    (apart : text_eq path temporary ≡ false) where
  -- The old content of the path, or the new one.
  abbrev pub IsOldOrNew : Files → Type 0
  IsOldOrNew files = (files path ≡ before path) ⊎ (files path ≡ some content)

  -- The files while the path is as it was.
  pub record IsOld (d : Disk) : Type 0 where
    pub old : d.files path ≡ before path
    pub met : All IsOldOrNew d.seen

  -- What is left: the new content and no temporary file, or an error and the old content.
  pub data IsEnd : Throws (Unit {0}) × Disk → Type 0 where
    replaced :
        (d : Disk)
        → d.files path ≡ some content
        → d.files temporary ≡ none
        → All IsOldOrNew d.seen
        → IsEnd (ok tt, d)
    kept : (e : Failure) (d : Disk) → IsOld d → IsEnd (err e, d)

  put_temporary : (c : Option Text) (files : Files) → put temporary c files path ≡ files path
  unfolding put
  put_temporary c files = rw apart

  change-IsOld : (c : Option Text) (d : Disk) → IsOld d → IsOld (change (put temporary c d.files) d)
  change-IsOld c d is =
      let same : put temporary c d.files path ≡ before path = put_temporary c d.files ∙ is.old in
      record { old = same; met = (inl same, is.met) }

  module _ (faults : Faults) where
    unlink-IsEnd :
        (e : Failure) (d : Disk)
        → IsOld d
        → IsEnd (unlink_and_throw path temporary content faults e d)
    unfolding unlink_and_throw
    unlink-IsEnd e d is =
        attempt-lem IsEnd faults.unlinking _ _ (λ other. kept e d is)
          (kept e _ (change-IsOld none d is))

    close-IsEnd :
        (e : Failure) (d : Disk)
        → IsOld d
        → IsEnd (close_and_throw path temporary content faults e d)
    unfolding close_and_throw
    close-IsEnd e d is =
        attempt-lem IsEnd faults.closing_again _ _ (λ other. kept other d is) (unlink-IsEnd e d is)

    rename-IsEnd :
        (d : Disk)
        → IsOld d
        → d.files temporary ≡ some content
        → IsEnd (rename_file path temporary content faults d)
    unfolding rename_file put
    rename-IsEnd d is whole =
        let moved = put path (d.files temporary) d.files in
        let new : put temporary none moved path ≡ some content =
          put_temporary none moved ∙ rw (text_eq_self path) whole in
        let gone : put temporary none moved temporary ≡ none = rw (text_eq_self temporary) in
        attempt-lem IsEnd faults.renaming _ _ (λ e. unlink-IsEnd e d is)
          (replaced _ new gone (inr new, is.met))

    sync-IsEnd :
        (d : Disk)
        → IsOld d
        → d.files temporary ≡ some content
        → IsEnd (sync_file path temporary content faults d)
    unfolding sync_file close_file
    sync-IsEnd d is whole =
        attempt-lem IsEnd faults.syncing _ _ (λ e. close-IsEnd e d is)
          (attempt-lem IsEnd faults.closing _ _ (λ e. close-IsEnd e d is) (rename-IsEnd d is whole))

    write-IsEnd : (d : Disk) → IsOld d → IsEnd (write_file path temporary content faults d)
    unfolding write_file put
    write-IsEnd d is =
        let written : put temporary (some content) d.files temporary ≡ some content =
          rw (text_eq_self temporary) in
        attempt-lem IsEnd faults.writing _ _
          (λ e. close-IsEnd e _ (change-IsOld (some faults.partial_content) d is))
          (sync-IsEnd _ (change-IsOld (some content) d is) written)

    open_new-IsEnd :
        (there : Option Text) (d : Disk)
        → IsOld d
        → IsEnd (open_new path temporary content faults there d)
    unfolding open_new
    open_new-IsEnd (some there) d is = unlink-IsEnd _ d is
    open_new-IsEnd none d is = write-IsEnd _ (change-IsOld (some []) d is)

    -- Whichever system calls fail, a file of another name than the temporary one holds at every moment
    -- its old content or all of the new one. It holds the new content, and the temporary file is gone,
    -- if the call answers; it holds the old content if the call throws.
    pub write_json_atomic_file-IsEnd :
        IsEnd (write_json_atomic_file path temporary content faults before)
    unfolding write_json_atomic_file open_file
    write_json_atomic_file-IsEnd =
        let start : Disk = record { files = before; seen = [] } in
        let is : IsOld start = record { old = refl; met = tt } in
        attempt-lem IsEnd faults.opening _ _ (λ e. unlink-IsEnd e start is)
          (open_new-IsEnd (before temporary) start is)
