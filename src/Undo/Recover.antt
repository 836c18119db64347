-- ===== src/Undo/Recover.antt =====
-- `finish`, `dm_undo_commit`, `dm_undo_abort` and `dm_undo_recover` of server/undo_journal.c on a disk
-- that can be brought back to its base.
use dataman.Base.{
  ℕ, suc, ◌+◌, ◌≤◌, ◌≡◌, refl, ap, ◌∙◌, Bool, true, false, none, some, List, [], ◌∷◌, ◌++◌, arith,
  length, Option-cases, inl, inr, length-append, drop-append_self, ◌==◌, subst,
}
use dataman.Storage.{Bytes, ftruncate}
use dataman.Undo.State.{Files, Place, Tx, Disk, ok, write_journal}
use dataman.Undo.Record.{resolved_record}
use dataman.Undo.Scan.{UndoEntry, Entry, Log}
use dataman.Undo.ScanLoop.{scan}
use dataman.Undo.ScanLog.{log_bytes, stack, IsFragment, scan_log}
use dataman.Undo.ScanUndo.{record_of, length-record_of}
use dataman.Undo.Write.{append}
use dataman.Undo.Finish.{
  FinishFaults, settle, settle_all, retire, resolve, finish_journal, finish, commit, abort, recover,
  opened,
}
use dataman.Undo.Restore.{settle_all-stack}
use dataman.Undo.Active.{IsRecoverable}

-- No failure from the first entry to the removal of the journal.
pub record IsCalm (faults : FinishFaults) : Type 0 where
  pub entries :
      (m : ℕ)
      → ((faults.entry m).write_stop ≡ none)
        × ((faults.entry m).truncates ≡ true)
        × ((faults.entry m).syncs ≡ true)
  pub cuts : faults.cuts ≡ true
  pub cut_syncs : faults.cut_syncs ≡ true
  pub appends : faults.append.record_stop ≡ none
  pub append_syncs : faults.append.sync_stop ≡ none
  pub unlinks : faults.unlinks ≡ true
  pub syncs : faults.syncs ≡ true

length-log_bytes :
    (sequence : ℕ) (log : List UndoEntry) → length log ≤ length (log_bytes sequence log)
unfolding log_bytes
length-log_bytes sequence [] = omega arith
length-log_bytes sequence (e ∷ log) = omega (
  arith,
  length-append (record_of sequence e) (log_bytes (sequence + 1) log),
  length-record_of sequence e,
  length-log_bytes (sequence + 1) log,
)

abbrev journal_of :
    (place : Place) (base : Files) (disk : Disk) → IsRecoverable place base disk → Bytes
journal_of place base disk r = r.head ++ (log_bytes 0 r.log ++ r.tail)

-- What `scan` finds in the journal.
abbrev log_of : (place : Place) (base : Files) (disk : Disk) → IsRecoverable place base disk → Log
log_of place base disk r = record {
  entries = stack r.log [];
  resolved = false;
  end = length r.head + length (log_bytes 0 r.log);
  sequence = 0 + length r.log;
}

scan_recoverable :
    (place : Place) (base : Files) (disk : Disk) (r : IsRecoverable place base disk)
    → scan place disk.files (journal_of place base disk r) ≡ ok (log_of place base disk r)
unfolding scan
scan_recoverable place base disk r =
    let rest = log_bytes 0 r.log ++ r.tail in
    let none_before : length r.log ≡ 0 + length r.log = omega arith in
    rw (scan, r.head_reads rest)
      (scan_log place disk.files (r.head ++ rest) r.tail r.log (length (r.head ++ rest) + 1)
        (length r.head) 0 [] r.readable (drop-append_self r.head rest)
        (subst (λ (s : ℕ). IsFragment s r.tail) none_before r.fragment)
        (omega (
          arith,
          length-append r.head rest,
          length-append (log_bytes 0 r.log) r.tail,
          length-log_bytes 0 r.log,
        ))
        (omega (arith, r.few)))

-- `resolve` and `retire` without a failure.
resolve_calm :
    (faults : FinishFaults) (tx : Tx) (disk : Disk)
    → IsCalm faults
    → ((resolve faults tx disk).result ≡ ok tt)
      × ((resolve faults tx disk).disk ≡ record { files = disk.files; journal = none })
unfolding resolve append retire
resolve_calm faults tx disk c =
    simp (resolve, append, retire, c.appends, c.append_syncs, c.unlinks, c.syncs)
      (refl, written disk)
  where
    written :
        (d : Disk)
        → record (write_journal d tx.end (resolved_record (tx.sequence + 1))) { journal = none }
          ≡ record { files = d.files; journal = none }
    written d = elim (Option-cases d.journal) [
      | inl nothing ↦ simp (write_journal, nothing) refl
      | inr (j, there) ↦ simp (write_journal, there) refl
    ]

-- The end of `finish`, with the entries settled.
finish_settled :
    (undoing : Bool) (faults : FinishFaults) (place : Place) (base : Files) (tx : Tx) (disk : Disk)
    (files : Files) (r : IsRecoverable place base disk)
    → IsCalm faults
    → settle_all undoing faults 0 (journal_of place base disk r) (stack r.log []) disk.files
      ≡ (true, files)
    → let a = finish undoing faults place tx disk in
      (a.result ≡ ok tt) × (a.disk ≡ record { files = files; journal = none })
unfolding finish finish_journal
finish_settled undoing faults place base tx disk files r c settled =
    let tx' : Tx = record tx {
      end = length r.head + length (log_bytes 0 r.log);
      sequence = 0 + length r.log;
    } in
    let cut : Disk = record {
      files = files;
      journal =
          some
            (ftruncate (journal_of place base disk r) (length r.head + length (log_bytes 0 r.log)));
    } in
    simp
      (
        finish,
        finish_journal,
        r.journal_eq,
        scan_recoverable place base disk r,
        settled,
        c.cuts,
        c.cut_syncs,
      )
      (resolve_calm faults tx' cut c)

undo_settled :
    (place : Place) (base : Files) (faults : FinishFaults) (disk : Disk)
    (r : IsRecoverable place base disk)
    → IsCalm faults
    → settle_all true faults 0 (journal_of place base disk r) (stack r.log []) disk.files
      ≡ (true, base)
unfolding settle_all
undo_settled place base faults disk r c =
    settle_all-stack place faults 0 (journal_of place base disk r) r.log [] disk.files c.entries
      r.readable
    ∙ ap (λ (files : Files). (true, files)) r.undoes

-- Recovery after a crash: on a disk that can be brought back to a base, `dm_undo_recover` that meets no
-- further failure succeeds, and leaves the files of the base and no journal.
pub recover_restores :
    (place : Place) (base : Files) (faults : FinishFaults) (disk : Disk)
    → IsRecoverable place base disk
    → IsCalm faults
    → ((recover faults place disk).result ≡ ok tt)
      × ((recover faults place disk).disk ≡ record { files = base; journal = none })
unfolding recover
recover_restores place base faults disk r c =
    simp (recover, r.journal_eq)
      (finish_settled true faults place base opened disk base r c
        (undo_settled place base faults disk r c))

-- `dm_undo_abort` of a transaction that is not finished does the same, whether it can go on or has failed.
pub abort_restores :
    (place : Place) (base : Files) (faults : FinishFaults) (tx : Tx) (disk : Disk)
    → (tx.state == 2) ≡ false
    → IsRecoverable place base disk
    → IsCalm faults
    → ((abort faults place tx disk).result ≡ ok tt)
      × ((abort faults place tx disk).disk ≡ record { files = base; journal = none })
unfolding abort
abort_restores place base faults tx disk open_ r c =
    simp (abort, open_)
      (finish_settled true faults place base (record tx { state = 2 }) disk base r c
        (undo_settled place base faults disk r c))

commit_settled :
    (faults : FinishFaults) (n : ℕ) (journal : Bytes) (entries : List Entry) (files : Files)
    → IsCalm faults
    → settle_all false faults n journal entries files ≡ (true, files)
unfolding settle_all settle
commit_settled faults n journal [] files c = refl
commit_settled faults n journal (e ∷ entries) files c =
    simp (settle, (c.entries n).2) (commit_settled faults (suc n) journal entries files c)

-- `dm_undo_commit` of an active transaction that meets no failure succeeds, keeps the files as they are,
-- and removes the journal.
pub commit_keeps :
    (place : Place) (base : Files) (faults : FinishFaults) (tx : Tx) (disk : Disk)
    → tx.state ≡ 0
    → IsRecoverable place base disk
    → IsCalm faults
    → ((commit faults place tx disk).result ≡ ok tt)
      × ((commit faults place tx disk).disk ≡ record { files = disk.files; journal = none })
unfolding commit
commit_keeps place base faults tx disk active r c =
    simp (commit, active)
      (finish_settled false faults place base (record tx { state = 2 }) disk disk.files r c
        (commit_settled faults 0 (journal_of place base disk r) (stack r.log []) disk.files c))
