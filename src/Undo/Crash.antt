-- ===== src/Undo/Crash.antt =====
-- A whole transaction of server/undo_journal.c: `dm_undo_begin`, writes until one of them fails or the
-- process stops in it, and then a commit, an abort or a recovery.
use dataman.Base.Int.{ℤ}
use dataman.Base.{◌≡◌, refl, false, Option, none, List, [], ◌∷◌, All, inl, inr, ◌⊎◌}
use dataman.Storage.{Bytes}
use dataman.Undo.Names.{has_byte}
use dataman.Undo.State.{Files, Place, Tx, Disk, Errno, Result, ok, fail, Answer, Faults}
use dataman.Undo.Write.{Fd, write_target}
use dataman.Undo.Finish.{FinishFaults, recover}
use dataman.Undo.Begin.{BeginFaults, begin}
use dataman.Undo.Active.{AllFit, IsActive, active-IsRecoverable}
use dataman.Undo.Keeps.{IsKept}
use dataman.Undo.WriteTarget.{write_target_keeps}
use dataman.Undo.Opening.{IsPlace, begin-IsBegun}
use dataman.Undo.Recover.{IsCalm, recover_restores}

-- One call of `dm_undo_write` or `dm_undo_write_fd`, with where the system fails it.
pub record Request : Type 0 where
  pub faults : Faults
  pub name : Bytes
  pub fd : Option Fd
  pub buffer : Bytes
  pub offset : ℤ

-- Calls one after another, up to the first that fails.
unfoldable pub writes : Place → List Request → Tx → Disk → Answer
unfolding write_target
writes place [] tx disk = record { result = ok tt; tx = tx; disk = disk }
writes place (r ∷ rs) tx disk =
    let a = write_target r.faults place r.name r.fd r.buffer r.offset tx disk in
    elim a.result [ ok done ↦ writes place rs a.tx a.disk | fail e ↦ a ]

-- Each name is a C string.
abbrev pub IsString : Request → Type 0
IsString r = has_byte 0 r.name ≡ false

Result-cases : (r : Result (Unit {0})) → (r ≡ ok tt) ⊎ ((e : Errno) × (r ≡ fail e))
Result-cases (ok tt) = inl refl
Result-cases (fail e) = inr (e, refl)

pub writes_keep :
    (place : Place) (base : Files) (rs : List Request) (tx : Tx) (disk : Disk)
    → All IsString rs
    → IsActive place base tx disk
    → IsKept place base (writes place rs tx disk)
unfolding writes
writes_keep place base [] tx disk names a = record {
  recoverable = active-IsRecoverable place base tx disk a.logged;
  active = λ good. a;
}
writes_keep place base (r ∷ rs) tx disk names a =
    let kept =
      write_target_keeps place base r.faults tx disk r.name r.fd r.buffer r.offset a.logged
        names.0 in
    let done = write_target r.faults place r.name r.fd r.buffer r.offset tx disk in
    elim (Result-cases done.result) [
      | inl good ↦
          simp (writes, good)
            (writes_keep place base rs done.tx done.disk names.1 (kept.active good))
      | inr (e, bad) ↦ simp (writes, bad) kept
    ]

-- Crash safety: begin a transaction, make any writes up to the first that the system fails or the process
-- stops in, after any part of a record or of the data, a record whose sync failed being left in any first
-- part; then a recovery that meets no further failure succeeds, and leaves exactly the files there were
-- when the transaction began, and no journal. The root's path and the identities of its directories are
-- such as the system reports, the files too, and the names are C strings. A write to a datafile that
-- has succeeded is taken to stay.
pub crash_safety :
    (place : Place) (begin_faults : BeginFaults) (disk : Disk) (tx : Tx) (rs : List Request)
    (faults : FinishFaults)
    → IsPlace place
    → AllFit disk.files
    → (begin begin_faults place disk).0 ≡ ok tx
    → All IsString rs
    → IsCalm faults
    → let crashed = (writes place rs tx (begin begin_faults place disk).1).disk in
      ((recover faults place crashed).result ≡ ok tt)
      × ((recover faults place crashed).disk ≡ record { files = disk.files; journal = none })
crash_safety place begin_faults disk tx rs faults p fit begun names calm =
    let b = begin-IsBegun place begin_faults disk p fit in
    let kept =
      writes_keep place disk.files rs tx (begin begin_faults place disk).1 names
        (b.active tx begun) in
    recover_restores place disk.files faults
      (writes place rs tx (begin begin_faults place disk).1).disk kept.recoverable calm
