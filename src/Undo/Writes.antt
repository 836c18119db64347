-- ===== src/Undo/Writes.antt =====
-- `write_target` of server/undo_journal.c, its way through the failures one by one: every way leaves a
-- disk that can be brought back to the base.
use dataman.Base.{
  ℕ, ◌+◌, ◌-◌, ◌^◌, ◌≤◌, ◌<◌, ◌≡◌, refl, ap, ◌∙◌, some, ◌++◌, arith, length, take, Option-cases,
  inl, inr, length-take,
}
use dataman.Storage.{Bytes, pwrite}
use dataman.Undo.State.{File, Files, Place, Tx, Disk, put_file, system, Faults}
use dataman.Undo.ScanLog.{log_bytes}
use dataman.Undo.ScanUndo.{record_of}
use dataman.Undo.Write.{write_data}
use dataman.Undo.Restore.{put_file-IsReadable}
use dataman.Undo.Active.{IsLogged, active-IsRecoverable, grown-IsLogged}
use dataman.Undo.Keeps.{
  IsKept, put_file-AllFit, if-Kept, failed-IsKept, entry_of, restored-write, IsChecked,
  entry_of-IsReadable,
}

-- The disk with the record of a write, or a part of it, at the end of the journal.
abbrev pub with_record :
    (place : Place) (base : Files) (tx : Tx) (disk : Disk)
    → IsLogged place base tx disk
    → Bytes
    → Disk
with_record place base tx disk a bytes = record disk {
  journal = some (a.head ++ (log_bytes 0 a.log ++ bytes));
}

-- The record is whole, and a first part of the bytes is in the file.
pub grown-write :
    (place : Place) (base : Files) (tx tx' : Tx) (disk : Disk) (a : IsLogged place base tx disk)
    (name : Bytes) (f : File) (offset total : ℕ) (chunk : Bytes)
    → IsChecked place disk.files name f offset total
    → length chunk ≤ total
    → tx.sequence + 1 < 2 ^ 64 - 1
    → tx'.end ≡ tx.end + length (record_of tx.sequence (entry_of f name offset total))
    → tx'.sequence ≡ tx.sequence + 1
    → IsLogged place base tx' (record {
      files =
          put_file disk.files name (some (record f { content = pwrite f.content offset chunk }));
      journal = some (
          a.head ++ (log_bytes 0 a.log ++ record_of (length a.log) (entry_of f name offset total)));
    })
grown-write place base tx tx' disk a name f offset total chunk c le few end_eq sequence_eq =
    let e = entry_of f name offset total in
    grown-IsLogged place base tx disk a e
      (put_file disk.files name (some (record f { content = pwrite f.content offset chunk }))) tx'
      (entry_of-IsReadable place disk.files name f offset total c)
      (λ x r.
        put_file-IsReadable place disk.files name f (pwrite f.content offset chunk) x c.there r)
      (restored-write disk.files name f offset total chunk c.there le)
      (put_file-AllFit place disk.files name f offset total chunk a.fit c le)
      (omega (arith, few, a.sequence_eq))
      (end_eq ∙ ap (λ (s : ℕ). tx.end + length (record_of s e)) a.sequence_eq) sequence_eq

-- The data write and the close, with the record safe.
pub data-IsKept :
    (place : Place) (base : Files) (faults : Faults) (tx tx' : Tx) (disk : Disk)
    (a : IsLogged place base tx disk) (name : Bytes) (f : File) (offset : ℕ) (buffer : Bytes)
    → IsChecked place disk.files name f offset (length buffer)
    → tx.sequence + 1 < 2 ^ 64 - 1
    → tx'.end ≡ tx.end + length (record_of tx.sequence (entry_of f name offset (length buffer)))
    → tx'.sequence ≡ tx.sequence + 1
    → IsKept place base (
        write_data faults name f buffer offset tx' (
          with_record place base tx disk a
            (record_of (length a.log) (entry_of f name offset (length buffer)))))
unfolding write_data
data-IsKept place base faults tx tx' disk a name f offset buffer c few end_eq sequence_eq =
    elim (Option-cases faults.data_stop) [
      | inl whole ↦
          (let grown =
              grown-write place base tx tx' disk a name f offset (length buffer) buffer c
                (omega arith) few end_eq sequence_eq in
            rw whole (
              if-Kept faults.closes
                (λ closed. record {
                  recoverable = active-IsRecoverable place base tx' _ grown;
                  active = λ good. record {
                    logged =
                        grown-write place base tx (record tx' { state = 0 }) disk a name f offset
                          (length buffer) buffer c (omega arith) few end_eq sequence_eq;
                    state_eq = refl;
                  };
                })
                (λ not_closed.
                  failed-IsKept place base _ system refl
                    (active-IsRecoverable place base tx' _ grown))))
      | inr (n, part) ↦
          (let grown =
              grown-write place base tx tx' disk a name f offset (length buffer) (take n buffer) c
                (omega (arith, length-take n buffer)) few end_eq sequence_eq in
            rw part (
              failed-IsKept place base _ system refl (active-IsRecoverable place base tx' _ grown)))
    ]
