-- ===== src/Undo/WriteTarget.antt =====
-- `write_target` of server/undo_journal.c as a whole.
use dataman.Base.Int.{ℤ, pos, negsuc}
use dataman.Base.{
  ℕ, ◌+◌, ◌-◌, ◌^◌, ◌<◌, ◌≡◌, refl, ap, ◌∙◌, Bool, true, false, not, Option, none, some, [], ◌++◌,
  arith, length, take, ltb, leb, if◌then◌else◌, Bool-cases, Option-cases, inl, inr, ◌&&◌, ◌||◌,
  ◌==◌, ltb→lt, not_ltb→le, take-all, subst,
}
use dataman.Storage.{Bytes, int64_max, pwrite}
use dataman.Storage.Transfer.{pwrite-nil}
use dataman.Undo.Names.{has_byte}
use dataman.Undo.State.{
  record_size, File, Files, Place, Tx, Disk, put_file, invalid, too_big, missing, system, ok,
  Faults, write_journal,
}
use dataman.Undo.Scan.{UndoEntry}
use dataman.Undo.ScanLog.{log_bytes}
use dataman.Undo.ScanUndo.{record_of}
use dataman.Undo.Write.{
  Fd, append, request_valid, target_error, before_size, close_target, refuse, write_data,
  write_logged, write_opened, write_target, uint64_max, has_fd,
}
use dataman.Undo.Active.{
  IsRecoverable, IsLogged, IsActive, active-IsRecoverable, write_journal-end, torn-IsRecoverable,
}
use dataman.Undo.Keeps.{
  IsKept, if-Kept, failed-IsKept, entry_of, put_back, IsChecked, entry_of-IsReadable,
}
use dataman.Undo.Writes.{with_record, grown-write, data-IsKept}

-- The journal with a part of a record at its end.
part_written :
    (place : Place) (base : Files) (tx : Tx) (disk : Disk) (a : IsLogged place base tx disk)
    (e : UndoEntry) (n : ℕ)
    → write_journal disk tx.end (take n (record_of tx.sequence e))
      ≡ with_record place base tx disk a (take n (record_of (length a.log) e))
part_written place base tx disk a e n =
    write_journal-end place base tx disk a (take n (record_of tx.sequence e))
    ∙ ap (λ (s : ℕ). with_record place base tx disk a (take n (record_of s e))) a.sequence_eq

append-stopped :
    (place : Place) (base : Files) (faults : Faults) (tx : Tx) (disk : Disk)
    (a : IsLogged place base tx disk) (e : UndoEntry) (n : ℕ)
    → faults.record_stop ≡ some n
    → append faults tx disk (record_of tx.sequence e)
      ≡ (false, tx, with_record place base tx disk a (take n (record_of (length a.log) e)))
unfolding append
append-stopped place base faults tx disk a e n h =
    rw (append, h) (ap (λ (d : Disk). (false, tx, d)) (part_written place base tx disk a e n))

append-lost :
    (place : Place) (base : Files) (faults : Faults) (tx : Tx) (disk : Disk)
    (a : IsLogged place base tx disk) (e : UndoEntry) (n : ℕ)
    → faults.record_stop ≡ none
    → faults.sync_stop ≡ some n
    → append faults tx disk (record_of tx.sequence e)
      ≡ (false, tx, with_record place base tx disk a (take n (record_of (length a.log) e)))
unfolding append
append-lost place base faults tx disk a e n h k =
    rw (append, h, k) (ap (λ (d : Disk). (false, tx, d)) (part_written place base tx disk a e n))

append-whole :
    (place : Place) (base : Files) (faults : Faults) (tx : Tx) (disk : Disk)
    (a : IsLogged place base tx disk) (e : UndoEntry)
    → faults.record_stop ≡ none
    → faults.sync_stop ≡ none
    → append faults tx disk (record_of tx.sequence e) ≡ (
      true,
      record tx { end = tx.end + length (record_of tx.sequence e); sequence = tx.sequence + 1 },
      with_record place base tx disk a (record_of (length a.log) e),
    )
unfolding append
append-whole place base faults tx disk a e h k =
    rw (append, h, k)
      (ap
        (λ (d : Disk). (
          true,
          record tx { end = tx.end + length (record_of tx.sequence e); sequence = tx.sequence + 1 },
          d,
        ))
        (write_journal-end place base tx disk a (record_of tx.sequence e)
          ∙ ap (λ (s : ℕ). with_record place base tx disk a (record_of s e)) a.sequence_eq))

-- A whole record whose write is not known to be safe: the file is as it was.
unsafe-IsRecoverable :
    (place : Place) (base : Files) (tx : Tx) (disk : Disk) (a : IsLogged place base tx disk)
    (name : Bytes) (f : File) (offset total : ℕ)
    → IsChecked place disk.files name f offset total
    → tx.sequence + 1 < 2 ^ 64 - 1
    → IsRecoverable place base
        (with_record place base tx disk a (record_of (length a.log) (entry_of f name offset total)))
unsafe-IsRecoverable place base tx disk a name f offset total c few =
    let bytes = record_of (length a.log) (entry_of f name offset total) in
    let grown =
      grown-write place base tx
        (record tx {
          end = tx.end + length (record_of tx.sequence (entry_of f name offset total));
          sequence = tx.sequence + 1;
        })
        disk a name f offset total [] c (omega arith) few refl refl in
    let same : put_file disk.files name (some (record f { content = pwrite f.content offset [] }))
        ≡ disk.files =
      ap (λ (content : Bytes). put_file disk.files name (some (record f { content = content })))
        (pwrite-nil f.content offset)
      ∙ put_back disk.files name f c.there in
    subst
      (λ (files : Files).
        IsRecoverable place base
          (record { files = files; journal = some (a.head ++ (log_bytes 0 a.log ++ bytes)) }))
      same (active-IsRecoverable place base _ _ grown)

-- A part of a record, of any length.
part-IsRecoverable :
    (place : Place) (base : Files) (tx : Tx) (disk : Disk) (a : IsLogged place base tx disk)
    (name : Bytes) (f : File) (offset total n : ℕ)
    → IsChecked place disk.files name f offset total
    → tx.sequence + 1 < 2 ^ 64 - 1
    → IsRecoverable place base (
        with_record place base tx disk a
          (take n (record_of (length a.log) (entry_of f name offset total))))
part-IsRecoverable place base tx disk a name f offset total n c few =
    let bytes = record_of (length a.log) (entry_of f name offset total) in
    elim (Bool-cases (ltb n (length bytes))) [
      | inl torn ↦
          torn-IsRecoverable place base tx disk a (entry_of f name offset total) n
            (entry_of-IsReadable place disk.files name f offset total c)
            (ltb→lt n (length bytes) torn)
      | inr long ↦
          rw (take-all n bytes (not_ltb→le n (length bytes) long))
            (unsafe-IsRecoverable place base tx disk a name f offset total c few)
    ]

few_left : (c : Bool) (n : ℕ) → (c || leb (uint64_max - 1) n) ≡ false → n + 1 < 2 ^ 64 - 1
few_left c n h = ground arith

-- From the call of `append` on.
appended-IsKept :
    (place : Place) (base : Files) (faults : Faults) (tx : Tx) (disk : Disk)
    (a : IsLogged place base tx disk) (name : Bytes) (f : File) (offset : ℕ) (buffer : Bytes)
    → IsChecked place disk.files name f offset (length buffer)
    → tx.sequence + 1 < 2 ^ 64 - 1
    → let r =
        append faults tx disk (record_of tx.sequence (entry_of f name offset (length buffer))) in
      IsKept place base
        (if r.0 then write_data faults name f buffer offset r.1 r.2 else refuse system r.1 r.2)
unfolding write_data
appended-IsKept place base faults tx disk a name f offset buffer c few =
    let e = entry_of f name offset (length buffer) in
    elim (Option-cases faults.record_stop) [
      | inr (n, part) ↦ rw (append-stopped place base faults tx disk a e n part) (
          failed-IsKept place base _ system refl
            (part-IsRecoverable place base tx disk a name f offset (length buffer) n c few))
      | inl whole ↦ elim (Option-cases faults.sync_stop) [
        | inr (n, part) ↦ rw (append-lost place base faults tx disk a e n whole part) (
            failed-IsKept place base _ system refl
              (part-IsRecoverable place base tx disk a name f offset (length buffer) n c few))
        | inl synced ↦ rw (append-whole place base faults tx disk a e whole synced) (
            data-IsKept place base faults tx
              (record tx {
                end = tx.end + length (record_of tx.sequence e);
                sequence = tx.sequence + 1;
              })
              disk a name f offset buffer c few refl refl)
      ]
    ]

logged-IsKept :
    (place : Place) (base : Files) (faults : Faults) (tx : Tx) (disk : Disk)
    (a : IsLogged place base tx disk) (name : Bytes) (f : File) (offset : ℕ) (buffer : Bytes)
    → IsChecked place disk.files name f offset (length buffer)
    → IsKept place base (write_logged faults name f buffer offset tx disk)
unfolding write_logged
logged-IsKept place base faults tx disk a name f offset buffer c =
    let same = active-IsRecoverable place base tx disk a in
    if-Kept
      (ltb
          (int64_max
            - (record_size + length name + before_size f offset (length buffer))
            - record_size)
          tx.end
        || leb (uint64_max - 1) tx.sequence)
      (λ big. failed-IsKept place base _ too_big refl same)
      (λ fits.
        if-Kept (not (faults.allocates && faults.reads))
          (λ unread. failed-IsKept place base (refuse system tx disk) system refl same)
          (λ read_.
            appended-IsKept place base faults tx disk a name f offset buffer c
              (few_left _ tx.sequence fits)))

-- A call that changes neither the files nor the journal, nor what the transaction counts.
state-IsLogged :
    (place : Place) (base : Files) (tx : Tx) (disk : Disk) (state : ℕ)
    → IsLogged place base tx disk
    → IsLogged place base (record tx { state = state }) disk
state-IsLogged place base tx disk state a = record {
  head = a.head;
  log = a.log;
  head_reads = a.head_reads;
  journal_eq = a.journal_eq;
  readable = a.readable;
  few = a.few;
  undoes = a.undoes;
  fit = a.fit;
  end_eq = a.end_eq;
  sequence_eq = a.sequence_eq;
}

reset-IsActive :
    (place : Place) (base : Files) (tx : Tx) (disk : Disk)
    → IsLogged place base tx disk
    → IsActive place base (record tx { state = 0 }) disk
reset-IsActive place base tx disk a = record {
  logged = state-IsLogged place base tx disk 0 a;
  state_eq = refl;
}

target_error-not_journal :
    (place : Place) (f : File) (fd : Option Fd)
    → target_error place f fd ≡ none
    → (f.dev == place.journal_dev && f.ino == place.journal_ino) ≡ false
unfolding target_error
target_error-not_journal place f none h = ground arith
target_error-not_journal place f (some fd) h = ground arith

close-IsKept :
    (place : Place) (base : Files) (faults : Faults) (tx : Tx) (disk : Disk)
    → IsLogged place base tx disk
    → IsKept place base (close_target faults tx disk)
close-IsKept place base faults tx disk a =
    if-Kept faults.closes
      (λ closed. record {
        recoverable = active-IsRecoverable place base tx disk a;
        active = λ good. reset-IsActive place base tx disk a;
      })
      (λ unclosed.
        failed-IsKept place base _ system refl (active-IsRecoverable place base tx disk a))

opened-IsKept :
    (place : Place) (base : Files) (faults : Faults) (tx : Tx) (disk : Disk) (name : Bytes)
    (fd : Option Fd) (offset : ℕ) (buffer : Bytes)
    → IsLogged place base tx disk
    → has_byte 0 name ≡ false
    → request_valid name (length buffer) (pos offset) ≡ true
    → IsKept place base (write_opened faults place name fd buffer offset tx disk)
unfolding write_opened request_valid
opened-IsKept place base faults tx disk name fd offset buffer a no_nul valid =
    let same = active-IsRecoverable place base tx disk a in
    elim (Option-cases (disk.files name)) [
      | inl lost ↦ rw (write_opened, lost) (failed-IsKept place base _ missing refl same)
      | inr (f, there) ↦
          rw (write_opened, there)
            (if-Kept (not faults.opens) (λ closed. failed-IsKept place base _ system refl same)
              (λ opens. elim (Option-cases (target_error place f fd)) [
                | inl good ↦ rw good (
                    if-Kept (length buffer == 0) (λ empty. close-IsKept place base faults tx disk a)
                      (λ some_bytes.
                        logged-IsKept place base faults tx disk a name f offset buffer (record {
                          valid = ground arith;
                          not_blob = ground arith;
                          no_nul = no_nul;
                          total_le = ground arith;
                          offset_le = ground arith;
                          there = there;
                          file = a.fit name f there;
                          not_journal = target_error-not_journal place f fd good;
                        })))
                | inr (e, wrong) ↦ rw wrong (failed-IsKept place base _ e refl same)
              ]))
    ]

-- Both things that `write_target` keeps.
pub write_target_keeps :
    (place : Place) (base : Files) (faults : Faults) (tx : Tx) (disk : Disk) (name : Bytes)
    (fd : Option Fd) (buffer : Bytes) (offset : ℤ)
    → IsLogged place base tx disk
    → has_byte 0 name ≡ false
    → IsKept place base (write_target faults place name fd buffer offset tx disk)
unfolding write_target
write_target_keeps place base faults tx disk name fd buffer (negsuc n) a no_nul =
    let same = active-IsRecoverable place base tx disk a in
    if-Kept (not (tx.state == 0))
      (λ over. failed-IsKept place base (refuse invalid tx disk) invalid refl same)
      (λ active.
        failed-IsKept place base (refuse invalid (record tx { state = 1 }) disk) invalid refl same)
write_target_keeps place base faults tx disk name fd buffer (pos offset) a no_nul =
    let same = active-IsRecoverable place base tx disk a in
    if-Kept (not (tx.state == 0))
      (λ over. failed-IsKept place base (refuse invalid tx disk) invalid refl same)
      (λ active.
        if-Kept (not (request_valid name (length buffer) (pos offset)))
          (λ wrong.
            failed-IsKept place base (refuse invalid (record tx { state = 1 }) disk) invalid refl
              same)
          (λ right.
            if-Kept (length buffer == 0 && not (has_fd fd))
              (λ empty. record {
                recoverable = same;
                active = λ good. reset-IsActive place base tx disk a;
              })
              (λ full.
                opened-IsKept place base faults (record tx { state = 1 }) disk name fd offset buffer
                  (state-IsLogged place base tx disk 1 a) no_nul (ground arith))))

-- `write_target`, wherever the system fails it, and for any descriptor, buffer and offset: from a
-- transaction whose fields count the whole journal, in any state, with a name that is a C string, the
-- disk that it leaves can be brought back to the transaction's base.
pub write_target-IsRecoverable :
    (place : Place) (base : Files) (faults : Faults) (tx : Tx) (disk : Disk) (name : Bytes)
    (fd : Option Fd) (buffer : Bytes) (offset : ℤ)
    → IsLogged place base tx disk
    → has_byte 0 name ≡ false
    → IsRecoverable place base (write_target faults place name fd buffer offset tx disk).disk
write_target-IsRecoverable place base faults tx disk name fd buffer offset a no_nul =
    let kept = write_target_keeps place base faults tx disk name fd buffer offset a no_nul in
    kept.recoverable

-- After a call of `write_target` that succeeds, a transaction that could go on still can, with the same
-- base: its state is 0 again, and its fields count the whole journal.
pub write_target-IsActive :
    (place : Place) (base : Files) (faults : Faults) (tx : Tx) (disk : Disk) (name : Bytes)
    (fd : Option Fd) (buffer : Bytes) (offset : ℤ)
    → IsActive place base tx disk
    → has_byte 0 name ≡ false
    → (write_target faults place name fd buffer offset tx disk).result ≡ ok tt
    → IsActive place base
        (write_target faults place name fd buffer offset tx disk).tx
        (write_target faults place name fd buffer offset tx disk).disk
write_target-IsActive place base faults tx disk name fd buffer offset a no_nul good =
    let kept = write_target_keeps place base faults tx disk name fd buffer offset a.logged no_nul in
    kept.active good
