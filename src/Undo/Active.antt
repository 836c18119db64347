-- ===== src/Undo/Active.antt =====
-- The invariant of a transaction in server/undo_journal.c, and what one more record does to it.
use dataman.Base.{
  ℕ, suc, ◌+◌, ◌-◌, ◌^◌, ◌≤◌, ◌<◌, ◌≡◌, refl, ap, sym, ◌∙◌, some, List, [], ◌∷◌, ◌++◌, arith,
  length, take, inl, inr, All, length-append, append-nil, append_assoc,
}
use dataman.Storage.{Bytes, int64_max, pwrite, replace}
use dataman.Undo.State.{record_size, type_resolved, File, Files, Place, Tx, Disk, ok, write_journal}
use dataman.Undo.Scan.{UndoEntry, scan_header}
use dataman.Undo.ScanUndo.{
  IsReadable, record_of, fields_of, payload_of, length-record_of, fields_of-Fits,
}
use dataman.Undo.ScanLog.{IsFragment, log_bytes, undo_record_lem}
use dataman.Undo.Restore.{restored, undone, undone-append}

-- The identities and sizes that the system reports fit their types.
pub record IsFile (f : File) : Type 0 where
  pub dev_lt : f.dev < 2 ^ 64
  pub ino_lt : f.ino < 2 ^ 64
  pub size_le : length f.content ≤ int64_max

abbrev pub AllFit : Files → Type 0
AllFit files = (name : Bytes) (f : File) → files name ≡ some f → IsFile f

-- The disk can be brought back to the base: the journal is a header, the records of readable
-- entries, and perhaps a record that was torn off, and putting the entries back gives the base.
pub record IsRecoverable (place : Place) (base : Files) (disk : Disk) : Type 0 where
  pub head : Bytes
  pub log : List UndoEntry
  pub tail : Bytes
  pub head_reads : (rest : Bytes) → scan_header place (head ++ rest) ≡ ok (4, length head)
  pub journal_eq : disk.journal ≡ some (head ++ (log_bytes 0 log ++ tail))
  pub readable : All (IsReadable place disk.files) log
  pub fragment : IsFragment (length log) tail
  pub few : length log < 2 ^ 64 - 1
  pub undoes : undone log disk.files ≡ base
  pub fit : AllFit disk.files

-- The same of a transaction whose fields count the whole journal.
pub record IsLogged (place : Place) (base : Files) (tx : Tx) (disk : Disk) : Type 0 where
  pub head : Bytes
  pub log : List UndoEntry
  pub head_reads : (rest : Bytes) → scan_header place (head ++ rest) ≡ ok (4, length head)
  pub journal_eq : disk.journal ≡ some (head ++ log_bytes 0 log)
  pub readable : All (IsReadable place disk.files) log
  pub few : length log < 2 ^ 64 - 1
  pub undoes : undone log disk.files ≡ base
  pub fit : AllFit disk.files
  pub end_eq : tx.end ≡ length (head ++ log_bytes 0 log)
  pub sequence_eq : tx.sequence ≡ length log

-- A transaction that can go on: its state is 0, active, so that calls take it, and its fields count the
-- whole journal.
pub record IsActive (place : Place) (base : Files) (tx : Tx) (disk : Disk) : Type 0 where
  pub logged : IsLogged place base tx disk
  pub state_eq : tx.state ≡ 0

-- No part of a record at all.
nothing-IsFragment : (sequence : ℕ) → sequence < 2 ^ 64 - 1 → IsFragment sequence []
nothing-IsFragment sequence h = record {
  fields = record {
    type = type_resolved;
    sequence = sequence + 1;
    size = record_size;
    name_size = 0;
    offset = 0;
    file_size = 0;
    dev = 0;
    ino = 0;
    length = 0;
  };
  payload = [];
  cut = 0;
  is_part = refl;
  fits = omega arith;
  plain = inr refl;
  numbered = refl;
  name_short = omega arith;
  short = omega arith;
  total = refl;
  cut_lt = omega arith;
}

pub active-IsRecoverable :
    (place : Place) (base : Files) (tx : Tx) (disk : Disk)
    → IsLogged place base tx disk
    → IsRecoverable place base disk
active-IsRecoverable place base tx disk a = record {
  head = a.head;
  log = a.log;
  tail = [];
  head_reads = a.head_reads;
  journal_eq = rw (append-nil (log_bytes 0 a.log)) (a.journal_eq);
  readable = a.readable;
  fragment = nothing-IsFragment (length a.log) a.few;
  few = a.few;
  undoes = a.undoes;
  fit = a.fit;
}

-- Bytes written at the end of a file are appended.
pub pwrite-end : (content chunk : Bytes) → pwrite content (length content) chunk ≡ content ++ chunk
unfolding pwrite replace
pwrite-end [] chunk = replace_nil chunk
  where
    replace_nil : (chunk : Bytes) → replace [] chunk ≡ chunk
    replace_nil [] = refl
    replace_nil (b ∷ chunk) = refl
pwrite-end (c ∷ content) [] = sym (append-nil (c ∷ content))
pwrite-end (c ∷ content) (b ∷ chunk) = ap (◌∷◌ c) (pwrite-end content (b ∷ chunk))

-- A write to the end of the journal of a transaction.
pub write_journal-end :
    (place : Place) (base : Files) (tx : Tx) (disk : Disk) (a : IsLogged place base tx disk)
    (bytes : Bytes)
    → write_journal disk tx.end bytes
      ≡ record disk { journal = some (a.head ++ (log_bytes 0 a.log ++ bytes)) }
write_journal-end place base tx disk a bytes =
    simp
      (
        write_journal,
        a.journal_eq,
        a.end_eq,
        pwrite-end (a.head ++ log_bytes 0 a.log) bytes,
        append_assoc a.head (log_bytes 0 a.log) bytes,
      )
      refl

log_bytes-append :
    (sequence : ℕ) (log : List UndoEntry) (e : UndoEntry)
    → log_bytes sequence (log ++ (e ∷ []))
      ≡ log_bytes sequence log ++ record_of (sequence + length log) e
unfolding log_bytes
log_bytes-append sequence [] e =
    let none_before : sequence + 0 ≡ sequence = omega arith in
    rw none_before (append-nil (record_of sequence e))
log_bytes-append sequence (x ∷ log) e =
    let count : sequence + 1 + length log ≡ sequence + suc (length log) = omega arith in
    rw (log_bytes-append (sequence + 1) log e, count)
      (sym (
        append_assoc (record_of sequence x) (log_bytes (sequence + 1) log)
          (record_of (sequence + suc (length log)) e)))

All-snoc :
    (place : Place) (files files' : Files) (log : List UndoEntry) (e : UndoEntry)
    → ((x : UndoEntry) → IsReadable place files x → IsReadable place files' x)
    → All (IsReadable place files) log
    → IsReadable place files e
    → All (IsReadable place files') (log ++ (e ∷ []))
All-snoc place files files' [] e carry all r = (carry e r, tt)
All-snoc place files files' (x ∷ log) e carry all r =
    (carry x all.0, All-snoc place files files' log e carry all.1 r)

-- The record of an entry is in the journal, and the files are such that the entry puts them back to what
-- they were.
pub grown-IsLogged :
    (place : Place) (base : Files) (tx : Tx) (disk : Disk) (a : IsLogged place base tx disk)
    (e : UndoEntry) (files' : Files) (tx' : Tx)
    → IsReadable place disk.files e
    → ((x : UndoEntry) → IsReadable place disk.files x → IsReadable place files' x)
    → restored e files' ≡ disk.files
    → AllFit files'
    → length a.log + 1 < 2 ^ 64 - 1
    → tx'.end ≡ tx.end + length (record_of (length a.log) e)
    → tx'.sequence ≡ tx.sequence + 1
    → IsLogged place base tx' (record {
      files = files';
      journal = some (a.head ++ (log_bytes 0 a.log ++ record_of (length a.log) e));
    })
grown-IsLogged place base tx disk a e files' tx' r carry back fit few end_eq sequence_eq =
    let bytes : log_bytes 0 (a.log ++ (e ∷ [])) ≡ log_bytes 0 a.log ++ record_of (length a.log) e =
      let none_before : 0 + length a.log ≡ length a.log = omega arith in
      log_bytes-append 0 a.log e ∙ ap (λ (s : ℕ). log_bytes 0 a.log ++ record_of s e) none_before in
    record {
      head = a.head;
      log = a.log ++ (e ∷ []);
      head_reads = a.head_reads;
      journal_eq = rw bytes refl;
      readable = All-snoc place disk.files files' a.log e carry a.readable r;
      few = omega (arith, length-append a.log (e ∷ []), few);
      fit = fit;
      undoes = undone-append a.log (e ∷ []) files' ∙ ap (undone a.log) back ∙ a.undoes;
      end_eq = rw bytes (
          omega (
            arith,
            end_eq,
            a.end_eq,
            length-append a.head (log_bytes 0 a.log),
            length-append a.head (log_bytes 0 a.log ++ record_of (length a.log) e),
            length-append (log_bytes 0 a.log) (record_of (length a.log) e),
          ));
      sequence_eq = omega (arith, sequence_eq, a.sequence_eq, length-append a.log (e ∷ []));
    }

-- A part of the record of an entry is in the journal, and the files are as they were.
pub torn-IsRecoverable :
    (place : Place) (base : Files) (tx : Tx) (disk : Disk) (a : IsLogged place base tx disk)
    (e : UndoEntry) (n : ℕ)
    → IsReadable place disk.files e
    → n < length (record_of (length a.log) e)
    → IsRecoverable place base (record disk {
      journal = some (a.head ++ (log_bytes 0 a.log ++ take n (record_of (length a.log) e)));
    })
torn-IsRecoverable place base tx disk a e n r lt = record {
  head = a.head;
  log = a.log;
  tail = take n (record_of (length a.log) e);
  head_reads = a.head_reads;
  journal_eq = refl;
  readable = a.readable;
  fragment = record {
    fields = fields_of (length a.log) e;
    payload = payload_of e;
    cut = n;
    is_part = ap (take n) (undo_record_lem (length a.log) e);
    fits = fields_of-Fits place disk.files (length a.log) e r a.few;
    plain = inl refl;
    numbered = refl;
    name_short = r.name_short;
    short = r.before_short;
    total = refl;
    cut_lt = omega (arith, lt, length-record_of (length a.log) e);
  };
  few = a.few;
  undoes = a.undoes;
  fit = a.fit;
}
