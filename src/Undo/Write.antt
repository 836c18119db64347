-- ===== src/Undo/Write.antt =====
-- Writing under a transaction in server/undo_journal.c: what the range held goes to the journal
-- first, and only then do the new bytes go to the file.
use dataman.Base.Int.{ℤ, pos, negsuc}
use dataman.Base.{
  ℕ, ◌+◌, ◌-◌, ◌^◌, Bool, true, false, not, ◌&&◌, ◌||◌, Option, none, some, ◌==◌, ltb, leb,
  if◌then◌else◌, length, take,
}
use dataman.Storage.{Bytes, int64_max, pwrite, pread}
use dataman.Undo.Names.{name_valid, blobs_prefix, starts_with}
use dataman.Undo.Record.{undo_record}
use dataman.Undo.State.{
  record_size, max_write, File, put_file, Disk, Place, Tx, Errno, invalid, stale, too_big, missing,
  system, ok, fail, Answer, Faults, stopped, write_journal,
}

abbrev pub uint64_max : ℕ
uint64_max = 2 ^ 64 - 1

-- What `fcntl` and `fstat` say of the descriptor that a caller hands in: open for reading and
-- writing, appending, and its file's identity.
pub record Fd : Type 0 where
  pub read_write : Bool
  pub appending : Bool
  pub dev : ℕ
  pub ino : ℕ

-- `append`: the record goes to the end of the journal, and counts once it is synced. Of a record whose
-- sync fails, only a first part may be left.
unfoldable pub append : Faults → Tx → Disk → Bytes → Bool × Tx × Disk
append faults tx disk bytes = elim faults.record_stop [
  | some n ↦ (false, tx, write_journal disk tx.end (take n bytes))
  | none ↦ elim faults.sync_stop [
    | some n ↦ (false, tx, write_journal disk tx.end (take n bytes))
    | none ↦ (
      true,
      record tx { end = tx.end + length bytes; sequence = tx.sequence + 1 },
      write_journal disk tx.end bytes,
    )
  ]
]

-- The checks of `write_target` on its arguments. `off_t` has 64 bits, so the casts of the end change
-- nothing after the check against `INT64_MAX`.
unfoldable pub request_valid : Bytes → ℕ → ℤ → Bool
unfolding name_valid
request_valid name length (negsuc n) = false
request_valid name length (pos offset) =
    name_valid name
    && not (starts_with blobs_prefix name)
    && leb length max_write
    && leb offset (int64_max - length)

-- The checks on the opened file: it is not the journal, and it is the caller's file.
unfoldable pub target_error : Place → File → Option Fd → Option Errno
target_error place f none =
    if f.dev == place.journal_dev && f.ino == place.journal_ino then some invalid else none
target_error place f (some fd) =
    if f.dev == place.journal_dev && f.ino == place.journal_ino
    then some invalid
    else if not fd.read_write || fd.appending
    then some invalid
    else if not (f.dev == fd.dev && f.ino == fd.ino)
    then some stale
    else none

-- How many bytes of the range the file has: `before`.
unfoldable pub before_size : File → ℕ → ℕ → ℕ
before_size f offset size =
    if leb (length f.content) offset
    then 0
    else if ltb (length f.content - offset) size
    then length f.content - offset
    else size

-- The label `done`: the file is closed, and only a success makes the transaction active again.
abbrev pub close_target : Faults → Tx → Disk → Answer
close_target faults tx disk =
    if faults.closes
    then record { result = ok tt; tx = record tx { state = 0 }; disk = disk }
    else record { result = fail system; tx = tx; disk = disk }

abbrev pub refuse : Errno → Tx → Disk → Answer
refuse e tx disk = record { result = fail e; tx = tx; disk = disk }

-- The data write after the record is safe.
unfoldable pub write_data : Faults → Bytes → File → Bytes → ℕ → Tx → Disk → Answer
write_data faults name f buffer offset tx disk =
    let content = pwrite f.content offset (stopped faults.data_stop buffer) in
    let files = put_file disk.files name (some (record f { content = content })) in
    elim faults.data_stop [
      | some n ↦ refuse system tx (record disk { files = files })
      | none ↦ close_target faults tx (record disk { files = files })
    ]

-- `write_target` from `before = …` on.
unfoldable pub write_logged : Faults → Bytes → File → Bytes → ℕ → Tx → Disk → Answer
unfolding append before_size undo_record write_data
write_logged faults name f buffer offset tx disk =
    let before = pread f.content offset (before_size f offset (length buffer)) in
    let size = record_size + length name + before_size f offset (length buffer) in
    let bytes = undo_record (tx.sequence + 1) name offset (length f.content) f.dev f.ino before in
    let (safe, tx', disk') = append faults tx disk bytes in
    if ltb (int64_max - size - record_size) tx.end || leb (uint64_max - 1) tx.sequence
    then refuse too_big tx disk
    else if not (faults.allocates && faults.reads)
    then refuse system tx disk
    else if safe
    then write_data faults name f buffer offset tx' disk'
    else refuse system tx' disk'

-- `write_target` after its arguments are found valid and the transaction is marked abort-only.
unfoldable pub write_opened : Faults → Place → Bytes → Option Fd → Bytes → ℕ → Tx → Disk → Answer
unfolding target_error write_logged
write_opened faults place name fd buffer offset tx disk = elim (disk.files name) [
  | none ↦ refuse missing tx disk
  | some f ↦ if not faults.opens then refuse system tx disk else elim (target_error place f fd) [
    | some e ↦ refuse e tx disk
    | none ↦
        if length buffer == 0
        then close_target faults tx disk
        else write_logged faults name f buffer offset tx disk
  ]
]

abbrev pub offset_of : ℤ → ℕ
offset_of (pos n) = n
offset_of (negsuc n) = 0

abbrev pub has_fd : Option Fd → Bool
has_fd none = false
has_fd (some fd) = true

-- `write_target`; `dm_undo_write` passes no descriptor and `dm_undo_write_fd` passes one.
unfoldable pub write_target : Faults → Place → Bytes → Option Fd → Bytes → ℤ → Tx → Disk → Answer
unfolding request_valid write_opened
write_target faults place name fd buffer offset tx disk =
    let marked = record tx { state = 1 } in
    if not (tx.state == 0)
    then refuse invalid tx disk
    else if not (request_valid name (length buffer) offset)
    then refuse invalid marked disk
    else if length buffer == 0 && not (has_fd fd)
    then record { result = ok tt; tx = record tx { state = 0 }; disk = disk }
    else write_opened faults place name fd buffer (offset_of offset) marked disk
