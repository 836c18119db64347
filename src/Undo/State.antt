-- ===== src/Undo/State.antt =====
-- The state that server/undo_journal.c works on: the files below the database root, the journal, and
-- a transaction's own fields; and where the system may fail.
use dataman.Base.{ℕ, ◌*◌, Bool, true, Option, none, some, List, if◌then◌else◌, take}
use dataman.Storage.{Bytes, pwrite}
use dataman.Undo.Names.{same_name}

abbrev pub header_size : ℕ
header_size = 56

abbrev pub record_size : ℕ
record_size = 72

abbrev pub max_write : ℕ
max_write = 1024 * 1024

abbrev pub max_journal : ℕ
max_journal = 64 * 1024 * 1024

abbrev pub max_records : ℕ
max_records = 128

abbrev pub blob_meta : ℕ
blob_meta = 16

abbrev pub blob_chunk : ℕ
blob_chunk = 64 * 1024

-- UNDO, RESOLVED, BLOB and BLOB_STREAM
abbrev pub type_undo : ℕ
type_undo = 1

abbrev pub type_resolved : ℕ
type_resolved = 2

abbrev pub type_blob : ℕ
type_blob = 3

abbrev pub type_blob_stream : ℕ
type_blob_stream = 4

-- A regular file: what `fstat` says of it and what it holds.
pub record File : Type 0 where
  pub content : Bytes
  pub dev : ℕ
  pub ino : ℕ
  pub mode : ℕ
  pub uid : ℕ
  pub gid : ℕ
  pub links : ℕ
  -- extended attributes
  pub extended : Bool

-- A relative name leads to a regular file or to nothing: symbolic links, directories and names with
-- bad parts do not open. Two names lead to two files: hard links to one file are not modelled.
abbrev pub Files : Type 0
Files = Bytes → Option File

abbrev pub put_file : Files → Bytes → Option File → Files
put_file files name f n = if same_name n name then f else files n

-- The disk: the files, and `.dataman-undo` in the journal directory if it is there.
pub record Disk : Type 0 where
  pub files : Files
  pub journal : Option Bytes

-- What stays the same under a transaction: the identities of the journal file and its directory,
-- the canonical path of the database root with its identity, and that of the `blobs` directory.
pub record Place : Type 0 where
  pub journal_dev : ℕ
  pub journal_ino : ℕ
  pub dir_dev : ℕ
  pub dir_ino : ℕ
  pub root : Bytes
  pub root_dev : ℕ
  pub root_ino : ℕ
  pub blobs_dev : ℕ
  pub blobs_ino : ℕ
  pub blobs_extended : Bool

-- The fields of `dm_undo` that change: `state` is 0 active, 1 abort-only, 2 finished.
pub record Tx : Type 0 where
  pub state : ℕ
  pub sequence : ℕ
  pub end : ℕ
  pub blobs : List Bytes

-- EINVAL, EIO, ESTALE, EFBIG, ENAMETOOLONG, ENOENT, ENOTSUP, EEXIST, and what the system reports.
pub data Errno : Type 0 where
  invalid corrupt stale too_big too_long missing unsupported exists system : Errno

pub data Result (A : Type 0) : Type 0 where
  ok : A → Result A
  fail : Errno → Result A

-- What a call answers, with the transaction and the disk it leaves.
pub record Answer : Type 0 where
  pub result : Result (Unit {0})
  pub tx : Tx
  pub disk : Disk

-- Where the system fails a call, or the process stops in it. A write that stops has put a first part
-- of its bytes down (`Storage.Transfer.write_at_prefix`): `some n` is a stop after n bytes. A sync of the
-- journal that fails may have lost the record: `sync_stop` is `some n` where n bytes of it are left.
-- A write to a datafile is there at once: what a loss of power takes of those is not modelled.
pub record Faults : Type 0 where
  -- `openat`, `fstat`, `calloc` and `pread` succeed
  pub opens : Bool
  pub allocates : Bool
  pub reads : Bool
  pub record_stop : Option ℕ
  pub sync_stop : Option ℕ
  pub data_stop : Option ℕ
  pub closes : Bool

abbrev pub no_faults : Faults
no_faults = record {
  opens = true;
  allocates = true;
  reads = true;
  record_stop = none;
  sync_stop = none;
  data_stop = none;
  closes = true;
}

-- What of a write is put down.
abbrev pub stopped : Option ℕ → Bytes → Bytes
stopped none bytes = bytes
stopped (some n) bytes = take n bytes

-- `dm_storage_write_at` on the journal's descriptor.
abbrev pub write_journal : Disk → ℕ → Bytes → Disk
write_journal d offset bytes = elim d.journal [
  | none ↦ d
  | some j ↦ record d { journal = some (pwrite j offset bytes) }
]
