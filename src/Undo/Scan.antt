-- ===== src/Undo/Scan.antt =====
-- Reading the journal back in server/undo_journal.c: `scan` checks the whole journal, and every file
-- that it names, before anything is touched.
use dataman.Base.{
  ℕ, zero, suc, ◌+◌, ◌-◌, ◌*◌, ◌/◌, ◌%◌, ◌^◌, Bool, not, ◌&&◌, ◌||◌, Option, none, some, List, [],
  ◌∷◌, ◌++◌, ◌==◌, ltb, leb, if◌then◌else◌, length, take, drop,
}
use dataman.Storage.{Bytes, int64_max}
use dataman.Undo.Wire.{get32, get64, crc}
use dataman.Undo.Names.{max_path, same_name, starts_with, has_byte}
use dataman.Undo.Record.{record_magic}
use dataman.Undo.State.{
  header_size, record_size, max_write, max_journal, max_records, blob_meta, blob_chunk, type_undo,
  type_resolved, type_blob, type_blob_stream, Place, corrupt, Result, ok, fail,
}

-- `entry`: a byte undo, or the first state of a blob. A file stands for its descriptor, by name.
pub record UndoEntry : Type 0 where
  pub name : Bytes
  pub offset : ℕ
  pub size : ℕ
  pub dev : ℕ
  pub ino : ℕ
  pub before : Bytes

pub record BlobEntry : Type 0 where
  pub name : Bytes
  pub type : ℕ
  pub present : ℕ
  pub size : ℕ
  pub stream : ℕ
  pub meta : Bytes

pub data Entry : Type 0 where
  undo : UndoEntry → Entry
  blob : BlobEntry → Entry

-- What `scan` finds: the entries, the newest first, whether the transaction is resolved, and where
-- the valid part of the journal ends.
pub record Log : Type 0 where
  pub entries : List Entry
  pub resolved : Bool
  pub end : ℕ
  pub sequence : ℕ

abbrev pub same_bytes : Bytes → Bytes → Bool
same_bytes = same_name

-- "DMUNDO0" and the version's digit
abbrev pub magic_of : ℕ → Bytes
magic_of version = 0x44 ∷ 0x4d ∷ 0x55 ∷ 0x4e ∷ 0x44 ∷ 0x4f ∷ 0x30 ∷ (0x30 + version) ∷ []

-- The version that a header's magic names.
unfoldable pub version_of : Bytes → Option ℕ
version_of header =
    if same_bytes (take 8 header) (magic_of 2)
    then some 2
    else if same_bytes (take 8 header) (magic_of 3)
    then some 3
    else if same_bytes (take 8 header) (magic_of 4)
    then some 4
    else none

-- The path in the header names the root, by its bytes and its identity: `open_root` finds a directory
-- at the root's own path only. A path that leads to the root another way, and a root that does not open,
-- count as `corrupt`.
unfoldable pub root_valid : Place → Bytes → Bytes → Bool
root_valid place header path =
    not (has_byte 0 path)
    && starts_with (b'/' ∷ []) path
    && get32 header 44 == crc path
    && same_bytes path place.root
    && get64 header 24 == place.root_dev
    && get64 header 32 == place.root_ino

-- The header: the version of the journal and where its records begin.
unfoldable pub scan_header : Place → Bytes → Result (ℕ × ℕ)
scan_header place journal =
    let header = take header_size journal in
    let path_length = get32 header 40 in
    let path = take path_length (drop header_size journal) in
    if ltb (length journal) header_size then fail corrupt else elim (version_of header) [
      | none ↦ fail corrupt
      | some version ↦
          if not (
            get64 header 8 == place.dir_dev
            && get64 header 16 == place.dir_ino
            && get32 header 48 == crc (take 48 header)
            && get32 header 52 == 0)
          then fail corrupt
          else if not (version == 4) && ltb max_journal (length journal)
          then fail corrupt
          else if path_length == 0
              || ltb max_path path_length
              || ltb (length journal) (header_size + path_length)
          then fail corrupt
          else if root_valid place header path
          then ok (version, header_size + path_length)
          else fail corrupt
    ]

-- The checks on the 72 fixed bytes. The sum of the sizes is one of 32 bits.
unfoldable pub fixed_valid : ℕ → ℕ → Bytes → Bool
fixed_valid version sequence fixed =
    let type = get32 fixed 4 in
    get32 fixed 64 == crc (take 64 fixed)
    && get32 fixed 68 == 0
    && same_bytes (take 4 fixed) record_magic
    && get64 fixed 8 == sequence + 1
    && leb (get32 fixed 20) max_path
    && leb (get32 fixed 56) (max_write + (if type == type_blob then blob_meta else 0))
    && get32 fixed 16 == (record_size + get32 fixed 20 + get32 fixed 56) % 2 ^ 32
    && (type == type_undo || type == type_resolved || type == type_blob || type == type_blob_stream)
    && not (type == type_blob && not (version == 3))
    && not (type == type_blob_stream && not (version == 4))
    && not (not (type == type_resolved) && not (version == 4) && leb max_records sequence)
    && not (sequence == 2 ^ 64 - 1)

-- `blob_stream_size`
unfoldable pub blob_stream_size : ℕ → Option ℕ
blob_stream_size size =
    let count = size / blob_chunk + (if size % blob_chunk == 0 then 0 else 1) in
    if ltb int64_max size || ltb ((int64_max - size) / 8) count
    then none
    else some (size + count * 8)

-- `blob_stream`: the bytes that the chunks from `at` on hold, if all are in order. The fuel is the
-- size, for every chunk takes at least one byte.
unfoldable pub blob_stream : ℕ → Bytes → ℕ → ℕ → Result Bytes
blob_stream fuel journal at zero = ok []
blob_stream zero journal at (suc size) = fail corrupt
blob_stream (suc fuel) journal at (suc size) =
    let count = if ltb blob_chunk (suc size) then blob_chunk else suc size in
    let header = take 8 (drop at journal) in
    let chunk = take count (drop (at + 8) journal) in
    let rest = blob_stream fuel journal (at + 8 + count) (suc size - count) in
    if length header == 8
      && get32 header 0 == count
      && length chunk == count
      && get32 header 4 == crc chunk
    then elim rest [ ok bytes ↦ ok (chunk ++ bytes) | fail e ↦ fail e ]
    else fail corrupt
