-- ===== src/Undo/Blob.antt =====
-- Blobs under a transaction in server/undo_journal.c: before a blob changes for the first time, its
-- metadata and its whole content go to the journal.
use dataman.Base.{
  ℕ, ◌+◌, ◌-◌, ◌^◌, ◌%◌, Bool, true, false, not, ◌||◌, Option, none, some, List, [], ◌∷◌, ◌++◌,
  ◌==◌, ltb, leb, if◌then◌else◌, length,
}
use dataman.Storage.{Bytes, int64_max, pwrite, ftruncate}
use dataman.Undo.Wire.{put32}
use dataman.Undo.Names.{blob_valid, same_name}
use dataman.Undo.State.{
  record_size, type_blob_stream, File, Files, put_file, Disk, Place, Tx, invalid, too_big,
  unsupported, system, ok, fail, Answer, Faults, stopped,
}
use dataman.Undo.Record.{seal, chunks}
use dataman.Undo.Write.{append, refuse, uint64_max}
use dataman.Undo.Scan.{blob_stream_size}
use dataman.Undo.ScanLoop.{one_link}

-- `append_blob`: the record and the chunks behind it go down one after the other, and count once they
-- are synced.
unfoldable pub append_blob : Faults → Tx → Disk → Bytes → Bytes → Answer
unfolding append chunks blob_stream_size
append_blob faults tx disk bytes content =
    let (safe, tx', disk') = append faults tx disk (bytes ++ chunks (length content) content) in
    elim (blob_stream_size (length content)) [
      | none ↦ refuse invalid tx disk
      | some encoded ↦
          if ltb (int64_max - length bytes - record_size) tx.end
            || ltb (int64_max - tx.end - length bytes - record_size) encoded
          then refuse invalid tx disk
          else if safe
          then record { result = ok tt; tx = tx'; disk = disk' }
          else refuse system tx' disk'
    ]

-- The metadata of a blob that is there: mode, owner, group, and zeros.
abbrev pub meta_of : Option File → Bytes
meta_of none = []
meta_of (some f) = put32 (f.mode % 2 ^ 12) ++ (put32 f.uid ++ (put32 f.gid ++ put32 0))

abbrev pub content_of : Option File → Bytes
content_of none = []
content_of (some f) = f.content

abbrev pub presence_of : Option File → ℕ
presence_of none = 0
presence_of (some f) = 1

abbrev pub extended_file : Option File → Bool
extended_file none = false
extended_file (some f) = f.extended

-- The record of a blob's first state.
unfoldable pub blob_record : ℕ → Bytes → Option File → Place → Bytes
unfolding seal put32
blob_record sequence name file place =
    seal
      (record {
        type = type_blob_stream;
        sequence = sequence;
        size = record_size + length name + length (meta_of file);
        name_size = length name;
        offset = presence_of file;
        file_size = length (content_of file);
        dev = place.blobs_dev;
        ino = place.blobs_ino;
        length = length (meta_of file);
      })
      (name ++ meta_of file)

abbrev pub has_name : Bytes → List Bytes → Bool
has_name name [] = false
has_name name (n ∷ names) = same_name n name || has_name name names

-- The end of `snapshot_blob`: a blob whose state is safe is remembered.
abbrev pub remember : Bytes → Answer → Answer
remember name a = elim a.result [
  | ok done ↦ record a { tx = record a.tx { blobs = name ∷ a.tx.blobs } }
  | fail e ↦ a
]

-- `snapshot_blob`
unfoldable pub snapshot_blob : Faults → Place → Bytes → Tx → Disk → Answer
unfolding blob_valid append_blob blob_record
snapshot_blob faults place name tx disk =
    let file = disk.files name in
    let bytes = blob_record (tx.sequence + 1) name file place in
    let size = record_size + length name + length (meta_of file) in
    if not (blob_valid name)
    then refuse invalid tx disk
    else if has_name name tx.blobs
    then record { result = ok tt; tx = tx; disk = disk }
    else if not faults.opens
    then refuse system tx disk
    else if place.blobs_extended
    then refuse unsupported tx disk
    else if not (one_link file)
    then refuse invalid tx disk
    else if extended_file file
    then refuse unsupported tx disk
    else if leb (uint64_max - 1) tx.sequence || ltb (int64_max - size - record_size) tx.end
    then refuse too_big tx disk
    else if not faults.allocates
    then refuse system tx disk
    else remember name (append_blob faults tx disk bytes (content_of file))

-- DM_BLOB_REPLACE, DM_BLOB_REMOVE, DM_BLOB_RENAME
pub data BlobOperation : Type 0 where
  replaced : Bytes → BlobOperation
  removed : BlobOperation
  renamed : Bytes → BlobOperation

-- Where the system fails `dm_undo_blob`: in its snapshots, in opening, in creating the blob, and in
-- the change itself.
pub record BlobFaults : Type 0 where
  pub first : Faults
  pub second : Faults
  pub opens : Bool
  pub creates : Option File
  pub data_stop : Option ℕ
  pub truncates : Bool
  pub changes : Bool
  pub closes : Bool

unfoldable pub operation_valid : BlobOperation → Bool
unfolding blob_valid
operation_valid (replaced content) = leb (length content) int64_max
operation_valid removed = true
operation_valid (renamed dest) = blob_valid dest

-- The snapshot of a second name.
unfoldable pub snapshot_dest : BlobFaults → Place → BlobOperation → Tx → Disk → Answer
unfolding snapshot_blob
snapshot_dest faults place (replaced content) tx disk = record {
  result = ok tt;
  tx = tx;
  disk = disk;
}
snapshot_dest faults place removed tx disk = record { result = ok tt; tx = tx; disk = disk }
snapshot_dest faults place (renamed dest) tx disk = snapshot_blob faults.second place dest tx disk

-- The new content of a blob.
unfoldable pub replace_content : BlobFaults → Bytes → Bytes → File → Files → Bool × Files
replace_content faults name content f files =
    let written = pwrite f.content 0 (stopped faults.data_stop content) in
    let put = λ (bytes : Bytes). put_file files name (some (record f { content = bytes })) in
    elim faults.data_stop [
      | some n ↦ (false, put written)
      | none ↦
          if faults.truncates
          then (faults.closes, put (ftruncate written (length content)))
          else (false, put written)
    ]

abbrev pub found_or_created : Option File → Option File → Option File
found_or_created none created = created
found_or_created (some f) created = some f

-- The change itself, the first state of every blob in it being safe.
unfoldable pub change_blob : BlobFaults → Bytes → BlobOperation → Files → Bool × Files
unfolding replace_content
change_blob faults name (replaced content) files =
    elim (found_or_created (files name) faults.creates) [
      | none ↦ (false, files)
      | some f ↦ replace_content faults name content f files
    ]
change_blob faults name removed files = elim (files name) [
  | none ↦ (false, files)
  | some f ↦ if faults.changes then (faults.closes, put_file files name none) else (false, files)
]
change_blob faults name (renamed dest) files = elim (files name) [
  | none ↦ (false, files)
  | some f ↦
      if not (one_link (files dest)) || not faults.changes
      then (false, files)
      else (faults.closes, put_file (put_file files name none) dest (some f))
]

-- The change and the label `done`. Which error a failed change reports is left to the system.
unfoldable pub blob_changed : BlobFaults → Bytes → BlobOperation → Tx → Disk → Answer
unfolding change_blob
blob_changed faults name operation tx disk =
    let (good, files) = change_blob faults name operation disk.files in
    if not faults.opens
    then refuse system tx disk
    else if not (one_link (disk.files name))
    then refuse invalid tx disk
    else if good
    then record {
      result = ok tt;
      tx = record tx { state = 0 };
      disk = record disk { files = files };
    }
    else refuse system tx (record disk { files = files })

-- `dm_undo_blob`
unfoldable pub undo_blob : BlobFaults → Place → Bytes → BlobOperation → Tx → Disk → Answer
unfolding blob_valid operation_valid snapshot_blob snapshot_dest blob_changed
undo_blob faults place name operation tx disk =
    let marked = record tx { state = 1 } in
    let a = snapshot_blob faults.first place name marked disk in
    let b = snapshot_dest faults place operation a.tx a.disk in
    if not (tx.state == 0)
    then refuse invalid tx disk
    else if not (blob_valid name) || not (operation_valid operation)
    then refuse invalid marked disk
    else elim a.result [
      | fail e ↦ a
      | ok done ↦ elim b.result [
        | fail e ↦ b
        | ok done' ↦ blob_changed faults name operation b.tx b.disk
      ]
    ]
