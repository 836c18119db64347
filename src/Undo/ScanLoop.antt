-- ===== src/Undo/ScanLoop.antt =====
-- The loop of `scan` in server/undo_journal.c over the records of the journal.
use dataman.Base.{
  ℕ, zero, suc, ◌+◌, ◌-◌, Bool, true, false, not, ◌&&◌, ◌||◌, Option, none, some, List, [], ◌∷◌,
  ◌==◌, ltb, leb, if◌then◌else◌, length, take, drop,
}
use dataman.Storage.{Bytes, int64_max}
use dataman.Undo.Wire.{get32, get64, crc}
use dataman.Undo.Names.{name_valid, blob_valid, blobs_prefix, starts_with, has_byte}
use dataman.Undo.State.{
  record_size, max_write, blob_meta, type_resolved, type_blob, type_blob_stream, File, Files, Place,
  Errno, invalid, corrupt, missing, Result, ok, fail,
}
use dataman.Undo.Scan.{
  Entry, undo, blob, Log, same_bytes, fixed_valid, blob_stream_size, blob_stream, scan_header,
}

-- What one round of the loop does: it leaves the loop at a last record that is not complete, fails, or
-- goes on behind the record.
pub data Step : Type 0 where
  stop : Step
  bad : Errno → Step
  resolved_here : Step
  entry_here : Entry → Step

abbrev pub all_zero : Bytes → Bool
all_zero [] = true
all_zero (b ∷ bytes) = b == 0 && all_zero bytes

-- A resolved marker has nothing in it, and nothing behind it.
unfoldable pub scan_resolved : Bytes → ℕ → Bytes → Step
scan_resolved journal at bytes =
    if get32 bytes 16 == record_size
      && all_zero (take 36 (drop 20 bytes))
      && get32 bytes 56 == 0
      && at + get32 bytes 16 == length journal
    then resolved_here
    else bad corrupt

-- The checks on the fields of a byte undo.
unfoldable pub undo_valid : ℕ → Bytes → Bytes → Bool
undo_valid version bytes name =
    name_valid name
    && not (not (version == 2) && starts_with blobs_prefix name)
    && not (has_byte 0 name)
    && leb (get64 bytes 24) int64_max
    && leb (get64 bytes 32) int64_max
    && (get32 bytes 56 == 0
        || (leb (get64 bytes 24) (get64 bytes 32)
            && leb (get32 bytes 56) (get64 bytes 32 - get64 bytes 24)))

-- A byte undo: its file is there, is the one that was written, and is not the journal.
unfoldable pub scan_undo : ℕ → Place → Files → Bytes → Step
scan_undo version place files bytes =
    let name = take (get32 bytes 20) (drop record_size bytes) in
    if not (undo_valid version bytes name) then bad corrupt else elim (files name) [
      | none ↦ bad missing
      | some f ↦
          if f.dev == get64 bytes 40
            && f.ino == get64 bytes 48
            && not (f.dev == place.journal_dev && f.ino == place.journal_ino)
          then entry_here (
              undo (record {
                name = name;
                offset = get64 bytes 24;
                size = get64 bytes 32;
                dev = get64 bytes 40;
                ino = get64 bytes 48;
                before = take (get32 bytes 56) (drop (record_size + get32 bytes 20) bytes);
              }))
          else bad corrupt
    ]

-- The checks on the fields of a blob entry.
unfoldable pub blob_entry_valid : Bytes → Bytes → Bytes → Bool
blob_entry_valid bytes name meta =
    let legacy = get32 bytes 4 == type_blob in
    let present = get64 bytes 24 in
    let size = get64 bytes 32 in
    blob_valid name
    && not (has_byte 0 name)
    && leb present 1
    && not (legacy && ltb max_write size)
    && (if present == 0
        then get32 bytes 56 == 0 && size == 0
        else get32 bytes 56 == blob_meta + (if legacy then size else 0))
    && (present == 0 || (leb (get32 meta 0) 0o7777 && get32 meta 12 == 0))

-- An earlier entry for the same blob.
abbrev pub has_blob : Bytes → List Entry → Bool
has_blob name [] = false
has_blob name (undo u ∷ entries) = has_blob name entries
has_blob name (blob b ∷ entries) = same_bytes b.name name || has_blob name entries

-- The chunks of a streamed blob are read once before anything is restored.
abbrev pub stream_valid : Bytes → Bytes → ℕ → Bool
stream_valid journal bytes stream =
    if get32 bytes 4 == type_blob_stream
    then elim (blob_stream (get64 bytes 32) journal stream (get64 bytes 32)) [
      | ok content ↦ true
      | fail e ↦ false
    ]
    else true

-- `blob_current`: nothing, or a file with one link.
abbrev pub one_link : Option File → Bool
one_link none = true
one_link (some f) = f.links == 1

unfoldable pub scan_blob : Place → Files → Bytes → ℕ → List Entry → Bytes → Step
scan_blob place files journal at entries bytes =
    let name = take (get32 bytes 20) (drop record_size bytes) in
    let meta = drop (record_size + get32 bytes 20) bytes in
    let stream = at + get32 bytes 16 in
    if not (blob_entry_valid bytes name meta) || has_blob name entries
    then bad corrupt
    else if not (stream_valid journal bytes stream)
    then bad corrupt
    else if not (place.blobs_dev == get64 bytes 40 && place.blobs_ino == get64 bytes 48)
    then bad corrupt
    else if not (one_link (files name))
    then bad invalid
    else entry_here (
        blob (record {
          name = name;
          type = get32 bytes 4;
          present = get64 bytes 24;
          size = get64 bytes 32;
          stream = stream;
          meta = meta;
        }))

-- The bytes that a streamed blob adds behind its record; `none` where they cannot be counted.
abbrev pub extra_of : Bytes → Option ℕ
extra_of fixed =
    if get32 fixed 4 == type_blob_stream then blob_stream_size (get64 fixed 32) else some 0

-- One record, its 72 fixed bytes found good, with `extra` bytes behind it.
unfoldable pub scan_record : ℕ → Place → Files → Bytes → ℕ → List Entry → Bytes → ℕ → Step
scan_record version place files journal at entries fixed extra =
    let size = get32 fixed 16 in
    let left = length journal - at in
    let bytes = take size (drop at journal) in
    if ltb left size || ltb (left - size) extra
    then stop
    else if not (get32 bytes 60 == crc (drop record_size bytes))
    then bad corrupt
    else if get32 fixed 4 == type_resolved
    then scan_resolved journal at bytes
    else if get32 fixed 4 == type_blob || get32 fixed 4 == type_blob_stream
    then scan_blob place files journal at entries bytes
    else scan_undo version place files bytes

-- The loop, from a position with the records before it counted. The fuel is the length of the journal:
-- every record takes 72 bytes or more.
unfoldable pub scan_loop : ℕ → ℕ → Place → Files → Bytes → ℕ → ℕ → List Entry → Bool → Result Log
scan_loop zero version place files journal at sequence entries resolved = fail corrupt
scan_loop (suc fuel) version place files journal at sequence entries resolved =
    let fixed = take record_size (drop at journal) in
    let here : Log = record {
      entries = entries;
      resolved = resolved;
      end = at;
      sequence = sequence;
    } in
    if not (ltb at (length journal)) || ltb (length journal - at) record_size
    then ok here
    else if not (fixed_valid version sequence fixed)
    then fail corrupt
    else elim (extra_of fixed) [
      | none ↦ fail corrupt
      | some extra ↦ elim (scan_record version place files journal at entries fixed extra) [
        | stop ↦ ok here
        | bad e ↦ fail e
        | resolved_here ↦
            scan_loop fuel version place files journal (at + get32 fixed 16 + extra) (sequence + 1)
              entries true
        | entry_here e ↦
            scan_loop fuel version place files journal (at + get32 fixed 16 + extra) (sequence + 1)
              (e ∷ entries) resolved
      ]
    ]

-- `scan`
unfoldable pub scan : Place → Files → Bytes → Result Log
scan place files journal = elim (scan_header place journal) [
  | fail e ↦ fail e
  | ok (version, start) ↦
      scan_loop (length journal + 1) version place files journal start 0 [] false
]
