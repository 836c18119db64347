-- ===== src/Undo/ScanUndo.antt =====
-- `scan` of server/undo_journal.c reads a byte undo that `write_target` has put into the journal.
use dataman.Base.{
  ℕ, ◌+◌, ◌-◌, ◌^◌, ◌≤◌, ◌<◌, ◌≡◌, ◌⊎◌, true, false, ◌&&◌, some, ◌++◌, arith, length, take, drop,
  ◌==◌, length-append, take-append_self, drop-append_self, take-length, drop-drop,
}
use dataman.Storage.{Bytes, int64_max}
use dataman.Undo.Wire.{get32}
use dataman.Undo.Names.{name_valid, blobs_prefix, starts_with, has_byte}
use dataman.Undo.State.{File, Files, Place, record_size, max_write, type_undo, type_resolved}
use dataman.Undo.Record.{Fields, undo_record}
use dataman.Undo.Layout.{
  Fits, Says, fixed_bytes, seal_split, drop-fixed_bytes, length-fixed_bytes, fixed_bytes-Says,
}
use dataman.Undo.Scan.{UndoEntry, undo, fixed_valid}
use dataman.Undo.ScanLoop.{entry_here, scan_undo, undo_valid}

-- The record of an entry at a position in the sequence.
abbrev pub fields_of : ℕ → UndoEntry → Fields
fields_of sequence e = record {
  type = type_undo;
  sequence = sequence + 1;
  size = record_size + length e.name + length e.before;
  name_size = length e.name;
  offset = e.offset;
  file_size = e.size;
  dev = e.dev;
  ino = e.ino;
  length = length e.before;
}

abbrev pub record_of : ℕ → UndoEntry → Bytes
record_of sequence e = undo_record (sequence + 1) e.name e.offset e.size e.dev e.ino e.before

-- An entry that fits its record, and whose file is there and is not the journal.
pub record IsReadable (place : Place) (files : Files) (e : UndoEntry) : Type 0 where
  pub valid : name_valid e.name ≡ true
  pub not_blob : starts_with blobs_prefix e.name ≡ false
  pub no_nul : has_byte 0 e.name ≡ false
  pub name_short : length e.name ≤ 4095
  pub before_short : length e.before ≤ max_write
  pub offset_le : e.offset ≤ int64_max
  pub size_le : e.size ≤ int64_max
  pub inside : (length e.before ≡ 0) ⊎ (e.offset + length e.before ≤ e.size)
  pub dev_lt : e.dev < 2 ^ 64
  pub ino_lt : e.ino < 2 ^ 64
  pub file : File
  pub there : files e.name ≡ some file
  pub same_dev : file.dev ≡ e.dev
  pub same_ino : file.ino ≡ e.ino
  pub not_journal : (file.dev == place.journal_dev && file.ino == place.journal_ino) ≡ false

pub fields_of-Fits :
    (place : Place) (files : Files) (sequence : ℕ) (e : UndoEntry)
    → IsReadable place files e
    → sequence < 2 ^ 64 - 1
    → Fits (fields_of sequence e)
fields_of-Fits place files sequence e r h = omega arith

-- The fixed bytes of a record of the fourth version are good.
pub fixed_valid_lem :
    (fixed : Bytes) (r : Fields) (payload : Bytes) (sequence : ℕ)
    → Says fixed r payload
    → (r.type ≡ type_undo) ⊎ (r.type ≡ type_resolved)
    → r.sequence ≡ sequence + 1
    → sequence < 2 ^ 64 - 1
    → r.name_size ≤ 4095
    → r.length ≤ max_write
    → r.size ≡ record_size + r.name_size + r.length
    → fixed_valid 4 sequence fixed ≡ true
unfolding fixed_valid
fixed_valid_lem fixed r payload sequence s t q lt n l z =
    rw (s.magic)
      (ground (arith, s.type, s.sequence, s.size, s.name_size, s.length, s.header_crc, s.reserved))

undo_valid_lem :
    (place : Place) (files : Files) (bytes : Bytes) (sequence : ℕ) (e : UndoEntry) (payload : Bytes)
    → IsReadable place files e
    → Says bytes (fields_of sequence e) payload
    → undo_valid 4 bytes e.name ≡ true
unfolding undo_valid
undo_valid_lem place files bytes sequence e payload v s =
    ground (arith, s.offset, s.file_size, s.length)

abbrev pub payload_of : UndoEntry → Bytes
payload_of e = e.name ++ e.before

pub record_split :
    (sequence : ℕ) (e : UndoEntry)
    → record_of sequence e ≡ fixed_bytes (fields_of sequence e) (payload_of e) ++ payload_of e
unfolding undo_record
record_split sequence e = seal_split (fields_of sequence e) (payload_of e)

pub length-record_of :
    (sequence : ℕ) (e : UndoEntry)
    → length (record_of sequence e) ≡ record_size + length e.name + length e.before
length-record_of sequence e = rw (record_split sequence e) (
    omega (
      arith,
      length-append (fixed_bytes (fields_of sequence e) (payload_of e)) (payload_of e),
      length-fixed_bytes (fields_of sequence e) (payload_of e),
      length-append e.name e.before,
    ))

-- A record's parts behind the fixed bytes.
pub payload_of_record :
    (sequence : ℕ) (e : UndoEntry) → drop 72 (record_of sequence e) ≡ payload_of e
payload_of_record sequence e =
    rw (record_split sequence e)
      (drop-fixed_bytes (fields_of sequence e) (payload_of e) (payload_of e))

name_of_record :
    (sequence : ℕ) (e : UndoEntry) → take (length e.name) (drop 72 (record_of sequence e)) ≡ e.name
name_of_record sequence e = rw (payload_of_record sequence e) (take-append_self e.name e.before)

before_of_record :
    (sequence : ℕ) (e : UndoEntry)
    → take (length e.before) (drop (72 + length e.name) (record_of sequence e)) ≡ e.before
before_of_record sequence e =
    rw
      (
        ← drop-drop 72 (length e.name) (record_of sequence e),
        payload_of_record sequence e,
        drop-append_self e.name e.before,
      )
      (take-length e.before)

pub record_of-Says :
    (place : Place) (files : Files) (sequence : ℕ) (e : UndoEntry)
    → IsReadable place files e
    → sequence < 2 ^ 64 - 1
    → Says (record_of sequence e) (fields_of sequence e) (payload_of e)
record_of-Says place files sequence e v h = rw (record_split sequence e) (
    fixed_bytes-Says (fields_of sequence e) (payload_of e) (payload_of e)
      (fields_of-Fits place files sequence e v h))

pub scan_undo_lem :
    (place : Place) (files : Files) (sequence : ℕ) (e : UndoEntry)
    → IsReadable place files e
    → sequence < 2 ^ 64 - 1
    → scan_undo 4 place files (record_of sequence e) ≡ entry_here (undo e)
unfolding scan_undo
scan_undo_lem place files sequence e v h =
    let s = record_of-Says place files sequence e v h in
    let bytes : Bytes = record_of sequence e in
    let name_eq : take (get32 bytes 20) (drop record_size bytes) ≡ e.name =
      rw (s.name_size) (name_of_record sequence e) in
    let before_eq : take (get32 bytes 56) (drop (record_size + get32 bytes 20) bytes) ≡ e.before =
      rw (s.name_size, s.length) (before_of_record sequence e) in
    simp
      (name_eq, before_eq, undo_valid_lem place files bytes sequence e (payload_of e) v s, v.there)
      (ground (arith, s.offset, s.file_size, s.dev, s.ino, v.not_journal))
