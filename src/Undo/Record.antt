-- ===== src/Undo/Record.antt =====
-- The records of the journal as server/undo_journal.c lays them out: 72 fixed bytes with two
-- checksums, and the payload.
use dataman.Base.{ℕ, ◌+◌, [], ◌∷◌, ◌++◌, zero, suc, length, take, drop}
use dataman.Storage.{Bytes}
use dataman.Undo.Wire.{put32, put64, crc}
use dataman.Undo.State.{record_size, blob_chunk, type_undo, type_resolved}

-- "DMUR"
abbrev pub record_magic : Bytes
record_magic = 0x44 ∷ 0x4d ∷ 0x55 ∷ 0x52 ∷ []

-- The fields of a record before its checksums.
pub record Fields : Type 0 where
  pub type : ℕ
  pub sequence : ℕ
  pub size : ℕ
  pub name_size : ℕ
  pub offset : ℕ
  pub file_size : ℕ
  pub dev : ℕ
  pub ino : ℕ
  pub length : ℕ

-- The first 60 bytes.
unfoldable pub fixed_part : Fields → Bytes
unfolding put32 put64
fixed_part r =
    record_magic
    ++ (put32 r.type
        ++ (put64 r.sequence
            ++ (put32 r.size
                ++ (put32 r.name_size
                    ++ (put64 r.offset
                        ++ (put64 r.file_size
                            ++ (put64 r.dev ++ (put64 r.ino ++ put32 r.length))))))))

-- The payload's checksum goes to byte 60, that of the 64 bytes before to byte 64, and 0 to byte 68.
unfoldable pub seal : Fields → Bytes → Bytes
unfolding fixed_part put32
seal r payload =
    let checked = fixed_part r ++ put32 (crc payload) in
    checked ++ (put32 (crc checked) ++ (put32 0 ++ payload))

-- The record that undoes a write: the name and the bytes that stood in the range.
unfoldable pub undo_record : ℕ → Bytes → ℕ → ℕ → ℕ → ℕ → Bytes → Bytes
undo_record sequence name offset file_size dev ino before =
    seal
      (record {
        type = type_undo;
        sequence = sequence;
        size = record_size + length name + length before;
        name_size = length name;
        offset = offset;
        file_size = file_size;
        dev = dev;
        ino = ino;
        length = length before;
      })
      (name ++ before)

-- The marker of a transaction that needs no more undoing.
unfoldable pub resolved_record : ℕ → Bytes
resolved_record sequence =
    seal
      (record {
        type = type_resolved;
        sequence = sequence;
        size = record_size;
        name_size = 0;
        offset = 0;
        file_size = 0;
        dev = 0;
        ino = 0;
        length = 0;
      })
      []

-- The chunks of a blob, 64 KiB at most, each behind its length and checksum. The fuel is the number
-- of bytes: every chunk takes at least one.
unfoldable pub chunks : ℕ → Bytes → Bytes
unfolding put32
chunks fuel [] = []
chunks zero (b ∷ content) = []
chunks (suc fuel) (b ∷ content) =
    let chunk = take blob_chunk (b ∷ content) in
    put32 (length chunk)
    ++ (put32 (crc chunk) ++ (chunk ++ chunks fuel (drop blob_chunk (b ∷ content))))
