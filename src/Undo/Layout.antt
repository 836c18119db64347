-- ===== src/Undo/Layout.antt =====
-- What `scan` of server/undo_journal.c reads at each place of a record that `append` has laid out.
use dataman.Base.{◌^◌, ◌<◌, ◌≡◌, refl, ◌++◌, arith, length, take, drop}
use dataman.Storage.{Bytes}
use dataman.Undo.Wire.{
  put_bytes, put32, put64, get32, get64, crc, crc-lt, get_bytes-put32, get_bytes-put64,
}
use dataman.Undo.Record.{record_magic, Fields, seal}

-- Every field fits its place.
pub record Fits (r : Fields) : Type 0 where
  pub type_lt : r.type < 2 ^ 32
  pub sequence_lt : r.sequence < 2 ^ 64
  pub size_lt : r.size < 2 ^ 32
  pub name_lt : r.name_size < 2 ^ 32
  pub offset_lt : r.offset < 2 ^ 64
  pub file_size_lt : r.file_size < 2 ^ 64
  pub dev_lt : r.dev < 2 ^ 64
  pub ino_lt : r.ino < 2 ^ 64
  pub length_lt : r.length < 2 ^ 32

-- What the 72 fixed bytes say.
pub record Says (fixed : Bytes) (r : Fields) (payload : Bytes) : Type 0 where
  pub magic : take 4 fixed ≡ record_magic
  pub type : get32 fixed 4 ≡ r.type
  pub sequence : get64 fixed 8 ≡ r.sequence
  pub size : get32 fixed 16 ≡ r.size
  pub name_size : get32 fixed 20 ≡ r.name_size
  pub offset : get64 fixed 24 ≡ r.offset
  pub file_size : get64 fixed 32 ≡ r.file_size
  pub dev : get64 fixed 40 ≡ r.dev
  pub ino : get64 fixed 48 ≡ r.ino
  pub length : get32 fixed 56 ≡ r.length
  pub payload_crc : get32 fixed 60 ≡ crc payload
  pub header_crc : get32 fixed 64 ≡ crc (take 64 fixed)
  pub reserved : get32 fixed 68 ≡ 0

-- The fixed bytes alone.
unfoldable pub fixed_bytes : Fields → Bytes → Bytes
fixed_bytes r payload = take 72 (seal r payload)

pub seal_split : (r : Fields) (payload : Bytes) → seal r payload ≡ fixed_bytes r payload ++ payload
unfolding fixed_bytes seal put32 put64 put_bytes
seal_split r payload = refl

pub take-fixed_bytes :
    (r : Fields) (payload rest : Bytes)
    → take 72 (fixed_bytes r payload ++ rest) ≡ fixed_bytes r payload
unfolding fixed_bytes seal put32 put64 put_bytes
take-fixed_bytes r payload rest = refl

pub drop-fixed_bytes :
    (r : Fields) (payload rest : Bytes) → drop 72 (fixed_bytes r payload ++ rest) ≡ rest
unfolding fixed_bytes seal put32 put64 put_bytes
drop-fixed_bytes r payload rest = refl

pub length-fixed_bytes : (r : Fields) (payload : Bytes) → length (fixed_bytes r payload) ≡ 72
unfolding fixed_bytes seal put32 put64 put_bytes
length-fixed_bytes r payload = refl

-- The fixed bytes read back, whatever follows them.
pub fixed_bytes-Says :
    (r : Fields) (payload rest : Bytes) → Fits r → Says (fixed_bytes r payload ++ rest) r payload
unfolding fixed_bytes seal put32 put64 put_bytes get32 get64
fixed_bytes-Says r payload rest f = record {
  magic = refl;
  type = get_bytes-put32 r.type f.type_lt;
  sequence = get_bytes-put64 r.sequence f.sequence_lt;
  size = get_bytes-put32 r.size f.size_lt;
  name_size = get_bytes-put32 r.name_size f.name_lt;
  offset = get_bytes-put64 r.offset f.offset_lt;
  file_size = get_bytes-put64 r.file_size f.file_size_lt;
  dev = get_bytes-put64 r.dev f.dev_lt;
  ino = get_bytes-put64 r.ino f.ino_lt;
  length = get_bytes-put32 r.length f.length_lt;
  payload_crc = get_bytes-put32 (crc payload) (crc-lt payload);
  header_crc =
      get_bytes-put32 (crc (take 64 (fixed_bytes r payload)))
        (crc-lt (take 64 (fixed_bytes r payload)));
  reserved = get_bytes-put32 0 (omega arith);
}
