-- ===== src/Undo/Begin.antt =====
-- `dm_undo_begin` of server/undo_journal.c: a journal with nothing but its header.
use dataman.Base.{ℕ, ◌+◌, Bool, not, Option, none, some, [], ◌++◌, ltb, if◌then◌else◌, length}
use dataman.Storage.{Bytes, pwrite}
use dataman.Undo.Wire.{put32, put64, crc}
use dataman.Undo.Names.{max_path}
use dataman.Undo.State.{
  header_size, Disk, Place, Tx, exists, too_long, system, Result, ok, fail, stopped,
}
use dataman.Undo.Scan.{magic_of}

-- The first 48 bytes of the header.
unfoldable pub header_part : Place → Bytes
unfolding put32 put64
header_part place =
    magic_of 4
    ++ (put64 place.dir_dev
        ++ (put64 place.dir_ino
            ++ (put64 place.root_dev
                ++ (put64 place.root_ino
                    ++ (put32 (length place.root) ++ put32 (crc place.root))))))

-- The header: those bytes, their checksum, and four zeros.
unfoldable pub header : Place → Bytes
unfolding header_part put32
header place = header_part place ++ (put32 (crc (header_part place)) ++ put32 0)

-- Where the system fails: before the journal is created, in the write of the header or of the path, or
-- in a sync.
pub record BeginFaults : Type 0 where
  pub opens : Bool
  pub header_stop : Option ℕ
  pub path_stop : Option ℕ
  pub syncs : Bool

-- `dm_undo_begin`: a journal that is there already is never replaced, and one that could not be written
-- is left behind.
unfoldable pub begin : BeginFaults → Place → Disk → Result Tx × Disk
unfolding header
begin faults place disk =
    let first = pwrite [] 0 (stopped faults.header_stop (header place)) in
    let second = pwrite first header_size (stopped faults.path_stop place.root) in
    if ltb max_path (length place.root)
    then (fail too_long, disk)
    else if not faults.opens
    then (fail system, disk)
    else elim disk.journal [
      | some j ↦ (fail exists, disk)
      | none ↦ elim faults.header_stop [
        | some n ↦ (fail system, record disk { journal = some first })
        | none ↦ elim faults.path_stop [
          | some n ↦ (fail system, record disk { journal = some second })
          | none ↦
              if faults.syncs
              then (
                ok (record {
                  state = 0;
                  sequence = 0;
                  end = header_size + length place.root;
                  blobs = [];
                }),
                record disk { journal = some second },
              )
              else (fail system, record disk { journal = some second })
        ]
      ]
    ]
