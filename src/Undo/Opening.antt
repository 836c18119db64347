-- ===== src/Undo/Opening.antt =====
-- A transaction as `dm_undo_begin` of server/undo_journal.c makes it.
use dataman.Base.{
  ℕ, ◌+◌, ◌^◌, ◌≤◌, ◌<◌, ◌≡◌, refl, ap, sym, ◌∙◌, Bool, true, false, not, ◌&&◌, ◌||◌, some, [], ◌∷◌,
  ◌++◌, arith, ◌==◌, ltb, if◌then◌else◌, length, take, drop, append_assoc, take-append_self,
  length-append, Option-cases, append-nil, inl, inr, ◌≢◌, subst,
}
use dataman.Storage.{Bytes, pwrite}
use dataman.Undo.Wire.{
  put_bytes, put32, put64, get32, get64, crc, crc-lt, get_bytes-put32, get_bytes-put64,
}
use dataman.Undo.Names.{max_path, same_name_self, starts_with, has_byte}
use dataman.Undo.State.{
  header_size, Disk, Place, Tx, Errno, exists, too_long, system, Result, ok, fail,
}
use dataman.Undo.Scan.{magic_of, version_of, root_valid, scan_header}
use dataman.Undo.ScanLog.{log_bytes}
use dataman.Undo.Begin.{header_part, header, BeginFaults, begin}
use dataman.Undo.Active.{IsActive, AllFit, pwrite-end}

-- A database root's path, and identities that fit their types.
pub record IsPlace (place : Place) : Type 0 where
  pub absolute : starts_with (b'/' ∷ []) place.root ≡ true
  pub no_nul : has_byte 0 place.root ≡ false
  pub not_empty : 0 < length place.root
  pub short : length place.root ≤ max_path
  pub dir_dev_lt : place.dir_dev < 2 ^ 64
  pub dir_ino_lt : place.dir_ino < 2 ^ 64
  pub root_dev_lt : place.root_dev < 2 ^ 64
  pub root_ino_lt : place.root_ino < 2 ^ 64

-- What the header's bytes say.
record HeaderSays (bytes : Bytes) (place : Place) : Type 0 where
  pub magic : take 8 bytes ≡ magic_of 4
  pub dir_dev : get64 bytes 8 ≡ place.dir_dev
  pub dir_ino : get64 bytes 16 ≡ place.dir_ino
  pub root_dev : get64 bytes 24 ≡ place.root_dev
  pub root_ino : get64 bytes 32 ≡ place.root_ino
  pub path_length : get32 bytes 40 ≡ length place.root
  pub path_crc : get32 bytes 44 ≡ crc place.root
  pub header_crc : get32 bytes 48 ≡ crc (take 48 bytes)
  pub reserved : get32 bytes 52 ≡ 0

header-Says : (place : Place) → IsPlace place → HeaderSays (header place) place
unfolding header header_part put32 put64 put_bytes get32 get64
header-Says place p = record {
  magic = refl;
  dir_dev = get_bytes-put64 place.dir_dev p.dir_dev_lt;
  dir_ino = get_bytes-put64 place.dir_ino p.dir_ino_lt;
  root_dev = get_bytes-put64 place.root_dev p.root_dev_lt;
  root_ino = get_bytes-put64 place.root_ino p.root_ino_lt;
  path_length = get_bytes-put32 (length place.root) (omega (arith, p.short));
  path_crc = get_bytes-put32 (crc place.root) (crc-lt place.root);
  header_crc = get_bytes-put32 (crc (take 48 (header place))) (crc-lt (take 48 (header place)));
  reserved = get_bytes-put32 0 (omega arith);
}

take-header : (place : Place) (rest : Bytes) → take 56 (header place ++ rest) ≡ header place
unfolding header header_part put32 put64 put_bytes
take-header place rest = refl

drop-header : (place : Place) (rest : Bytes) → drop 56 (header place ++ rest) ≡ rest
unfolding header header_part put32 put64 put_bytes
drop-header place rest = refl

length-header : (place : Place) → length (header place) ≡ 56
unfolding header header_part put32 put64 put_bytes
length-header place = refl

version_lem : (bytes : Bytes) → take 8 bytes ≡ magic_of 4 → version_of bytes ≡ some 4
unfolding version_of
version_lem bytes h = rw (version_of, h) refl

root_lem :
    (place : Place) (bytes : Bytes)
    → IsPlace place
    → HeaderSays bytes place
    → root_valid place bytes place.root ≡ true
unfolding root_valid
root_lem place bytes p s =
    ground
      (arith, s.path_crc, s.root_dev, s.root_ino, same_name_self place.root, p.absolute, p.no_nul)

fields_lem :
    (place : Place) (bytes : Bytes)
    → HeaderSays bytes place
    → (get64 bytes 8 == place.dir_dev
        && get64 bytes 16 == place.dir_ino
        && get32 bytes 48 == crc (take 48 bytes)
        && get32 bytes 52 == 0)
      ≡ true
fields_lem place bytes s = ground (arith, s.dir_dev, s.dir_ino, s.header_crc, s.reserved)

lengths_lem :
    (n l k : ℕ)
    → 0 < n
    → n ≤ max_path
    → l ≡ 56 + (n + k)
    → (ltb l 56 ≡ false) × ((n == 0 || ltb max_path n || ltb l (56 + n)) ≡ false)
lengths_lem n l k h j e = ground arith

-- `scan_header` on a journal that begins with these bytes and the path.
scan_header_lem :
    (place : Place) (journal bytes : Bytes) (k : ℕ)
    → IsPlace place
    → HeaderSays bytes place
    → take 56 journal ≡ bytes
    → take (length place.root) (drop 56 journal) ≡ place.root
    → length journal ≡ 56 + (length place.root + k)
    → scan_header place journal ≡ ok (4, 56 + length place.root)
unfolding scan_header
scan_header_lem place journal bytes k p s head path size =
    let long = lengths_lem (length place.root) (length journal) k p.not_empty p.short size in
    simp
      (
        scan_header,
        head,
        s.path_length,
        path,
        version_lem bytes s.magic,
        root_lem place bytes p s,
        fields_lem place bytes s,
        long.0,
        long.1,
      )
      refl

-- `scan` takes the header that `dm_undo_begin` has written, whatever follows it.
pub scan_header-header :
    (place : Place) (rest : Bytes)
    → IsPlace place
    → scan_header place ((header place ++ place.root) ++ rest)
      ≡ ok (4, length (header place ++ place.root))
scan_header-header place rest p =
    let journal = (header place ++ place.root) ++ rest in
    let split : journal ≡ header place ++ (place.root ++ rest) =
      append_assoc (header place) place.root rest in
    let whole : length (header place ++ place.root) ≡ 56 + length place.root =
      omega (arith, length-append (header place) place.root, length-header place) in
    scan_header_lem place journal (header place) (length rest) p (header-Says place p)
      (ap (take 56) split ∙ take-header place (place.root ++ rest))
      (ap (λ (xs : Bytes). take (length place.root) (drop 56 xs)) split
        ∙ ap (take (length place.root)) (drop-header place (place.root ++ rest))
        ∙ take-append_self place.root rest)
      (omega (arith, whole, length-append (header place ++ place.root) rest))
    ∙ ap (λ (n : ℕ). ok (4, n)) (sym whole)

-- What a call of `dm_undo_begin` guarantees.
pub record IsBegun (place : Place) (disk : Disk) (r : Result Tx × Disk) : Type 0 where
  pub files_eq : r.1.files ≡ disk.files
  pub active : (tx : Tx) → r.0 ≡ ok tx → IsActive place disk.files tx r.1

if-Begun :
    {place : Place} {disk : Disk} (c : Bool) {x y : Result Tx × Disk}
    → (c ≡ true → IsBegun place disk x)
    → (c ≡ false → IsBegun place disk y)
    → IsBegun place disk (if c then x else y)
if-Begun true h k = h refl
if-Begun false h k = k refl

not_ok : (e : Errno) (tx : Tx) → fail e ≢ ok tx
not_ok e tx h = cc

ok_inj : {a b : Tx} → ok a ≡ ok b → a ≡ b
ok_inj h = cc

-- A failure that leaves the disk alone.
failed-IsBegun : (place : Place) (disk : Disk) (e : Errno) → IsBegun place disk (fail e, disk)
failed-IsBegun place disk e = record { files_eq = refl; active = λ tx h. absurd (not_ok e tx h) }

-- A failure that leaves a part of a journal.
part-IsBegun :
    (place : Place) (disk : Disk) (e : Errno) (j : Bytes)
    → IsBegun place disk (fail e, record disk { journal = some j })
part-IsBegun place disk e j = record { files_eq = refl; active = λ tx h. absurd (not_ok e tx h) }

header_written :
    (place : Place)
    → pwrite (pwrite [] 0 (header place)) header_size place.root ≡ header place ++ place.root
header_written place =
    let first : pwrite [] 0 (header place) ≡ header place = pwrite-end [] (header place) in
    ap (λ (xs : Bytes). pwrite xs 56 place.root) first
    ∙ ap (λ (n : ℕ). pwrite (header place) n place.root) (sym (length-header place))
    ∙ pwrite-end (header place) place.root

fresh : Place → Tx
fresh place = record { state = 0; sequence = 0; end = header_size + length place.root; blobs = [] }

fresh-IsActive :
    (place : Place) (disk : Disk)
    → IsPlace place
    → AllFit disk.files
    → IsActive place disk.files (fresh place) (record disk {
      journal = some (pwrite (pwrite [] 0 (header place)) header_size place.root);
    })
unfolding fresh log_bytes
fresh-IsActive place disk p fit = record {
  logged = record {
    fit = fit;
    head = header place ++ place.root;
    log = [];
    head_reads = λ rest. scan_header-header place rest p;
    journal_eq =
        ap (λ (xs : Bytes). some xs)
          (header_written place ∙ sym (append-nil (header place ++ place.root)));
    readable = tt;
    few = omega arith;
    undoes = refl;
    end_eq = omega (
      arith,
      ap length (append-nil (header place ++ place.root)),
      length-append (header place) place.root,
      length-header place,
    );
    sequence_eq = refl;
  };
  state_eq = refl;
}

pub begin-IsBegun :
    (place : Place) (faults : BeginFaults) (disk : Disk)
    → IsPlace place
    → AllFit disk.files
    → IsBegun place disk (begin faults place disk)
unfolding begin fresh
begin-IsBegun place faults disk p fit =
    if-Begun (ltb max_path (length place.root)) (λ long. failed-IsBegun place disk too_long)
      (λ short.
        if-Begun (not faults.opens) (λ closed. failed-IsBegun place disk system)
          (λ opens. elim (Option-cases disk.journal) [
            | inr (j, there) ↦ simp (begin, there) (failed-IsBegun place disk exists)
            | inl nothing ↦ elim (Option-cases faults.header_stop) [
              | inr (n, part) ↦ simp (begin, nothing, part) (part-IsBegun place disk system _)
              | inl whole ↦ elim (Option-cases faults.path_stop) [
                | inr (n, part) ↦
                    simp (begin, nothing, whole, part) (part-IsBegun place disk system _)
                | inl both ↦
                    simp (begin, nothing, whole, both)
                      (if-Begun faults.syncs
                        (λ safe. record {
                          files_eq = refl;
                          active = λ tx h.
                              subst
                                (λ (t : Tx). IsActive place disk.files t (record {
                                  files = disk.files;
                                  journal =
                                      some (
                                        pwrite (pwrite [] 0 (header place)) header_size place.root);
                                }))
                                (ok_inj h) (fresh-IsActive place disk p fit);
                        })
                        (λ unsafe. part-IsBegun place disk system _))
              ]
            ]
          ]))

-- `dm_undo_begin` that succeeds starts a transaction that can go on, in state 0 and with its fields
-- counting the whole journal, and its base is the files that are there. The root and the files are such as the system reports.
pub begin-IsActive :
    (place : Place) (faults : BeginFaults) (disk : Disk) (tx : Tx)
    → IsPlace place
    → AllFit disk.files
    → (begin faults place disk).0 ≡ ok tx
    → IsActive place disk.files tx (begin faults place disk).1
begin-IsActive place faults disk tx p fit good =
    let b = begin-IsBegun place faults disk p fit in b.active tx good
