-- ===== src/Undo/Applies.antt =====
-- What a success of `write_target` of server/undo_journal.c means for the files.
use dataman.Base.Int.{ℤ, pos}
use dataman.Base.{
  ℕ, ◌+◌, ◌-◌, ◌≤◌, ◌<◌, ◌≡◌, ◌≢◌, ◌⊎◌, refl, ap, sym, ◌∙◌, Bool, true, false, not, ◌&&◌, ◌||◌,
  Option, none, some, arith, length, ltb, leb, ◌==◌, if◌then◌else◌, Bool-cases, Option-cases, inl,
  inr, take-all, take, subst,
}
use dataman.Storage.{Bytes, int64_max, pwrite, pread}
use dataman.Storage.Windows.{pread-pwrite_inside, pread-pwrite_outside}
use dataman.Undo.Names.{same_name, same_name_self, same_name_iff}
use dataman.Undo.State.{
  record_size, File, Files, Place, Tx, Disk, put_file, Errno, invalid, too_big, missing, system, ok,
  fail, Answer, Faults, no_faults, write_journal,
}
use dataman.Undo.Record.{undo_record}
use dataman.Undo.Write.{
  Fd, append, request_valid, target_error, before_size, write_data, write_logged, write_opened,
  write_target, uint64_max, refuse, has_fd, offset_of,
}

-- A request that `write_target` accepts: it is valid, its file is there and is the caller's, and the
-- journal has room for its record.
pub record IsAccepted (place : Place) (tx : Tx) (disk : Disk) (name : Bytes) (fd : Option Fd)
    (f : File) (size offset : ℕ) : Type 0 where
  pub active : tx.state ≡ 0
  pub valid : request_valid name size (pos offset) ≡ true
  pub there : disk.files name ≡ some f
  pub caller : target_error place f fd ≡ none
  pub not_empty : 0 < size
  pub room :
      tx.end ≤ int64_max - (record_size + length name + before_size f offset size) - record_size
  pub numbers : tx.sequence < uint64_max - 1

-- The two tests on the journal's room.
room_lem :
    (left end sequence : ℕ)
    → end ≤ left
    → sequence < uint64_max - 1
    → (ltb left end || leb (uint64_max - 1) sequence) ≡ false
room_lem left end sequence h k = ground arith

not_empty_lem : (n : ℕ) → 0 < n → (n == 0) ≡ false
not_empty_lem n h = ground arith

-- With no failure, an accepted request succeeds.
pub accepted-succeeds :
    (place : Place) (tx : Tx) (disk : Disk) (name : Bytes) (fd : Option Fd) (f : File)
    (buffer : Bytes) (offset : ℕ)
    → IsAccepted place tx disk name fd f (length buffer) offset
    → (write_target no_faults place name fd buffer (pos offset) tx disk).result ≡ ok tt
unfolding write_target write_opened write_logged write_data append
accepted-succeeds place tx disk name fd f buffer offset c =
    simp
      (
        write_target,
        write_opened,
        write_logged,
        write_data,
        append,
        c.active,
        c.valid,
        not_empty_lem (length buffer) c.not_empty,
        c.there,
        c.caller,
        room_lem _ tx.end tx.sequence c.room c.numbers,
      )
      refl

-- The buffer is in the file at the offset; every range of the file that does not meet it, every other
-- file, and what the system says of this one are as they were.
pub record IsWritten (files : Files) (name buffer : Bytes) (offset : ℕ) (files' : Files)
    : Type 0 where
  pub old : File
  pub new : File
  pub there : files name ≡ some old
  pub now : files' name ≡ some new
  pub holds : pread new.content offset (length buffer) ≡ buffer
  pub rest :
      (o n : ℕ)
      → o + n ≤ length old.content
      → (o + n ≤ offset) ⊎ (offset + length buffer ≤ o)
      → pread new.content o n ≡ pread old.content o n
  pub others : (n : Bytes) → n ≢ name → files' n ≡ files n
  pub same : record new { content = old.content } ≡ old

-- An answer that is a success only if the bytes are written and the transaction is active.
record Good (files : Files) (name buffer : Bytes) (offset : ℕ) (a : Answer) : Type 0 where
  written : a.result ≡ ok tt → IsWritten files name buffer offset a.disk.files
  active : a.result ≡ ok tt → a.tx.state ≡ 0

module _ {files : Files} {name buffer : Bytes} {offset : ℕ} where
  if-Good :
      (c : Bool) {x y : Answer}
      → (c ≡ true → Good files name buffer offset x)
      → (c ≡ false → Good files name buffer offset y)
      → Good files name buffer offset (if c then x else y)
  if-Good true h k = h refl
  if-Good false h k = k refl

  refused-Good :
      (e : Errno) (tx : Tx) (disk : Disk) → Good files name buffer offset (refuse e tx disk)
  refused-Good e tx disk = record {
    written = λ good. absurd (differ good);
    active = λ good. absurd (differ good);
  }
    where
      differ : fail e ≡ ok tt → ⊥
      differ p = cc

  put-IsWritten :
      (f : File)
      → files name ≡ some f
      → 0 < length buffer
      → IsWritten files name buffer offset
          (put_file files name (some (record f { content = pwrite f.content offset buffer })))
  put-IsWritten f there some_bytes = record {
    old = f;
    new = record f { content = pwrite f.content offset buffer };
    there = there;
    now = rw (same_name_self name) refl;
    holds =
        ap (λ (o : ℕ). pread (pwrite f.content offset buffer) o (length buffer)) at_start
        ∙ pread-pwrite_inside f.content offset buffer 0 (length buffer) some_bytes (omega arith)
        ∙ pread_all buffer;
    rest = λ o n inside apart. pread-pwrite_outside f.content offset buffer o n inside apart;
    others = λ n other. rw (not_same n other) refl;
    same = refl;
  }
    where
      at_start : offset ≡ offset + 0
      at_start = omega arith

      pread_all : (bytes : Bytes) → pread bytes 0 (length bytes) ≡ bytes
      pread_all bytes = take-all (length bytes) bytes (omega arith)

      not_same : (n : Bytes) → n ≢ name → same_name n name ≡ false
      not_same n other = elim (Bool-cases (same_name n name)) [
        | inl same ↦ absurd (other ((same_name_iff n name).0 same))
        | inr differs ↦ differs
      ]

write_journal-files :
    (disk : Disk) (at : ℕ) (bytes : Bytes) → (write_journal disk at bytes).files ≡ disk.files
write_journal-files disk at bytes = elim (Option-cases disk.journal) [
  | inl nothing ↦ simp (write_journal, nothing) refl
  | inr (j, there) ↦ simp (write_journal, there) refl
]

append-files :
    (faults : Faults) (tx : Tx) (disk : Disk) (bytes : Bytes)
    → (append faults tx disk bytes).2.files ≡ disk.files
unfolding append
append-files faults tx disk bytes = elim (Option-cases faults.record_stop) [
  | inr (n, stop) ↦ simp (append, stop) (write_journal-files disk tx.end (take n bytes))
  | inl whole ↦ elim (Option-cases faults.sync_stop) [
    | inr (n, stop) ↦ simp (append, whole, stop) (write_journal-files disk tx.end (take n bytes))
    | inl synced ↦ simp (append, whole, synced) (write_journal-files disk tx.end bytes)
  ]
]

module _ (faults : Faults) (name : Bytes) (f : File) (buffer : Bytes) (offset : ℕ) where
  write_data-Good :
      (files : Files) (tx : Tx) (disk : Disk)
      → disk.files ≡ files
      → files name ≡ some f
      → 0 < length buffer
      → Good files name buffer offset (write_data faults name f buffer offset tx disk)
  unfolding write_data
  write_data-Good files tx disk same there some_bytes = elim (Option-cases faults.data_stop) [
    | inr (n, stop) ↦ rw stop (refused-Good system tx _)
    | inl whole ↦ rw whole (
        if-Good faults.closes
          (λ closed. record {
            written = λ good.
                subst
                  (λ (fs : Files). IsWritten files name buffer offset (
                    put_file fs name
                      (some (record f { content = pwrite f.content offset buffer }))))
                  (sym same) (put-IsWritten f there some_bytes);
            active = λ good. refl;
          })
          (λ unclosed. refused-Good system tx _))
  ]

  write_logged-Good :
      (tx : Tx) (disk : Disk)
      → disk.files name ≡ some f
      → 0 < length buffer
      → Good disk.files name buffer offset (write_logged faults name f buffer offset tx disk)
  unfolding write_logged
  write_logged-Good tx disk there some_bytes =
      let before = pread f.content offset (before_size f offset (length buffer)) in
      let bytes = undo_record (tx.sequence + 1) name offset (length f.content) f.dev f.ino before in
      let r = append faults tx disk bytes in
      if-Good _ (λ big. refused-Good too_big tx disk)
        (λ fits.
          if-Good (not (faults.allocates && faults.reads)) (λ unread. refused-Good system tx disk)
            (λ read_.
              if-Good r.0
                (λ safe.
                  write_data-Good disk.files r.1 r.2 (append-files faults tx disk bytes) there
                    some_bytes)
                (λ unsafe. refused-Good system r.1 r.2)))

not_empty : (n : ℕ) → 0 < n → (n == 0) ≡ true → ⊥
not_empty n h e = ground arith

write_opened-Good :
    (faults : Faults) (place : Place) (name : Bytes) (fd : Option Fd) (buffer : Bytes) (offset : ℕ)
    (tx : Tx) (disk : Disk)
    → 0 < length buffer
    → Good disk.files name buffer offset (write_opened faults place name fd buffer offset tx disk)
unfolding write_opened
write_opened-Good faults place name fd buffer offset tx disk some_bytes =
    elim (Option-cases (disk.files name)) [
      | inl lost ↦ rw (write_opened, lost) (refused-Good missing tx disk)
      | inr (f, there) ↦
          rw (write_opened, there)
            (if-Good (not faults.opens) (λ closed. refused-Good system tx disk)
              (λ opens. elim (Option-cases (target_error place f fd)) [
                | inr (e, wrong) ↦ rw wrong (refused-Good e tx disk)
                | inl right ↦ rw right (
                    if-Good (length buffer == 0)
                      (λ empty. absurd (not_empty (length buffer) some_bytes empty))
                      (λ full.
                        write_logged-Good faults name f buffer offset tx disk there some_bytes))
              ]))
    ]

write_target-Good :
    (faults : Faults) (place : Place) (name : Bytes) (fd : Option Fd) (buffer : Bytes) (offset : ℤ)
    (tx : Tx) (disk : Disk)
    → 0 < length buffer
    → Good disk.files name buffer
        (offset_of offset)
        (write_target faults place name fd buffer offset tx disk)
unfolding write_target
write_target-Good faults place name fd buffer offset tx disk some_bytes =
    let marked = record tx { state = 1 } in
    if-Good (not (tx.state == 0)) (λ over. refused-Good invalid tx disk)
      (λ active.
        if-Good (not (request_valid name (length buffer) offset))
          (λ wrong. refused-Good invalid marked disk)
          (λ right.
            if-Good (length buffer == 0 && not (has_fd fd))
              (λ empty. absurd (not_empty (length buffer) some_bytes (ground arith)))
              (λ full.
                write_opened-Good faults place name fd buffer (offset_of offset) marked disk
                  some_bytes)))

-- Whatever the system does, a call of `write_target` with some bytes that succeeds has written them: the
-- file was there and holds the buffer at the offset, every range of it that does not meet the buffer,
-- every other file, and the file's identity are as they were, and the transaction is active.
pub write_target-IsWritten :
    (faults : Faults) (place : Place) (name : Bytes) (fd : Option Fd) (buffer : Bytes) (offset : ℤ)
    (tx : Tx) (disk : Disk)
    → 0 < length buffer
    → (write_target faults place name fd buffer offset tx disk).result ≡ ok tt
    → IsWritten disk.files name buffer
        (offset_of offset)
        (write_target faults place name fd buffer offset tx disk).disk.files
      × ((write_target faults place name fd buffer offset tx disk).tx.state ≡ 0)
write_target-IsWritten faults place name fd buffer offset tx disk some_bytes good =
    let g = write_target-Good faults place name fd buffer offset tx disk some_bytes in
    (g.written good, g.active good)
