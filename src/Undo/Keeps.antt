-- ===== src/Undo/Keeps.antt =====
-- `write_target` of server/undo_journal.c keeps the disk such that it can be brought back to the base,
-- wherever the system fails.
use dataman.Base.{
  ℕ, ◌-◌, ◌≤◌, ◌≡◌, refl, ap, sym, ◌∙◌, Bool, true, false, Option, some, [], ◌∷◌, arith, length,
  if◌then◌else◌, Bool-cases, inl, inr, ◌&&◌, ◌==◌, subst,
}
use dataman.Storage.{Bytes, int64_max, pwrite, pread}
use dataman.Storage.Transfer.{pwrite-nil}
use dataman.Storage.Content.{length-pwrite}
use dataman.Undo.Names.{
  same_name, same_name_iff, same_name_self, name_valid, starts_with, blobs_prefix, has_byte,
}
use dataman.Undo.State.{max_write, File, Files, Place, put_file, Errno, ok, fail, Answer}
use dataman.Undo.Scan.{UndoEntry}
use dataman.Undo.ScanUndo.{IsReadable}
use dataman.Undo.Write.{before_size}
use dataman.Undo.Restore.{restored, restore_content, length-before, before_size_le}
use dataman.Undo.Active.{IsFile, AllFit, IsRecoverable, IsActive}

-- After a call: the disk can be brought back to the base, and after a success the transaction can go on.
pub record IsKept (place : Place) (base : Files) (a : Answer) : Type 0 where
  pub recoverable : IsRecoverable place base a.disk
  pub active : a.result ≡ ok tt → IsActive place base a.tx a.disk

pub if-Kept :
    {place : Place} {base : Files} (c : Bool) {x y : Answer}
    → (c ≡ true → IsKept place base x)
    → (c ≡ false → IsKept place base y)
    → IsKept place base (if c then x else y)
if-Kept true h k = h refl
if-Kept false h k = k refl

pub failed-IsKept :
    (place : Place) (base : Files) (a : Answer) (e : Errno)
    → a.result ≡ fail e
    → IsRecoverable place base a.disk
    → IsKept place base a
failed-IsKept place base a e h r = record {
  recoverable = r;
  active = λ good. absurd (differ (sym h ∙ good));
}
  where
    differ : fail e ≡ ok tt → ⊥
    differ p = cc

-- The entry of a write.
abbrev pub entry_of : File → Bytes → ℕ → ℕ → UndoEntry
entry_of f name offset total = record {
  name = name;
  offset = offset;
  size = length f.content;
  dev = f.dev;
  ino = f.ino;
  before = pread f.content offset (before_size f offset total);
}

-- A file put back under its name.
pub put_back :
    (files : Files) (name : Bytes) (f : File)
    → files name ≡ some f
    → put_file files name (some f) ≡ files
put_back files name f h = λ i n. at_name n i
  where
    at_name : (n : Bytes) → put_file files name (some f) n ≡ files n
    at_name n = elim (Bool-cases (same_name n name)) [
      | inl same ↦ rw same (sym h ∙ sym (ap files ((same_name_iff n name).0 same)))
      | inr other ↦ rw other refl
    ]

put_file_twice :
    (files : Files) (name : Bytes) (f g : Option File)
    → put_file (put_file files name f) name g ≡ put_file files name g
put_file_twice files name f g = λ i n. at_name n i
  where
    at_name : (n : Bytes) → put_file (put_file files name f) name g n ≡ put_file files name g n
    at_name n = ground arith

-- The entry of a write undoes any first part of it.
pub restored-write :
    (files : Files) (name : Bytes) (f : File) (offset total : ℕ) (chunk : Bytes)
    → files name ≡ some f
    → length chunk ≤ total
    → restored
        (entry_of f name offset total)
        (put_file files name (some (record f { content = pwrite f.content offset chunk })))
      ≡ files
restored-write files name f offset total chunk h le =
    simp (restored, same_name_self name)
      (ap
          (λ (c : Bytes).
            put_file
              (put_file files name (some (record f { content = pwrite f.content offset chunk })))
              name (some (record f { content = c })))
          (restore_content f offset total chunk le)
        ∙ put_file_twice files name (some (record f { content = pwrite f.content offset chunk }))
            (some f)
        ∙ put_back files name f h)

-- What `write_target` has checked when it comes to its record.
pub record IsChecked (place : Place) (files : Files) (name : Bytes) (f : File) (offset total : ℕ)
    : Type 0 where
  pub valid : name_valid name ≡ true
  pub not_blob : starts_with blobs_prefix name ≡ false
  pub no_nul : has_byte 0 name ≡ false
  pub total_le : total ≤ max_write
  pub offset_le : offset ≤ int64_max - total
  pub there : files name ≡ some f
  pub file : IsFile f
  pub not_journal : (f.dev == place.journal_dev && f.ino == place.journal_ino) ≡ false

name_short : (name : Bytes) → name_valid name ≡ true → length name ≤ 4095
unfolding name_valid
name_short name h = ground arith

pub entry_of-IsReadable :
    (place : Place) (files : Files) (name : Bytes) (f : File) (offset total : ℕ)
    → IsChecked place files name f offset total
    → IsReadable place files (entry_of f name offset total)
entry_of-IsReadable place files name f offset total c =
    let before = length-before f offset total in
    let le = before_size_le f offset total in
    let file = c.file in
    record {
      valid = c.valid;
      not_blob = c.not_blob;
      no_nul = c.no_nul;
      name_short = name_short name c.valid;
      before_short = omega (arith, before, le.0, c.total_le);
      offset_le = omega (arith, c.offset_le);
      size_le = file.size_le;
      inside = ground (arith, before, le.1);
      dev_lt = file.dev_lt;
      ino_lt = file.ino_lt;
      file = f;
      there = c.there;
      same_dev = refl;
      same_ino = refl;
      not_journal = c.not_journal;
    }

-- The bytes of a range in a file that fits leave a file that fits.
pub put_file-AllFit :
    (place : Place) (files : Files) (name : Bytes) (f : File) (offset total : ℕ) (chunk : Bytes)
    → AllFit files
    → IsChecked place files name f offset total
    → length chunk ≤ total
    → AllFit (put_file files name (some (record f { content = pwrite f.content offset chunk })))
put_file-AllFit place files name f offset total chunk fit c le n g h =
    elim (Bool-cases (same_name n name)) [
      | inl same ↦
          subst IsFile (some_inj (sym (here n same) ∙ h))
            (record { dev_lt = file.dev_lt; ino_lt = file.ino_lt; size_le = size chunk le })
      | inr other ↦ fit n g (sym (there n other) ∙ h)
    ]
  where
    file : IsFile f
    file = c.file

    written : File
    written = record f { content = pwrite f.content offset chunk }

    here :
        (n : Bytes) → same_name n name ≡ true → put_file files name (some written) n ≡ some written
    here n same = rw same refl

    there : (n : Bytes) → same_name n name ≡ false → put_file files name (some written) n ≡ files n
    there n other = rw other refl

    some_inj : {a b : File} → some a ≡ some b → a ≡ b
    some_inj e = cc

    size :
        (chunk : Bytes) → length chunk ≤ total → length (pwrite f.content offset chunk) ≤ int64_max
    size [] le = rw (pwrite-nil f.content offset) (file.size_le)
    size (b ∷ chunk) le =
        omega
          (arith, length-pwrite f.content offset (b ∷ chunk), file.size_le, c.offset_le, c.total_le)
