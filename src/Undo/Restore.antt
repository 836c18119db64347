-- ===== src/Undo/Restore.antt =====
-- What `finish` of server/undo_journal.c restores: the before-image of a write brings the file back,
-- whatever part of the write was put down.
use dataman.Base.{
  ℕ, suc, ◌+◌, ◌-◌, ◌≤◌, ◌≡◌, refl, ap, sym, ◌∙◌, true, none, some, List, [], ◌∷◌, ◌++◌, arith,
  length, drop, Bool-cases, ◌⊎◌, inl, inr, All, length-take, length-drop,
}
use dataman.Storage.{Bytes, pwrite, pread, ftruncate}
use dataman.Storage.Content.{
  byte, content_ext, byte_past, byte-pwrite, byte-ftruncate, length-ftruncate, byte-pread,
}
use dataman.Undo.Names.{same_name, same_name_iff}
use dataman.Undo.State.{File, Files, Place, put_file}
use dataman.Undo.Scan.{UndoEntry, Entry, undo}
use dataman.Undo.ScanUndo.{IsReadable}
use dataman.Undo.ScanLog.{stack}
use dataman.Undo.Write.{before_size}
use dataman.Undo.Finish.{EntryFaults, FinishFaults, restore_undo, settle, settle_all}

-- The before-image reaches to the end of the file or of the range.
pub before_size_cases :
    (f : File) (offset total : ℕ)
    → (before_size f offset total ≡ total)
      ⊎ (length f.content ≤ offset + before_size f offset total)
unfolding before_size
before_size_cases f offset total = ground arith

pub before_size_le :
    (f : File) (offset total : ℕ)
    → (before_size f offset total ≤ total)
      × (before_size f offset total ≤ length f.content - offset)
unfolding before_size
before_size_le f offset total = ground arith

pub length-before :
    (f : File) (offset total : ℕ)
    → length (pread f.content offset (before_size f offset total)) ≡ before_size f offset total
length-before f offset total = omega (
  arith,
  length-take (before_size f offset total) (drop offset f.content),
  length-drop offset f.content,
  (before_size_le f offset total).1,
)

-- Writing a part of a range, then the before-image of the range, then the old size.
pub restore_content :
    (f : File) (offset total : ℕ) (chunk : Bytes)
    → length chunk ≤ total
    → ftruncate
        (pwrite
          (pwrite f.content offset chunk)
          offset
          (pread f.content offset (before_size f offset total)))
        (length f.content)
      ≡ f.content
restore_content f offset total chunk h =
    let c = f.content in
    let n = before_size f offset total in
    content_ext _ c (length-ftruncate _ (length c)) (λ p.
      let same : offset ≤ p → byte c (offset + (p - offset)) ≡ byte c p =
        λ le. let e : offset + (p - offset) ≡ p = omega arith in ap (byte c) e in
      ground (
        arith,
        byte-ftruncate (pwrite (pwrite c offset chunk) offset (pread c offset n)) (length c) p,
        byte-pwrite (pwrite c offset chunk) offset (pread c offset n) p,
        byte-pwrite c offset chunk p,
        byte-pread c offset n (p - offset),
        length-before f offset total,
        byte_past c p,
        before_size_cases f offset total,
        same,
      ))

-- An entry put back, with no failure.
abbrev pub restored : UndoEntry → Files → Files
restored e files = elim (files e.name) [
  | none ↦ files
  | some f ↦
      put_file files e.name
        (some (record f { content = ftruncate (pwrite f.content e.offset e.before) e.size }))
]

-- A log of entries put back, the newest first; the list has the oldest first.
abbrev pub undone : List UndoEntry → Files → Files
undone [] files = files
undone (e ∷ log) files = restored e (undone log files)

pub undone-append :
    (log more : List UndoEntry) (files : Files)
    → undone (log ++ more) files ≡ undone log (undone more files)
undone-append [] more files = refl
undone-append (e ∷ log) more files = ap (restored e) (undone-append log more files)

-- An entry stays readable where its name leads to a file of the same identity.
IsReadable-in :
    (place : Place) (files files' : Files) (x : UndoEntry) (r : IsReadable place files x) (g : File)
    → files' x.name ≡ some g
    → g.dev ≡ r.file.dev
    → g.ino ≡ r.file.ino
    → IsReadable place files' x
IsReadable-in place files files' x r g there dev ino = record {
  valid = r.valid;
  not_blob = r.not_blob;
  no_nul = r.no_nul;
  name_short = r.name_short;
  before_short = r.before_short;
  offset_le = r.offset_le;
  size_le = r.size_le;
  inside = r.inside;
  dev_lt = r.dev_lt;
  ino_lt = r.ino_lt;
  file = g;
  there = there;
  same_dev = dev ∙ r.same_dev;
  same_ino = ino ∙ r.same_ino;
  not_journal = rw (dev, ino) (r.not_journal);
}

pub put_file-IsReadable :
    (place : Place) (files : Files) (name : Bytes) (f : File) (content : Bytes) (x : UndoEntry)
    → files name ≡ some f
    → IsReadable place files x
    → IsReadable place (put_file files name (some (record f { content = content }))) x
put_file-IsReadable place files name f content x h r =
    let files' = put_file files name (some (record f { content = content })) in
    elim (Bool-cases (same_name x.name name)) [
      | inl same ↦
          (let found : some f ≡ some r.file =
              sym (ap files ((same_name_iff x.name name).0 same) ∙ h) ∙ r.there in
            let same_file : f ≡ r.file = cc in
            IsReadable-in place files files' x r (record f { content = content }) (rw same refl)
              (ap (λ (g : File). g.dev) same_file) (ap (λ (g : File). g.ino) same_file))
      | inr other ↦ IsReadable-in place files files' x r r.file (rw other (r.there)) refl refl
    ]

pub restored-IsReadable :
    (place : Place) (files : Files) (e x : UndoEntry)
    → IsReadable place files e
    → IsReadable place files x
    → IsReadable place (restored e files) x
restored-IsReadable place files e x re rx =
    rw (restored, re.there) (put_file-IsReadable place files e.name _ _ x (re.there) rx)

pub restored-All :
    (place : Place) (files : Files) (e : UndoEntry) (log : List UndoEntry)
    → IsReadable place files e
    → All (IsReadable place files) log
    → All (IsReadable place (restored e files)) log
restored-All place files e [] re all = tt
restored-All place files e (x ∷ log) re all =
    (restored-IsReadable place files e x re all.0, restored-All place files e log re all.1)

pub undone-All :
    (place : Place) (files : Files) (log more : List UndoEntry)
    → All (IsReadable place files) log
    → All (IsReadable place files) more
    → All (IsReadable place (undone log files)) more
undone-All place files [] more all wanted = wanted
undone-All place files (e ∷ log) more all wanted =
    let rest = undone-All place files log more all.1 wanted in
    let one = undone-All place files log (e ∷ []) all.1 (all.0, tt) in
    restored-All place (undone log files) e more one.0 rest

-- No failure in any round.
abbrev pub calm_entry : File → EntryFaults
calm_entry created = record { write_stop = none; truncates = true; syncs = true; created = created }

settle_undo :
    (place : Place) (faults : EntryFaults) (journal : Bytes) (e : UndoEntry) (files : Files)
    → IsReadable place files e
    → (faults.write_stop ≡ none) × (faults.truncates ≡ true) × (faults.syncs ≡ true)
    → settle true faults journal (undo e) files ≡ (true, restored e files)
unfolding settle restore_undo
settle_undo place faults journal e files r (w, t, s) =
    simp (restored, restore_undo, r.there, w, t, s) refl

-- The loop of `finish` over a log does what `undone` does.
pub settle_all-stack :
    (place : Place) (faults : FinishFaults) (n : ℕ) (journal : Bytes) (log : List UndoEntry)
    (entries : List Entry) (files : Files)
    → ((m : ℕ)
        → ((faults.entry m).write_stop ≡ none)
          × ((faults.entry m).truncates ≡ true)
          × ((faults.entry m).syncs ≡ true))
    → All (IsReadable place files) log
    → settle_all true faults n journal (stack log entries) files
      ≡ settle_all true faults (n + length log) journal entries (undone log files)
unfolding settle_all
settle_all-stack place faults n journal [] entries files calm all =
    let e : n ≡ n + 0 = omega arith in
    ap (λ (m : ℕ). settle_all true faults m journal entries files) e
settle_all-stack place faults n journal (e ∷ log) entries files calm all =
    let one = undone-All place files log (e ∷ []) all.1 (all.0, tt) in
    let count : suc (n + length log) ≡ n + suc (length log) = omega arith in
    settle_all-stack place faults n journal log (undo e ∷ entries) files calm all.1
    ∙ rw
        (settle_undo place (faults.entry (n + length log)) journal e (undone log files) one.0
          (calm (n + length log)))
        (ap (λ (m : ℕ). settle_all true faults m journal entries (restored e (undone log files)))
          count)
