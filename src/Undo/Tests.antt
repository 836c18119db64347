-- ===== src/Undo/Tests.antt =====
-- Runs of the undo journal of server/undo_journal.c, and its properties at a concrete transaction: a
-- file of five bytes below the root /db, and writes that change and lengthen it.
use dataman.Base.Int.{pos}
use dataman.Base.{
  ◌≡◌, refl, true, false, none, some, List, [], ◌∷◌, ◌++◌, arith, if◌then◌else◌, inl, inr,
  Bool-cases, ◌≢◌, subst, sym, ◌∙◌,
}
use dataman.Storage.{Bytes}
use dataman.Undo.Wire.{get32, get64, put32, put64, get32-put32, get64-put64}
use dataman.Undo.Names.{name_valid, parts, parts_valid, same_name}
use dataman.Undo.State.{File, Files, Place, Tx, Disk, ok, no_faults}
use dataman.Undo.Record.{chunks}
use dataman.Undo.Chunks.{blob_stream-chunks}
use dataman.Undo.Scan.{blob_stream}
use dataman.Undo.Write.{write_target, request_valid, target_error, before_size}
use dataman.Undo.Finish.{FinishFaults, commit, abort, recover}
use dataman.Undo.Begin.{BeginFaults, begin}
use dataman.Undo.Active.{IsFile, AllFit, IsRecoverable, IsActive, active-IsRecoverable}
use dataman.Undo.WriteTarget.{write_target-IsRecoverable, write_target-IsActive}
use dataman.Undo.Applies.{IsAccepted, accepted-succeeds, IsWritten, write_target-IsWritten}
use dataman.Undo.Opening.{IsPlace, begin-IsActive}
use dataman.Undo.Recover.{IsCalm, recover_restores, abort_restores, commit_keeps}
use dataman.Undo.Crash.{Request, writes, crash_safety}

-- "a"
abbrev name_a : Bytes
name_a = 97 ∷ []

abbrev five : File
five = record {
  content = 1 ∷ 2 ∷ 3 ∷ 4 ∷ 5 ∷ [];
  dev = 1;
  ino = 20;
  mode = 0o600;
  uid = 0;
  gid = 0;
  links = 1;
  extended = false;
}

abbrev one_file : Files
one_file n = if same_name n name_a then some five else none

abbrev start : Disk
start = record { files = one_file; journal = none }

-- The root is "/db".
abbrev place : Place
place = record {
  journal_dev = 1;
  journal_ino = 9;
  dir_dev = 1;
  dir_ino = 8;
  root = 0x2f ∷ 0x64 ∷ 0x62 ∷ [];
  root_dev = 1;
  root_ino = 7;
  blobs_dev = 1;
  blobs_ino = 6;
  blobs_extended = false;
}

abbrev good_begin : BeginFaults
good_begin = record { opens = true; header_stop = none; path_stop = none; syncs = true }

abbrev fresh_tx : Tx
fresh_tx = record { state = 0; sequence = 0; end = 59; blobs = [] }

abbrev calm : FinishFaults
calm = record {
  entry = λ n. record { write_stop = none; truncates = true; syncs = true; created = five };
  cuts = true;
  cut_syncs = true;
  append = no_faults;
  unlinks = true;
  syncs = true;
}

calm-IsCalm : IsCalm calm
calm-IsCalm = record {
  entries = λ m. (refl, refl, refl);
  cuts = refl;
  cut_syncs = refl;
  appends = refl;
  append_syncs = refl;
  unlinks = refl;
  syncs = refl;
}

place-IsPlace : IsPlace place
place-IsPlace = record {
  absolute = refl;
  no_nul = refl;
  not_empty = omega arith;
  short = omega arith;
  dir_dev_lt = omega arith;
  dir_ino_lt = omega arith;
  root_dev_lt = omega arith;
  root_ino_lt = omega arith;
}

five-IsFile : IsFile five
five-IsFile = record { dev_lt = omega arith; ino_lt = omega arith; size_le = omega arith }

one_file-AllFit : AllFit one_file
one_file-AllFit n f h = elim (Bool-cases (same_name n name_a)) [
  | inl same ↦ subst IsFile (some_inj (sym (here n same) ∙ h)) five-IsFile
  | inr other ↦ absurd (none_some f (sym (gone n other) ∙ h))
]
  where
    some_inj : {a b : File} → some a ≡ some b → a ≡ b
    some_inj e = cc

    none_some : (f : File) → none ≢ some f
    none_some f e = cc

    here : (n : Bytes) → same_name n name_a ≡ true → one_file n ≡ some five
    here n same = rw same refl

    gone : (n : Bytes) → same_name n name_a ≡ false → one_file n ≡ none
    gone n other = rw other refl

-- Two bytes over the end of the file go well; the second write stops after one byte.
abbrev two_writes : List Request
two_writes =
    record { faults = no_faults; name = name_a; fd = none; buffer = 7 ∷ 8 ∷ []; offset = pos 4 }
    ∷ record {
      faults = record no_faults { data_stop = some 1 };
      name = name_a;
      fd = none;
      buffer = 9 ∷ 9 ∷ 9 ∷ [];
      offset = pos 1;
    }
    ∷ []

begun : (begin good_begin place start).0 ≡ ok fresh_tx
unfolding begin
begun = refl

abbrev begun_disk : Disk
begun_disk = (begin good_begin place start).1

begun-IsActive : IsActive place one_file fresh_tx begun_disk
begun-IsActive = begin-IsActive place good_begin start fresh_tx place-IsPlace one_file-AllFit begun

begun-IsRecoverable : IsRecoverable place one_file begun_disk
begun-IsRecoverable = active-IsRecoverable place one_file fresh_tx begun_disk begun-IsActive.logged

accepted : IsAccepted place fresh_tx begun_disk name_a none five 2 4
unfolding request_valid name_valid parts parts_valid target_error before_size begin
accepted = record {
  active = refl;
  valid = refl;
  there = refl;
  caller = refl;
  not_empty = omega arith;
  room = omega arith;
  numbers = omega arith;
}

written_well :
    (write_target no_faults place name_a none (7 ∷ 8 ∷ []) (pos 4) fresh_tx begun_disk).result
    ≡ ok tt
written_well = accepted-succeeds place fresh_tx begun_disk name_a none five (7 ∷ 8 ∷ []) 4 accepted

crash_safety_example :
    let crashed = (writes place two_writes fresh_tx begun_disk).disk in
    ((recover calm place crashed).result ≡ ok tt)
    × ((recover calm place crashed).disk ≡ record { files = one_file; journal = none })
crash_safety_example =
    crash_safety place good_begin start fresh_tx two_writes calm place-IsPlace one_file-AllFit begun
      (refl, (refl, tt)) calm-IsCalm

begin-IsActive_example : IsActive place one_file fresh_tx (begin good_begin place start).1
begin-IsActive_example =
    begin-IsActive place good_begin start fresh_tx place-IsPlace one_file-AllFit begun

write_target-IsRecoverable_example :
    IsRecoverable place one_file
      (write_target
        (record no_faults { record_stop = some 40 })
        place
        name_a
        none
        (7 ∷ 8 ∷ [])
        (pos 4)
        fresh_tx
        begun_disk).disk
write_target-IsRecoverable_example =
    write_target-IsRecoverable place one_file (record no_faults { record_stop = some 40 }) fresh_tx
      begun_disk name_a none (7 ∷ 8 ∷ []) (pos 4) begun-IsActive.logged refl

write_target-IsActive_example :
    IsActive place one_file
      (write_target no_faults place name_a none (7 ∷ 8 ∷ []) (pos 4) fresh_tx begun_disk).tx
      (write_target no_faults place name_a none (7 ∷ 8 ∷ []) (pos 4) fresh_tx begun_disk).disk
write_target-IsActive_example =
    write_target-IsActive place one_file no_faults fresh_tx begun_disk name_a none (7 ∷ 8 ∷ [])
      (pos 4) begun-IsActive refl written_well

write_target-IsWritten_example :
    IsWritten begun_disk.files name_a
      (7 ∷ 8 ∷ [])
      4
      (write_target no_faults place name_a none (7 ∷ 8 ∷ []) (pos 4) fresh_tx begun_disk).disk.files
    × ((write_target no_faults place name_a none (7 ∷ 8 ∷ []) (pos 4) fresh_tx begun_disk).tx.state
        ≡ 0)
write_target-IsWritten_example =
    write_target-IsWritten no_faults place name_a none (7 ∷ 8 ∷ []) (pos 4) fresh_tx begun_disk
      (omega arith) written_well

recover_restores_example :
    ((recover calm place begun_disk).result ≡ ok tt)
    × ((recover calm place begun_disk).disk ≡ record { files = one_file; journal = none })
recover_restores_example =
    recover_restores place one_file calm begun_disk begun-IsRecoverable calm-IsCalm

abbrev failed_tx : Tx
failed_tx = record fresh_tx { state = 1 }

abort_restores_example :
    ((abort calm place failed_tx begun_disk).result ≡ ok tt)
    × ((abort calm place failed_tx begun_disk).disk ≡ record { files = one_file; journal = none })
abort_restores_example =
    abort_restores place one_file calm failed_tx begun_disk refl begun-IsRecoverable calm-IsCalm

commit_keeps_example :
    ((commit calm place fresh_tx begun_disk).result ≡ ok tt)
    × ((commit calm place fresh_tx begun_disk).disk
        ≡ record { files = begun_disk.files; journal = none })
commit_keeps_example =
    commit_keeps place one_file calm fresh_tx begun_disk refl begun-IsRecoverable calm-IsCalm

get32-put32_example : get32 ((5 ∷ []) ++ (put32 70000 ++ (1 ∷ []))) 1 ≡ 70000
get32-put32_example = get32-put32 (5 ∷ []) (1 ∷ []) 70000 (omega arith)

get64-put64_example : get64 ((5 ∷ []) ++ (put64 70000000000 ++ (1 ∷ []))) 1 ≡ 70000000000
get64-put64_example = get64-put64 (5 ∷ []) (1 ∷ []) 70000000000 (omega arith)

-- The chunks of three bytes behind one other byte.
abbrev chunk_journal : Bytes
chunk_journal = 5 ∷ (chunks 3 (1 ∷ 2 ∷ 3 ∷ []) ++ (9 ∷ []))

blob_stream-chunks_example : blob_stream 3 chunk_journal 1 3 ≡ ok (1 ∷ 2 ∷ 3 ∷ [])
blob_stream-chunks_example =
    blob_stream-chunks (1 ∷ 2 ∷ 3 ∷ []) chunk_journal (9 ∷ []) 1 3 3 (omega arith) (omega arith)
      refl
