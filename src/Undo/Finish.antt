-- ===== src/Undo/Finish.antt =====
-- Commit, abort and recovery in server/undo_journal.c: the journal is read back and either the files
-- are restored from it, the newest entry first, or they stay as they are; then the transaction is
-- marked resolved, and the journal is removed.
use dataman.Base.{
  ℕ, suc, ◌+◌, Bool, true, false, not, Option, none, some, List, [], ◌∷◌, ◌==◌, if◌then◌else◌, take,
  drop,
}
use dataman.Storage.{Bytes, pwrite, ftruncate}
use dataman.Undo.Wire.{get32}
use dataman.Undo.Record.{resolved_record}
use dataman.Undo.State.{
  type_blob_stream, blob_meta, File, Files, put_file, Disk, Place, Tx, invalid, missing, system,
  Result, ok, fail, Answer, Faults, stopped,
}
use dataman.Undo.Write.{append, refuse}
use dataman.Undo.Scan.{UndoEntry, BlobEntry, Entry, undo, blob, blob_stream}
use dataman.Undo.ScanLoop.{scan}

-- Where the system fails while one entry is handled: the write of its bytes, the change of the size
-- (for a blob, of its owner and mode too), and the sync.
pub record EntryFaults : Type 0 where
  pub write_stop : Option ℕ
  pub truncates : Bool
  pub syncs : Bool
  -- what a blob that has to be created again gets
  pub created : File

-- Where the system fails in `finish`; `entry n` is for the n-th entry that is handled.
pub record FinishFaults : Type 0 where
  pub entry : ℕ → EntryFaults
  -- the cut of the journal's incomplete end, and its sync
  pub cuts : Bool
  pub cut_syncs : Bool
  pub append : Faults
  pub unlinks : Bool
  pub syncs : Bool

-- The bytes of a range, and then the size.
unfoldable pub restore_undo : EntryFaults → UndoEntry → Files → Bool × Files
restore_undo faults e files = elim (files e.name) [
  | none ↦ (false, files)
  | some f ↦
      let written = pwrite f.content e.offset (stopped faults.write_stop e.before) in
      let put =
        λ (content : Bytes). put_file files e.name (some (record f { content = content })) in
      elim faults.write_stop [
        | some n ↦ (false, put written)
        | none ↦
            if faults.truncates
            then (faults.syncs, put (ftruncate written e.size))
            else (false, put written)
      ]
]

-- What a blob held: from its chunks in the journal, or from a record of the third version.
unfoldable pub blob_content : Bytes → BlobEntry → Result Bytes
blob_content journal e =
    if e.type == type_blob_stream
    then blob_stream e.size journal e.stream e.size
    else ok (take e.size (drop blob_meta e.meta))

-- The file that `blob_current` finds, or the one that `openat` creates; a second link is refused.
abbrev pub blob_target : EntryFaults → Option File → Option File
blob_target faults none = some faults.created
blob_target faults (some f) = if f.links == 1 then some f else none

unfoldable pub restore_blob : EntryFaults → Bytes → BlobEntry → Files → Bool × Files
restore_blob faults journal e files =
    if e.present == 0
    then (faults.syncs, put_file files e.name none)
    else elim (blob_target faults (files e.name)) [
      | none ↦ (false, files)
      | some f ↦ elim (blob_content journal e) [
        | fail x ↦ (false, put_file files e.name (some f))
        | ok content ↦
            let written = pwrite f.content 0 (stopped faults.write_stop content) in
            let put = λ (g : File). put_file files e.name (some g) in
            elim faults.write_stop [
              | some n ↦ (false, put (record f { content = written }))
              | none ↦
                  if faults.truncates
                  then (
                    faults.syncs,
                    put (record f {
                      content = ftruncate written e.size;
                      uid = get32 e.meta 4;
                      gid = get32 e.meta 8;
                      mode = get32 e.meta 0;
                    }),
                  )
                  else (false, put (record f { content = written }))
            ]
      ]
    ]

-- One round of the loop of `finish`. A commit only syncs.
unfoldable pub settle : Bool → EntryFaults → Bytes → Entry → Files → Bool × Files
settle false faults journal e files = (faults.syncs, files)
settle true faults journal (undo e) files = restore_undo faults e files
settle true faults journal (blob e) files = restore_blob faults journal e files

-- The loop over the entries, the newest first; it ends at the first failure.
unfoldable pub settle_all : Bool → FinishFaults → ℕ → Bytes → List Entry → Files → Bool × Files
settle_all undoing faults n journal [] files = (true, files)
settle_all undoing faults n journal (e ∷ entries) files =
    let (done, files') = settle undoing (faults.entry n) journal e files in
    let rest = settle_all undoing faults (suc n) journal entries files' in
    if done then rest else (false, files')

-- `retire`
unfoldable pub retire : FinishFaults → Tx → Disk → Answer
retire faults tx disk =
    if not faults.unlinks
    then refuse system tx disk
    else if faults.syncs
    then record { result = ok tt; tx = tx; disk = record disk { journal = none } }
    else refuse system tx (record disk { journal = none })

-- `resolve`
unfoldable pub resolve : FinishFaults → Tx → Disk → Answer
resolve faults tx disk =
    let (safe, tx', disk') = append faults.append tx disk (resolved_record (tx.sequence + 1)) in
    if safe then retire faults tx' disk' else refuse system tx' disk'

-- `finish` on an open journal.
unfoldable pub finish_journal : Bool → FinishFaults → Place → Bytes → Tx → Disk → Answer
finish_journal undoing faults place journal tx disk = elim (scan place disk.files journal) [
  | fail e ↦ refuse e tx disk
  | ok log ↦
      let tx' = record tx { end = log.end; sequence = log.sequence } in
      let (done, files) = settle_all undoing faults 0 journal log.entries disk.files in
      if log.resolved
      then retire faults tx' disk
      else if not done
      then refuse system tx' (record disk { files = files })
      else if not faults.cuts
      then refuse system tx' (record disk { files = files })
      else if faults.cut_syncs
      then resolve faults tx' (record { files = files; journal = some (ftruncate journal log.end) })
      else refuse system tx' (record { files = files; journal = some (ftruncate journal log.end) })
]

unfoldable pub finish : Bool → FinishFaults → Place → Tx → Disk → Answer
finish undoing faults place tx disk = elim disk.journal [
  | none ↦ refuse missing tx disk
  | some journal ↦ finish_journal undoing faults place journal tx disk
]

-- `dm_undo_commit`
unfoldable pub commit : FinishFaults → Place → Tx → Disk → Answer
commit faults place tx disk =
    if not (tx.state == 0)
    then refuse invalid tx disk
    else finish false faults place (record tx { state = 2 }) disk

-- `dm_undo_abort`
unfoldable pub abort : FinishFaults → Place → Tx → Disk → Answer
abort faults place tx disk =
    if tx.state == 2
    then refuse invalid tx disk
    else finish true faults place (record tx { state = 2 }) disk

-- The transaction that `open_directory` makes.
abbrev pub opened : Tx
opened = record { state = 0; sequence = 0; end = 56; blobs = [] }

-- `dm_undo_recover`: with no journal there is nothing to do but to sync the directory.
unfoldable pub recover : FinishFaults → Place → Disk → Answer
recover faults place disk = elim disk.journal [
  | none ↦
      if faults.syncs
      then record { result = ok tt; tx = opened; disk = disk }
      else refuse system opened disk
  | some journal ↦ finish true faults place opened disk
]
