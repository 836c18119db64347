-- ===== src/Session/Dispatch.antt =====
-- server/transaction_dispatch.c, and the routing of blobs in server/transaction_session.c: the
-- absolute paths of a request become names below the database root.
use dataman.Base.{
  ℕ, Bool, true, false, not, ◌&&◌, ◌||◌, Option, none, some, List, [], ◌∷◌, ◌==◌, length, drop,
  if◌then◌else◌,
}
use dataman.Storage.{Bytes}
use dataman.Undo.Names.{starts_with, parts}
use dataman.Undo.State.{Place}
use dataman.Undo.Blob.{BlobOperation, replaced, removed, renamed, BlobFaults, undo_blob}
use dataman.Session.{
  Code, done, bad_message, Target, Session, is_owner, has_owner, scope_of, is_ok, enter, complete,
}

-- What is behind the root and a slash; the root "/" is its own slash.
abbrev pub behind_root : Bytes → Bytes → Option Bytes
behind_root root rest =
    if length root == 1
    then some rest
    else elim rest [ [] ↦ none | c ∷ name ↦ if c == b'/' then some name else none ]

-- `relative_blob`
unfoldable pub relative_of : Bytes → Bytes → Option Bytes
relative_of root path =
    if not (starts_with (b'/' ∷ []) path) || not (starts_with root path)
    then none
    else behind_root root (drop (length root) path)

-- Not empty, and neither `.` nor `..`.
unfoldable pub plain_part : Bytes → Bool
plain_part [] = false
plain_part (a ∷ []) = not (a == b'.')
plain_part (a ∷ b ∷ []) = not (a == b'.' && b == b'.')
plain_part (a ∷ b ∷ c ∷ part) = true

unfoldable pub plain_parts : List Bytes → Bool
unfolding plain_part
plain_parts [] = true
plain_parts (part ∷ rest) = plain_part part && plain_parts rest

-- One file of `bind_owner`: its parts between the slashes are not empty, "." or "..".
unfoldable pub bind_file : Bytes → Target → Option Target
unfolding relative_of parts plain_parts
bind_file root file = elim (relative_of root file.path) [
  | none ↦ none
  | some name ↦
      if plain_parts (parts name) then some (record { fd = file.fd; path = name }) else none
]

-- The loop of `bind_owner`.
unfoldable pub bind_files : Bytes → List Target → Option (List Target)
unfolding bind_file
bind_files root [] = some []
bind_files root (file ∷ files) =
    let rest = bind_files root files in
    elim (bind_file root file) [
      | none ↦ none
      | some target ↦ elim rest [ none ↦ none | some targets ↦ some (target ∷ targets) ]
    ]

-- `bind_owner`
unfoldable pub bind_owner : ℕ → Bytes → ℕ → List Target → Session → Code × Session
unfolding bind_files enter
bind_owner t root shmid files s = elim (bind_files root files) [
  | none ↦ (bad_message, s)
  | some targets ↦ enter t shmid targets s
]

abbrev pub is_done : Code → Bool
is_done done = true
is_done _ = false

-- `dm_tx_dispatch`, with what the handler does to the session and whether its result is negative.
unfoldable pub dispatch :
    ℕ → Bytes → ℕ → List Target → (Session → Bool × Session) → Session → Bool × Session
unfolding bind_owner complete
dispatch t root shmid files handler s =
    let r = bind_owner t root shmid files s in
    let h = handler r.1 in if is_done r.0 then (h.0, complete t h.0 h.1) else (true, r.1)

-- The operation with names below the root.
unfoldable pub relative_operation : Bytes → BlobOperation → Option BlobOperation
unfolding relative_of
relative_operation root (replaced content) = some (replaced content)
relative_operation root removed = some removed
relative_operation root (renamed dest) = elim (relative_of root dest) [
  | none ↦ none
  | some name ↦ some (renamed name)
]

-- What `route_blob` answers: an error, that the caller changes the blob itself, or that it is done.
pub data BlobRoute : Type 0 where
  blob_error unrouted blob_done : BlobRoute

-- The blob through the journal.
unfoldable pub blob_through :
    BlobFaults → Place → Bytes → BlobOperation → Session → BlobRoute × Session
unfolding relative_of relative_operation undo_blob
blob_through faults place path operation s = elim (relative_of place.root path) [
  | none ↦ (blob_error, record s { failed = true })
  | some name ↦ elim (relative_operation place.root operation) [
    | none ↦ (blob_error, record s { failed = true })
    | some operation' ↦
        let a = undo_blob faults place name operation' s.tx s.disk in
        if is_ok a.result
        then (blob_done, record s { tx = a.tx; disk = a.disk })
        else (blob_error, record s { tx = a.tx; disk = a.disk; failed = true })
  ]
]

-- `route_blob`
unfoldable pub route_blob :
    BlobFaults → Place → ℕ → Bytes → BlobOperation → Session → BlobRoute × Session
unfolding blob_through
route_blob faults place t path operation s =
    if s.blocked then (blob_error, s) else elim (scope_of t s.scopes) [
      | none ↦ if has_owner s.owner then (blob_error, s) else (unrouted, s)
      | some c ↦
          if not (is_owner s.owner c.shmid && c.generation == s.generation)
          then (blob_error, s)
          else if s.failed
          then (blob_error, s)
          else blob_through faults place path operation s
    ]
