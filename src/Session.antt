-- ===== src/Session.antt =====
-- server/transaction_session.c: which threads may write while one session has a transaction. Each
-- function runs under `tx_mutex`; a thread's own variables stand in lists by thread.
mod Orderly
mod Tests
pub mod Steps
mod Reachable
pub mod Dispatch
pub mod Bound
use dataman.Base.Int.{ℤ, pos, negsuc}
use dataman.Base.{
  ℕ, ◌+◌, ◌^◌, ◌-◌, Bool, true, false, not, ◌&&◌, ◌||◌, Option, none, some, List, [], ◌∷◌, ◌==◌,
  leb, if◌then◌else◌,
}
use dataman.Storage.{Bytes, pwrite}
use dataman.Undo.State.{File, Files, put_file, Disk, Place, Tx, Result, ok, fail, Faults, stopped}
use dataman.Undo.Write.{Fd, write_target}
use dataman.Undo.Begin.{BeginFaults}
use dataman.Undo.Finish.{FinishFaults}

-- 0, EROLLBACK, ENOLOCK, ENOXACT, EINXACT, EINVMSG, ERECWRT, EMULTIPLE
pub data Code : Type 0 where
  done rolled_back no_lock no_transaction in_transaction bad_message not_written unknown : Code

-- `dm_tx_target`; a path that is null or empty is `[]`.
pub record Target : Type 0 where
  pub fd : ℤ
  pub path : Bytes

-- A thread's `scope` while it is active.
pub record Scope : Type 0 where
  pub thread : ℕ
  pub shmid : ℕ
  pub generation : ℕ
  pub targets : List Target

-- The variables of the file: `owner` is `none` for -1. `writers` are the threads in a direct write, so
-- that `direct_writers` is their number; `requests` are those with `request_active`, and
-- `active_requests` is their number; `scopes` are the active scopes. `tx` is the journal's transaction.
pub record Session : Type 0 where
  pub configured : Bool
  pub owner : Option ℕ
  pub failed : Bool
  pub blocked : Bool
  pub generation : ℕ
  pub writers : List ℕ
  pub requests : List ℕ
  pub owner_request : Bool
  pub scopes : List Scope
  pub tx : Tx
  pub disk : Disk

abbrev pub member : ℕ → List ℕ → Bool
member t [] = false
member t (u ∷ threads) = t == u || member t threads

-- The list without one occurrence of a thread.
abbrev pub without : ℕ → List ℕ → List ℕ
without t [] = []
without t (u ∷ threads) = if t == u then threads else u ∷ without t threads

abbrev pub is_none_left {ℓ} : {A : Type ℓ} → List A → Bool
is_none_left [] = true
is_none_left (x ∷ xs) = false

abbrev pub scope_of : ℕ → List Scope → Option Scope
scope_of t [] = none
scope_of t (c ∷ scopes) = if c.thread == t then some c else scope_of t scopes

abbrev pub drop_scope : ℕ → List Scope → List Scope
drop_scope t [] = []
drop_scope t (c ∷ scopes) = if c.thread == t then drop_scope t scopes else c ∷ drop_scope t scopes

abbrev pub is_owner : Option ℕ → ℕ → Bool
is_owner none shmid = false
is_owner (some o) shmid = o == shmid

abbrev pub has_owner : Option ℕ → Bool
has_owner none = false
has_owner (some o) = true

abbrev pub has_scope : ℕ → List Scope → Bool
has_scope t scopes = elim (scope_of t scopes) [ none ↦ false | some c ↦ true ]

-- `dm_tx_request_enter`
unfoldable pub request_enter : ℕ → Session → Code × Session
request_enter t s =
    if member t s.requests
    then (bad_message, s)
    else if s.blocked
    then (rolled_back, s)
    else if has_owner s.owner
    then (no_lock, s)
    else (done, record s { requests = t ∷ s.requests })

-- `dm_tx_request_leave`
unfoldable pub request_leave : ℕ → Session → Session
request_leave t s = record s { requests = without t s.requests }

abbrev pub same_fd : ℤ → ℤ → Bool
same_fd (pos a) (pos b) = a == b
same_fd (pos a) (negsuc b) = false
same_fd (negsuc a) (pos b) = false
same_fd (negsuc a) (negsuc b) = a == b

abbrev pub path_of : ℤ → List Target → Option Bytes
path_of fd [] = none
path_of fd (t ∷ targets) = if same_fd t.fd fd then some t.path else path_of fd targets

abbrev pub is_ok : Result (Unit {0}) → Bool
is_ok (ok u) = true
is_ok (fail e) = false

-- What `route_write` decides: an error, a write past the journal, or a write through it.
pub data Route : Type 0 where
  route_error direct : Route
  through : Option Bytes → Route

unfoldable pub route_of : ℕ → ℤ → Session → Route
route_of t fd s = if s.blocked then route_error else elim (scope_of t s.scopes) [
  | none ↦ if has_owner s.owner then route_error else direct
  | some c ↦
      if not (is_owner s.owner c.shmid && s.generation == c.generation)
      then route_error
      else if s.failed
      then route_error
      else through (path_of fd c.targets)
]

-- `route_write` up to its system call: a direct writer is counted, and writes with the mutex free.
unfoldable pub route_write : Faults → Place → ℕ → ℤ → Fd → Bytes → ℤ → Session → Bool × Session
unfolding route_of
route_write faults place t fd descriptor buffer offset s = elim (route_of t fd s) [
  | route_error ↦ (false, s)
  | direct ↦ (true, record s { writers = t ∷ s.writers })
  | through none ↦ (false, record s { failed = true })
  | through (some path) ↦
      let a = write_target faults place path (some descriptor) buffer offset s.tx s.disk in
      (
        is_ok a.result,
        record s { tx = a.tx; disk = a.disk; failed = s.failed || not (is_ok a.result) },
      )
]

-- The rest of a direct write: a first part of its bytes, or all of them, and the count.
unfoldable pub direct_end : ℕ → Bytes → ℕ → Bytes → Option ℕ → Session → Session
direct_end t name offset buffer stop s =
    let files : Files = elim (s.disk.files name) [
      | none ↦ s.disk.files
      | some f ↦
          put_file s.disk.files name
            (some (record f { content = pwrite f.content offset (stopped stop buffer) }))
    ] in
    if member t s.writers
    then record s { writers = without t s.writers; disk = record s.disk { files = files } }
    else s

-- Descriptors that are not negative and differ, and paths that are not empty.
abbrev pub negative : ℤ → Bool
negative (pos n) = false
negative (negsuc n) = true

abbrev pub fd_listed : ℤ → List Target → Bool
fd_listed fd [] = false
fd_listed fd (t ∷ targets) = same_fd fd t.fd || fd_listed fd targets

unfoldable pub targets_valid : List Target → Bool
targets_valid [] = true
targets_valid (t ∷ targets) =
    not (negative t.fd)
    && not (is_none_left t.path)
    && not (fd_listed t.fd targets)
    && targets_valid targets

-- `dm_tx_enter`
unfoldable pub enter : ℕ → ℕ → List Target → Session → Code × Session
unfolding targets_valid
enter t shmid targets s =
    if has_scope t s.scopes || not (targets_valid targets)
    then (bad_message, s)
    else if s.blocked
    then (rolled_back, s)
    else if not (is_owner s.owner shmid)
    then (no_transaction, s)
    else if s.failed
    then (not_written, s)
    else if s.owner_request
    then (no_lock, s)
    else (
      done,
      record s {
        owner_request = true;
        scopes =
            record { thread = t; shmid = shmid; generation = s.generation; targets = targets }
            ∷ s.scopes;
      },
    )

abbrev pub put_targets : ℕ → List Target → List Scope → List Scope
put_targets t targets [] = []
put_targets t targets (c ∷ scopes) =
    (if c.thread == t then record c { targets = targets } else c) ∷ put_targets t targets scopes

-- `dm_tx_bind`
unfoldable pub bind : ℕ → List Target → Session → Code × Session
unfolding targets_valid
bind t targets s =
    if not (has_scope t s.scopes) || not (targets_valid targets)
    then (bad_message, s)
    else (done, record s { scopes = put_targets t targets s.scopes })

-- `dm_tx_complete`, with whether its result is negative; `dm_tx_leave` has 0.
unfoldable pub complete : ℕ → Bool → Session → Session
complete t bad s =
    if has_scope t s.scopes
    then record s {
      failed = s.failed || bad;
      owner_request = false;
      scopes = drop_scope t s.scopes;
    }
    else s

-- `namespace_check`
unfoldable pub namespace_check : ℕ → Session → Bool × Session
namespace_check t s =
    let mine : Bool = elim (scope_of t s.scopes) [
      | none ↦ false
      | some c ↦ is_owner s.owner c.shmid
    ] in
    if s.blocked || has_owner s.owner
    then (false, record s { failed = s.failed || mine })
    else (true, s)
