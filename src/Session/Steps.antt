-- ===== src/Session/Steps.antt =====
-- The start, the writes and the end of a transaction in server/transaction_session.c, and the steps of
-- all threads in any order.
use dataman.Base.Int.{ℤ}
use dataman.Base.{
  ℕ, ◌+◌, ◌^◌, ◌-◌, Bool, true, false, not, ◌&&◌, ◌||◌, Option, none, some, List, [], ◌∷◌, ◌==◌,
  if◌then◌else◌,
}
use dataman.Storage.{Bytes}
use dataman.Undo.State.{Place, Tx, Disk, ok, fail, Answer, Faults}
use dataman.Undo.Write.{Fd, write_target}
use dataman.Undo.Begin.{BeginFaults, begin}
use dataman.Undo.Finish.{FinishFaults, commit, abort}
use dataman.Session.{
  Code, done, rolled_back, no_lock, no_transaction, in_transaction, bad_message, not_written,
  unknown, Target, Session, is_owner, has_owner, has_scope, is_none_left, is_ok, request_enter,
  request_leave, route_write, direct_end, enter, bind, complete, namespace_check,
}

-- `dm_tx_configure`, with whether the path is absolute.
unfoldable pub configure : Bool → Session → Code × Session
configure absolute s =
    if not absolute
      || has_owner s.owner
      || s.blocked
      || not (is_none_left s.writers)
      || not (is_none_left s.requests)
    then (bad_message, s)
    else (done, record s { configured = true })

-- `begin_registered`: a journal that could not be begun blocks every session.
unfoldable pub start : BeginFaults → Place → ℕ → Session → Code × Session
unfolding begin
start faults place shmid s =
    let b = begin faults place s.disk in
    if s.blocked
    then (rolled_back, s)
    else if not s.configured
    then (bad_message, s)
    else if is_owner s.owner shmid
    then (in_transaction, s)
    else if has_owner s.owner || not (is_none_left s.writers) || not (is_none_left s.requests)
    then (no_lock, s)
    else if s.generation == 2 ^ 64 - 1
    then (bad_message, s)
    else elim b.0 [
      | fail e ↦ (rolled_back, record s { owner = some shmid; blocked = true; disk = b.1 })
      | ok tx ↦ (
        done,
        record s {
          owner = some shmid;
          failed = false;
          generation = s.generation + 1;
          tx = tx;
          disk = b.1;
        },
      )
    ]

-- `write_target`, for `dm_tx_write` with no descriptor and `dm_tx_write_fd` with one.
unfoldable pub write :
    Faults → Place → ℕ → ℕ → Bytes → Option Fd → Bytes → ℤ → Session → Code × Session
write faults place t shmid path fd buffer offset s =
    let a = write_target faults place path fd buffer offset s.tx s.disk in
    if s.blocked
    then (rolled_back, s)
    else if not (is_owner s.owner shmid)
    then (no_transaction, s)
    else if s.owner_request && not (has_scope t s.scopes)
    then (no_lock, s)
    else if s.failed
    then (not_written, s)
    else if is_ok a.result
    then (done, record s { tx = a.tx; disk = a.disk })
    else (not_written, record s { tx = a.tx; disk = a.disk; failed = true })

-- The end of `finish`, with the journal's answer and whether `refresh_indices` succeeds.
unfoldable pub finish_answer : Bool → Bool → Answer → Session → Code × Session
finish_answer committing refreshes a s =
    if is_ok a.result && refreshes
    then (done, record s { owner = none; failed = false; tx = a.tx; disk = a.disk })
    else (
      (if committing then unknown else rolled_back),
      record s { blocked = true; tx = a.tx; disk = a.disk },
    )

-- `finish`, for `dm_tx_commit`, `dm_tx_abort` and `dm_tx_disconnect`.
unfoldable pub finish : FinishFaults → Bool → Place → ℕ → Bool → Bool → Session → Code × Session
unfolding finish_answer
finish faults refreshes place shmid committing disconnecting s =
    if s.blocked
    then (rolled_back, s)
    else if not (is_owner s.owner shmid)
    then ((if disconnecting then done else no_transaction), s)
    else if s.owner_request
    then (no_lock, s)
    else if committing && s.failed
    then (not_written, s)
    else finish_answer committing refreshes
        (if committing then commit faults place s.tx s.disk else abort faults place s.tx s.disk) s

-- A call by a thread, with what the system does in it; the first number is the thread.
pub data Event : Type 0 where
  entered : ℕ → Event
  left : ℕ → Event
  routed : ℕ → Faults → ℤ → Fd → Bytes → ℤ → Event
  direct_ended : ℕ → Bytes → ℕ → Bytes → Option ℕ → Event
  scoped : ℕ → ℕ → List Target → Event
  bound : ℕ → List Target → Event
  completed : ℕ → Bool → Event
  checked : ℕ → Event
  configured : Bool → Event
  begun : BeginFaults → ℕ → Event
  written : ℕ → Faults → ℕ → Bytes → Option Fd → Bytes → ℤ → Event
  finished : FinishFaults → Bool → ℕ → Bool → Bool → Event

unfoldable pub step : Place → Event → Session → Session
step place (entered t) s = (request_enter t s).1
step place (left t) s = request_leave t s
step place (routed t faults fd descriptor buffer offset) s =
    (route_write faults place t fd descriptor buffer offset s).1
step place (direct_ended t name offset buffer stop) s = direct_end t name offset buffer stop s
step place (scoped t shmid targets) s = (enter t shmid targets s).1
step place (bound t targets) s = (bind t targets s).1
step place (completed t bad) s = complete t bad s
step place (checked t) s = (namespace_check t s).1
step place (configured absolute) s = (configure absolute s).1
step place (begun faults shmid) s = (start faults place shmid s).1
step place (written t faults shmid path fd buffer offset) s =
    (write faults place t shmid path fd buffer offset s).1
step place (finished faults refreshes shmid committing disconnecting) s =
    (finish faults refreshes place shmid committing disconnecting s).1

unfoldable pub run : Place → List Event → Session → Session
unfolding step
run place [] s = s
run place (e ∷ es) s = run place es (step place e s)

-- The variables as the process starts, over the files that there are.
abbrev pub fresh : Tx → Disk → Session
fresh tx disk = record {
  configured = false;
  owner = none;
  failed = false;
  blocked = false;
  generation = 0;
  writers = [];
  requests = [];
  owner_request = false;
  scopes = [];
  tx = tx;
  disk = disk;
}

-- `dm_tx_blocked`
unfoldable pub is_blocked_now : Session → Bool
is_blocked_now s = s.blocked
