-- ===== src/Lock/System.antt =====
-- Threads that call `fl_lock` (server/lock.c) on one lock, in any interleaving.
use dataman.Base.{ℕ, Bool, false, List, [], ◌∷◌, ◌==◌, if◌then◌else◌}
use dataman.Lock.{
  LockType, un, sh, ex, PLock, Outcome, granted, refused, waits, attempt_sh, attempt_ex, unlock,
}
use dataman.Base.Int.{pos}

-- A thread runs, sleeps in `pthread_cond_wait` inside a call, or has been woken there and is about
-- to test again.
pub data Thread : Type 0 where
  running : Thread
  asleep awake : LockType → Thread

pub record System : Type 0 where
  pub lock : PLock
  pub threads : ℕ → Thread

-- A new `P_LOCK` (all zero) and threads outside `fl_lock`.
abbrev pub initial : System
initial = record {
  lock = record { value = pos 0; owners = []; queue = [] };
  threads = λ t. running;
}

abbrev pub put_thread : (ℕ → Thread) → ℕ → Thread → ℕ → Thread
put_thread threads t state u = if u == t then state else threads u

-- `pthread_cond_broadcast`
abbrev pub wake : Thread → Thread
wake running = running
wake (asleep type) = awake type
wake (awake type) = awake type

-- `fl_lock` from the point where it holds the mutex to the next wait or the return.
unfoldable pub attempt : LockType → PLock → ℕ → Outcome × Bool × PLock
unfolding attempt_sh attempt_ex unlock
attempt un l t = let (broadcast, l') = unlock l t in (granted, broadcast, l')
attempt sh l t = let (o, l') = attempt_sh l t in (o, false, l')
attempt ex l t = let (o, l') = attempt_ex l t in (o, false, l')

abbrev pub after : LockType → Outcome → Thread
after type granted = running
after type refused = running
after type waits = asleep type

-- One pass of thread `t`.
unfoldable pub pass : LockType → ℕ → System → System
unfolding attempt
pass type t s =
    let (o, broadcast, l) = attempt type s.lock t in
    record {
      lock = l;
      threads =
          put_thread (if broadcast then (λ u. wake (s.threads u)) else s.threads) t (after type o);
    }

-- What the scheduler may do next. An event that does not fit the thread's state does nothing.
pub data Event : Type 0 where
  call : ℕ → LockType → Event
  resume spurious : ℕ → Event

unfoldable pub step : Event → System → System
unfolding pass
step (call t type) s = elim (s.threads t) [ running ↦ pass type t s | asleep _ ↦ s | awake _ ↦ s ]
step (resume t) s = elim (s.threads t) [ running ↦ s | asleep _ ↦ s | awake type ↦ pass type t s ]
step (spurious t) s = elim (s.threads t) [
  | running ↦ s
  | asleep type ↦ record s { threads = put_thread s.threads t (awake type) }
  | awake _ ↦ s
]

unfoldable pub run : List Event → System → System
unfolding step
run [] s = s
run (e ∷ es) s = run es (step e s)
