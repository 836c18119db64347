-- ===== src/Lock/Progress.antt =====
-- What the callers of `fl_lock` (server/lock.c) may rely on, in every interleaving, and a wait that
-- never ends.
use dataman.Base.{
  ap, ℕ, ◌≡◌, refl, ◌≢◌, ◌⊎◌, inl, inr, true, false, none, some, List, [], ◌∷◌, ◌++◌, arith,
  Bool-cases, sym, ◌∙◌,
}
use dataman.Lock.{
  appended, LockType, un, sh, ex, Owner, PLock, remove_from_chain, add_to_chain, before_ex, granted,
  refused, waits, sh_blocked, ex_free, enqueue, attempt_sh, attempt_ex, unlock,
}
use dataman.Base.Int.{pos, negsuc}
use dataman.Lock.Chains.{type_of, type_of-AllShared}
use dataman.Lock.Inv.{IsSound, is_blocked, Asks, sh_blocked_lem, enqueue_waits}
use dataman.Lock.Pass.{attempt_sh-blocked, attempt_ex-blocked}
use dataman.Lock.System.{running, asleep, awake, System, initial, attempt, Event, run}
use dataman.Lock.Safety.{
  IsValid, run-IsValid, initial-IsValid, asks_of, Thread-cases, granted_sh_outcome,
  granted_ex_outcome,
}

-- After any interleaving of calls, releases and wake-ups from a new lock, a thread that owns the
-- lock exclusively is its only owner, and the predicate is -1.
pub exclusion :
    (es : List Event) (t : ℕ)
    → let l = (run es initial).lock in
      type_of t l.owners ≡ some ex
      → (l.owners ≡ record { owner = t; type = ex } ∷ []) × (l.value ≡ negsuc 0)
exclusion es t h =
    only_owner (run es initial).lock t (run-IsValid es initial initial-IsValid).sound h
  where
    only_owner :
        (l : PLock) (t : ℕ)
        → IsSound l
        → type_of t l.owners ≡ some ex
        → (l.owners ≡ record { owner = t; type = ex } ∷ []) × (l.value ≡ negsuc 0)
    only_owner l t v h = elim v.holders [
      | inl s ↦ ground (arith, type_of-AllShared l.owners t s.0)
      | inr (u, o, e) ↦ ground arith
    ]

-- In every reachable state a sleeping thread's own test still blocks it: no wake-up is lost.
pub no_lost_wakeup :
    (es : List Event) (t : ℕ) (type : LockType)
    → (run es initial).threads t ≡ asleep type
    → is_blocked (run es initial).lock t type ≡ true
no_lost_wakeup es t type h = (run-IsValid es initial initial-IsValid).blocked t type h

enqueue-ne-refused :
    (l : PLock) (t : ℕ) (type : LockType) → Asks l t type → (enqueue type l t).0 ≢ refused
enqueue-ne-refused l t type a e = ground (arith, enqueue_waits l t type a)

granted_ne_refused : granted ≢ refused
granted_ne_refused e = cc

attempt-ne-refused :
    (l : PLock) (t : ℕ) (type : LockType) → Asks l t type → (attempt type l t).0 ≢ refused
unfolding attempt
attempt-ne-refused l t un a e = cc
attempt-ne-refused l t sh a e = elim (Bool-cases (sh_blocked l t)) [
  | inl b ↦ enqueue-ne-refused l t sh a (rw (attempt_sh-blocked l t b) at e)
  | inr f ↦ granted_ne_refused (sym (granted_sh_outcome l t f) ∙ e)
]
attempt-ne-refused l t ex a e = elim (Bool-cases (ex_free l t)) [
  | inl f ↦ granted_ne_refused (sym (granted_ex_outcome l t f) ∙ e)
  | inr b ↦ enqueue-ne-refused l t ex a (rw (attempt_ex-blocked l t b) at e)
]

behind_ex :
    (c : List Owner) (t u : ℕ) → type_of t c ≡ none → type_of u c ≡ some ex → before_ex c t ≡ false
unfolding before_ex
behind_ex [] t u ht hu = cc
behind_ex (o ∷ c) t u ht hu = ground (arith, behind_ex c t u)

add_end :
    (c : List Owner) (t : ℕ) (type : LockType)
    → type_of t c ≡ none
    → add_to_chain c t type ≡ (appended, c ++ (record { owner = t; type = type } ∷ []))
unfolding add_to_chain
add_end [] t type h = refl
add_end (o ∷ c) t type h = ground (arith, add_end c t type)

enqueue_new :
    (l : PLock) (t : ℕ) (type : LockType)
    → type_of t l.queue ≡ none
    → enqueue type l t
      ≡ (waits, record l { queue = l.queue ++ (record { owner = t; type = type } ∷ []) })
unfolding enqueue
enqueue_new l t type h = rw (add_end l.queue t type h)

-- In every reachable state a pass of a thread that calls, or that was woken in a call for the same
-- type, is granted or waits: `fl_lock` never returns 0.
pub never_refused :
    (es : List Event) (t : ℕ) (type : LockType)
    → let s = run es initial in
      (s.threads t ≡ running) ⊎ (s.threads t ≡ awake type) → (attempt type s.lock t).0 ≢ refused
never_refused es t type h =
    attempt-ne-refused (run es initial).lock t type
      (asks_of (run es initial) t type (run-IsValid es initial initial-IsValid) h)

-- With no owner the head of the queue is not blocked.
head_is_free :
    (l : PLock) (t : ℕ) (type : LockType) (rest : List Owner)
    → type ≢ un
    → l.value ≡ pos 0
    → l.queue ≡ record { owner = t; type = type } ∷ rest
    → (is_blocked l t type ≡ false) × ((attempt type l t).0 ≡ granted)
unfolding attempt attempt_sh attempt_ex before_ex
head_is_free l t un rest nu z q = absurd (nu refl)
head_is_free l t sh rest nu z q = ground arith
head_is_free l t ex rest nu z q = ground arith

head_is_awake :
    (s : System) (t : ℕ) (type : LockType) (rest : List Owner)
    → IsValid s
    → s.lock.value ≡ pos 0
    → s.lock.queue ≡ record { owner = t; type = type } ∷ rest
    → (s.threads t ≡ awake type) × ((attempt type s.lock t).0 ≡ granted)
head_is_awake s t type rest v z q =
    (woken (Thread-cases (s.threads t)), (head_is_free s.lock t type rest not_un z q).1)
  where
    listed : type_of t s.lock.queue ≡ some type
    listed = rw q (ground arith)

    not_un : type ≢ un
    not_un e = v.no_release t (listed ∙ ap some e)

    woken :
        (s.threads t ≡ running)
          ⊎ ((asked : LockType) × (s.threads t ≡ asleep asked))
          ⊎ ((asked : LockType) × (s.threads t ≡ awake asked))
        → s.threads t ≡ awake type
    woken (inl r) = ground (arith, v.queued t)
    woken (inr (inl (asked, a))) =
        ground (arith, v.queued t, v.blocked t asked, head_is_free s.lock t type rest not_un z q)
    woken (inr (inr (asked, a))) = ground (arith, v.queued t)

-- When a lock has no owner and somebody waits, the head of the queue has been woken, and its next
-- pass is granted.
pub head_proceeds :
    (es : List Event) (t : ℕ) (type : LockType) (rest : List Owner)
    → let s = run es initial in
      s.lock.value ≡ pos 0
      → s.lock.queue ≡ record { owner = t; type = type } ∷ rest
      → (s.threads t ≡ awake type) × ((attempt type s.lock t).0 ≡ granted)
head_proceeds es t type rest z q =
    head_is_awake (run es initial) t type rest (run-IsValid es initial initial-IsValid) z q

-- A request for a shared lock by a thread that is not queued, while another waits for an exclusive
-- one, sleeps at the end of the queue, and changes neither the predicate nor the owners.
pub no_overtaking :
    (l : PLock) (t u : ℕ)
    → type_of t l.queue ≡ none
    → type_of u l.queue ≡ some ex
    → attempt_sh l t
      ≡ (waits, record l { queue = l.queue ++ (record { owner = t; type = sh } ∷ []) })
no_overtaking l t u ht hu =
    attempt_sh-blocked l t (ground (arith, sh_blocked_lem l t, behind_ex l.queue t u ht hu))
    ∙ enqueue_new l t sh ht

remove_end :
    (c : List Owner) (t : ℕ) (type : LockType)
    → type_of t c ≡ none
    → remove_from_chain (c ++ (record { owner = t; type = type } ∷ [])) t ≡ (true, c)
unfolding remove_from_chain
remove_end [] t type h = ground arith
remove_end (o ∷ c) t type h = ground (arith, remove_end c t type)

waits_ne_granted : (l : PLock) (t : ℕ) → (enqueue sh l t).0 ≢ granted
unfolding enqueue
waits_ne_granted l t e = ground arith

-- A shared lock that is granted to a thread without one, and then released, leaves the owners and
-- the predicate as they were.
pub unlock-attempt_sh :
    (l : PLock) (t : ℕ)
    → type_of t l.owners ≡ none
    → (attempt_sh l t).0 ≡ granted
    → let l' = (unlock (attempt_sh l t).1 t).1 in (l'.owners ≡ l.owners) × (l'.value ≡ l.value)
unfolding attempt_sh unlock
unlock-attempt_sh l t h g = elim (Bool-cases (sh_blocked l t)) [
  | inl b ↦ absurd (waits_ne_granted l t (rw (attempt_sh-blocked l t b) at g))
  | inr f ↦ ground (arith, f, add_end l.owners t sh h, remove_end l.owners t sh h)
]
