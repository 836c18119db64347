-- ===== src/Lock/Safety.antt =====
-- The invariant of a lock and its threads (server/lock.c) over every interleaving.
use dataman.Base.{
  ap, ℕ, ◌≡◌, refl, ◌≢◌, ◌⊎◌, inl, inr, true, false, Option, none, some, List, [], ◌∷◌, arith, ◌==◌,
  Bool-cases, sym, ◌∙◌, ==_iff,
}
use dataman.Lock.{
  LockType, un, sh, ex, PLock, remove_from_chain, Outcome, granted, refused, waits, sh_blocked,
  ex_free, enqueue, attempt_sh, attempt_ex, unlock,
}
use dataman.Lock.Chains.{
  type_of, type_of-remove_ne, type_of-remove_self, type_of-add_ne, type_of-add_self,
}
use dataman.Lock.Inv.{
  IsSound, is_blocked, Asks, enqueue_waits, enqueue-IsSound, enqueue_blocks, enqueue_keeps,
}
use dataman.Lock.Pass.{
  attempt_sh-blocked, attempt_ex-blocked, attempt_sh-IsSound, attempt_ex-IsSound, unlock-IsSound,
  unlock_keeps, granted_sh_keeps, granted_ex_keeps,
}
use dataman.Lock.System.{
  Thread, running, asleep, awake, System, initial, put_thread, wake, attempt, after, pass, Event,
  call, resume, spurious, step, run,
}

-- What a thread waits for.
abbrev pub waiting : Thread → Option LockType
waiting running = none
waiting (asleep type) = some type
waiting (awake type) = some type

pub record IsValid (s : System) : Type 0 where
  pub sound : IsSound s.lock
  -- the queue holds exactly the threads that wait, with what they wait for
  pub queued : (t : ℕ) → type_of t s.lock.queue ≡ waiting (s.threads t)
  pub no_release : (t : ℕ) → type_of t s.lock.queue ≢ some un
  -- no thread sleeps that could go on
  pub blocked :
      (t : ℕ) (type : LockType) → s.threads t ≡ asleep type → is_blocked s.lock t type ≡ true

-- A pass that ends in a queue where `t` stands as `o` says.
record Passed (type : LockType) (l : PLock) (t : ℕ) (o : Outcome) (l' : PLock) : Type 0 where
  sound : IsSound l'
  queue_self : type_of t l'.queue ≡ waiting (after type o)
  queue_ne : (u : ℕ) → u ≢ t → type_of u l'.queue ≡ type_of u l.queue
  blocked_self : after type o ≡ asleep type → is_blocked l' t type ≡ true
  blocked_ne :
      (u : ℕ) (asked : LockType)
      → u ≢ t
      → type_of u l.queue ≢ none
      → is_blocked l u asked ≡ true
      → is_blocked l' u asked ≡ true

enqueue_self :
    (l : PLock) (t : ℕ) (type : LockType)
    → Asks l t type
    → type_of t (enqueue type l t).1.queue ≡ some type
unfolding enqueue
enqueue_self l t type (inl h) = ground (arith, type_of-add_self l.queue t type)
enqueue_self l t type (inr h) = ground (arith, type_of-add_self l.queue t type)

enqueue_ne :
    (l : PLock) (t u : ℕ) (type : LockType)
    → u ≢ t
    → type_of u (enqueue type l t).1.queue ≡ type_of u l.queue
unfolding enqueue
enqueue_ne l t u type ne = type_of-add_ne l.queue t u type ne

running-ne-asleep : {type : LockType} → running ≢ asleep type
running-ne-asleep e = cc

granted_sh_queue :
    (l : PLock) (t : ℕ)
    → sh_blocked l t ≡ false
    → (attempt_sh l t).1.queue ≡ (remove_from_chain l.queue t).1
unfolding attempt_sh
granted_sh_queue l t f = rw f

pub granted_sh_outcome : (l : PLock) (t : ℕ) → sh_blocked l t ≡ false → (attempt_sh l t).0 ≡ granted
unfolding attempt_sh
granted_sh_outcome l t f = rw f

granted_ex_queue :
    (l : PLock) (t : ℕ)
    → ex_free l t ≡ true
    → (attempt_ex l t).1.queue ≡ (remove_from_chain l.queue t).1
unfolding attempt_ex
granted_ex_queue l t f = rw f

pub granted_ex_outcome : (l : PLock) (t : ℕ) → ex_free l t ≡ true → (attempt_ex l t).0 ≡ granted
unfolding attempt_ex
granted_ex_outcome l t f = rw f

enqueue-Passed :
    (l : PLock) (t : ℕ) (type : LockType)
    → IsSound l
    → Asks l t type
    → is_blocked l t type ≡ true
    → Passed type l t (enqueue type l t).0 (enqueue type l t).1
enqueue-Passed l t type v a b = record {
  sound = enqueue-IsSound l t type v;
  queue_self = rw (enqueue_waits l t type a) (enqueue_self l t type a);
  queue_ne = λ u ne. enqueue_ne l t u type ne;
  blocked_self = λ e. enqueue_blocks l t type b;
  blocked_ne = λ u asked ne q h. enqueue_keeps l t u type asked ne q h;
}

attempt_sh-Passed :
    (l : PLock) (t : ℕ)
    → IsSound l
    → Asks l t sh
    → Passed sh l t (attempt_sh l t).0 (attempt_sh l t).1
attempt_sh-Passed l t v a = elim (Bool-cases (sh_blocked l t)) [
  | inl b ↦ rw (attempt_sh-blocked l t b) (enqueue-Passed l t sh v a b)
  | inr f ↦ record {
    sound = attempt_sh-IsSound l t v;
    queue_self =
        rw (granted_sh_queue l t f, granted_sh_outcome l t f)
          (type_of-remove_self l.queue t v.queue_distinct);
    queue_ne = λ u ne. rw (granted_sh_queue l t f) (type_of-remove_ne l.queue t u ne);
    blocked_self =
        λ e. absurd (running-ne-asleep (ap (after sh) (sym (granted_sh_outcome l t f)) ∙ e));
    blocked_ne = λ u asked ne q h. granted_sh_keeps l t u asked v a ne f h;
  }
]

attempt_ex-Passed :
    (l : PLock) (t : ℕ)
    → IsSound l
    → Asks l t ex
    → Passed ex l t (attempt_ex l t).0 (attempt_ex l t).1
attempt_ex-Passed l t v a = elim (Bool-cases (ex_free l t)) [
  | inr b ↦ rw (attempt_ex-blocked l t b) (enqueue-Passed l t ex v a (rw b refl))
  | inl f ↦ record {
    sound = attempt_ex-IsSound l t v;
    queue_self =
        rw (granted_ex_queue l t f, granted_ex_outcome l t f)
          (type_of-remove_self l.queue t v.queue_distinct);
    queue_ne = λ u ne. rw (granted_ex_queue l t f) (type_of-remove_ne l.queue t u ne);
    blocked_self =
        λ e. absurd (running-ne-asleep (ap (after ex) (sym (granted_ex_outcome l t f)) ∙ e));
    blocked_ne = λ u asked ne q h. granted_ex_keeps l t u asked v f;
  }
]

not_release : (type : LockType) (o : Outcome) → type ≢ un → waiting (after type o) ≢ some un
not_release type granted h e = cc
not_release type refused h e = cc
not_release type waits h e = h (cc)

after_asleep :
    (type : LockType) (o : Outcome) (asked : LockType) → after type o ≡ asleep asked → asked ≡ type
after_asleep type granted asked e = cc
after_asleep type refused asked e = cc
after_asleep type waits asked e = cc

still_queued :
    (s : System) (u : ℕ) (asked : LockType)
    → IsValid s
    → s.threads u ≡ asleep asked
    → type_of u s.lock.queue ≢ none
still_queued s u asked v sleeps e = ground (arith, v.queued u)

-- A pass without a broadcast, seen by the whole system.
Passed-IsValid :
    (s : System) (type : LockType) (t : ℕ) (o : Outcome) (l' : PLock)
    → IsValid s
    → type ≢ un
    → Passed type s.lock t o l'
    → IsValid (record { lock = l'; threads = put_thread s.threads t (after type o) })
Passed-IsValid s type t o l' v nu p = record {
  sound = p.sound;
  queued = λ u. ground (arith, p.queue_ne u, p.queue_self, v.queued u);
  no_release =
      λ u. ground (arith, p.queue_ne u, p.queue_self, v.no_release u, not_release type o nu);
  blocked = λ u asked e. elim (Bool-cases (u == t)) [
    | inl same ↦
        (let here : u ≡ t = (==_iff u t).0 same in
          let sleeps : after type o ≡ asleep asked = ground arith in
          let same_type : asked ≡ type = after_asleep type o asked sleeps in
          rw (here, same_type) (p.blocked_self (sleeps ∙ ap asleep same_type)))
    | inr other ↦
        (let sleeps : s.threads u ≡ asleep asked = ground arith in
          p.blocked_ne u asked (λ (h : u ≡ t). ground arith) (still_queued s u asked v sleeps)
            (v.blocked u asked sleeps))
  ];
}

pub unlock_queue : (l : PLock) (t : ℕ) → (unlock l t).1.queue ≡ l.queue
unfolding unlock
unlock_queue l t = ground arith

wake-ne-asleep : (s : Thread) (type : LockType) → wake s ≢ asleep type
wake-ne-asleep running type e = cc
wake-ne-asleep (asleep _) type e = cc
wake-ne-asleep (awake _) type e = cc

-- The thread that releases the lock is outside the queue, and stays outside.
unlock-IsValid : (s : System) (t : ℕ) → IsValid s → s.threads t ≡ running → IsValid (pass un t s)
unfolding pass attempt
unlock-IsValid s t v r = record {
  sound = unlock-IsSound s.lock t v.sound;
  queued = λ u. ground (arith, v.queued u, unlock_queue s.lock t);
  no_release = λ u. rw (unlock_queue s.lock t) (v.no_release u);
  blocked = λ u asked e. elim (Bool-cases (unlock s.lock t).0) [
    | inl woken ↦ ground (arith, wake-ne-asleep (s.threads u) asked)
    | inr quiet ↦
        (let sleeps : s.threads u ≡ asleep asked = ground arith in
          unlock_keeps s.lock t u asked v.sound (v.blocked u asked sleeps) quiet)
  ];
}

pub asks_of :
    (s : System) (t : ℕ) (type : LockType)
    → IsValid s
    → (s.threads t ≡ running) ⊎ (s.threads t ≡ awake type)
    → Asks s.lock t type
asks_of s t type v (inl r) = inl (v.queued t ∙ ap waiting r)
asks_of s t type v (inr a) = inr (v.queued t ∙ ap waiting a)

pass_sh : (s : System) (t : ℕ) → IsValid s → Asks s.lock t sh → IsValid (pass sh t s)
unfolding pass attempt
pass_sh s t v a =
    Passed-IsValid s sh t (attempt_sh s.lock t).0 (attempt_sh s.lock t).1 v (λ e. cc)
      (attempt_sh-Passed s.lock t v.sound a)

pass_ex : (s : System) (t : ℕ) → IsValid s → Asks s.lock t ex → IsValid (pass ex t s)
unfolding pass attempt
pass_ex s t v a =
    Passed-IsValid s ex t (attempt_ex s.lock t).0 (attempt_ex s.lock t).1 v (λ e. cc)
      (attempt_ex-Passed s.lock t v.sound a)

-- A pass of a thread that is outside, or that was woken while it asked for the same.
pass-IsValid :
    (type : LockType) (s : System) (t : ℕ)
    → IsValid s
    → (s.threads t ≡ running) ⊎ (s.threads t ≡ awake type)
    → IsValid (pass type t s)
pass-IsValid un s t v (inl r) = unlock-IsValid s t v r
pass-IsValid un s t v (inr a) = absurd (v.no_release t (v.queued t ∙ ap waiting a))
pass-IsValid sh s t v h = pass_sh s t v (asks_of s t sh v h)
pass-IsValid ex s t v h = pass_ex s t v (asks_of s t ex v h)

spurious-IsValid :
    (s : System) (t : ℕ) (type : LockType)
    → IsValid s
    → s.threads t ≡ asleep type
    → IsValid (record s { threads = put_thread s.threads t (awake type) })
spurious-IsValid s t type v a = record {
  sound = v.sound;
  queued = λ u. ground (arith, v.queued u, ap waiting a);
  no_release = v.no_release;
  blocked = λ u asked e. ground (arith, v.blocked u asked);
}

pub Thread-cases :
    (s : Thread)
    → (s ≡ running)
      ⊎ ((type : LockType) × (s ≡ asleep type))
      ⊎ ((type : LockType) × (s ≡ awake type))
Thread-cases running = inl refl
Thread-cases (asleep type) = inr (inl (type, refl))
Thread-cases (awake type) = inr (inr (type, refl))

-- Every step keeps the invariant.
pub step-IsValid : (e : Event) (s : System) → IsValid s → IsValid (step e s)
unfolding step
step-IsValid (call t type) s v = elim (Thread-cases (s.threads t)) [
  | inl r ↦ rw (r, step) (pass-IsValid type s t v (inl r))
  | inr (inl (_, a)) ↦ rw (a, step) v
  | inr (inr (_, a)) ↦ rw (a, step) v
]
step-IsValid (resume t) s v = elim (Thread-cases (s.threads t)) [
  | inl r ↦ rw (r, step) v
  | inr (inl (_, a)) ↦ rw (a, step) v
  | inr (inr (type, a)) ↦ rw (a, step) (pass-IsValid type s t v (inr a))
]
step-IsValid (spurious t) s v = elim (Thread-cases (s.threads t)) [
  | inl r ↦ rw (r, step) v
  | inr (inl (type, a)) ↦ rw (a, step) (spurious-IsValid s t type v a)
  | inr (inr (_, a)) ↦ rw (a, step) v
]

pub run-IsValid : (es : List Event) (s : System) → IsValid s → IsValid (run es s)
unfolding run
run-IsValid [] s v = v
run-IsValid (e ∷ es) s v = run-IsValid es (step e s) (step-IsValid e s v)

pub initial-IsValid : IsValid initial
initial-IsValid = record {
  sound = record { holders = inl (tt, refl); owners_distinct = tt; queue_distinct = tt };
  queued = λ t. refl;
  no_release = λ t e. cc;
  blocked = λ t type e. cc;
}
