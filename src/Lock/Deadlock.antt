-- ===== src/Lock/Deadlock.antt =====
-- Asking for more: `fl_lock` (server/lock.c) keeps a thread that owns the lock and waits for it
-- waiting for ever. The change log of lock.c says that it returns false there.
use dataman.Base.{
  ap, ℕ, ◌≡◌, refl, ◌≢◌, ◌⊎◌, inl, inr, true, none, some, List, [], ◌∷◌, arith, ◌==◌, length,
  Bool-cases, Option-cases, sym, ◌∙◌, ==_iff,
}
use dataman.Lock.{
  LockType, un, sh, ex, Owner, PLock, sh_blocked, ex_free, enqueue, attempt_sh, attempt_ex, unlock,
}
use dataman.Lock.Chains.{type_of}
use dataman.Lock.Inv.{Shared, IsSound, is_blocked, Asks, sh_blocked_lem, enqueue_waits}
use dataman.Lock.Pass.{attempt_sh-blocked, attempt_ex-blocked}
use dataman.Lock.System.{
  Thread, running, asleep, awake, System, initial, put_thread, wake, attempt, after, pass, Event,
  call, resume, spurious, step, run,
}
use dataman.Lock.Safety.{IsValid, waiting, run-IsValid, initial-IsValid, asks_of, Thread-cases}
use dataman.Lock.Inv.{enqueue_blocks, enqueue_keeps}
use dataman.Lock.Pass.{
  owners_pos, some-ne-none, unlock-missing, granted_sh, unlock-Shared, granted_sh_keeps,
}
use dataman.Lock.Chains.{type_of-add_ne, type_of-remove_ne}
use dataman.Lock.Safety.{step-IsValid}

-- `t` owns the lock, and is in a call for it that its own test blocks.
record IsStuck (s : System) (t : ℕ) (old type : LockType) : Type 0 where
  owns : type_of t s.lock.owners ≡ some old
  waits_for : waiting (s.threads t) ≡ some type
  blocked : is_blocked s.lock t type ≡ true

-- What another thread's pass does to the lock of a stuck thread.
record Spared (l l' : PLock) (t : ℕ) (type : LockType) : Type 0 where
  owners : type_of t l'.owners ≡ type_of t l.owners
  blocked : is_blocked l' t type ≡ true

enqueue_owners :
    (l : PLock) (u t : ℕ) (type : LockType)
    → type_of t (enqueue type l u).1.owners ≡ type_of t l.owners
unfolding enqueue
enqueue_owners l u t type = refl

nil_of_zero : (c : List Owner) → length c ≡ 0 → c ≡ []
nil_of_zero [] h = refl
nil_of_zero (o ∷ c) h = absurd (omega arith)

ex_free_unowned : (l : PLock) (t u : ℕ) → IsSound l → type_of t l.owners ≢ none → ex_free l u ≢ true
ex_free_unowned l t u v o f = elim v.holders [
  | inl s ↦ o (rw (nil_of_zero l.owners (ground arith)) refl)
  | inr (w, _, e) ↦ ground arith
]

spared_sh :
    (l : PLock) (t u : ℕ) (type : LockType)
    → IsSound l
    → Asks l u sh
    → t ≢ u
    → type_of t l.queue ≢ none
    → is_blocked l t type ≡ true
    → Spared l (attempt_sh l u).1 t type
spared_sh l t u type v a ne q b = elim (Bool-cases (sh_blocked l u)) [
  | inl w ↦
      rw (attempt_sh-blocked l u w)
        (record { owners = enqueue_owners l u t sh; blocked = enqueue_keeps l u t sh type ne q b })
  | inr f ↦ record {
    owners = rw ((granted_sh l u v f).3) (type_of-add_ne l.owners u t sh ne);
    blocked = granted_sh_keeps l u t type v a ne f b;
  }
]

spared_ex :
    (l : PLock) (t u : ℕ) (type : LockType)
    → IsSound l
    → t ≢ u
    → type_of t l.owners ≢ none
    → type_of t l.queue ≢ none
    → is_blocked l t type ≡ true
    → Spared l (attempt_ex l u).1 t type
spared_ex l t u type v ne o q b = elim (Bool-cases (ex_free l u)) [
  | inl f ↦ absurd (ex_free_unowned l t u v o f)
  | inr w ↦
      rw (attempt_ex-blocked l u w)
        (record { owners = enqueue_owners l u t ex; blocked = enqueue_keeps l u t ex type ne q b })
]

blocked-Shared :
    (l l' : PLock) (t : ℕ) (type : LockType)
    → Shared l
    → Shared l'
    → l'.queue ≡ l.queue
    → type_of t l'.owners ≢ none
    → is_blocked l t type ≡ true
    → is_blocked l' t type ≡ true
blocked-Shared l l' t un s s' q o b = refl
blocked-Shared l l' t sh s s' q o b = ground (arith, sh_blocked_lem l t, sh_blocked_lem l' t)
blocked-Shared l l' t ex s s' q o b = ground (arith, owners_pos l'.owners t)

spared_unlock :
    (l : PLock) (t u : ℕ) (type : LockType)
    → IsSound l
    → t ≢ u
    → type_of t l.owners ≢ none
    → is_blocked l t type ≡ true
    → Spared l (unlock l u).1 t type
spared_unlock l t u type v ne o b = elim (Option-cases (type_of u l.owners)) [
  | inl missing ↦ rw (unlock-missing l u missing) (record { owners = refl; blocked = b })
  | inr (ty, e) ↦ elim v.holders [
    | inl s ↦
        (let w = unlock-Shared l u s (λ m. some-ne-none (sym e ∙ m)) in
          let same : type_of t (unlock l u).1.owners ≡ type_of t l.owners =
            rw (w.2) (type_of-remove_ne l.owners u t ne) in
          record {
            owners = same;
            blocked = blocked-Shared l (unlock l u).1 t type s w.0 w.1 (λ m. o (sym same ∙ m)) b;
          })
    | inr (w, one, _) ↦ absurd (o (rw one (ground arith)))
  ]
]

in_queue :
    (s : System) (t : ℕ) (type : LockType)
    → IsValid s
    → waiting (s.threads t) ≡ some type
    → type_of t s.lock.queue ≢ none
in_queue s t type v w e = ground (arith, v.queued t)

waiting-wake : (x : Thread) → waiting (wake x) ≡ waiting x
waiting-wake running = refl
waiting-wake (asleep _) = refl
waiting-wake (awake _) = refl

running_waits :
    (s : System) (t u : ℕ) (type : LockType)
    → t ≡ u
    → s.threads u ≡ running
    → waiting (s.threads t) ≢ some type
running_waits s t u type e r w = ground (arith, ap s.threads e)

-- Another thread's pass, whatever it asks for.
spared_attempt :
    (s : System) (t u : ℕ) (old type asked : LockType)
    → IsValid s
    → t ≢ u
    → (s.threads u ≡ running) ⊎ (s.threads u ≡ awake asked)
    → IsStuck s t old type
    → Spared s.lock (attempt asked s.lock u).2 t type
unfolding attempt
spared_attempt s t u old type un v ne h k =
    spared_unlock s.lock t u type v.sound ne (λ m. some-ne-none (sym k.owns ∙ m)) k.blocked
spared_attempt s t u old type sh v ne h k =
    spared_sh s.lock t u type v.sound (asks_of s u sh v h) ne (in_queue s t type v k.waits_for)
      k.blocked
spared_attempt s t u old type ex v ne h k =
    spared_ex s.lock t u type v.sound ne (λ m. some-ne-none (sym k.owns ∙ m))
      (in_queue s t type v k.waits_for) k.blocked

other_pass :
    (s : System) (t u : ℕ) (old type asked : LockType)
    → IsValid s
    → t ≢ u
    → (s.threads u ≡ running) ⊎ (s.threads u ≡ awake asked)
    → IsStuck s t old type
    → IsStuck (pass asked u s) t old type
unfolding pass
other_pass s t u old type asked v ne h k =
    let spared = spared_attempt s t u old type asked v ne h k in
    record {
      owns = spared.owners ∙ k.owns;
      waits_for = ground (arith, k.waits_for, waiting-wake (s.threads t));
      blocked = spared.blocked;
    }

-- A blocked pass of the stuck thread leaves the system as `enqueue` does.
back_to_sleep :
    (type : LockType) (s : System) (t : ℕ) (old : LockType)
    → IsValid s
    → s.threads t ≡ awake type
    → IsStuck s t old type
    → IsStuck
        (record {
          lock = (enqueue type s.lock t).1;
          threads = put_thread s.threads t (after type (enqueue type s.lock t).0);
        })
        t
        old
        type
back_to_sleep type s t old v a k = record {
  owns = enqueue_owners s.lock t t type ∙ k.owns;
  waits_for = ground (arith, enqueue_waits s.lock t type (asks_of s t type v (inr a)));
  blocked = enqueue_blocks s.lock t type k.blocked;
}

-- The stuck thread's own pass puts it back to sleep.
own_pass :
    (type : LockType) (s : System) (t : ℕ) (old : LockType)
    → IsValid s
    → s.threads t ≡ awake type
    → IsStuck s t old type
    → IsStuck (pass type t s) t old type
unfolding pass attempt
own_pass un s t old v a k = absurd (v.no_release t (v.queued t ∙ ap waiting a))
own_pass sh s t old v a k =
    rw (attempt_sh-blocked s.lock t k.blocked) (back_to_sleep sh s t old v a k)
own_pass ex s t old v a k =
    rw (attempt_ex-blocked s.lock t (ground (arith, k.blocked))) (back_to_sleep ex s t old v a k)

same_request :
    (s : System) (t u : ℕ) (asked type : LockType)
    → t ≡ u
    → s.threads u ≡ awake asked
    → waiting (s.threads t) ≡ some type
    → asked ≡ type
same_request s t u asked type e a w = ground (arith, ap s.threads e)

step-IsStuck :
    (e : Event) (s : System) (t : ℕ) (old type : LockType)
    → IsValid s
    → IsStuck s t old type
    → IsStuck (step e s) t old type
unfolding step
step-IsStuck (call u asked) s t old type v k = elim (Thread-cases (s.threads u)) [
  | inl r ↦
      rw (r, step)
        (other_pass s t u old type asked v (λ e. running_waits s t u type e r k.waits_for) (inl r)
          k)
  | inr (inl (_, a)) ↦ rw (a, step) k
  | inr (inr (_, a)) ↦ rw (a, step) k
]
step-IsStuck (resume u) s t old type v k = elim (Thread-cases (s.threads u)) [
  | inl r ↦ rw (r, step) k
  | inr (inl (_, a)) ↦ rw (a, step) k
  | inr (inr (asked, a)) ↦
      rw (a, step)
        (elim (Bool-cases (t == u)) [
          | inl same ↦
              (let here : t ≡ u = (==_iff t u).0 same in
                let it : asked ≡ type = same_request s t u asked type here a k.waits_for in
                rw (sym here, it) (own_pass type s t old v (ap s.threads here ∙ a ∙ ap awake it) k))
          | inr other ↦ other_pass s t u old type asked v (λ (e : t ≡ u). ground arith) (inr a) k
        ])
]
step-IsStuck (spurious u) s t old type v k = elim (Thread-cases (s.threads u)) [
  | inl r ↦ rw (r, step) k
  | inr (inl (asked, a)) ↦
      rw (a, step)
        (record {
          owns = k.owns;
          waits_for = ground (arith, k.waits_for, ap waiting a);
          blocked = k.blocked;
        })
  | inr (inr (_, a)) ↦ rw (a, step) k
]

run-IsStuck :
    (es : List Event) (s : System) (t : ℕ) (old type : LockType)
    → IsValid s
    → IsStuck s t old type
    → IsStuck (run es s) t old type
unfolding run
run-IsStuck [] s t old type v k = k
run-IsStuck (e ∷ es) s t old type v k =
    run-IsStuck es (step e s) t old type (step-IsValid e s v) (step-IsStuck e s t old type v k)

-- Once a thread that owns the lock sleeps in a call for it, of either type, it owns the lock and
-- waits in that call after all further events.
pub own_wait_never_ends :
    (before later : List Event) (t : ℕ) (old type : LockType)
    → let s = run before initial in
      type_of t s.lock.owners ≡ some old
      → s.threads t ≡ asleep type
      → let s' = run later s in
        (type_of t s'.lock.owners ≡ some old) × (waiting (s'.threads t) ≡ some type)
own_wait_never_ends before later t old type o a =
    let v = run-IsValid before initial initial-IsValid in
    let k =
      run-IsStuck later (run before initial) t old type v
        (record { owns = o; waits_for = ap waiting a; blocked = v.blocked t type a }) in
    (k.owns, k.waits_for)
