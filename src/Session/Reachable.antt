-- ===== src/Session/Reachable.antt =====
-- server/transaction_session.c after any calls: a transaction's owner is alone.
use dataman.Base.Int.{ℤ}
use dataman.Base.{
  ℕ, ◌+◌, ◌^◌, ◌-◌, ◌≡◌, refl, sym, ◌∙◌, ap, ◌⊎◌, inl, inr, Bool, true, false, not, ◌&&◌, ◌||◌,
  Option, none, some, List, [], ◌∷◌, ◌==◌, if◌then◌else◌, arith, Bool-cases, ==_iff, subst,
}
use dataman.Storage.{Bytes}
use dataman.Undo.State.{Place, Tx, Disk, Errno, Result, ok, fail, Faults}
use dataman.Undo.Write.{Fd, write_target}
use dataman.Undo.Begin.{BeginFaults, begin}
use dataman.Undo.Finish.{FinishFaults, commit, abort}
use dataman.Session.{
  done, rolled_back, Scope, Session, is_owner, has_owner, has_scope, scope_of, is_none_left, is_ok,
}
use dataman.Session.Steps.{
  start, write, finish_answer, finish, Event, entered, left, routed, direct_ended, scoped, bound,
  completed, checked, configured, begun, written, finished, step, run, fresh,
}
use dataman.Session.Orderly.{
  IsOrderly, IsAfter, if-After, none_left, no_scope, not_busy, request_enter-IsAfter,
  request_leave-IsOrderly, route_write-IsOrderly, direct_end-IsOrderly, enter-IsAfter, bind-IsAfter,
  complete-IsOrderly, namespace_check-IsOrderly, configure-IsAfter,
}

write-IsAfter :
    (faults : Faults) (place : Place) (t shmid : ℕ) (path : Bytes) (fd : Option Fd) (buffer : Bytes)
    (offset : ℤ) (s : Session)
    → IsOrderly s
    → IsAfter (write faults place t shmid path fd buffer offset s)
unfolding write
write-IsAfter faults place t shmid path fd buffer offset s v =
    if-After s.blocked (λ h. record { after = v })
      (λ h.
        if-After (not (is_owner s.owner shmid)) (λ h. record { after = v })
          (λ h.
            if-After (s.owner_request && not (has_scope t s.scopes)) (λ h. record { after = v })
              (λ h.
                if-After s.failed (λ h. record { after = v })
                  (λ h.
                    if-After
                      (is_ok (write_target faults place path fd buffer offset s.tx s.disk).result)
                      (λ h. record { after = record { idle = v.idle; one_scope = v.one_scope } })
                      (λ h. record {
                        after = record { idle = v.idle; one_scope = v.one_scope };
                      })))))

Result-cases {ℓ} :
    {A : Type 0} (r : Result A) → ((a : A) × (r ≡ ok a)) ⊎ ((e : Errno) × (r ≡ fail e))
Result-cases (ok a) = inl (a, refl)
Result-cases (fail e) = inr (e, refl)

start-IsAfter :
    (faults : BeginFaults) (place : Place) (shmid : ℕ) (s : Session)
    → IsOrderly s
    → IsAfter (start faults place shmid s)
unfolding start
start-IsAfter faults place shmid s v =
    if-After s.blocked (λ h. record { after = v })
      (λ h.
        if-After (not s.configured) (λ h. record { after = v })
          (λ h.
            if-After (is_owner s.owner shmid) (λ h. record { after = v })
              (λ h.
                if-After
                  (has_owner s.owner
                    || not (is_none_left s.writers)
                    || not (is_none_left s.requests))
                  (λ h. record { after = v })
                  (λ free.
                    if-After (s.generation == 2 ^ 64 - 1) (λ h. record { after = v })
                      (λ h.
                        let nobody : s.scopes ≡ [] = no_scope s v (ground arith) in
                        let alone : (s.writers ≡ []) × (s.requests ≡ []) = (
                          none_left s.writers (ground arith),
                          none_left s.requests (ground arith),
                        ) in
                        begun_either (begin faults place s.disk).0 nobody alone)))))
  where
    begun_either :
        (r : Result Tx)
        → s.scopes ≡ []
        → (s.writers ≡ []) × (s.requests ≡ [])
        → IsAfter (elim r [
          | fail e ↦ (
            rolled_back,
            record s { owner = some shmid; blocked = true; disk = (begin faults place s.disk).1 },
          )
          | ok tx ↦ (
            done,
            record s {
              owner = some shmid;
              failed = false;
              generation = s.generation + 1;
              tx = tx;
              disk = (begin faults place s.disk).1;
            },
          )
        ])
    begun_either (ok tx) nobody alone = record {
      after = record { idle = λ o e. alone; one_scope = inl nobody };
    }
    begun_either (fail e) nobody alone = record {
      after = record { idle = λ o e. alone; one_scope = inl nobody };
    }

finish-IsAfter :
    (faults : FinishFaults) (refreshes : Bool) (place : Place) (shmid : ℕ)
    (committing disconnecting : Bool) (s : Session)
    → IsOrderly s
    → IsAfter (finish faults refreshes place shmid committing disconnecting s)
unfolding finish finish_answer
finish-IsAfter faults refreshes place shmid committing disconnecting s v =
    if-After s.blocked (λ h. record { after = v })
      (λ h.
        if-After (not (is_owner s.owner shmid)) (λ h. record { after = v })
          (λ h.
            if-After s.owner_request (λ h. record { after = v })
              (λ calm.
                if-After (committing && s.failed) (λ h. record { after = v })
                  (λ h.
                    if-After
                      (is_ok
                          (if committing
                            then commit faults place s.tx s.disk
                            else abort faults place s.tx s.disk).result
                        && refreshes)
                      (λ h. record {
                        after = record {
                          idle = λ o e. absurd (nothing o e);
                          one_scope = inl (not_busy s v calm);
                        };
                      })
                      (λ h. record {
                        after = record { idle = v.idle; one_scope = v.one_scope };
                      })))))
  where
    nothing : (o : ℕ) → none ≡ some o → ⊥
    nothing o e = cc

-- Every call of every thread keeps the order.
pub step-IsOrderly :
    (place : Place) (e : Event) (s : Session) → IsOrderly s → IsOrderly (step place e s)
unfolding step
step-IsOrderly place (entered t) s v = let r = request_enter-IsAfter t s v in r.after
step-IsOrderly place (left t) s v = request_leave-IsOrderly t s v
step-IsOrderly place (routed t faults fd descriptor buffer offset) s v =
    route_write-IsOrderly faults place t fd descriptor buffer offset s v
step-IsOrderly place (direct_ended t name offset buffer stop) s v =
    direct_end-IsOrderly t name offset buffer stop s v
step-IsOrderly place (scoped t shmid targets) s v =
    let r = enter-IsAfter t shmid targets s v in r.after
step-IsOrderly place (bound t targets) s v = let r = bind-IsAfter t targets s v in r.after
step-IsOrderly place (completed t bad) s v = complete-IsOrderly t bad s v
step-IsOrderly place (checked t) s v = namespace_check-IsOrderly t s v
step-IsOrderly place (configured absolute) s v = let r = configure-IsAfter absolute s v in r.after
step-IsOrderly place (begun faults shmid) s v =
    let r = start-IsAfter faults place shmid s v in r.after
step-IsOrderly place (written t faults shmid path fd buffer offset) s v =
    let r = write-IsAfter faults place t shmid path fd buffer offset s v in r.after
step-IsOrderly place (finished faults refreshes shmid committing disconnecting) s v =
    let r = finish-IsAfter faults refreshes place shmid committing disconnecting s v in r.after

run-IsOrderly :
    (place : Place) (es : List Event) (s : Session) → IsOrderly s → IsOrderly (run place es s)
unfolding run
run-IsOrderly place [] s v = v
run-IsOrderly place (e ∷ es) s v =
    run-IsOrderly place es (step place e s) (step-IsOrderly place e s v)

fresh-IsOrderly : (tx : Tx) (disk : Disk) → IsOrderly (fresh tx disk)
fresh-IsOrderly tx disk = record { idle = λ o e. absurd (nothing o e); one_scope = inl refl }
  where
    nothing : (o : ℕ) → none ≡ some o → ⊥
    nothing o e = cc

-- After any calls by any threads, in any order and with any failures, from the variables as the process
-- starts: while a session owns the transaction, or has left it in doubt, no thread is in a write past the
-- journal, and no other request is admitted.
pub owner_excludes :
    (place : Place) (tx : Tx) (disk : Disk) (es : List Event) (o : ℕ)
    → (run place es (fresh tx disk)).owner ≡ some o
    → ((run place es (fresh tx disk)).writers ≡ []) × ((run place es (fresh tx disk)).requests ≡ [])
owner_excludes place tx disk es o h =
    let v = run-IsOrderly place es (fresh tx disk) (fresh-IsOrderly tx disk) in v.idle o h

-- After any calls, when the scopes of two threads are active they are the same scope of the same
-- thread, and it is of the owner's session and of the present transaction.
pub one_scope_works :
    (place : Place) (tx : Tx) (disk : Disk) (es : List Event) (t u : ℕ) (c d : Scope)
    → let s = run place es (fresh tx disk) in
      scope_of t s.scopes ≡ some c
      → scope_of u s.scopes ≡ some d
      → (t ≡ u) × (c ≡ d) × (s.owner ≡ some c.shmid) × (c.generation ≡ s.generation)
one_scope_works place tx disk es t u c d h k =
    let s = run place es (fresh tx disk) in
    let v = run-IsOrderly place es (fresh tx disk) (fresh-IsOrderly tx disk) in
    elim v.one_scope [
      | inl none_active ↦ absurd (nothing c (sym (ap (scope_of t) none_active) ∙ h))
      | inr (e, one, busy, mine, now) ↦
          (let a = found t c e (sym (ap (scope_of t) one) ∙ h) in
            let b = found u d e (sym (ap (scope_of u) one) ∙ k) in
            (
              sym a.0 ∙ b.0,
              sym a.1 ∙ b.1,
              subst (λ (x : Scope). s.owner ≡ some x.shmid) a.1 mine,
              subst (λ (x : Scope). x.generation ≡ s.generation) a.1 now,
            ))
    ]
  where
    nothing : (c : Scope) → none ≡ some c → ⊥
    nothing c e = cc

    found : (t : ℕ) (c e : Scope) → scope_of t (e ∷ []) ≡ some c → (e.thread ≡ t) × (e ≡ c)
    found t c e h = elim (Bool-cases (e.thread == t)) [
      | inl same ↦ ((==_iff e.thread t).0 same, some_inj (sym (if_true same) ∙ h))
      | inr other ↦ absurd (nothing c (sym (if_false other) ∙ h))
    ]
      where
        some_inj : {a b : Scope} → some a ≡ some b → a ≡ b
        some_inj e = cc

        if_true : (e.thread == t) ≡ true → scope_of t (e ∷ []) ≡ some e
        if_true same = rw same refl

        if_false : (e.thread == t) ≡ false → scope_of t (e ∷ []) ≡ none
        if_false other = rw other refl
