-- ===== src/Session/Orderly.antt =====
-- What every order of calls keeps in server/transaction_session.c: while a session has the
-- transaction, nobody writes past the journal, and one thread at most works for it.
use dataman.Base.Int.{ℤ}
use dataman.Base.{
  ℕ, ◌≡◌, refl, sym, ◌∙◌, ap, ◌⊎◌, inl, inr, Bool, true, false, not, ◌||◌, Option, none, some, List,
  [], ◌∷◌, ◌==◌, if◌then◌else◌, arith, Bool-cases, ==_iff,
}
use dataman.Storage.{Bytes}
use dataman.Undo.State.{Place, Faults}
use dataman.Undo.Write.{Fd}
use dataman.Session.{
  Code, Target, Scope, Session, Route, route_error, direct, through, route_of, is_owner, has_owner,
  has_scope, drop_scope, put_targets, member, without, is_none_left, targets_valid, request_enter,
  request_leave, route_write, direct_end, enter, bind, complete, namespace_check,
}
use dataman.Session.Steps.{configure}

pub record IsOrderly (s : Session) : Type 0 where
  -- with an owner there is no direct writer and no other request
  pub idle : (o : ℕ) → s.owner ≡ some o → (s.writers ≡ []) × (s.requests ≡ [])
  -- one active scope at most, of the owner's session and of this transaction
  pub one_scope :
      (s.scopes ≡ [])
      ⊎ ((c : Scope) × (s.scopes ≡ c ∷ [])
          × (s.owner_request ≡ true)
          × (s.owner ≡ some c.shmid)
          × (c.generation ≡ s.generation))

-- The same after an operation that answers a code.
pub record IsAfter (r : Code × Session) : Type 0 where
  pub after : IsOrderly r.1

pub if-After :
    (c : Bool) {x y : Code × Session}
    → (c ≡ true → IsAfter x)
    → (c ≡ false → IsAfter y)
    → IsAfter (if c then x else y)
if-After true h k = h refl
if-After false h k = k refl

pub no_owner : (o : Option ℕ) (n : ℕ) → has_owner o ≡ false → o ≡ some n → ⊥
no_owner none n h e = cc
no_owner (some m) n h e = cc

owner_is : (o : Option ℕ) (n : ℕ) → is_owner o n ≡ true → o ≡ some n
owner_is none n h = cc
owner_is (some m) n h = ap some ((==_iff m n).0 h)

pub none_left {ℓ} : {A : Type ℓ} (xs : List A) → is_none_left xs ≡ true → xs ≡ []
none_left [] h = refl
none_left (x ∷ xs) h = cc

-- With no owner no scope is active.
pub no_scope : (s : Session) → IsOrderly s → has_owner s.owner ≡ false → s.scopes ≡ []
no_scope s v h = elim v.one_scope [
  | inl none_active ↦ none_active
  | inr (c, one, busy, mine, now) ↦ absurd (no_owner s.owner c.shmid h mine)
]

-- With no request of the owner in progress no scope is active.
pub not_busy : (s : Session) → IsOrderly s → s.owner_request ≡ false → s.scopes ≡ []
not_busy s v h = elim v.one_scope [
  | inl none_active ↦ none_active
  | inr (c, one, busy, mine, now) ↦ absurd (differ (sym busy ∙ h))
]
  where
    differ : true ≡ false → ⊥
    differ e = cc

pub request_enter-IsAfter : (t : ℕ) (s : Session) → IsOrderly s → IsAfter (request_enter t s)
unfolding request_enter
request_enter-IsAfter t s v =
    if-After (member t s.requests) (λ h. record { after = v })
      (λ h.
        if-After s.blocked (λ h. record { after = v })
          (λ h.
            if-After (has_owner s.owner) (λ h. record { after = v })
              (λ free. record {
                after = record {
                  idle = λ o e. absurd (no_owner s.owner o free e);
                  one_scope = v.one_scope;
                };
              })))

without-nil : (t : ℕ) (xs : List ℕ) → xs ≡ [] → without t xs ≡ []
without-nil t xs e = rw e refl

pub request_leave-IsOrderly : (t : ℕ) (s : Session) → IsOrderly s → IsOrderly (request_leave t s)
unfolding request_leave
request_leave-IsOrderly t s v = record {
  idle = λ o e. ((v.idle o e).0, without-nil t s.requests (v.idle o e).1);
  one_scope = v.one_scope;
}

direct_no_owner :
    (t : ℕ) (fd : ℤ) (s : Session) → route_of t fd s ≡ direct → has_owner s.owner ≡ false
unfolding route_of
direct_no_owner t fd s h = ground arith

Route-cases :
    (r : Route) → (r ≡ route_error) ⊎ (r ≡ direct) ⊎ ((p : Option Bytes) × (r ≡ through p))
Route-cases route_error = inl refl
Route-cases direct = inr (inl refl)
Route-cases (through p) = inr (inr (p, refl))

pub route_write-IsOrderly :
    (faults : Faults) (place : Place) (t : ℕ) (fd : ℤ) (descriptor : Fd) (buffer : Bytes)
    (offset : ℤ) (s : Session)
    → IsOrderly s
    → IsOrderly (route_write faults place t fd descriptor buffer offset s).1
unfolding route_write
route_write-IsOrderly faults place t fd descriptor buffer offset s v =
    elim (Route-cases (route_of t fd s)) [
      | inl e ↦ rw (route_write, e) v
      | inr (inl e) ↦
          rw (route_write, e)
            (record {
              idle = λ o h. absurd (no_owner s.owner o (direct_no_owner t fd s e) h);
              one_scope = v.one_scope;
            })
      | inr (inr (none, e)) ↦
          rw (route_write, e) (record { idle = v.idle; one_scope = v.one_scope })
      | inr (inr (some path, e)) ↦
          rw (route_write, e) (record { idle = v.idle; one_scope = v.one_scope })
    ]

pub direct_end-IsOrderly :
    (t : ℕ) (name : Bytes) (offset : ℕ) (buffer : Bytes) (stop : Option ℕ) (s : Session)
    → IsOrderly s
    → IsOrderly (direct_end t name offset buffer stop s)
unfolding direct_end
direct_end-IsOrderly t name offset buffer stop s v = elim (Bool-cases (member t s.writers)) [
  | inl h ↦
      rw (direct_end, h)
        (record {
          idle = λ o e. (without-nil t s.writers (v.idle o e).0, (v.idle o e).1);
          one_scope = v.one_scope;
        })
  | inr h ↦ rw (direct_end, h) v
]

pub enter-IsAfter :
    (t shmid : ℕ) (targets : List Target) (s : Session)
    → IsOrderly s
    → IsAfter (enter t shmid targets s)
unfolding enter
enter-IsAfter t shmid targets s v =
    if-After (has_scope t s.scopes || not (targets_valid targets)) (λ h. record { after = v })
      (λ h.
        if-After s.blocked (λ h. record { after = v })
          (λ h.
            if-After (not (is_owner s.owner shmid)) (λ h. record { after = v })
              (λ mine.
                if-After s.failed (λ h. record { after = v })
                  (λ h.
                    if-After s.owner_request (λ h. record { after = v })
                      (λ calm. record {
                        after = record {
                          idle = v.idle;
                          one_scope = inr (
                            record {
                              thread = t;
                              shmid = shmid;
                              generation = s.generation;
                              targets = targets;
                            },
                            ap
                                (λ (cs : List Scope).
                                  record {
                                    thread = t;
                                    shmid = shmid;
                                    generation = s.generation;
                                    targets = targets;
                                  }
                                  ∷ cs)
                                (not_busy s v calm),
                            refl,
                            owner_is s.owner shmid (ground arith),
                            refl,
                          );
                        };
                      })))))

has_scope-put_targets :
    (t : ℕ) (targets : List Target) (scopes : List Scope)
    → scopes ≡ []
    → put_targets t targets scopes ≡ []
has_scope-put_targets t targets scopes e = rw e refl

pub bind-IsAfter :
    (t : ℕ) (targets : List Target) (s : Session) → IsOrderly s → IsAfter (bind t targets s)
unfolding bind
bind-IsAfter t targets s v =
    if-After (not (has_scope t s.scopes) || not (targets_valid targets)) (λ h. record { after = v })
      (λ h. record {
        after = record {
          idle = v.idle;
          one_scope = elim v.one_scope [
            | inl none_active ↦ inl (has_scope-put_targets t targets s.scopes none_active)
            | inr (c, one, busy, mine, now) ↦ inr (
              (if c.thread == t then record c { targets = targets } else c),
              rw one refl,
              busy,
              mine ∙ ap some (same_shmid (c.thread == t) c targets),
              same_generation (c.thread == t) c targets ∙ now,
            )
          ];
        };
      })
  where
    same_shmid :
        (b : Bool) (c : Scope) (targets : List Target)
        → c.shmid ≡ (if b then record c { targets = targets } else c).shmid
    same_shmid true c targets = refl
    same_shmid false c targets = refl

    same_generation :
        (b : Bool) (c : Scope) (targets : List Target)
        → (if b then record c { targets = targets } else c).generation ≡ c.generation
    same_generation true c targets = refl
    same_generation false c targets = refl

dropped_alone : (t : ℕ) (c : Scope) → has_scope t (c ∷ []) ≡ true → drop_scope t (c ∷ []) ≡ []
dropped_alone t c h = ground arith

dropped_all :
    (t : ℕ) (s : Session) → IsOrderly s → has_scope t s.scopes ≡ true → drop_scope t s.scopes ≡ []
dropped_all t s v h = elim v.one_scope [
  | inl none_active ↦ ap (drop_scope t) none_active
  | inr (c, one, busy, mine, now) ↦
      ap (drop_scope t) one ∙ dropped_alone t c (sym (ap (has_scope t) one) ∙ h)
]

pub complete-IsOrderly :
    (t : ℕ) (bad : Bool) (s : Session) → IsOrderly s → IsOrderly (complete t bad s)
unfolding complete
complete-IsOrderly t bad s v = elim (Bool-cases (has_scope t s.scopes)) [
  | inl h ↦ rw (complete, h) (record { idle = v.idle; one_scope = inl (dropped_all t s v h) })
  | inr h ↦ rw (complete, h) v
]

pub namespace_check-IsOrderly :
    (t : ℕ) (s : Session) → IsOrderly s → IsOrderly (namespace_check t s).1
unfolding namespace_check
namespace_check-IsOrderly t s v = elim (Bool-cases (s.blocked || has_owner s.owner)) [
  | inl h ↦ rw (namespace_check, h) (record { idle = v.idle; one_scope = v.one_scope })
  | inr h ↦ rw (namespace_check, h) v
]

pub configure-IsAfter :
    (absolute : Bool) (s : Session) → IsOrderly s → IsAfter (configure absolute s)
unfolding configure
configure-IsAfter absolute s v =
    if-After
      (not absolute
        || has_owner s.owner
        || s.blocked
        || not (is_none_left s.writers)
        || not (is_none_left s.requests))
      (λ h. record { after = v })
      (λ h. record { after = record { idle = v.idle; one_scope = v.one_scope } })
