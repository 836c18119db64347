-- ===== src/Lock/Pass.antt =====
-- One pass of `fl_lock` (server/lock.c) keeps the lock sound and wakes or blocks the right threads.
use dataman.Base.{
  ℕ, ◌<◌, ◌≡◌, refl, ◌≢◌, inl, inr, true, false, none, some, List, [], ◌∷◌, arith, length,
  Bool-cases, Option-cases, sym, ◌∙◌,
}
use dataman.Lock.{
  LockType, un, sh, ex, Owner, PLock, remove_from_chain, add_to_chain, sh_blocked, ex_free, enqueue,
  attempt_sh, attempt_ex, unlock,
}
use dataman.Base.Int.{pos, negsuc, is_negative}
use dataman.Lock.Chains.{
  type_of, remove-IsDistinct, add-IsDistinct, add-new, add-old, remove-found, remove-missing,
  before_ex-remove_sh, remove-AllShared, add-AllShared, type_of-AllShared,
}
use dataman.Lock.Inv.{Shared, Exclusive, IsSound, is_blocked, Asks, sh_blocked_lem, enqueue-IsSound}

pub attempt_sh-blocked :
    (l : PLock) (t : ℕ) → sh_blocked l t ≡ true → attempt_sh l t ≡ enqueue sh l t
unfolding attempt_sh
attempt_sh-blocked l t h = rw h

pub attempt_ex-blocked : (l : PLock) (t : ℕ) → ex_free l t ≡ false → attempt_ex l t ≡ enqueue ex l t
unfolding attempt_ex
attempt_ex-blocked l t h = rw h

-- Without a negative predicate the owners share the lock.
Shared-of_free : (l : PLock) → IsSound l → is_negative l.value ≡ false → Shared l
Shared-of_free l v h = elim v.holders [ inl s ↦ s | inr (t, o, e) ↦ ground arith ]

pub some-ne-none {ℓ} : {A : Type ℓ} {a : A} → some a ≢ none
some-ne-none e = cc

pub owners_pos : (c : List Owner) (t : ℕ) → type_of t c ≢ none → 0 < length c
owners_pos [] t h = absurd (h refl)
owners_pos (o ∷ c) t h = omega arith

-- What a granted shared lock is.
pub granted_sh :
    (l : PLock) (t : ℕ)
    → IsSound l
    → sh_blocked l t ≡ false
    → Shared (attempt_sh l t).1
      × (0 < length (attempt_sh l t).1.owners)
      × ((attempt_sh l t).1.queue ≡ (remove_from_chain l.queue t).1)
      × ((attempt_sh l t).1.owners ≡ (add_to_chain l.owners t sh).1)
unfolding attempt_sh
granted_sh l t v h = elim (type_of-AllShared l.owners t s.0) [
  | inl new ↦ ground (arith, s, h, add-new l.owners t sh new, add-AllShared l.owners t s.0)
  | inr old ↦
      ground (
        arith,
        s,
        h,
        add-old l.owners t sh old,
        add-AllShared l.owners t s.0,
        owners_pos l.owners t,
      )
]
  where
    s : Shared l
    s = Shared-of_free l v (ground arith)

nil_of_length : (c : List Owner) → length c ≡ 0 → c ≡ []
nil_of_length [] h = refl
nil_of_length (o ∷ c) h = absurd (omega arith)

-- What a granted exclusive lock is.
granted_ex :
    (l : PLock) (t : ℕ)
    → IsSound l
    → ex_free l t ≡ true
    → ((attempt_ex l t).1.owners ≡ record { owner = t; type = ex } ∷ [])
      × ((attempt_ex l t).1.value ≡ negsuc 0)
      × ((attempt_ex l t).1.queue ≡ (remove_from_chain l.queue t).1)
unfolding attempt_ex add_to_chain
granted_ex l t v h = elim v.holders [
  | inl s ↦ ground (arith, nil_of_length l.owners)
  | inr (u, o, e) ↦ ground arith
]

pub attempt_sh-IsSound : (l : PLock) (t : ℕ) → IsSound l → IsSound (attempt_sh l t).1
attempt_sh-IsSound l t v = elim (Bool-cases (sh_blocked l t)) [
  | inl b ↦ rw (attempt_sh-blocked l t b) (enqueue-IsSound l t sh v)
  | inr f ↦ record {
    holders = inl ((granted_sh l t v f).0);
    owners_distinct = rw ((granted_sh l t v f).3) (add-IsDistinct l.owners t sh v.owners_distinct);
    queue_distinct = rw ((granted_sh l t v f).2) (remove-IsDistinct l.queue t v.queue_distinct);
  }
]

pub attempt_ex-IsSound : (l : PLock) (t : ℕ) → IsSound l → IsSound (attempt_ex l t).1
attempt_ex-IsSound l t v = elim (Bool-cases (ex_free l t)) [
  | inl f ↦ record {
    holders = inr (t, (granted_ex l t v f).0, (granted_ex l t v f).1);
    owners_distinct = rw ((granted_ex l t v f).0) (refl, tt);
    queue_distinct = rw ((granted_ex l t v f).2) (remove-IsDistinct l.queue t v.queue_distinct);
  }
  | inr b ↦ rw (attempt_ex-blocked l t b) (enqueue-IsSound l t ex v)
]

-- A release by a thread that holds nothing changes nothing, and wakes nobody.
pub unlock-missing : (l : PLock) (t : ℕ) → type_of t l.owners ≡ none → unlock l t ≡ (false, l)
unfolding unlock
unlock-missing l t h = ground (arith, remove-missing l.owners t h)

-- A release by an owner of a shared lock.
pub unlock-Shared :
    (l : PLock) (t : ℕ)
    → Shared l
    → type_of t l.owners ≢ none
    → Shared (unlock l t).1
      × ((unlock l t).1.queue ≡ l.queue)
      × ((unlock l t).1.owners ≡ (remove_from_chain l.owners t).1)
unfolding unlock
unlock-Shared l t s h = ground (arith, remove-found l.owners t h, remove-AllShared l.owners t s.0)

-- A release by the owner of an exclusive lock leaves no owner, and wakes all.
pub unlock-Exclusive :
    (l : PLock) (t : ℕ)
    → Exclusive l
    → type_of t l.owners ≢ none
    → (unlock l t ≡ (true, record l { value = pos 0; owners = [] }))
unfolding unlock remove_from_chain
unlock-Exclusive l t (u, o, e) h = ground arith

pub unlock-IsSound : (l : PLock) (t : ℕ) → IsSound l → IsSound (unlock l t).1
unlock-IsSound l t v = elim (Option-cases (type_of t l.owners)) [
  | inl missing ↦ rw (unlock-missing l t missing) v
  | inr (ty, e) ↦ elim v.holders [
    | inl s ↦
        (let u = unlock-Shared l t s (λ m. some-ne-none (sym e ∙ m)) in
          record {
            holders = inl u.0;
            owners_distinct = rw u.2 (remove-IsDistinct l.owners t v.owners_distinct);
            queue_distinct = rw u.1 v.queue_distinct;
          })
    | inr x ↦ rw (unlock-Exclusive l t x (λ m. some-ne-none (sym e ∙ m))) (record {
      holders = inl (tt, refl);
      owners_distinct = tt;
      queue_distinct = v.queue_distinct;
    })
  ]
]

unlock_keeps_Shared :
    (l : PLock) (t u : ℕ) (asked : LockType)
    → Shared l
    → type_of t l.owners ≢ none
    → is_blocked l u asked ≡ true
    → (unlock l t).0 ≡ false
    → is_blocked (unlock l t).1 u asked ≡ true
unfolding unlock
unlock_keeps_Shared l t u un s h b quiet = refl
unlock_keeps_Shared l t u sh s h b quiet =
    ground
      (arith, s, remove-found l.owners t h, sh_blocked_lem l u, sh_blocked_lem (unlock l t).1 u)
unlock_keeps_Shared l t u ex s h b quiet = ground (arith, s, remove-found l.owners t h)

-- A release that wakes nobody leaves every other blocked thread blocked.
pub unlock_keeps :
    (l : PLock) (t u : ℕ) (asked : LockType)
    → IsSound l
    → is_blocked l u asked ≡ true
    → (unlock l t).0 ≡ false
    → is_blocked (unlock l t).1 u asked ≡ true
unlock_keeps l t u asked v b quiet = elim (Option-cases (type_of t l.owners)) [
  | inl missing ↦ rw (unlock-missing l t missing) b
  | inr (ty, e) ↦ elim v.holders [
    | inl s ↦ unlock_keeps_Shared l t u asked s (λ m. some-ne-none (sym e ∙ m)) b quiet
    | inr x ↦ (let w = unlock-Exclusive l t x (λ m. some-ne-none (sym e ∙ m)) in ground arith)
  ]
]

-- A granted shared lock leaves every other blocked thread of the queue blocked.
pub granted_sh_keeps :
    (l : PLock) (t u : ℕ) (asked : LockType)
    → IsSound l
    → Asks l t sh
    → u ≢ t
    → sh_blocked l t ≡ false
    → is_blocked l u asked ≡ true
    → is_blocked (attempt_sh l t).1 u asked ≡ true
granted_sh_keeps l t u un v a ne f b = refl
granted_sh_keeps l t u sh v a ne f b = ground (
  arith,
  granted_sh l t v f,
  sh_blocked_lem l u,
  sh_blocked_lem l t,
  sh_blocked_lem (attempt_sh l t).1 u,
  before_ex-remove_sh l.queue t u ne a,
)
granted_sh_keeps l t u ex v a ne f b = ground (arith, granted_sh l t v f)

-- An exclusive lock blocks everybody.
pub granted_ex_keeps :
    (l : PLock) (t u : ℕ) (asked : LockType)
    → IsSound l
    → ex_free l t ≡ true
    → is_blocked (attempt_ex l t).1 u asked ≡ true
granted_ex_keeps l t u un v f = refl
granted_ex_keeps l t u sh v f = ground (arith, granted_ex l t v f)
granted_ex_keeps l t u ex v f = ground (arith, granted_ex l t v f)
