-- ===== src/Lock/Inv.antt =====
-- What holds of a lock of server/lock.c and its threads at every moment.
use dataman.Base.{
  ℕ, ◌≡◌, refl, ◌≢◌, ◌⊎◌, inl, inr, Bool, true, false, not, ◌||◌, none, some, List, [], ◌∷◌, arith,
  ◌==◌, length,
}
use dataman.Lock.{
  LockType, un, sh, ex, Owner, PLock, add_to_chain, before_ex, waits, sh_blocked, ex_free, enqueue,
  is_first,
}
use dataman.Base.Int.{pos, negsuc, is_negative}
use dataman.Lock.Chains.{
  type_of, IsDistinct, add-IsDistinct, add-new, add-old, before_ex-add, AllShared,
}

-- The predicate `value` counts the owners: n shared ones, or -1 for one exclusive owner.
abbrev pub Shared : PLock → Type 0
Shared l = AllShared l.owners × (l.value ≡ pos (length l.owners))

abbrev pub Exclusive : PLock → Type 0
Exclusive l = (t : ℕ) × (l.owners ≡ record { owner = t; type = ex } ∷ []) × (l.value ≡ negsuc 0)

pub record IsSound (l : PLock) : Type 0 where
  pub holders : Shared l ⊎ Exclusive l
  pub owners_distinct : IsDistinct l.owners
  pub queue_distinct : IsDistinct l.queue

-- The test that keeps a thread waiting.
abbrev pub is_blocked : PLock → ℕ → LockType → Bool
is_blocked l t un = true
is_blocked l t sh = sh_blocked l t
is_blocked l t ex = not (ex_free l t)

-- A thread that asks for `type` is in the queue with that type or not at all.
abbrev pub Asks : PLock → ℕ → LockType → Type 0
Asks l t type = (type_of t l.queue ≡ none) ⊎ (type_of t l.queue ≡ some type)

before_ex-add_self :
    (c : List Owner) (t : ℕ) (ty : LockType)
    → before_ex c t ≡ false
    → before_ex (add_to_chain c t ty).1 t ≡ false
unfolding before_ex add_to_chain
before_ex-add_self [] t ty h = cc
before_ex-add_self (o ∷ c) t ty h = ground (arith, before_ex-add_self c t ty)

-- The head of a queue stays its head; a new head is the thread that joins an empty queue.
is_first-add :
    (c : List Owner) (t : ℕ) (type : LockType) (u : ℕ)
    → is_first (add_to_chain c t type).1 u ≡ (elim c [ [] ↦ t == u | o ∷ r ↦ o.owner == u ])
unfolding add_to_chain
is_first-add [] t type u = refl
is_first-add (o ∷ c) t type u = ground arith

-- A request that follows the protocol is never refused.
pub enqueue_waits :
    (l : PLock) (t : ℕ) (type : LockType) → Asks l t type → (enqueue type l t).0 ≡ waits
unfolding enqueue
enqueue_waits l t type (inl h) = ground (arith, add-new l.queue t type h)
enqueue_waits l t type (inr h) = ground (arith, add-old l.queue t type h)

pub enqueue-IsSound :
    (l : PLock) (t : ℕ) (type : LockType) → IsSound l → IsSound (enqueue type l t).1
unfolding enqueue
enqueue-IsSound l t type v = record {
  holders = v.holders;
  owners_distinct = v.owners_distinct;
  queue_distinct = add-IsDistinct l.queue t type v.queue_distinct;
}

pub sh_blocked_lem :
    (l : PLock) (t : ℕ) → sh_blocked l t ≡ (is_negative l.value || not (before_ex l.queue t))
unfolding before_ex
sh_blocked_lem l t = ground arith

-- A thread that goes to sleep is blocked.
pub enqueue_blocks :
    (l : PLock) (t : ℕ) (type : LockType)
    → is_blocked l t type ≡ true
    → is_blocked (enqueue type l t).1 t type ≡ true
unfolding enqueue
enqueue_blocks l t un h = refl
enqueue_blocks l t sh h = ground (
  arith,
  sh_blocked_lem l t,
  sh_blocked_lem (record l { queue = (add_to_chain l.queue t sh).1 }) t,
  before_ex-add_self l.queue t sh,
)
enqueue_blocks l t ex h = ground (arith, is_first-add l.queue t ex t)

-- A blocked thread of the queue stays so when another one joins.
pub enqueue_keeps :
    (l : PLock) (t u : ℕ) (type asked : LockType)
    → u ≢ t
    → type_of u l.queue ≢ none
    → is_blocked l u asked ≡ true
    → is_blocked (enqueue type l t).1 u asked ≡ true
unfolding enqueue
enqueue_keeps l t u type un ne q h = refl
enqueue_keeps l t u type sh ne q h = ground (
  arith,
  sh_blocked_lem l u,
  sh_blocked_lem (record l { queue = (add_to_chain l.queue t type).1 }) u,
  before_ex-add l.queue t u type ne q,
)
enqueue_keeps l t u type ex ne q h = ground (arith, is_first-add l.queue t type u)
