-- ===== src/Lock/Chains.antt =====
-- Laws of the owner and queue chains of server/lock.c, by what a lookup finds.
use dataman.Base.{
  ℕ, ◌+◌, ◌≡◌, refl, ◌≢◌, ◌⊎◌, inl, true, false, Option, none, some, List, [], ◌∷◌, arith, ◌==◌,
  if◌then◌else◌, length, All,
}
use dataman.Lock.{
  LockType, un, sh, ex, Owner, remove_from_chain, present, appended, add_to_chain, before_ex,
}

abbrev pub type_of : ℕ → List Owner → Option LockType
type_of t [] = none
type_of t (o ∷ chain) = if o.owner == t then some o.type else type_of t chain

-- No thread stands in the chain twice.
abbrev pub IsDistinct : List Owner → Type 0
IsDistinct [] = Unit
IsDistinct (o ∷ chain) = (type_of o.owner chain ≡ none) × IsDistinct chain

pub type_of-remove_ne :
    (c : List Owner) (t u : ℕ) → u ≢ t → type_of u (remove_from_chain c t).1 ≡ type_of u c
unfolding remove_from_chain
type_of-remove_ne [] t u h = refl
type_of-remove_ne (o ∷ c) t u h = ground (arith, type_of-remove_ne c t u h)

pub type_of-remove_self :
    (c : List Owner) (t : ℕ) → IsDistinct c → type_of t (remove_from_chain c t).1 ≡ none
unfolding remove_from_chain
type_of-remove_self [] t d = refl
type_of-remove_self (o ∷ c) t d = ground (arith, type_of-remove_self c t d.1)

pub remove-IsDistinct :
    (c : List Owner) (t : ℕ) → IsDistinct c → IsDistinct (remove_from_chain c t).1
unfolding remove_from_chain
remove-IsDistinct [] t d = tt
remove-IsDistinct (o ∷ c) t d =
    ground (arith, remove-IsDistinct c t d.1, type_of-remove_ne c t o.owner)

pub type_of-add_ne :
    (c : List Owner) (t u : ℕ) (ty : LockType)
    → u ≢ t
    → type_of u (add_to_chain c t ty).1 ≡ type_of u c
unfolding add_to_chain
type_of-add_ne [] t u ty h = ground arith
type_of-add_ne (o ∷ c) t u ty h = ground (arith, type_of-add_ne c t u ty h)

-- A thread that is in the chain keeps its place and its type.
pub type_of-add_self :
    (c : List Owner) (t : ℕ) (ty : LockType)
    → type_of t (add_to_chain c t ty).1
      ≡ elim (type_of t c) [ none ↦ some ty | some old ↦ some old ]
unfolding add_to_chain
type_of-add_self [] t ty = ground arith
type_of-add_self (o ∷ c) t ty = ground (arith, type_of-add_self c t ty)

pub add-IsDistinct :
    (c : List Owner) (t : ℕ) (ty : LockType) → IsDistinct c → IsDistinct (add_to_chain c t ty).1
unfolding add_to_chain
add-IsDistinct [] t ty d = (refl, tt)
add-IsDistinct (o ∷ c) t ty d =
    ground (arith, add-IsDistinct c t ty d.1, type_of-add_ne c t o.owner ty)

-- `add_to_chain` by what the chain held.
pub add-new :
    (c : List Owner) (t : ℕ) (ty : LockType)
    → type_of t c ≡ none
    → ((add_to_chain c t ty).0 ≡ appended) × (length (add_to_chain c t ty).1 ≡ length c + 1)
unfolding add_to_chain
add-new [] t ty h = ground arith
add-new (o ∷ c) t ty h = ground (arith, add-new c t ty)

pub add-old :
    (c : List Owner) (t : ℕ) (ty : LockType)
    → type_of t c ≡ some ty
    → ((add_to_chain c t ty).0 ≡ present) × ((add_to_chain c t ty).1 ≡ c)
unfolding add_to_chain
add-old [] t ty h = cc
add-old (o ∷ c) t un h = ground (arith, add-old c t un)
add-old (o ∷ c) t sh h = ground (arith, add-old c t sh)
add-old (o ∷ c) t ex h = ground (arith, add-old c t ex)

pub remove-found :
    (c : List Owner) (t : ℕ)
    → type_of t c ≢ none
    → ((remove_from_chain c t).0 ≡ true) × (length (remove_from_chain c t).1 + 1 ≡ length c)
unfolding remove_from_chain
remove-found [] t h = absurd (h refl)
remove-found (o ∷ c) t h = ground (arith, remove-found c t)

pub remove-missing :
    (c : List Owner) (t : ℕ) → type_of t c ≡ none → remove_from_chain c t ≡ (false, c)
unfolding remove_from_chain
remove-missing [] t h = refl
remove-missing (o ∷ c) t h = ground (arith, remove-missing c t)

-- Taking a thread that asks for a shared lock out of the queue frees no other thread's way.
pub before_ex-remove_sh :
    (c : List Owner) (t u : ℕ)
    → u ≢ t
    → (type_of t c ≡ none) ⊎ (type_of t c ≡ some sh)
    → before_ex (remove_from_chain c t).1 u ≡ before_ex c u
unfolding before_ex remove_from_chain
before_ex-remove_sh [] t u ne h = refl
before_ex-remove_sh (o ∷ c) t u ne h = ground (arith, before_ex-remove_sh c t u ne)

-- A newcomer at the end of the queue is in nobody's way.
pub before_ex-add :
    (c : List Owner) (t u : ℕ) (ty : LockType)
    → u ≢ t
    → type_of u c ≢ none
    → before_ex (add_to_chain c t ty).1 u ≡ before_ex c u
unfolding before_ex add_to_chain
before_ex-add [] t u ty ne h = absurd (h refl)
before_ex-add (o ∷ c) t u ty ne h = ground (arith, before_ex-add c t u ty ne)

-- All owners hold a shared lock.
abbrev pub AllShared : List Owner → Type 0
AllShared = All (λ o. o.type ≡ sh)

pub remove-AllShared : (c : List Owner) (t : ℕ) → AllShared c → AllShared (remove_from_chain c t).1
unfolding remove_from_chain
remove-AllShared [] t h = tt
remove-AllShared (o ∷ c) t h = ground (arith, remove-AllShared c t h.1)

pub add-AllShared : (c : List Owner) (t : ℕ) → AllShared c → AllShared (add_to_chain c t sh).1
unfolding add_to_chain
add-AllShared [] t h = (refl, tt)
add-AllShared (o ∷ c) t h = ground (arith, add-AllShared c t h.1)

pub type_of-AllShared :
    (c : List Owner) (t : ℕ) → AllShared c → (type_of t c ≡ none) ⊎ (type_of t c ≡ some sh)
type_of-AllShared [] t h = inl refl
type_of-AllShared (o ∷ c) t h = ground (arith, type_of-AllShared c t h.1)
