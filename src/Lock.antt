-- ===== src/Lock.antt =====
-- server/lock.c and server/lock.h: the file lock that threads take shared or exclusive.
-- `fl_lock` runs under the lock's mutex except while it waits, so each pass through its loop is
-- one atomic step: `attempt`. A thread identifier is a number, and `pthread_equal` compares two.
pub mod Chains
pub mod System
pub mod Inv
pub mod Pass
pub mod Safety
pub mod Progress
pub mod Deadlock
mod Tests
use dataman.Base.Int.{ℤ, pos, negsuc, is_negative, is_zero, increment, decrement}
use dataman.Base.{
  ℕ, zero, suc, Bool, true, false, not, ◌&&◌, ◌||◌, List, [], ◌∷◌, ◌==◌, if◌then◌else◌,
}

-- `LOCK_UN`, `LOCK_SH`, `LOCK_EX`
pub data LockType : Type 0 where
  un sh ex : LockType

abbrev pub is_ex : LockType → Bool
is_ex ex = true
is_ex sh = false
is_ex un = false

abbrev pub same_type : LockType → LockType → Bool
same_type un un = true
same_type sh sh = true
same_type ex ex = true
same_type _ _ = false

-- `OWNER`, without its link: a chain is a list.
pub record Owner : Type 0 where
  pub owner : ℕ
  pub type : LockType

-- `P_LOCK`, without the mutex and the condition, which `System` stands for.
pub record PLock : Type 0 where
  pub value : ℤ
  pub owners : List Owner
  pub queue : List Owner

-- What `remove_from_chain` returns, and the chain that it leaves.
pub remove_from_chain : List Owner → ℕ → Bool × List Owner
remove_from_chain [] self = (false, [])
remove_from_chain (o ∷ chain) self =
    if o.owner == self
    then (true, chain)
    else (let (found, rest) = remove_from_chain chain self in (found, o ∷ rest))

-- The three results of `add_to_chain`: -1, 0 and 1.
pub data Added : Type 0 where
  conflict present appended : Added

pub add_to_chain : List Owner → ℕ → LockType → Added × List Owner
add_to_chain [] self type = (appended, record { owner = self; type = type } ∷ [])
add_to_chain (o ∷ chain) self type =
    if o.owner == self
    then (if same_type o.type type then present else conflict, o ∷ chain)
    else (let (r, rest) = add_to_chain chain self type in (r, o ∷ rest))

pub before_ex : List Owner → ℕ → Bool
before_ex [] self = true
before_ex (o ∷ chain) self =
    if o.owner == self then true else if is_ex o.type then false else before_ex chain self

abbrev pub is_empty : List Owner → Bool
is_empty [] = true
is_empty (o ∷ chain) = false

-- `pthread_equal(lock->queue->_owner, self)`, or no queue at all
abbrev pub is_first : List Owner → ℕ → Bool
is_first [] self = true
is_first (o ∷ chain) self = o.owner == self

-- How one pass ends: `return(1)`, `return(0)`, or `pthread_cond_wait`.
pub data Outcome : Type 0 where
  granted refused waits : Outcome

-- The test that sends a request for a shared lock to sleep.
abbrev pub sh_blocked : PLock → ℕ → Bool
sh_blocked l self = is_negative l.value || (not (is_empty l.queue) && not (before_ex l.queue self))

-- The test that grants an exclusive lock.
abbrev pub ex_free : PLock → ℕ → Bool
ex_free l self = is_zero l.value && is_first l.queue self

-- `add_to_chain(&lock->queue, self, type) < 0` refuses; else the thread sleeps.
pub enqueue : LockType → PLock → ℕ → Outcome × PLock
unfolding add_to_chain
enqueue type l self =
    let (r, queue) = add_to_chain l.queue self type in
    (elim r [ conflict ↦ refused | present ↦ waits | appended ↦ waits ], record l { queue = queue })

-- `case LOCK_SH`. A result of -1 counts as true in `if (add_to_chain(...))`.
pub attempt_sh : PLock → ℕ → Outcome × PLock
unfolding enqueue add_to_chain remove_from_chain before_ex
attempt_sh l self =
    if sh_blocked l self
    then enqueue sh l self
    else (let (r, owners) = add_to_chain l.owners self sh in
        (
          granted,
          record {
            value = elim r [
              | conflict ↦ increment l.value
              | present ↦ l.value
              | appended ↦ increment l.value
            ];
            owners = owners;
            queue = (remove_from_chain l.queue self).1;
          },
        ))

-- `case LOCK_EX`
pub attempt_ex : PLock → ℕ → Outcome × PLock
unfolding enqueue add_to_chain remove_from_chain
attempt_ex l self =
    if ex_free l self
    then (
      granted,
      record {
        value = decrement l.value;
        owners = (add_to_chain l.owners self ex).1;
        queue = (remove_from_chain l.queue self).1;
      },
    )
    else enqueue ex l self

abbrev pub head_is_sh : List Owner → Bool
head_is_sh [] = false
head_is_sh (o ∷ chain) = same_type o.type sh

-- `value` moved towards 0
abbrev pub towards_zero : ℤ → ℤ
towards_zero (pos zero) = pos 0
towards_zero (pos (suc n)) = pos n
towards_zero (negsuc n) = increment (negsuc n)

-- `case LOCK_UN`: whether it broadcasts, and the lock after it.
pub unlock : PLock → ℕ → Bool × PLock
unfolding remove_from_chain
unlock l self =
    let (found, owners) = remove_from_chain l.owners self in
    let value = towards_zero l.value in
    if found
    then (
      is_zero value || (not (is_zero value) && head_is_sh l.queue),
      record l { value = value; owners = owners },
    )
    else (false, l)
