-- ===== src/Lock/Tests.antt =====
-- Runs of the lock of server/lock.c, and the properties at concrete interleavings.
use dataman.Base.{◌≡◌, refl, ◌≢◌, inl, true, some, List, [], ◌∷◌}
use dataman.Lock.{un, sh, ex, PLock, granted, waits, refused, attempt_sh, unlock}
use dataman.Base.Int.{pos, negsuc}
use dataman.Lock.Chains.{type_of}
use dataman.Lock.Inv.{is_blocked}
use dataman.Lock.System.{running, asleep, awake, initial, attempt, Event, call, resume, run}
use dataman.Lock.Safety.{waiting}
use dataman.Lock.Progress.{
  exclusion, no_lost_wakeup, never_refused, head_proceeds, no_overtaking, unlock-attempt_sh,
}
use dataman.Lock.Deadlock.{own_wait_never_ends}

-- Thread 1 shares, thread 2 asks for the exclusive lock, thread 3 comes after it.
abbrev crowd : List Event
crowd = call 1 sh ∷ call 2 ex ∷ call 3 sh ∷ []

-- Thread 1 lets go, and thread 2 takes the lock.
abbrev handed : List Event
handed = call 1 sh ∷ call 2 ex ∷ call 3 sh ∷ call 1 un ∷ resume 3 ∷ resume 2 ∷ []

-- Thread 1 asks for the exclusive lock while it shares it.
abbrev promoted : List Event
promoted = call 1 sh ∷ call 1 ex ∷ []

handed_lock : (run handed initial).lock ≡ record {
  value = negsuc 0;
  owners = record { owner = 2; type = ex } ∷ [];
  queue = record { owner = 3; type = sh } ∷ [];
}
unfolding run
handed_lock = refl

handed_owner : type_of 2 (run handed initial).lock.owners ≡ some ex
unfolding run
handed_owner = refl

exclusion_example :
    let l = (run handed initial).lock in
    (l.owners ≡ record { owner = 2; type = ex } ∷ []) × (l.value ≡ negsuc 0)
exclusion_example = exclusion handed 2 handed_owner

crowd_sleeps : (run crowd initial).threads 3 ≡ asleep sh
unfolding run
crowd_sleeps = refl

no_lost_wakeup_example : is_blocked (run crowd initial).lock 3 sh ≡ true
no_lost_wakeup_example = no_lost_wakeup crowd 3 sh crowd_sleeps

outsider_runs : (run crowd initial).threads 4 ≡ running
unfolding run
outsider_runs = refl

never_refused_example : (attempt sh (run crowd initial).lock 4).0 ≢ refused
never_refused_example = never_refused crowd 4 sh (inl outsider_runs)

-- The lock is free, and threads 2 and 3 are still queued.
abbrev freed : List Event
freed = call 1 sh ∷ call 2 ex ∷ call 3 sh ∷ call 1 un ∷ []

freed_value : (run freed initial).lock.value ≡ pos 0
unfolding run
freed_value = refl

freed_queue :
    (run freed initial).lock.queue
    ≡ record { owner = 2; type = ex } ∷ record { owner = 3; type = sh } ∷ []
unfolding run
freed_queue = refl

head_proceeds_example :
    ((run freed initial).threads 2 ≡ awake ex)
    × ((attempt ex (run freed initial).lock 2).0 ≡ granted)
head_proceeds_example =
    head_proceeds freed 2 ex (record { owner = 3; type = sh } ∷ []) freed_value freed_queue

abbrev one_writer_waits : PLock
one_writer_waits = record {
  value = pos 1;
  owners = record { owner = 1; type = sh } ∷ [];
  queue = record { owner = 2; type = ex } ∷ [];
}

no_overtaking_example : attempt_sh one_writer_waits 3 ≡ (
  waits,
  record one_writer_waits {
    queue = record { owner = 2; type = ex } ∷ record { owner = 3; type = sh } ∷ [];
  },
)
no_overtaking_example = no_overtaking one_writer_waits 3 2 refl refl

abbrev one_reader : PLock
one_reader = record { value = pos 1; owners = record { owner = 1; type = sh } ∷ []; queue = [] }

reader_granted : (attempt_sh one_reader 2).0 ≡ granted
unfolding attempt_sh
reader_granted = refl

unlock-attempt_sh_example :
    let l = (unlock (attempt_sh one_reader 2).1 2).1 in
    (l.owners ≡ one_reader.owners) × (l.value ≡ pos 1)
unlock-attempt_sh_example = unlock-attempt_sh one_reader 2 refl reader_granted

promoted_owner : type_of 1 (run promoted initial).lock.owners ≡ some sh
unfolding run
promoted_owner = refl

promoted_sleeps : (run promoted initial).threads 1 ≡ asleep ex
unfolding run
promoted_sleeps = refl

own_wait_never_ends_example :
    let s = run (call 2 sh ∷ call 2 un ∷ resume 1 ∷ []) (run promoted initial) in
    (type_of 1 s.lock.owners ≡ some sh) × (waiting (s.threads 1) ≡ some ex)
own_wait_never_ends_example =
    own_wait_never_ends promoted (call 2 sh ∷ call 2 un ∷ resume 1 ∷ []) 1 sh ex promoted_owner
      promoted_sleeps
