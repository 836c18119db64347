-- ===== src/Session/Tests.antt =====
-- A run of server/transaction_session.c: session 5 begins a transaction and a worker enters its scope.
use dataman.Base.Int.{pos}
use dataman.Base.{ℕ, ◌≡◌, refl, true, false, none, some, List, [], ◌∷◌, ◌++◌, All}
use dataman.Undo.State.{Files, Disk, Place, Tx}
use dataman.Undo.Begin.{BeginFaults}
use dataman.Session.{Target, Scope, scope_of, request_enter, enter}
use dataman.Storage.{Bytes}
use dataman.Undo.Names.{parts}
use dataman.Session.Dispatch.{bind_file, relative_of, plain_part, plain_parts}
use dataman.Session.Bound.{IsPlain, joined, bind_file_lem}
use dataman.Session.Steps.{Event, entered, configured, begun, scoped, run, fresh, configure, start}
use dataman.Session.Reachable.{owner_excludes, one_scope_works}

abbrev no_files : Files
no_files n = none

abbrev empty_disk : Disk
empty_disk = record { files = no_files; journal = none }

abbrev no_tx : Tx
no_tx = record { state = 2; sequence = 0; end = 56; blobs = [] }

abbrev place : Place
place = record {
  journal_dev = 1;
  journal_ino = 9;
  dir_dev = 1;
  dir_ino = 8;
  root = 0x2f ∷ 0x64 ∷ 0x62 ∷ [];
  root_dev = 1;
  root_ino = 7;
  blobs_dev = 1;
  blobs_ino = 6;
  blobs_extended = false;
}

abbrev good_begin : BeginFaults
good_begin = record { opens = true; header_stop = none; path_stop = none; syncs = true }

abbrev one_target : List Target
one_target = record { fd = pos 4; path = 97 ∷ [] } ∷ []

abbrev worked : List Event
worked = configured true ∷ begun good_begin 5 ∷ entered 2 ∷ scoped 1 5 one_target ∷ []

abbrev scope_1 : Scope
scope_1 = record { thread = 1; shmid = 5; generation = 1; targets = one_target }

worked_owner : (run place worked (fresh no_tx empty_disk)).owner ≡ some 5
unfolding run enter request_enter start configure
worked_owner = refl

worked_scope : scope_of 1 (run place worked (fresh no_tx empty_disk)).scopes ≡ some scope_1
unfolding run enter request_enter start configure
worked_scope = refl

owner_excludes_example :
    ((run place worked (fresh no_tx empty_disk)).writers ≡ [])
    × ((run place worked (fresh no_tx empty_disk)).requests ≡ [])
owner_excludes_example = owner_excludes place no_tx empty_disk worked 5 worked_owner

one_scope_works_example :
    let s = run place worked (fresh no_tx empty_disk) in
    (◌≡◌ {A = ℕ} 1 1) × (scope_1 ≡ scope_1) × (s.owner ≡ some 5) × (1 ≡ s.generation)
one_scope_works_example =
    one_scope_works place no_tx empty_disk worked 1 1 scope_1 scope_1 worked_scope worked_scope

abbrev root_db : Bytes
root_db = 0x2f ∷ 0x64 ∷ 0x62 ∷ []

abbrev file_a : Target
file_a = record { fd = pos 4; path = 0x2f ∷ 0x64 ∷ 0x62 ∷ 0x2f ∷ 97 ∷ [] }

abbrev bound_a : Target
bound_a = record { fd = pos 4; path = 97 ∷ [] }

file_a_bound : bind_file root_db file_a ≡ some bound_a
unfolding bind_file relative_of parts plain_parts plain_part
file_a_bound = refl

bind_file_lem_example :
    (file_a.path ≡ root_db ++ (b'/' ∷ bound_a.path))
    × (bound_a.fd ≡ file_a.fd)
    × (joined (parts bound_a.path) ≡ bound_a.path)
    × All IsPlain (parts bound_a.path)
bind_file_lem_example = bind_file_lem root_db file_a bound_a refl file_a_bound
