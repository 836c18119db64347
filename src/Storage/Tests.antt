-- ===== src/Storage/Tests.antt =====
-- Runs of the transfers of server/storage_io.c, and their properties at concrete calls.
use dataman.Base.Int.{pos}
use dataman.Base.{ℕ, ◌≢◌, ◌⊎◌, ◌+◌, ◌≤◌, ◌≡◌, refl, [], ◌∷◌, take, arith}
use dataman.Storage.{Bytes, interrupted, failed, moved, done, error, pwrite, write_at, read_at}
use dataman.Storage.Transfer.{write_at_prefix, write_at_completes, read_at_exact}

abbrev old : Bytes
old = 1 ∷ 2 ∷ 3 ∷ 4 ∷ 5 ∷ []

abbrev new : Bytes
new = 7 ∷ 8 ∷ 9 ∷ []

-- Two bytes go in, and then the disk fails.
torn_write :
    write_at (interrupted ∷ moved 2 ∷ failed ∷ []) old new (pos 4)
    ≡ (error, 1 ∷ 2 ∷ 3 ∷ 4 ∷ 7 ∷ 8 ∷ [])
unfolding write_at
torn_write = refl

write_at_prefix_example :
    let (ending, content') = write_at (moved 2 ∷ failed ∷ []) old new (pos 4) in
    (n : ℕ) × (n ≤ 3) × (content' ≡ pwrite old 4 (take n new)) × ((ending ≢ done) ⊎ (n ≡ 3))
write_at_prefix_example = write_at_prefix (moved 2 ∷ failed ∷ []) old new 4 (omega arith)

write_at_completes_example :
    write_at (moved 2 ∷ moved 9 ∷ moved 1 ∷ []) old new (pos 4) ≡ (done, pwrite old 4 new)
write_at_completes_example =
    write_at_completes (moved 2 ∷ moved 9 ∷ moved 1 ∷ []) old new 4 (omega arith)
      (tt, (tt, (tt, tt))) (omega arith)

read_done : (read_at (moved 1 ∷ interrupted ∷ moved 8 ∷ []) old 3 (pos 1)).0 ≡ done
unfolding read_at
read_done = refl

read_at_exact_example :
    ((read_at (moved 1 ∷ interrupted ∷ moved 8 ∷ []) old 3 (pos 1)).1 ≡ 2 ∷ 3 ∷ 4 ∷ [])
    × (1 + 3 ≤ 5)
read_at_exact_example =
    read_at_exact (moved 1 ∷ interrupted ∷ moved 8 ∷ []) old 3 1 (omega arith) read_done
