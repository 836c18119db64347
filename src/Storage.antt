-- ===== src/Storage.antt =====
-- server/storage_io.c: reads and writes of whole ranges by `pread` and `pwrite`, which may stop
-- short. A file's content is the list of its bytes.
pub mod Content
pub mod Transfer
pub mod Hooks
pub mod Windows
mod Tests
use dataman.Base.Int.{ℤ, pos, negsuc}
use dataman.Base.{
  ℕ, zero, suc, ◌+◌, ◌-◌, ◌^◌, min, Bool, true, false, List, [], ◌∷◌, ◌++◌, ◌==◌, leb,
  if◌then◌else◌, length, take, drop,
}

abbrev pub Bytes : Type 0
Bytes = List ℕ

abbrev pub int64_max : ℕ
int64_max = 2 ^ 63 - 1

abbrev pub ssize_max : ℕ
ssize_max = 2 ^ 63 - 1

unfoldable pub replace : Bytes → Bytes → Bytes
replace content [] = content
replace [] (b ∷ chunk) = b ∷ chunk
replace (c ∷ content) (b ∷ chunk) = b ∷ replace content chunk

-- The content after `pwrite` took all of `chunk` at an offset: a gap is filled with zeros, and no
-- bytes at all leave the file as it is.
unfoldable pub pwrite : Bytes → ℕ → Bytes → Bytes
unfolding replace
pwrite content zero chunk = replace content chunk
pwrite content (suc offset) [] = content
pwrite [] (suc offset) (b ∷ chunk) = 0 ∷ pwrite [] offset (b ∷ chunk)
pwrite (c ∷ content) (suc offset) (b ∷ chunk) = c ∷ pwrite content offset (b ∷ chunk)

-- What `pread` finds from an offset on, `length` bytes at most.
abbrev pub pread : Bytes → ℕ → ℕ → Bytes
pread content offset length = take length (drop offset content)

-- The content after `ftruncate`, which cuts or fills with zeros.
unfoldable pub ftruncate : Bytes → ℕ → Bytes
ftruncate content zero = []
ftruncate [] (suc size) = 0 ∷ ftruncate [] size
ftruncate (c ∷ content) (suc size) = c ∷ ftruncate content size

-- `valid_range`: `off_t` has 64 bits, so the two casts of the end change nothing once the range ends
-- by `INT64_MAX`. The buffer is not null.
unfoldable pub valid_range : ℕ → ℤ → Bool
valid_range length (negsuc n) = false
valid_range length (pos offset) = leb length (int64_max - offset)

-- What one system call does: it is interrupted, fails, or moves some bytes.
pub data Call : Type 0 where
  interrupted failed : Call
  moved : ℕ → Call

-- Where the loop ends: 0, -1, or still in need of a system call.
pub data Ending : Type 0 where
  done error running : Ending

-- The loop of `dm_storage_write_at`. A call moves at most the `chunk` that it is given, and one that
-- moves nothing is an error.
unfoldable pub write_loop : List Call → Bytes → ℕ → Bytes → Ending × Bytes
unfolding pwrite
write_loop calls content offset [] = (done, content)
write_loop [] content offset (b ∷ rest) = (running, content)
write_loop (interrupted ∷ calls) content offset (b ∷ rest) =
    write_loop calls content offset (b ∷ rest)
write_loop (failed ∷ calls) content offset (b ∷ rest) = (error, content)
write_loop (moved zero ∷ calls) content offset (b ∷ rest) = (error, content)
write_loop (moved (suc n) ∷ calls) content offset (b ∷ rest) =
    let count = min (suc n) (min (length (b ∷ rest)) ssize_max) in
    write_loop calls (pwrite content offset (take count (b ∷ rest))) (offset + count)
      (drop count (b ∷ rest))

unfoldable pub write_at : List Call → Bytes → Bytes → ℤ → Ending × Bytes
unfolding write_loop valid_range
write_at calls content buffer (negsuc n) = (error, content)
write_at calls content buffer (pos offset) =
    if valid_range (length buffer) (pos offset)
    then write_loop calls content offset buffer
    else (error, content)

-- The loop of `dm_storage_read_at`, with the bytes read so far. At the end of the file a call moves
-- nothing.
unfoldable pub read_loop : List Call → Bytes → ℕ → ℕ → Bytes → Ending × Bytes
read_loop calls content offset zero buffer = (done, buffer)
read_loop [] content offset (suc need) buffer = (running, buffer)
read_loop (interrupted ∷ calls) content offset (suc need) buffer =
    read_loop calls content offset (suc need) buffer
read_loop (failed ∷ calls) content offset (suc need) buffer = (error, buffer)
read_loop (moved n ∷ calls) content offset (suc need) buffer =
    let got = pread content offset (min n (min (suc need) ssize_max)) in
    let rest =
      read_loop calls content (offset + length got) (suc need - length got) (buffer ++ got) in
    if length got == 0 then (error, buffer) else rest

unfoldable pub read_at : List Call → Bytes → ℕ → ℤ → Ending × Bytes
unfolding read_loop valid_range
read_at calls content length (negsuc n) = (error, [])
read_at calls content length (pos offset) =
    if valid_range length (pos offset)
    then read_loop calls content offset length []
    else (error, [])
