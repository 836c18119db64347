-- ===== src/Storage/Transfer.antt =====
-- What the loops of server/storage_io.c transfer, however the system calls stop short.
use dataman.Base.Int.{pos}
use dataman.Base.{
  ℕ, zero, suc, ◌+◌, ◌-◌, ◌≤◌, ◌<◌, min, ◌≡◌, refl, ap, sym, ◌∙◌, ◌⊎◌, inl, inr, true, false, List,
  [], ◌∷◌, ◌++◌, arith, ltb, ◌==◌, length, take, drop, length-take, length-drop, Bool-cases,
  nil_of_length, length-append, append-nil, append_assoc, ◌≢◌, take-split, drop-drop,
  take-length-take, All, take-length, le→leb,
}
use dataman.Storage.{
  Bytes, Call, interrupted, failed, moved, Ending, done, error, running, int64_max, ssize_max,
  replace, pwrite, pread, write_loop, write_at, read_at, read_loop, valid_range,
}
use dataman.Storage.Content.{byte, content_ext, byte-pwrite, length-pwrite, byte-take, byte-drop}

pub pwrite-nil : (content : Bytes) (offset : ℕ) → pwrite content offset [] ≡ content
unfolding pwrite replace
pwrite-nil content zero = refl
pwrite-nil content (suc offset) = refl

-- Writing a first part and then a part of the rest right behind it.
pwrite-pwrite :
    (content chunk : Bytes) (offset n m : ℕ)
    → 0 < n
    → n ≤ length chunk
    → pwrite (pwrite content offset (take n chunk)) (offset + n) (take m (drop n chunk))
      ≡ pwrite content offset (take (n + m) chunk)
pwrite-pwrite content chunk offset n m h k =
    content_ext _ _ (lengths (Bool-cases (ltb 0 (length (take m (drop n chunk)))))) (λ p. ground (
      arith,
      byte-pwrite (pwrite content offset (take n chunk)) (offset + n) (take m (drop n chunk)) p,
      byte-pwrite content offset (take n chunk) p,
      byte-pwrite content offset (take (n + m) chunk) p,
      byte-take chunk n (p - offset),
      byte-take (drop n chunk) m (p - (offset + n)),
      byte-drop chunk n (p - (offset + n)),
      byte-take chunk (n + m) (p - offset),
      same_place p,
      length-take n chunk,
      length-take m (drop n chunk),
      length-drop n chunk,
      length-take (n + m) chunk,
    ))
  where
    same_place :
        (p : ℕ) → offset + n ≤ p → byte chunk (n + (p - (offset + n))) ≡ byte chunk (p - offset)
    same_place p le = let e : n + (p - (offset + n)) ≡ p - offset = omega arith in ap (byte chunk) e

    lengths :
        (ltb 0 (length (take m (drop n chunk))) ≡ true)
          ⊎ (ltb 0 (length (take m (drop n chunk))) ≡ false)
        → length
            (pwrite (pwrite content offset (take n chunk)) (offset + n) (take m (drop n chunk)))
          ≡ length (pwrite content offset (take (n + m) chunk))
    lengths (inl some_left) = ground (
      arith,
      length-pwrite (pwrite content offset (take n chunk)) (offset + n) (take m (drop n chunk)),
      length-pwrite content offset (take n chunk),
      length-pwrite content offset (take (n + m) chunk),
      length-take n chunk,
      length-take m (drop n chunk),
      length-drop n chunk,
      length-take (n + m) chunk,
    )
    lengths (inr nothing) =
        let none_left : take m (drop n chunk) ≡ [] = nil_of_length _ (ground arith) in
        rw (none_left, pwrite-nil)
          (ground (
            arith,
            length-pwrite content offset (take n chunk),
            length-pwrite content offset (take (n + m) chunk),
            length-take n chunk,
            length-take m (drop n chunk),
            length-drop n chunk,
            length-take (n + m) chunk,
          ))

-- The loop writes a first part of what is left, all of it if it ends with 0.
write_loop_prefix :
    (calls : List Call) (content : Bytes) (offset : ℕ) (rest : Bytes)
    → let (ending, content') = write_loop calls content offset rest in
      (n : ℕ) × (n ≤ length rest)
      × (content' ≡ pwrite content offset (take n rest))
      × (ending ≡ done → n ≡ length rest)
unfolding write_loop
write_loop_prefix [] content offset [] =
    (0, omega arith, sym (pwrite-nil content offset), λ e. refl)
write_loop_prefix (c ∷ calls) content offset [] =
    (0, omega arith, sym (pwrite-nil content offset), λ e. refl)
write_loop_prefix [] content offset (b ∷ rest) =
    (0, omega arith, sym (pwrite-nil content offset), λ e. cc)
write_loop_prefix (interrupted ∷ calls) content offset (b ∷ rest) =
    write_loop_prefix calls content offset (b ∷ rest)
write_loop_prefix (failed ∷ calls) content offset (b ∷ rest) =
    (0, omega arith, sym (pwrite-nil content offset), λ e. cc)
write_loop_prefix (moved zero ∷ calls) content offset (b ∷ rest) =
    (0, omega arith, sym (pwrite-nil content offset), λ e. cc)
write_loop_prefix (moved (suc n) ∷ calls) content offset (b ∷ rest) =
    let count : ℕ = min (suc n) (min (suc (length rest)) ssize_max) in
    let (m, le, same, whole) =
      write_loop_prefix calls (pwrite content offset (take count (b ∷ rest))) (offset + count)
        (drop count (b ∷ rest)) in
    (
      count + m,
      omega (arith, length-drop count (b ∷ rest)),
      same ∙ pwrite-pwrite content (b ∷ rest) offset count m (omega arith) (omega arith),
      λ e. omega (arith, length-drop count (b ∷ rest), whole e),
    )

running_ne_done : running ≢ done
running_ne_done e = cc

error_ne_done : error ≢ done
error_ne_done e = cc

Ending-cases : (e : Ending) → (e ≡ done) ⊎ (e ≢ done)
Ending-cases done = inl refl
Ending-cases error = inr error_ne_done
Ending-cases running = inr running_ne_done

-- However the system calls of `dm_storage_write_at` end, on a range that it accepts, what is in the
-- file is the old content with a first part of the buffer written at the offset, and it is the whole
-- buffer if the result is 0.
pub write_at_prefix :
    (calls : List Call) (content buffer : Bytes) (offset : ℕ)
    → length buffer ≤ int64_max - offset
    → let (ending, content') = write_at calls content buffer (pos offset) in
      (n : ℕ) × (n ≤ length buffer)
      × (content' ≡ pwrite content offset (take n buffer))
      × ((ending ≢ done) ⊎ (n ≡ length buffer))
unfolding write_at valid_range
write_at_prefix calls content buffer offset h = rw (le→leb _ _ h) (
    let (n, le, same, whole) = write_loop_prefix calls content offset buffer in
    (
      n,
      le,
      same,
      elim (Ending-cases (write_loop calls content offset buffer).0) [
        | inl d ↦ inr (whole d)
        | inr other ↦ inl other
      ],
    ))

pair_path {ℓ κ} :
    {A : Type ℓ} {B : Type κ} {p : A × B} {a : A} {b : B} → p.0 ≡ a → p.1 ≡ b → p ≡ (a, b)
pair_path e f = λ i. (e i, f i)

abbrev pub Moves : Call → Type 0
Moves interrupted = ⊥
Moves failed = ⊥
Moves (moved zero) = ⊥
Moves (moved (suc n)) = Unit

-- As long as each system call moves something, as many of them as there are bytes are enough: the
-- write ends with 0 and is complete.
write_loop_ends :
    (calls : List Call) (content : Bytes) (offset : ℕ) (rest : Bytes)
    → All Moves calls
    → length rest ≤ length calls
    → (write_loop calls content offset rest).0 ≡ done
unfolding write_loop
write_loop_ends [] content offset [] ms h = refl
write_loop_ends (c ∷ calls) content offset [] ms h = refl
write_loop_ends [] content offset (b ∷ rest) ms h = absurd (omega arith)
write_loop_ends (interrupted ∷ calls) content offset (b ∷ rest) ms h = absurd (ms.0)
write_loop_ends (failed ∷ calls) content offset (b ∷ rest) ms h = absurd (ms.0)
write_loop_ends (moved zero ∷ calls) content offset (b ∷ rest) ms h = absurd (ms.0)
write_loop_ends (moved (suc n) ∷ calls) content offset (b ∷ rest) ms h =
    write_loop_ends calls _ _ _ ms.1
      (omega (arith, length-drop (min (suc n) (min (suc (length rest)) ssize_max)) (b ∷ rest)))

-- If every system call moves at least one byte, as many calls as there are bytes suffice: the write
-- returns 0, and the file holds the whole buffer at the offset.
pub write_at_completes :
    (calls : List Call) (content buffer : Bytes) (offset : ℕ)
    → length buffer ≤ int64_max - offset
    → All Moves calls
    → length buffer ≤ length calls
    → write_at calls content buffer (pos offset) ≡ (done, pwrite content offset buffer)
unfolding write_at valid_range
write_at_completes calls content buffer offset h ms enough =
    let e = write_loop_ends calls content offset buffer ms enough in
    let (n, le, same, whole) = write_loop_prefix calls content offset buffer in
    let all : take n buffer ≡ buffer = rw (whole e) (take-length buffer) in
    rw (le→leb _ _ h) (pair_path e (same ∙ ap (pwrite content offset) all))

pread_split :
    (content : Bytes) (offset k need : ℕ)
    → k ≤ need
    → let j = length (pread content offset k) in
      pread content offset need ≡ pread content offset k ++ pread content (offset + j) (need - j)
pread_split content offset k need h =
    let rest = drop offset content in
    let j : ℕ = length (take k rest) in
    take-split need j rest (omega (arith, length-take k rest))
    ∙ ap (λ (xs : Bytes). xs ++ take (need - j) (drop j rest)) (take-length-take k rest)
    ∙ ap (λ (xs : Bytes). take k rest ++ take (need - j) xs) (drop-drop offset j content)

-- One call that moves something, and what the rest of the loop reads.
read_step :
    (content : Bytes) (offset k need : ℕ) (buffer : Bytes) (r : Ending × Bytes)
    → k ≤ need
    → let j = length (pread content offset k) in
      (r.1 ≡ (buffer ++ pread content offset k) ++ pread content (offset + j) (need - j))
        × (length (pread content (offset + j) (need - j)) ≡ need - j)
      → (r.1 ≡ buffer ++ pread content offset need) × (length (pread content offset need) ≡ need)
read_step content offset k need buffer r le (same, full) =
    let j : ℕ = length (pread content offset k) in
    let split = pread_split content offset k need le in
    (
      same
          ∙ append_assoc buffer (pread content offset k) (pread content (offset + j) (need - j))
          ∙ ap (◌++◌ buffer) (sym split),
      rw split (
          omega (
            arith,
            length-append (pread content offset k) (pread content (offset + j) (need - j)),
            full,
            length-take k (drop offset content),
          )),
    )

-- The loop of a read that ends with 0 has appended exactly what stands in the file.
read_loop_exact :
    (calls : List Call) (content : Bytes) (offset need : ℕ) (buffer : Bytes)
    → (read_loop calls content offset need buffer).0 ≡ done
    → ((read_loop calls content offset need buffer).1 ≡ buffer ++ pread content offset need)
      × (length (pread content offset need) ≡ need)
unfolding read_loop
read_loop_exact [] content offset zero buffer h = (sym (append-nil buffer), refl)
read_loop_exact (c ∷ calls) content offset zero buffer h = (sym (append-nil buffer), refl)
read_loop_exact [] content offset (suc need) buffer h = absurd (running_ne_done h)
read_loop_exact (interrupted ∷ calls) content offset (suc need) buffer h =
    read_loop_exact calls content offset (suc need) buffer h
read_loop_exact (failed ∷ calls) content offset (suc need) buffer h = absurd (error_ne_done h)
read_loop_exact (moved n ∷ calls) content offset (suc need) buffer h =
    let k : ℕ = min n (min (suc need) ssize_max) in
    elim (Bool-cases (length (pread content offset k) == 0)) [
      | inl nothing ↦ absurd (error_ne_done (rw nothing at h))
      | inr some_read ↦ rw some_read (
          read_step content offset k (suc need) buffer
            (read_loop calls content (offset + length (pread content offset k))
              (suc need - length (pread content offset k)) (buffer ++ pread content offset k))
            (omega arith)
            (read_loop_exact calls content (offset + length (pread content offset k))
              (suc need - length (pread content offset k)) (buffer ++ pread content offset k)
              (rw some_read at h)))
    ]

-- When `dm_storage_read_at` of at least one byte returns 0, the buffer holds exactly the bytes of the
-- file at the offset, as many as were asked for, and all of them lie inside the file.
pub read_at_exact :
    (calls : List Call) (content : Bytes) (size offset : ℕ)
    → 0 < size
    → (read_at calls content size (pos offset)).0 ≡ done
    → ((read_at calls content size (pos offset)).1 ≡ pread content offset size)
      × (offset + size ≤ length content)
unfolding read_at
read_at_exact calls content size offset some_bytes h =
    elim (Bool-cases (valid_range size (pos offset))) [
      | inl valid ↦
          (let (same, full) = read_loop_exact calls content offset size [] (rw valid at h) in
            (
              rw valid same,
              omega
                  (arith, full, length-take size (drop offset content), length-drop offset content),
            ))
      | inr invalid ↦ absurd (error_ne_done (rw invalid at h))
    ]
