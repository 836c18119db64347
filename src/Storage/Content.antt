-- ===== src/Storage/Content.antt =====
-- Contents byte by byte: what `pwrite` and `ftruncate` leave at each position.
use dataman.Base.{
  ℕ, zero, suc, ◌+◌, ◌-◌, ◌≤◌, ◌<◌, max, ◌≡◌, refl, ap, ◌∙◌, ◌&&◌, [], ◌∷◌, arith, ltb, leb,
  if◌then◌else◌, length, get_or, take, drop,
}
use dataman.Storage.{Bytes, replace, pwrite, pread, ftruncate}

-- The byte at a position, 0 past the end.
abbrev pub byte : Bytes → ℕ → ℕ
byte content p = get_or content p 0

pub content_ext : (a b : Bytes) → length a ≡ length b → ((p : ℕ) → byte a p ≡ byte b p) → a ≡ b
content_ext [] [] e h = refl
content_ext [] (y ∷ b) e h = absurd (omega arith)
content_ext (x ∷ a) [] e h = absurd (omega arith)
content_ext (x ∷ a) (y ∷ b) e h =
    ap (λ k. k ∷ a) (h 0) ∙ ap (◌∷◌ y) (content_ext a b (omega arith) (λ p. h (suc p)))

pub byte_past : (content : Bytes) (p : ℕ) → length content ≤ p → byte content p ≡ 0
byte_past [] p h = refl
byte_past (c ∷ content) zero h = absurd (omega arith)
byte_past (c ∷ content) (suc p) h = byte_past content p (omega arith)

byte-replace :
    (content chunk : Bytes) (p : ℕ)
    → byte (replace content chunk) p
      ≡ (if ltb p (length chunk) then byte chunk p else byte content p)
unfolding replace
byte-replace content [] p = ground arith
byte-replace [] (b ∷ chunk) zero = ground arith
byte-replace [] (b ∷ chunk) (suc p) = ground (arith, byte_past chunk p)
byte-replace (c ∷ content) (b ∷ chunk) zero = ground arith
byte-replace (c ∷ content) (b ∷ chunk) (suc p) = ground (arith, byte-replace content chunk p)

length-replace :
    (content chunk : Bytes) → length (replace content chunk) ≡ max (length content) (length chunk)
unfolding replace
length-replace content [] = omega arith
length-replace [] (b ∷ chunk) = omega arith
length-replace (c ∷ content) (b ∷ chunk) = omega (arith, length-replace content chunk)

-- Position `p` holds the chunk's byte inside the range, and the old byte outside.
pub byte-pwrite :
    (content : Bytes) (offset : ℕ) (chunk : Bytes) (p : ℕ)
    → byte (pwrite content offset chunk) p ≡ (
        if leb offset p && ltb p (offset + length chunk)
        then byte chunk (p - offset)
        else byte content p)
unfolding pwrite
byte-pwrite content zero chunk p =
    let same : p - 0 ≡ p = omega arith in
    ground (arith, byte-replace content chunk p, ap (byte chunk) same)
byte-pwrite content (suc offset) [] p = ground arith
byte-pwrite [] (suc offset) (b ∷ chunk) zero = ground arith
byte-pwrite [] (suc offset) (b ∷ chunk) (suc p) =
    ground (arith, byte-pwrite [] offset (b ∷ chunk) p)
byte-pwrite (c ∷ content) (suc offset) (b ∷ chunk) zero = ground arith
byte-pwrite (c ∷ content) (suc offset) (b ∷ chunk) (suc p) =
    ground (arith, byte-pwrite content offset (b ∷ chunk) p)

pub length-pwrite :
    (content : Bytes) (offset : ℕ) (chunk : Bytes)
    → 0 < length chunk
    → length (pwrite content offset chunk) ≡ max (length content) (offset + length chunk)
unfolding pwrite
length-pwrite content zero chunk h = omega (arith, length-replace content chunk)
length-pwrite content (suc offset) [] h = absurd (omega arith)
length-pwrite [] (suc offset) (b ∷ chunk) h = omega (arith, length-pwrite [] offset (b ∷ chunk))
length-pwrite (c ∷ content) (suc offset) (b ∷ chunk) h =
    omega (arith, length-pwrite content offset (b ∷ chunk))

pub byte-ftruncate :
    (content : Bytes) (size p : ℕ)
    → byte (ftruncate content size) p ≡ (if ltb p size then byte content p else 0)
unfolding ftruncate
byte-ftruncate content zero p = ground arith
byte-ftruncate [] (suc size) zero = ground arith
byte-ftruncate [] (suc size) (suc p) = ground (arith, byte-ftruncate [] size p)
byte-ftruncate (c ∷ content) (suc size) zero = ground arith
byte-ftruncate (c ∷ content) (suc size) (suc p) = ground (arith, byte-ftruncate content size p)

pub length-ftruncate : (content : Bytes) (size : ℕ) → length (ftruncate content size) ≡ size
unfolding ftruncate
length-ftruncate content zero = refl
length-ftruncate [] (suc size) = ap suc (length-ftruncate [] size)
length-ftruncate (c ∷ content) (suc size) = ap suc (length-ftruncate content size)

pub byte-take : (xs : Bytes) (n p : ℕ) → byte (take n xs) p ≡ (if ltb p n then byte xs p else 0)
byte-take xs zero p = ground arith
byte-take [] (suc n) p = ground arith
byte-take (x ∷ xs) (suc n) zero = ground arith
byte-take (x ∷ xs) (suc n) (suc p) = ground (arith, byte-take xs n p)

pub byte-drop : (xs : Bytes) (n p : ℕ) → byte (drop n xs) p ≡ byte xs (n + p)
byte-drop xs zero p = let same : p ≡ 0 + p = omega arith in ap (byte xs) same
byte-drop [] (suc n) p = refl
byte-drop (x ∷ xs) (suc n) p =
    let next : suc (n + p) ≡ suc n + p = omega arith in byte-drop xs n p ∙ ap (byte (x ∷ xs)) next

-- What `pread` returns, byte by byte.
pub byte-pread :
    (content : Bytes) (offset length p : ℕ)
    → byte (pread content offset length) p ≡ (if ltb p length then byte content (offset + p) else 0)
byte-pread content offset length p =
    ground (arith, byte-take (drop offset content) length p, byte-drop content offset p)
