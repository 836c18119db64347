-- ===== src/Undo/Names.antt =====
-- Names below the database root, as server/undo_journal.c admits them. A name is the list of its
-- bytes, without the closing NUL.
use dataman.Base.{
  ℕ, ◌≡◌, refl, ◌↔◌, Bool, true, false, not, ◌&&◌, ◌||◌, List, [], ◌∷◌, arith, ◌==◌, leb,
  if◌then◌else◌, length, drop, ◌+◌,
}
use dataman.Storage.{Bytes}

abbrev pub max_path : ℕ
max_path = 4095

abbrev pub same_name : Bytes → Bytes → Bool
same_name [] [] = true
same_name [] (b ∷ bs) = false
same_name (a ∷ as_) [] = false
same_name (a ∷ as_) (b ∷ bs) = a == b && same_name as_ bs

-- The parts between the slashes; a slash at the end leaves an empty last part.
unfoldable pub parts : Bytes → List Bytes
parts [] = [] ∷ []
parts (c ∷ name) = elim (parts name) [
  | [] ↦ (c ∷ []) ∷ []
  | part ∷ rest ↦ if c == b'/' then [] ∷ part ∷ rest else (c ∷ part) ∷ rest
]

-- Neither empty nor longer than 255 bytes, nor `.` or `..`.
unfoldable pub part_valid : Bytes → Bool
part_valid [] = false
part_valid (a ∷ []) = not (a == b'.')
part_valid (a ∷ b ∷ []) = not (a == b'.' && b == b'.')
part_valid (a ∷ b ∷ c ∷ part) = leb (length part + 3) 255

unfoldable pub parts_valid : List Bytes → Bool
unfolding part_valid
parts_valid [] = true
parts_valid (part ∷ rest) = part_valid part && parts_valid rest

-- `name_valid`: its loop ends at the first bad part, at an empty rest after a slash, or with
-- success at the last part.
unfoldable pub name_valid : Bytes → Bool
unfolding parts parts_valid
name_valid name = not (length name == 0) && leb (length name) max_path && parts_valid (parts name)

-- "blobs/"
abbrev pub blobs_prefix : Bytes
blobs_prefix = 0x62 ∷ 0x6c ∷ 0x6f ∷ 0x62 ∷ 0x73 ∷ 0x2f ∷ []

abbrev pub starts_with : Bytes → Bytes → Bool
starts_with [] name = true
starts_with (p ∷ prefix) [] = false
starts_with (p ∷ prefix) (c ∷ name) = p == c && starts_with prefix name

abbrev pub has_byte : ℕ → Bytes → Bool
has_byte b [] = false
has_byte b (c ∷ name) = b == c || has_byte b name

-- `blob_valid`: a regular name directly under `blobs/`.
unfoldable pub blob_valid : Bytes → Bool
unfolding name_valid
blob_valid name =
    name_valid name && starts_with blobs_prefix name && not (has_byte b'/' (drop 6 name))

same_name→eq : (a b : Bytes) → same_name a b ≡ true → a ≡ b
same_name→eq [] [] h = refl
same_name→eq [] (b ∷ bs) h = cc
same_name→eq (a ∷ as_) [] h = cc
same_name→eq (a ∷ as_) (b ∷ bs) h = ground (arith, same_name→eq as_ bs)

pub same_name_self : (a : Bytes) → same_name a a ≡ true
same_name_self [] = refl
same_name_self (a ∷ as_) = ground (arith, same_name_self as_)

pub same_name_iff : (a b : Bytes) → (same_name a b ≡ true) ↔ (a ≡ b)
same_name_iff a b = (same_name→eq a b, λ e. rw e (same_name_self b))
