-- ===== src/Index/Order.antt =====
-- `memcmp` on entries of server/index_v2.c, and the positions that its loops find.
use dataman.Base.{
  ℕ, suc, Bool, true, false, ◌&&◌, ◌||◌, Option, none, some, List, [], ◌∷◌, ◌==◌, ltb,
  if◌then◌else◌,
}
use dataman.Storage.{Bytes}
use dataman.Undo.Names.{same_name}

-- `memcmp(a, b, n) < 0`, for n bytes each.
abbrev pub before : Bytes → Bytes → Bool
before [] [] = false
before [] (y ∷ b) = true
before (x ∷ a) [] = false
before (x ∷ a) (y ∷ b) = ltb x y || (x == y && before a b)

-- The loop over a leaf: where the entry goes, or `none` if it is there.
unfoldable pub leaf_position : Bytes → List Bytes → Option ℕ
leaf_position entry [] = some 0
leaf_position entry (x ∷ entries) =
    let rest = leaf_position entry entries in
    if same_name entry x
    then none
    else if before entry x
    then some 0
    else elim rest [ none ↦ none | some n ↦ some (suc n) ]

-- The loop over an inner node: the first separator that the entry is before.
unfoldable pub child_position : Bytes → List Bytes → ℕ
child_position entry [] = 0
child_position entry (x ∷ separators) =
    let rest = child_position entry separators in if before entry x then 0 else suc rest
