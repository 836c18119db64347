-- ===== src/Index/Insert.antt =====
-- `v2_insert_node` of server/index_v2.c.
use dataman.Base.{
  ℕ, zero, suc, ◌-◌, Bool, true, false, Option, none, some, List, [], ◌∷◌, ◌++◌, ltb, leb,
  if◌then◌else◌, length, take, drop, get_or,
}
use dataman.Storage.{Bytes}
use dataman.Index.Node.{max_keys, Format, Pool, Written, load_node, write_node}
use dataman.Index.Order.{leaf_position, child_position}

-- A separator and the page to the right of it.
pub record Split : Type 0 where
  pub separator : Bytes
  pub right : ℕ

-- `V2_INSERT_RESULT`; `split` is `none` where the node still fits.
pub record Inserted : Type 0 where
  pub offset : ℕ
  pub crc : ℕ
  pub split : Option Split
  pub leaf_offset : ℕ
  pub leaf_index : ℕ

-- A pair of writes, the second one of a new node; it ends at the first that fails.
abbrev pub write_both :
    Format
    → Bool
    → ℕ
    → List Bytes
    → List ℕ
    → List Bytes
    → List ℕ
    → Pool
    → Option (Written × Written) × Pool
write_both fmt leaf old entries children entries' children' pool =
    let (a, pool') = write_node fmt leaf entries children old pool in
    let (b, pool'') = write_node fmt leaf entries' children' 0 pool' in
    elim a [
      | none ↦ (none, pool')
      | some left ↦ elim b [ none ↦ (none, pool'') | some right ↦ (some (left, right), pool'') ]
    ]

-- The entries of a leaf with one more at a position.
abbrev pub put_entry : ℕ → Bytes → List Bytes → List Bytes
put_entry position entry entries = take position entries ++ (entry ∷ drop position entries)

-- Where the new entry lies after a split.
abbrev pub split_leaf : ℕ → Written × Written → List Bytes → Inserted
split_leaf position (left, right) entries = record {
  offset = left.offset;
  crc = left.crc;
  split = some (record { separator = get_or entries 6 []; right = right.offset });
  leaf_offset = if ltb position 6 then left.offset else right.offset;
  leaf_index = if ltb position 6 then position else position - 6;
}

-- The case of a leaf, its position found.
unfoldable pub insert_leaf : Format → ℕ → ℕ → List Bytes → Pool → Option Inserted × Pool
unfolding write_node
insert_leaf fmt old position entries pool =
    let (one, pool') = write_node fmt true entries [] old pool in
    let (two, pool'') = write_both fmt true old (take 6 entries) [] (drop 6 entries) [] pool in
    if leb (length entries) max_keys
    then elim one [
      | none ↦ (none, pool')
      | some w ↦ (
        some (record {
          offset = w.offset;
          crc = w.crc;
          split = none;
          leaf_offset = w.offset;
          leaf_index = position;
        }),
        pool',
      )
    ]
    else elim two [
      | none ↦ (none, pool'')
      | some both ↦ (some (split_leaf position both entries), pool'')
    ]

-- The separators and the children with what became of one child.
abbrev pub put_separator : ℕ → Inserted → List Bytes → List Bytes
put_separator position child separators = elim child.split [
  | none ↦ take position separators ++ drop position separators
  | some s ↦ take position separators ++ (s.separator ∷ drop position separators)
]

abbrev pub put_child : ℕ → Inserted → List ℕ → List ℕ
put_child position child children = elim child.split [
  | none ↦ take position children ++ (child.offset ∷ drop (suc position) children)
  | some s ↦ take position children ++ (child.offset ∷ s.right ∷ drop (suc position) children)
]

-- The case of an inner node, its new separators and children being known.
unfoldable pub insert_inner :
    Format → ℕ → Inserted → List Bytes → List ℕ → Pool → Option Inserted × Pool
unfolding write_node
insert_inner fmt old child separators children pool =
    let (one, pool') = write_node fmt false separators children old pool in
    let (two, pool'') =
      write_both fmt false old (take 6 separators) (take 7 children) (drop 7 separators)
        (drop 7 children) pool in
    if leb (length separators) max_keys
    then elim one [
      | none ↦ (none, pool')
      | some w ↦ (
        some (record {
          offset = w.offset;
          crc = w.crc;
          split = none;
          leaf_offset = child.leaf_offset;
          leaf_index = child.leaf_index;
        }),
        pool',
      )
    ]
    else elim two [
      | none ↦ (none, pool'')
      | some (left, right) ↦ (
        some (record {
          offset = left.offset;
          crc = left.crc;
          split = some (record { separator = get_or separators 6 []; right = right.offset });
          leaf_offset = child.leaf_offset;
          leaf_index = child.leaf_index;
        }),
        pool'',
      )
    ]

-- The page that a node keeps when pages are rewritten in place.
abbrev pub own_page : Format → ℕ → ℕ
own_page fmt offset = if fmt.in_place then offset else 0

-- `v2_insert_node`; the fuel bounds the depth of the tree.
unfoldable pub insert_node : ℕ → Format → Bytes → ℕ → Pool → Option Inserted × Pool
unfolding load_node leaf_position child_position insert_leaf insert_inner
insert_node zero fmt entry offset pool = (none, pool)
insert_node (suc fuel) fmt entry offset pool = elim (load_node fmt pool.device.content offset) [
  | none ↦ (none, pool)
  | some node ↦
      let position = child_position entry node.entries in
      let (below, pool') = insert_node fuel fmt entry (get_or node.children position 0) pool in
      if node.leaf
      then elim (leaf_position entry node.entries) [
        | none ↦ (none, pool)
        | some p ↦ insert_leaf fmt (own_page fmt offset) p (put_entry p entry node.entries) pool
      ]
      else elim below [
        | none ↦ (none, pool')
        | some child ↦
            insert_inner fmt (own_page fmt offset) child (put_separator position child node.entries)
              (put_child position child node.children) pool'
      ]
]
