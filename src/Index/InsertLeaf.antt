-- ===== src/Index/InsertLeaf.antt =====
-- The case of a leaf in `v2_insert_node` of server/index_v2.c.
use mathlib.Core.Option.{none-ne-some}
use dataman.Base.{
  ℕ, suc, ◌≤◌, ◌≡◌, refl, sym, ◌∙◌, inl, inr, true, false, Option, none, some, List, [], ◌∷◌, arith,
  leb, leb→le, length, take, drop, length-take, length-drop, take-append-drop, Bool-cases,
  Option-cases,
}
use dataman.Storage.{Bytes}
use dataman.Undo.Names.{same_name}
use dataman.Index.Node.{max_keys, Format, entry_size, Pool, Written}
use dataman.Index.Pages.{CopyOnWrite}
use dataman.Index.Order.{before, leaf_position}
use dataman.Index.Insert.{Inserted, put_entry, split_leaf, insert_leaf}
use dataman.Index.Sort.{
  Ascending, Ascending-cut, insert_sorted, put_entry-insert_sorted, insert_sorted-Ascending,
  length-insert_sorted, All-insert_sorted, All-take, All-drop,
}
use dataman.Index.Growth.{PoolGood, Grown-refl, NodeOutcome, write_node-NodeOutcome}
use dataman.Index.Tree.{Sized, Leaf}
use dataman.Index.Outcome.{
  has, WritesOutcome, InsertOutcome, WritesOutcome-InsertOutcome, Fits-leaf, NewNode-At,
  BothOutcome, write_both-BothOutcome,
}

module _ (fmt : Format) (p : ℕ) (es : List Bytes) (pool : Pool) (order : Ascending es)
    (sized : Sized fmt es) where
  one_leaf :
      (few : length es ≤ max_keys) (w : Option Written) (pool' : Pool)
      → NodeOutcome fmt (record { leaf = true; entries = es; children = [] }) pool w pool'
      → let r : Option Inserted × Pool = elim w [
        | none ↦ (none, pool')
        | some w ↦ (
          some (record {
            offset = w.offset;
            crc = w.crc;
            split = none;
            leaf_offset = w.offset;
            leaf_index = p;
          }),
          pool',
        )
      ] in
        WritesOutcome fmt 0 es pool r.0 r.1
  one_leaf few none pool' n = n
  one_leaf few (some w) pool' n = record {
    grown = n.grown;
    crc_small = n.crc_small;
    trees = record {
      at = NewNode-At fmt _ pool w pool' n;
      order = order;
      sized = sized;
      few = few;
    };
  }

  two_leaves :
      (many : length es ≡ 13) (both : Option (Written × Written)) (pool' : Pool)
      → BothOutcome fmt
          (record { leaf = true; entries = take 6 es; children = [] })
          (record { leaf = true; entries = drop 6 es; children = [] })
          pool
          both
          pool'
      → let r : Option Inserted × Pool = elim both [
        | none ↦ (none, pool')
        | some both ↦ (some (split_leaf p both es), pool')
      ] in
        WritesOutcome fmt 0 es pool r.0 r.1
  two_leaves many none pool' n = n
  two_leaves many (some both) pool' n =
      let (below, none_below, first, left, right) = Ascending-cut 6 es order (omega arith) in
      record {
        grown = n.grown;
        crc_small = n.crc_small;
        trees = record {
          left = take 6 es;
          right = drop 6 es;
          whole = sym (take-append-drop 6 es);
          halves = record {
            some_left = omega (arith, length-take 6 es);
            below = below;
            none_below = none_below;
            first = first;
          };
          left_tree = record {
            at = n.left;
            order = left;
            sized = All-take _ 6 es sized;
            few = omega (arith, length-take 6 es);
          };
          right_tree = record {
            at = n.right;
            order = right;
            sized = All-drop _ 6 es sized;
            few = omega (arith, length-drop 6 es);
          };
        };
      }

  insert_leaf-WritesOutcome :
      (old : ℕ)
      → CopyOnWrite fmt
      → PoolGood fmt pool
      → length es ≤ 13
      → WritesOutcome fmt 0 es pool
          (insert_leaf fmt old p es pool).0
          (insert_leaf fmt old p es pool).1
  unfolding insert_leaf
  insert_leaf-WritesOutcome old c g h = elim (Bool-cases (leb (length es) max_keys)) [
    | inl few ↦
        let few' = leb→le (length es) max_keys few in
        rw (insert_leaf, few)
          (one_leaf few' _ _
            (write_node-NodeOutcome fmt true es [] old pool c g (Fits-leaf fmt es c sized few')))
    | inr many ↦
        let many' : length es ≡ 13 = thirteen (length es) many h in
        rw (insert_leaf, many)
          (two_leaves many' _ _ (
            write_both-BothOutcome fmt true old (take 6 es) [] (drop 6 es) [] pool c g
              (Fits-leaf fmt (take 6 es) c (All-take _ 6 es sized)
                (omega (arith, length-take 6 es)))
              (Fits-leaf fmt (drop 6 es) c (All-drop _ 6 es sized)
                (omega (arith, length-drop 6 es)))))
  ]
    where
      thirteen : (n : ℕ) → leb n 12 ≡ false → n ≤ 13 → n ≡ 13
      thirteen n h k = ground arith

leaf_position-has :
    (entry : Bytes) (es : List Bytes) → leaf_position entry es ≡ none → has entry es ≡ true
unfolding leaf_position
leaf_position-has entry [] h = absurd (none-ne-some 0 (sym h))
leaf_position-has entry (x ∷ es) h = elim (Bool-cases (same_name entry x)) [
  | inl same ↦ rw same refl
  | inr other ↦ elim (Bool-cases (before entry x)) [
    | inl is ↦ absurd (none-ne-some 0 (sym h ∙ rw (leaf_position, other, is) refl))
    | inr isnt ↦ elim (Option-cases (leaf_position entry es)) [
      | inl none_there ↦ rw other (leaf_position-has entry es none_there)
      | inr (q, there) ↦
          absurd (none-ne-some (suc q) (sym h ∙ rw (leaf_position, other, isnt, there) refl))
    ]
  ]
]

-- A leaf, its page being loaded.
pub Leaf-InsertOutcome :
    (fmt : Format) (entry : Bytes) (old : ℕ) (es : List Bytes) (o : ℕ) (pool : Pool)
    (position : Option ℕ)
    → CopyOnWrite fmt
    → PoolGood fmt pool
    → length entry ≡ entry_size fmt
    → Leaf fmt pool o es
    → leaf_position entry es ≡ position
    → let r : Option Inserted × Pool = elim position [
      | none ↦ (none, pool)
      | some p ↦ insert_leaf fmt old p (put_entry p entry es) pool
    ] in
      InsertOutcome fmt 0 entry es (insert_sorted entry es) pool r.0 r.1
Leaf-InsertOutcome fmt entry old es o pool none c g size t h = record {
  grown = Grown-refl fmt pool g;
  because = inr (leaf_position-has entry es h);
}
Leaf-InsertOutcome fmt entry old es o pool (some p) c g size t h =
    let same = put_entry-insert_sorted entry es p h in
    let order = insert_sorted-Ascending entry es t.order (λ gone. none-ne-some p (sym gone ∙ h)) in
    let sized = All-insert_sorted _ entry es size t.sized in
    rw same (
      WritesOutcome-InsertOutcome fmt 0 entry es (insert_sorted entry es) pool _ _ (
        insert_leaf-WritesOutcome fmt p (insert_sorted entry es) pool order sized old c g
          (omega (arith, length-insert_sorted entry es, t.few))))
