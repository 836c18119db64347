-- ===== src/Index/Refines.antt =====
-- `v2_insert_node` of server/index_v2.c on a whole tree.
use dataman.Base.{
  ℕ, zero, suc, ◌≤◌, ◌<◌, ◌≡◌, refl, ap, sym, ◌∙◌, subst, inl, inr, true, false, Option, none, some,
  List, [], ◌∷◌, ◌++◌, arith, length, take, drop, get_or, length-append, take-append-drop,
  Bool-cases,
}
use dataman.Storage.{Bytes}
use dataman.Undo.Names.{same_name}
use dataman.Index.Node.{max_keys, Format, entry_size, Pool}
use dataman.Index.Pages.{CopyOnWrite}
use dataman.Index.Order.{before, leaf_position, child_position}
use dataman.Index.Insert.{
  Split, Inserted, put_separator, put_child, insert_inner, own_page, insert_node,
}
use dataman.Index.Sort.{insert_sorted, All-insert_sorted}
use dataman.Index.Fences.{concat, Fenced, Fenced-insert, Fenced-split}
use dataman.Index.Growth.{PoolGood, Grown, Grown-trans, Failure-later}
use dataman.Index.Tree.{Sized, Forest, Forest-map, Inner, Tree, Tree-Grown}
use dataman.Index.Forest.{
  Forest-take, Forest-drop, Forest-append, Forest-get, Forest-length, Fenced-length,
}
use dataman.Index.Outcome.{has, Trees, InsertOutcome, WritesOutcome-InsertOutcome}
use dataman.Index.InsertLeaf.{Leaf-InsertOutcome}
use dataman.Index.InsertInner.{Planned, insert_inner-WritesOutcome}

child_position-le : (entry : Bytes) (seps : List Bytes) → child_position entry seps ≤ length seps
unfolding child_position
child_position-le entry [] = omega arith
child_position-le entry (s ∷ seps) = elim (Bool-cases (before entry s)) [
  | inl is ↦ rw (child_position, is) (omega arith)
  | inr isnt ↦ rw (child_position, isnt) (omega (arith, child_position-le entry seps))
]

-- What is to be written above a child that has the new entry.
child-Planned :
    (fmt : Format) (height : ℕ) (pool : Pool) (entry : Bytes) (seps : List Bytes) (pages : List ℕ)
    (parts : List (List Bytes)) (offset crc : ℕ) (split : Option Split) (leaf_offset leaf_index : ℕ)
    → Fenced seps parts
    → Forest (Tree fmt pool height) pages parts
    → Sized fmt (insert_sorted entry (concat parts))
    → 0 < length seps
    → length seps ≤ max_keys
    → Trees fmt pool height
        (insert_sorted entry (get_or parts (child_position entry seps) []))
        offset
        split
    → let child : Inserted = record {
      offset = offset;
      crc = crc;
      split = split;
      leaf_offset = leaf_offset;
      leaf_index = leaf_index;
    } in
      Planned fmt height pool
        (put_separator (child_position entry seps) child seps)
        (put_child (child_position entry seps) child pages)
        (insert_sorted entry (concat parts))
      × (length (put_separator (child_position entry seps) child seps) ≤ 13)
child-Planned fmt height pool entry seps pages parts offset crc none leaf_offset leaf_index f trees
      sized some_key few t =
    let i = child_position entry seps in
    let (fenced, whole) = Fenced-insert entry seps parts f in
    let same = take-append-drop i seps in
    (
      record {
        parts = take i parts ++ (insert_sorted entry (get_or parts i []) ∷ drop (suc i) parts);
        some_key = omega (arith, ap length same);
        fenced =
            subst
              (λ (ss : List Bytes).
                Fenced ss
                  (take i parts ++ (insert_sorted entry (get_or parts i []) ∷ drop (suc i) parts)))
              (sym same) fenced;
        below =
            Forest-append _ (take i pages) (take i parts) _ _ (Forest-take _ i pages parts trees)
              (t, Forest-drop _ (suc i) pages parts trees);
        whole = sym whole;
        sized = sized;
      },
      omega (arith, ap length same),
    )
child-Planned fmt height pool entry seps pages parts offset crc (some s) leaf_offset leaf_index f
      trees sized some_key few t =
    let i = child_position entry seps in
    let (fenced, whole) =
      Fenced-split entry seps parts s.separator t.left t.right f t.whole t.halves in
    let size : length (take i seps ++ (s.separator ∷ drop i seps)) ≡ suc (length seps) = omega (
      arith,
      length-append (take i seps) (s.separator ∷ drop i seps),
      length-append (take i seps) (drop i seps),
      ap length (take-append-drop i seps),
    ) in
    (
      record {
        parts = take i parts ++ (t.left ∷ t.right ∷ drop (suc i) parts);
        some_key = omega (arith, size);
        fenced = fenced;
        below =
            Forest-append _ (take i pages) (take i parts) _ _ (Forest-take _ i pages parts trees)
              (t.left_tree, (t.right_tree, Forest-drop _ (suc i) pages parts trees));
        whole = sym whole;
        sized = sized;
      },
      omega (arith, size),
    )

has-append_left :
    (entry : Bytes) (xs ys : List Bytes) → has entry xs ≡ true → has entry (xs ++ ys) ≡ true
has-append_left entry [] ys h = absurd (false_ne_true h)
  where
    false_ne_true : false ≡ true → ⊥
    false_ne_true h = ground arith
has-append_left entry (x ∷ xs) ys h = elim (Bool-cases (same_name entry x)) [
  | inl same ↦ rw same refl
  | inr other ↦ rw other (has-append_left entry xs ys (sym (rw other refl) ∙ h))
]

has-append_right :
    (entry : Bytes) (xs ys : List Bytes) → has entry ys ≡ true → has entry (xs ++ ys) ≡ true
has-append_right entry [] ys h = h
has-append_right entry (x ∷ xs) ys h = elim (Bool-cases (same_name entry x)) [
  | inl same ↦ rw same refl
  | inr other ↦ rw other (has-append_right entry xs ys h)
]

has-concat :
    (entry : Bytes) (ess : List (List Bytes)) (i : ℕ)
    → has entry (get_or ess i []) ≡ true
    → has entry (concat ess) ≡ true
has-concat entry [] i h = h
has-concat entry (es ∷ ess) zero h = has-append_left entry es (concat ess) h
has-concat entry (es ∷ ess) (suc i) h =
    has-append_right entry es (concat ess) (has-concat entry ess i h)

InsertOutcome-later :
    (fmt : Format) (height : ℕ) (entry : Bytes) (es es' : List Bytes) (p q : Pool)
    (ins : Option Inserted) (r : Pool)
    → Grown fmt p q
    → InsertOutcome fmt height entry es es' q ins r
    → InsertOutcome fmt height entry es es' p ins r
InsertOutcome-later fmt height entry es es' p q none r g n = record {
  grown = Grown-trans fmt p q r g n.grown;
  because = elim n.because [ inl f ↦ inl (Failure-later fmt p q r g f) | inr there ↦ inr there ];
}
InsertOutcome-later fmt height entry es es' p q (some ins) r g n = record {
  grown = Grown-trans fmt p q r g n.grown;
  trees = n.trees;
  crc_small = n.crc_small;
}

-- An inner node, what became of the child being known.
Inner-InsertOutcome :
    (fmt : Format) (height : ℕ) (entry : Bytes) (old : ℕ) (es : List Bytes) (o : ℕ) (pool : Pool)
    (below : Option Inserted) (pool' : Pool)
    → CopyOnWrite fmt
    → length entry ≡ entry_size fmt
    → (t : Inner fmt pool (Tree fmt pool height) o es)
    → let part = get_or t.parts (child_position entry t.seps) [] in
      InsertOutcome fmt height entry part (insert_sorted entry part) pool below pool'
      → let r : Option Inserted × Pool = elim below [
        | none ↦ (none, pool')
        | some child ↦
            insert_inner fmt old child
              (put_separator (child_position entry t.seps) child t.seps)
              (put_child (child_position entry t.seps) child t.pages)
              pool'
      ] in
        InsertOutcome fmt (suc height) entry es (insert_sorted entry es) pool r.0 r.1
Inner-InsertOutcome fmt height entry old es o pool none pool' c size t n = record {
  grown = n.grown;
  because = elim n.because [
    | inl f ↦ inl f
    | inr there ↦
        inr (ap (has entry) t.whole ∙ has-concat entry t.parts (child_position entry t.seps) there)
  ];
}
Inner-InsertOutcome fmt height entry old es o pool (some child) pool' c size t n =
    let i = child_position entry t.seps in
    let trees =
      Forest-map (λ o' es' t'. Tree-Grown fmt pool pool' height o' es' n.grown t') t.pages t.parts
        t.below in
    let sized = All-insert_sorted _ entry es size t.sized in
    let (planned, few) =
      child-Planned fmt height pool' entry t.seps t.pages t.parts child.offset child.crc child.split
        child.leaf_offset child.leaf_index t.fenced trees
        (subst (λ (xs : List Bytes). Sized fmt (insert_sorted entry xs)) t.whole sized) t.some_key
        t.few n.trees in
    let planned' =
      subst
        (λ (xs : List Bytes).
          Planned fmt height pool' (put_separator i child t.seps) (put_child i child t.pages)
            (insert_sorted entry xs))
        (sym t.whole) planned in
    InsertOutcome-later fmt (suc height) entry es (insert_sorted entry es) pool pool' _ _ n.grown (
      WritesOutcome-InsertOutcome fmt (suc height) entry es (insert_sorted entry es) pool' _ _ (
        insert_inner-WritesOutcome fmt height pool' child (put_separator i child t.seps)
          (put_child i child t.pages) (insert_sorted entry es) planned' old c n.grown.good few))

-- Insertion of an entry into a whole tree whose height the fuel exceeds, pages not being rewritten in
-- place: it answers with a tree of the same height, or two side by side with their separator, that hold
-- the old entries and the new one in its place; or it answers nothing, because one of the writes that it
-- made failed, because the file would grow past the largest offset, or because the entry was there.
-- Either way nothing that was in use is overwritten.
pub insert_node-InsertOutcome :
    (fuel height : ℕ) (fmt : Format) (entry : Bytes) (o : ℕ) (es : List Bytes) (pool : Pool)
    → CopyOnWrite fmt
    → PoolGood fmt pool
    → length entry ≡ entry_size fmt
    → height < fuel
    → Tree fmt pool height o es
    → InsertOutcome fmt height entry es
        (insert_sorted entry es)
        pool
        (insert_node fuel fmt entry o pool).0
        (insert_node fuel fmt entry o pool).1
unfolding insert_node
insert_node-InsertOutcome zero height fmt entry o es pool c g size h t = absurd (omega arith)
insert_node-InsertOutcome (suc fuel) zero fmt entry o es pool c g size h t =
    rw (insert_node, t.at.there)
      (Leaf-InsertOutcome fmt entry (own_page fmt o) es o pool (leaf_position entry es) c g size t
        refl)
insert_node-InsertOutcome (suc fuel) (suc height) fmt entry o es pool c g size h t =
    let i = child_position entry t.seps in
    let there : i < length t.pages = omega (
      arith,
      child_position-le entry t.seps,
      Forest-length _ t.pages t.parts t.below,
      Fenced-length t.seps t.parts t.fenced,
    ) in
    let child = Forest-get _ i t.pages t.parts t.below there in
    let below =
      insert_node-InsertOutcome fuel height fmt entry (get_or t.pages i 0) (get_or t.parts i [])
        pool c g size (omega arith) child in
    rw (insert_node, t.at.there)
      (Inner-InsertOutcome fmt height entry (own_page fmt o) es o pool _ _ c size t below)
