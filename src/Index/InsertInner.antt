-- ===== src/Index/InsertInner.antt =====
-- The case of an inner node in `v2_insert_node` of server/index_v2.c.
use dataman.Base.{
  ℕ, suc, ◌≤◌, ◌<◌, ◌^◌, ◌≡◌, refl, ◌∙◌, subst, inl, inr, false, Option, none, some, List, [], ◌∷◌,
  ◌++◌, arith, leb, leb→le, length, take, drop, get_or, All, length-take, length-drop, Bool-cases,
}
use dataman.Storage.{Bytes}
use dataman.Index.Node.{max_keys, Format, Pool, Written}
use dataman.Index.NodeIo.{Fits}
use dataman.Index.Pages.{CopyOnWrite, payload-in_page}
use dataman.Index.Insert.{Inserted, insert_inner}
use dataman.Index.Sort.{All-append_left, All-append_right, All-head?}
use dataman.Index.Fences.{concat, concat-take, Fenced, Fenced-cut, Halves}
use dataman.Index.Growth.{PoolGood, Grown, NodeOutcome, write_node-NodeOutcome}
use dataman.Index.Tree.{Sized, At, Forest, Inner, Tree, Tree-in_range, Forest-map, Tree-Grown}
use dataman.Index.Forest.{Forest-take, Forest-drop, Forest-length, Fenced-length}
use dataman.Index.Outcome.{WritesOutcome, NewNode-At, BothOutcome, write_both-BothOutcome}

Fenced-Sized :
    (fmt : Format) (seps : List Bytes) (ess : List (List Bytes))
    → Fenced seps ess
    → Sized fmt (concat ess)
    → Sized fmt seps
Fenced-Sized fmt [] ess f sized = tt
Fenced-Sized fmt (s ∷ seps) [] f sized = absurd f
Fenced-Sized fmt (s ∷ seps) (es ∷ ess) f sized =
    let rest = All-append_right _ es (concat ess) sized in
    (All-head? _ (concat ess) s f.3 rest, Fenced-Sized fmt seps ess f.4 rest)

-- An inner node that is to be written.
pub record Planned (fmt : Format) (height : ℕ) (pool : Pool) (seps : List Bytes) (pages : List ℕ)
    (es : List Bytes) : Type 0 where
  pub parts : List (List Bytes)
  pub some_key : 0 < length seps
  pub fenced : Fenced seps parts
  pub below : Forest (Tree fmt pool height) pages parts
  pub whole : es ≡ concat parts
  pub sized : Sized fmt es

offsets_small :
    (fmt : Format) (height : ℕ) (pool : Pool) (os : List ℕ) (ess : List (List Bytes))
    → Forest (Tree fmt pool height) os ess
    → All (λ (o : ℕ). o < 2 ^ 64) os
offsets_small fmt height pool [] ess f = tt
offsets_small fmt height pool (o ∷ os) [] f = absurd f
offsets_small fmt height pool (o ∷ os) (es ∷ ess) f = (
  omega (arith, Tree-in_range fmt pool height o es f.0),
  offsets_small fmt height pool os ess f.1,
)

pub Planned-Fits :
    (fmt : Format) (height : ℕ) (pool : Pool) (seps : List Bytes) (pages : List ℕ) (es : List Bytes)
    → CopyOnWrite fmt
    → Planned fmt height pool seps pages es
    → length seps ≤ max_keys
    → Fits fmt false seps pages
Planned-Fits fmt height pool seps pages es c p few = record {
  key_small = c.key_small;
  few = few;
  sizes = Fenced-Sized fmt seps p.parts p.fenced (subst (Sized fmt) p.whole p.sized);
  offsets = offsets_small fmt height pool pages p.parts p.below;
  shape = (
    omega (arith, Forest-length _ pages p.parts p.below, Fenced-length seps p.parts p.fenced),
    p.some_key,
  );
  in_page = payload-in_page fmt c false (length seps) few;
}

pub Planned-Inner :
    (fmt : Format) (height : ℕ) (pool : Pool) (seps : List Bytes) (pages : List ℕ) (es : List Bytes)
    (o : ℕ) (pool' : Pool)
    → Planned fmt height pool seps pages es
    → Grown fmt pool pool'
    → At fmt pool' (record { leaf = false; entries = seps; children = pages }) o
    → length seps ≤ max_keys
    → Inner fmt pool' (Tree fmt pool' height) o es
Planned-Inner fmt height pool seps pages es o pool' p g a few = record {
  seps = seps;
  pages = pages;
  parts = p.parts;
  at = a;
  few = few;
  some_key = p.some_key;
  fenced = p.fenced;
  below =
      Forest-map (λ o' es' t. Tree-Grown fmt pool pool' height o' es' g t) pages p.parts p.below;
  whole = p.whole;
  sized = p.sized;
}

-- A node that is too large, in two: all but the seventh separator.
Planned-Halves :
    (fmt : Format) (height : ℕ) (pool : Pool) (seps : List Bytes) (pages : List ℕ) (es : List Bytes)
    → (p : Planned fmt height pool seps pages es) → length seps ≡ 13
    → Planned fmt height pool (take 6 seps) (take 7 pages) (concat (take 7 p.parts))
      × Planned fmt height pool (drop 7 seps) (drop 7 pages) (concat (drop 7 p.parts))
      × Halves (get_or seps 6 []) (concat (take 7 p.parts)) (concat (drop 7 p.parts))
      × (es ≡ concat (take 7 p.parts) ++ concat (drop 7 p.parts))
Planned-Halves fmt height pool seps pages es p many =
    let (left, right, halves) = Fenced-cut 6 seps p.parts p.fenced (omega arith) in
    let whole = p.whole ∙ concat-take 7 p.parts in
    let sized = subst (Sized fmt) whole p.sized in
    (
      record {
        parts = take 7 p.parts;
        some_key = omega (arith, length-take 6 seps);
        fenced = left;
        below = Forest-take _ 7 pages p.parts p.below;
        whole = refl;
        sized = All-append_left _ (concat (take 7 p.parts)) (concat (drop 7 p.parts)) sized;
      },
      record {
        parts = drop 7 p.parts;
        some_key = omega (arith, length-drop 7 seps);
        fenced = right;
        below = Forest-drop _ 7 pages p.parts p.below;
        whole = refl;
        sized = All-append_right _ (concat (take 7 p.parts)) (concat (drop 7 p.parts)) sized;
      },
      halves,
      whole,
    )

module _ (fmt : Format) (height : ℕ) (pool : Pool) (child : Inserted) (seps : List Bytes)
    (pages : List ℕ) (es : List Bytes) (p : Planned fmt height pool seps pages es) where
  one_inner :
      (few : length seps ≤ max_keys) (w : Option Written) (pool' : Pool)
      → NodeOutcome fmt (record { leaf = false; entries = seps; children = pages }) pool w pool'
      → let r : Option Inserted × Pool = elim w [
        | none ↦ (none, pool')
        | some w ↦ (
          some (record {
            offset = w.offset;
            crc = w.crc;
            split = none;
            leaf_offset = child.leaf_offset;
            leaf_index = child.leaf_index;
          }),
          pool',
        )
      ] in
        WritesOutcome fmt (suc height) es pool r.0 r.1
  one_inner few none pool' n = n
  one_inner few (some w) pool' n = record {
    grown = n.grown;
    crc_small = n.crc_small;
    trees =
        Planned-Inner fmt height pool seps pages es w.offset pool' p n.grown
          (NewNode-At fmt _ pool w pool' n) few;
  }

  two_inner :
      (many : length seps ≡ 13) (both : Option (Written × Written)) (pool' : Pool)
      → BothOutcome fmt
          (record { leaf = false; entries = take 6 seps; children = take 7 pages })
          (record { leaf = false; entries = drop 7 seps; children = drop 7 pages })
          pool
          both
          pool'
      → let r : Option Inserted × Pool = elim both [
        | none ↦ (none, pool')
        | some (left, right) ↦ (
          some (record {
            offset = left.offset;
            crc = left.crc;
            split = some (record { separator = get_or seps 6 []; right = right.offset });
            leaf_offset = child.leaf_offset;
            leaf_index = child.leaf_index;
          }),
          pool',
        )
      ] in
        WritesOutcome fmt (suc height) es pool r.0 r.1
  two_inner many none pool' n = n
  two_inner many (some both) pool' n =
      let (left, right, halves, whole) = Planned-Halves fmt height pool seps pages es p many in
      record {
        grown = n.grown;
        crc_small = n.crc_small;
        trees = record {
          left = concat (take 7 p.parts);
          right = concat (drop 7 p.parts);
          whole = whole;
          halves = halves;
          left_tree =
              Planned-Inner fmt height pool (take 6 seps) (take 7 pages) _ both.0.offset pool' left
                n.grown n.left (omega (arith, length-take 6 seps));
          right_tree =
              Planned-Inner fmt height pool (drop 7 seps) (drop 7 pages) _ both.1.offset pool' right
                n.grown n.right (omega (arith, length-drop 7 seps));
        };
      }

  pub insert_inner-WritesOutcome :
      (old : ℕ)
      → CopyOnWrite fmt
      → PoolGood fmt pool
      → length seps ≤ 13
      → WritesOutcome fmt
          (suc height)
          es
          pool
          (insert_inner fmt old child seps pages pool).0
          (insert_inner fmt old child seps pages pool).1
  unfolding insert_inner
  insert_inner-WritesOutcome old c g h = elim (Bool-cases (leb (length seps) max_keys)) [
    | inl few ↦
        let few' = leb→le (length seps) max_keys few in
        rw (insert_inner, few)
          (one_inner few' _ _ (
            write_node-NodeOutcome fmt false seps pages old pool c g
              (Planned-Fits fmt height pool seps pages es c p few')))
    | inr many ↦
        let many' : length seps ≡ 13 = thirteen (length seps) many h in
        let (left, right, _, _) = Planned-Halves fmt height pool seps pages es p many' in
        rw (insert_inner, many)
          (two_inner many' _ _ (
            write_both-BothOutcome fmt false old (take 6 seps) (take 7 pages) (drop 7 seps)
              (drop 7 pages) pool c g
              (Planned-Fits fmt height pool _ _ _ c left (omega (arith, length-take 6 seps)))
              (Planned-Fits fmt height pool _ _ _ c right (omega (arith, length-drop 7 seps)))))
  ]
    where
      thirteen : (n : ℕ) → leb n 12 ≡ false → n ≤ 13 → n ≡ 13
      thirteen n h k = ground arith
