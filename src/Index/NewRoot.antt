-- ===== src/Index/NewRoot.antt =====
-- The new root that `index_v2_insert` of server/index_v2.c writes above a root that was split.
use dataman.Base.{
  ℕ, suc, ◌^◌, ◌<◌, ap, sym, ◌∙◌, subst, ◌⊎◌, inl, inr, false, Option, none, some, List, [], ◌∷◌,
  ◌++◌, append-nil, arith,
}
use dataman.Storage.{Bytes}
use dataman.Index.Node.{Format, Pool, Written}
use dataman.Index.Pages.{CopyOnWrite}
use dataman.Index.Insert.{Split, Inserted}
use dataman.Index.Sort.{NoneBelow, head?}
use dataman.Index.Fences.{head?-some}
use dataman.Index.Growth.{PoolGood, Grown, Grown-refl, NodeOutcome, write_node-NodeOutcome}
use dataman.Index.Tree.{Sized, Tree}
use dataman.Index.Outcome.{Trees, TwoTrees, NewNode-At}
use dataman.Index.InsertInner.{Planned, Planned-Fits, Planned-Inner}
use dataman.Index.Insertion.{new_root}

-- Two trees side by side, before the node above them is written.
TwoTrees-Planned :
    (fmt : Format) (height : ℕ) (pool : Pool) (es : List Bytes) (o : ℕ) (s : Split)
    → Sized fmt es
    → TwoTrees fmt pool height es o s
    → Planned fmt height pool (s.separator ∷ []) (o ∷ s.right ∷ []) es
TwoTrees-Planned fmt height pool es o s sized t =
    let nil = append-nil t.right in
    record {
      parts = t.left ∷ t.right ∷ [];
      some_key = omega arith;
      fenced = (
        t.halves.some_left,
        t.halves.below,
        subst (λ (xs : List Bytes). NoneBelow s.separator xs) (sym nil) t.halves.none_below,
        ap head? nil ∙ t.halves.first,
        head?-some t.right s.separator t.halves.first,
      );
      below = (t.left_tree, (t.right_tree, tt));
      whole = t.whole ∙ ap (λ (xs : List Bytes). t.left ++ xs) (sym nil);
      sized = sized;
    }

-- A tree of one height or the next one.
pub record Rooted (fmt : Format) (pool : Pool) (height o : ℕ) (es : List Bytes) : Type 0 where
  pub tree : Tree fmt pool height o es ⊎ Tree fmt pool (suc height) o es

-- The new root's node.
abbrev pub RootOutcome : Format → ℕ → List Bytes → Pool → Option Written → Pool → Type 0
RootOutcome fmt height es pool none pool' = Grown fmt pool pool'
RootOutcome fmt height es pool (some w) pool' =
    Grown fmt pool pool' × Rooted fmt pool' height w.offset es × (w.crc < 2 ^ 32)

pub new_root-RootOutcome :
    (fmt : Format) (height : ℕ) (es : List Bytes) (pool : Pool) (offset crc : ℕ)
    (split : Option Split) (leaf_offset leaf_index : ℕ)
    → CopyOnWrite fmt
    → PoolGood fmt pool
    → Sized fmt es
    → Trees fmt pool height es offset split
    → crc < 2 ^ 32
    → let ins : Inserted = record {
      offset = offset;
      crc = crc;
      split = split;
      leaf_offset = leaf_offset;
      leaf_index = leaf_index;
    } in
      RootOutcome fmt height es pool (new_root fmt ins pool).0 (new_root fmt ins pool).1
unfolding new_root
new_root-RootOutcome fmt height es pool offset crc none leaf_offset leaf_index c g sized t small =
    (Grown-refl fmt pool g, record { tree = inl t }, small)
new_root-RootOutcome fmt height es pool offset crc (some s) leaf_offset leaf_index c g sized t
      small =
    let p = TwoTrees-Planned fmt height pool es offset s sized t in
    let n =
      write_node-NodeOutcome fmt false (s.separator ∷ []) (offset ∷ s.right ∷ []) offset pool c g
        (Planned-Fits fmt height pool _ _ es c p (omega arith)) in
    written _ _ p n
  where
    written :
        (w : Option Written) (pool' : Pool)
        → Planned fmt height pool (s.separator ∷ []) (offset ∷ s.right ∷ []) es
        → NodeOutcome fmt
            (record { leaf = false; entries = s.separator ∷ []; children = offset ∷ s.right ∷ [] })
            pool
            w
            pool'
        → RootOutcome fmt height es pool w pool'
    written none pool' p n = n.grown
    written (some w) pool' p n = (
      n.grown,
      record {
        tree = inr (
            Planned-Inner fmt height pool _ _ es w.offset pool' p n.grown
              (NewNode-At fmt _ pool w pool' n) (omega arith));
      },
      n.crc_small,
    )
