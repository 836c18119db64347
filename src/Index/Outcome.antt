-- ===== src/Index/Outcome.antt =====
-- What an insertion of server/index_v2.c leaves: a tree or two with one more entry, or a failure.
use dataman.Base.{
  ℕ, ◌≤◌, ◌<◌, ◌^◌, ◌≡◌, ◌⊎◌, inl, refl, Bool, true, false, ◌||◌, Option, none, some, List, [], ◌∷◌,
  ◌++◌, length,
}
use dataman.Storage.{Bytes}
use dataman.Undo.Names.{same_name}
use dataman.Index.Node.{max_keys, Format, Node, Pool, Written}
use dataman.Index.NodeIo.{Fits}
use dataman.Index.Pages.{CopyOnWrite, payload-in_page}
use dataman.Index.Taken.{Failure}
use dataman.Index.Insert.{Split, Inserted, write_both}
use dataman.Index.Fences.{Halves}
use dataman.Index.Growth.{
  PoolGood, Grown, Grown-trans, Failure-later, NewNode, NoNode, NodeOutcome, write_node-NodeOutcome,
}
use dataman.Index.Tree.{Sized, At, Tree}

abbrev pub has : Bytes → List Bytes → Bool
has entry [] = false
has entry (x ∷ es) = same_name entry x || has entry es

-- Two trees of one height, side by side.
pub record TwoTrees (fmt : Format) (pool : Pool) (height : ℕ) (es : List Bytes) (o : ℕ) (s : Split)
    : Type 0 where
  pub left : List Bytes
  pub right : List Bytes
  pub whole : es ≡ left ++ right
  pub halves : Halves s.separator left right
  pub left_tree : Tree fmt pool height o left
  pub right_tree : Tree fmt pool height s.right right

abbrev pub Trees : Format → Pool → ℕ → List Bytes → ℕ → Option Split → Type 0
Trees fmt pool height es o none = Tree fmt pool height o es
Trees fmt pool height es o (some s) = TwoTrees fmt pool height es o s

pub record Done (fmt : Format) (height : ℕ) (es : List Bytes) (pool : Pool) (ins : Inserted)
    (pool' : Pool) : Type 0 where
  pub grown : Grown fmt pool pool'
  pub trees : Trees fmt pool' height es ins.offset ins.split
  pub crc_small : ins.crc < 2 ^ 32

-- The part of an insertion that writes.
abbrev pub WritesOutcome : Format → ℕ → List Bytes → Pool → Option Inserted → Pool → Type 0
WritesOutcome fmt height es pool none pool' = NoNode fmt pool pool'
WritesOutcome fmt height es pool (some ins) pool' = Done fmt height es pool ins pool'

-- Nothing is inserted when a write fails, or when the entry is there.
pub record NotInserted (fmt : Format) (entry : Bytes) (es : List Bytes) (pool pool' : Pool)
    : Type 0 where
  pub grown : Grown fmt pool pool'
  pub because : Failure pool pool' ⊎ (has entry es ≡ true)

-- The whole insertion of an entry into a tree with the entries `es`.
abbrev pub InsertOutcome :
    Format → ℕ → Bytes → List Bytes → List Bytes → Pool → Option Inserted → Pool → Type 0
InsertOutcome fmt height entry es es' pool none pool' = NotInserted fmt entry es pool pool'
InsertOutcome fmt height entry es es' pool (some ins) pool' = Done fmt height es' pool ins pool'

pub WritesOutcome-InsertOutcome :
    (fmt : Format) (height : ℕ) (entry : Bytes) (es es' : List Bytes) (pool : Pool)
    (ins : Option Inserted) (pool' : Pool)
    → WritesOutcome fmt height es' pool ins pool'
    → InsertOutcome fmt height entry es es' pool ins pool'
WritesOutcome-InsertOutcome fmt height entry es es' pool none pool' n = record {
  grown = n.grown;
  because = inl n.because;
}
WritesOutcome-InsertOutcome fmt height entry es es' pool (some ins) pool' n = n

pub Fits-leaf :
    (fmt : Format) (es : List Bytes)
    → CopyOnWrite fmt
    → Sized fmt es
    → length es ≤ max_keys
    → Fits fmt true es []
Fits-leaf fmt es c sized few = record {
  key_small = c.key_small;
  few = few;
  sizes = sized;
  offsets = tt;
  shape = refl;
  in_page = payload-in_page fmt c true (length es) few;
}

-- Two nodes on two pages.
pub record Both (fmt : Format) (node node' : Node) (pool : Pool) (a b : Written) (pool' : Pool)
    : Type 0 where
  pub grown : Grown fmt pool pool'
  pub left : At fmt pool' node a.offset
  pub right : At fmt pool' node' b.offset
  pub crc_small : a.crc < 2 ^ 32

abbrev pub BothOutcome : Format → Node → Node → Pool → Option (Written × Written) → Pool → Type 0
BothOutcome fmt node node' pool none pool' = NoNode fmt pool pool'
BothOutcome fmt node node' pool (some both) pool' = Both fmt node node' pool both.0 both.1 pool'

pub NewNode-At :
    (fmt : Format) (node : Node) (pool : Pool) (w : Written) (pool' : Pool)
    → NewNode fmt node pool w pool'
    → At fmt pool' node w.offset
NewNode-At fmt node pool w pool' n = record {
  used = n.here;
  there = n.there;
  in_range = n.in_range;
  behind = n.behind;
}

NodeOutcome-good :
    (fmt : Format) (node : Node) (pool : Pool) (w : Option Written) (pool' : Pool)
    → NodeOutcome fmt node pool w pool'
    → PoolGood fmt pool'
NodeOutcome-good fmt node pool none pool' n = n.grown.good
NodeOutcome-good fmt node pool (some w) pool' n = n.grown.good

-- The two writes in a row, the second after the first.
both-BothOutcome :
    (fmt : Format) (node node' : Node) (pool : Pool) (a : Option Written) (pool' : Pool)
    (b : Option Written) (pool'' : Pool)
    → NodeOutcome fmt node pool a pool'
    → NodeOutcome fmt node' pool' b pool''
    → let r : Option (Written × Written) × Pool = elim a [
      | none ↦ (none, pool')
      | some left ↦ elim b [ none ↦ (none, pool'') | some right ↦ (some (left, right), pool'') ]
    ] in
      BothOutcome fmt node node' pool r.0 r.1
both-BothOutcome fmt node node' pool none pool' b pool'' m n = m
both-BothOutcome fmt node node' pool (some left) pool' none pool'' m n = record {
  grown = Grown-trans fmt pool pool' pool'' m.grown n.grown;
  because = Failure-later fmt pool pool' pool'' m.grown n.because;
}
both-BothOutcome fmt node node' pool (some left) pool' (some right) pool'' m n = record {
  grown = Grown-trans fmt pool pool' pool'' m.grown n.grown;
  left = record {
    used = n.grown.used left.offset m.here;
    there = n.grown.nodes left.offset node m.here m.there;
    in_range = m.in_range;
    behind = m.behind;
  };
  right = NewNode-At fmt node' pool' right pool'' n;
  crc_small = m.crc_small;
}

pub write_both-BothOutcome :
    (fmt : Format) (leaf : Bool) (old : ℕ) (es : List Bytes) (cs : List ℕ) (es' : List Bytes)
    (cs' : List ℕ) (pool : Pool)
    → CopyOnWrite fmt
    → PoolGood fmt pool
    → Fits fmt leaf es cs
    → Fits fmt leaf es' cs'
    → BothOutcome fmt
        (record { leaf = leaf; entries = es; children = cs })
        (record { leaf = leaf; entries = es'; children = cs' })
        pool
        (write_both fmt leaf old es cs es' cs' pool).0
        (write_both fmt leaf old es cs es' cs' pool).1
write_both-BothOutcome fmt leaf old es cs es' cs' pool c p f f' =
    let m = write_node-NodeOutcome fmt leaf es cs old pool c p f in
    let n = write_node-NodeOutcome fmt leaf es' cs' 0 _ c (NodeOutcome-good fmt _ pool _ _ m) f' in
    both-BothOutcome fmt _ _ pool _ _ _ _ m n
