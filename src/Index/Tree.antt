-- ===== src/Index/Tree.antt =====
-- The tree that server/index_v2.c keeps in an index file, and the entries it holds.
use dataman.Base.{ℕ, zero, suc, ◌≤◌, ◌<◌, ◌≡◌, true, false, some, List, [], ◌∷◌, length, All}
use dataman.Storage.{Bytes, int64_max}
use dataman.Index.Node.{max_keys, Format, entry_size, Node, Pool, load_node}
use dataman.Index.Header.{index_header_size}
use dataman.Index.Sort.{Ascending}
use dataman.Index.Fences.{concat, Fenced}
use dataman.Index.Growth.{Used, Grown}

abbrev pub Sized : Format → List Bytes → Type 0
Sized fmt entries = All (λ (e : Bytes). length e ≡ entry_size fmt) entries

-- A page in use that has the node.
pub record At (fmt : Format) (pool : Pool) (node : Node) (o : ℕ) : Type 0 where
  pub used : Used fmt pool o
  pub there : load_node fmt pool.device.content o ≡ some node
  pub in_range : o ≤ int64_max
  pub behind : index_header_size ≤ o

pub record Leaf (fmt : Format) (pool : Pool) (o : ℕ) (es : List Bytes) : Type 0 where
  pub at : At fmt pool (record { leaf = true; entries = es; children = [] }) o
  pub order : Ascending es
  pub sized : Sized fmt es
  pub few : length es ≤ max_keys

-- Each page is the root of its part.
abbrev pub Forest : (ℕ → List Bytes → Type 0) → List ℕ → List (List Bytes) → Type 0
Forest R [] [] = Unit
Forest R [] (es ∷ ess) = ⊥
Forest R (o ∷ pages) [] = ⊥
Forest R (o ∷ pages) (es ∷ ess) = R o es × Forest R pages ess

-- An inner node whose children satisfy `R`.
pub record Inner (fmt : Format) (pool : Pool) (R : ℕ → List Bytes → Type 0) (o : ℕ)
    (es : List Bytes) : Type 0 where
  pub seps : List Bytes
  pub pages : List ℕ
  pub parts : List (List Bytes)
  pub at : At fmt pool (record { leaf = false; entries = seps; children = pages }) o
  pub few : length seps ≤ max_keys
  pub some_key : 0 < length seps
  pub fenced : Fenced seps parts
  pub below : Forest R pages parts
  pub whole : es ≡ concat parts
  pub sized : Sized fmt es

-- A tree of a height with the entries `es`.
abbrev pub Tree : Format → Pool → ℕ → ℕ → List Bytes → Type 0
Tree fmt pool zero = Leaf fmt pool
Tree fmt pool (suc height) = Inner fmt pool (Tree fmt pool height)

module _ {R S : ℕ → List Bytes → Type 0} where
  pub Forest-map :
      ((o : ℕ) (es : List Bytes) → R o es → S o es)
      → (pages : List ℕ) (ess : List (List Bytes)) → Forest R pages ess
      → Forest S pages ess
  Forest-map f [] [] all = tt
  Forest-map f [] (es ∷ ess) all = absurd all
  Forest-map f (o ∷ pages) [] all = absurd all
  Forest-map f (o ∷ pages) (es ∷ ess) all = (f o es all.0, Forest-map f pages ess all.1)

-- A tree is there in another pool when its nodes are.
pub Tree-map :
    (fmt : Format) (pool pool' : Pool) (height o : ℕ) (es : List Bytes)
    → ((node : Node) (o : ℕ) → At fmt pool node o → At fmt pool' node o)
    → Tree fmt pool height o es
    → Tree fmt pool' height o es
Tree-map fmt pool pool' zero o es f t = record {
  at = f _ o t.at;
  order = t.order;
  sized = t.sized;
  few = t.few;
}
Tree-map fmt pool pool' (suc height) o es f t = record {
  seps = t.seps;
  pages = t.pages;
  parts = t.parts;
  at = f _ o t.at;
  few = t.few;
  some_key = t.some_key;
  fenced = t.fenced;
  below =
      Forest-map (λ o' es' t'. Tree-map fmt pool pool' height o' es' f t') t.pages t.parts t.below;
  whole = t.whole;
  sized = t.sized;
}

-- A tree is still there after writes to other pages.
pub Tree-Grown :
    (fmt : Format) (pool pool' : Pool) (height o : ℕ) (es : List Bytes)
    → Grown fmt pool pool'
    → Tree fmt pool height o es
    → Tree fmt pool' height o es
Tree-Grown fmt pool pool' height o es g t =
    Tree-map fmt pool pool' height o es
      (λ node o' a. record {
        used = g.used o' a.used;
        there = g.nodes o' node a.used a.there;
        in_range = a.in_range;
        behind = a.behind;
      })
      t

pub Tree-in_range :
    (fmt : Format) (pool : Pool) (height o : ℕ) (es : List Bytes)
    → Tree fmt pool height o es
    → o ≤ int64_max
Tree-in_range fmt pool zero o es t = t.at.in_range
Tree-in_range fmt pool (suc height) o es t = t.at.in_range

pub Tree-Sized :
    (fmt : Format) (pool : Pool) (height o : ℕ) (es : List Bytes)
    → Tree fmt pool height o es
    → Sized fmt es
Tree-Sized fmt pool zero o es t = t.sized
Tree-Sized fmt pool (suc height) o es t = t.sized

pub Tree-behind :
    (fmt : Format) (pool : Pool) (height o : ℕ) (es : List Bytes)
    → Tree fmt pool height o es
    → index_header_size ≤ o
Tree-behind fmt pool zero o es t = t.at.behind
Tree-behind fmt pool (suc height) o es t = t.at.behind
