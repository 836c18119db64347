-- ===== src/Index/Inserts.antt =====
-- What follows for `v2_insert_node` of server/index_v2.c: trees that survive.
use dataman.Base.{ℕ, ◌<◌, ◌≡◌, Option, none, some, List, length}
use dataman.Storage.{Bytes}
use dataman.Index.Node.{Format, entry_size, Pool}
use dataman.Index.Pages.{CopyOnWrite}
use dataman.Index.Insert.{Inserted, insert_node}
use dataman.Index.Sort.{insert_sorted}
use dataman.Index.Growth.{PoolGood, Grown}
use dataman.Index.Tree.{Tree, Tree-Grown}
use dataman.Index.Outcome.{InsertOutcome}
use dataman.Index.Refines.{insert_node-InsertOutcome}

pub InsertOutcome-Grown :
    (fmt : Format) (height : ℕ) (entry : Bytes) (es es' : List Bytes) (pool : Pool)
    (ins : Option Inserted) (pool' : Pool)
    → InsertOutcome fmt height entry es es' pool ins pool'
    → Grown fmt pool pool'
InsertOutcome-Grown fmt height entry es es' pool none pool' n = n.grown
InsertOutcome-Grown fmt height entry es es' pool (some ins) pool' n = n.grown

-- Whatever becomes of an insertion into one tree, with or without success, any tree that was whole
-- before in the same file, the same one or another, is whole afterwards at the same page with the same
-- entries. The pages to take must be free in fact, and pages must not be rewritten in place.
pub insert_node-Tree :
    (fuel height : ℕ) (fmt : Format) (entry : Bytes) (o : ℕ) (es : List Bytes) (pool : Pool)
    (height' o' : ℕ) (es' : List Bytes)
    → CopyOnWrite fmt
    → PoolGood fmt pool
    → length entry ≡ entry_size fmt
    → height < fuel
    → Tree fmt pool height o es
    → Tree fmt pool height' o' es'
    → Tree fmt (insert_node fuel fmt entry o pool).1 height' o' es'
insert_node-Tree fuel height fmt entry o es pool height' o' es' c g size h t t' =
    let r = insert_node fuel fmt entry o pool in
    let n = insert_node-InsertOutcome fuel height fmt entry o es pool c g size h t in
    Tree-Grown fmt pool r.1 height' o' es'
      (InsertOutcome-Grown fmt height entry es (insert_sorted entry es) pool r.0 r.1 n) t'
