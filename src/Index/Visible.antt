-- ===== src/Index/Visible.antt =====
-- The part of `index_v2_insert` in server/index_v2.c that writes, on a whole tree: the tree that readers find then.
use dataman.Base.{
  ℕ, suc, ◌<◌, ◌≡◌, subst, ◌⊎◌, inl, inr, Option, none, some, List, length, Option-cases,
}
use dataman.Storage.{Bytes}
use dataman.Index.Crc.{index_crc}
use dataman.Index.Header.{Root, slot_head, Heading, read_header}
use dataman.Index.Node.{Format, entry_size, Pool, Written}
use dataman.Index.Atomic.{publish_insert-Tree}
use dataman.Index.Pages.{CopyOnWrite}
use dataman.Index.Insert.{Inserted, insert_node}
use dataman.Index.Sort.{insert_sorted, All-insert_sorted}
use dataman.Index.Growth.{PoolGood, Grown}
use dataman.Index.Tree.{Tree, Tree-Sized, Tree-Grown}
use dataman.Index.Outcome.{InsertOutcome, Done}
use dataman.Index.Refines.{insert_node-InsertOutcome}
use dataman.Index.Inserts.{InsertOutcome-Grown}
use dataman.Index.NewRoot.{Rooted, RootOutcome, new_root-RootOutcome}
use dataman.Index.Insertion.{new_root, Placement, insert_entry}

-- The root that was answered is of the next generation and has the tree with the entries `es` below it,
-- of the old height or one more; and readers find it, unless the checksum of its slot is 0, which
-- `read_slot` takes for an empty slot.
pub record Visible (fmt : Format) (pool : Pool) (height : ℕ) (es : List Bytes) (h : Heading)
    (reply : Placement) : Type 0 where
  pub root : Root
  pub same : root.offset ≡ reply.root
  pub next : root.generation ≡ suc h.root.generation
  pub rooted : Rooted fmt pool height root.offset es
  pub found :
      (read_header pool.device.content ≡ some (record h { root = root }))
      ⊎ (index_crc (slot_head root) ≡ 0)

RootOutcome-Grown :
    (fmt : Format) (height : ℕ) (es : List Bytes) (pool : Pool) (w : Option Written) (pool' : Pool)
    → RootOutcome fmt height es pool w pool'
    → Grown fmt pool pool'
RootOutcome-Grown fmt height es pool none pool' n = n
RootOutcome-Grown fmt height es pool (some w) pool' n = n.0

-- Whatever becomes of the insertion, at whichever write or sync the system stops, every tree that was
-- whole before, the old one first of all, is whole afterwards at the same page with the same entries.
pub insert_entry-Tree :
    (fuel height : ℕ) (fmt : Format) (entry : Bytes) (es : List Bytes) (root : Root) (pool : Pool)
    (height' o' : ℕ) (es' : List Bytes)
    → CopyOnWrite fmt
    → PoolGood fmt pool
    → length entry ≡ entry_size fmt
    → height < fuel
    → Tree fmt pool height root.offset es
    → Tree fmt pool height' o' es'
    → Tree fmt (insert_entry fuel fmt entry root pool).1 height' o' es'
unfolding insert_entry
insert_entry-Tree fuel height fmt entry es root pool height' o' es' c g size deep t t' =
    let a = insert_node fuel fmt entry root.offset pool in
    let n = insert_node-InsertOutcome fuel height fmt entry root.offset es pool c g size deep t in
    let g' = InsertOutcome-Grown fmt height entry es (insert_sorted entry es) pool a.0 a.1 n in
    let kept = Tree-Grown fmt pool a.1 height' o' es' g' t' in
    elim (Option-cases a.0) [
      | inl nothing ↦ rw (insert_entry, nothing) kept
      | inr (ins, inserted) ↦
          let done : Done fmt height (insert_sorted entry es) pool ins a.1 =
            subst
              (λ (o : Option Inserted).
                InsertOutcome fmt height entry es (insert_sorted entry es) pool o a.1)
              inserted n in
          let sized =
            All-insert_sorted _ entry es size (Tree-Sized fmt pool height root.offset es t) in
          let q = new_root fmt ins a.1 in
          let outcome =
            new_root-RootOutcome fmt height (insert_sorted entry es) a.1 ins.offset ins.crc
              ins.split ins.leaf_offset ins.leaf_index c done.grown.good sized done.trees
              done.crc_small in
          let kept' =
            Tree-Grown fmt a.1 q.1 height' o' es'
              (RootOutcome-Grown fmt height (insert_sorted entry es) a.1 q.0 q.1 outcome) kept in
          elim (Option-cases q.0) [
            | inl nothing ↦ rw (insert_entry, inserted, nothing) kept'
            | inr (w, written) ↦
                rw (insert_entry, inserted, written)
                  (publish_insert-Tree fmt c ins root.generation w q.1 height' o' es' kept')
          ]
    ]
