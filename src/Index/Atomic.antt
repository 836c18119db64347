-- ===== src/Index/Atomic.antt =====
-- The part of `index_v2_insert` in server/index_v2.c that writes, on a whole tree: what readers find.
use mathlib.Core.Option.{none-ne-some, some-injective}
use dataman.Base.{
  ℕ, ◌+◌, ◌%◌, ◌^◌, ◌≤◌, ◌≡◌, refl, ap, sym, ◌∙◌, subst, inl, inr, true, false, ◌||◌, some, List,
  [], length-take, arith, ◌==◌, ltb, length, take, Bool-cases, Option-cases,
}
use dataman.Storage.Transfer.{pwrite-nil}
use dataman.Storage.{Bytes, pwrite}
use dataman.Index.Device.{Device, next_stop, is_well, write_full_at, sync}
use dataman.Index.Header.{index_header_size, Root, slot_bytes, slot_offset, publish_root}
use dataman.Index.Node.{Format, Pool, Written, load_node}
use dataman.Index.Root.{length-slot_bytes}
use dataman.Index.Pages.{CopyOnWrite, load_node-kept}
use dataman.Index.Insert.{Inserted}
use dataman.Index.Tree.{Tree, Tree-map}
use dataman.Index.Publish.{slot-valid_range}
use dataman.Index.Insertion.{Placement, publish_insert}

-- A slot lies behind no page of a tree.
slot_offset-le : (generation : ℕ) → slot_offset generation + 32 ≤ index_header_size
slot_offset-le generation = elim (Bool-cases (generation % 2 == 1)) [
  | inl odd ↦ rw odd (omega arith)
  | inr even ↦ rw even (omega arith)
]

-- A tree is there after a write into a slot.
Tree-published :
    (fmt : Format) (c : CopyOnWrite fmt) (pool : Pool) (device : Device) (generation : ℕ)
    (bytes : Bytes) (height o : ℕ) (es : List Bytes)
    → length bytes ≤ 32
    → device.content ≡ pwrite pool.device.content (slot_offset generation) bytes
    → Tree fmt pool height o es
    → Tree fmt (record pool { device = device }) height o es
Tree-published fmt c pool device generation bytes height o es short same t =
    Tree-map fmt pool _ height o es
      (λ node o' a. record {
        used = a.used;
        there =
            ap (λ (x : Bytes). load_node fmt x o') same
            ∙ load_node-kept fmt c pool.device.content o' (slot_offset generation) bytes node
                a.there (inr (omega (arith, slot_offset-le generation, a.behind)));
        in_range = a.in_range;
        behind = a.behind;
      })
      t

-- Whatever happens, publishing writes into its slot alone.
record SlotOnly (generation : ℕ) (content content' : Bytes) : Type 0 where
  pub bytes : Bytes
  pub short : length bytes ≤ 32
  pub same : content' ≡ pwrite content (slot_offset generation) bytes

SlotOnly-nothing : (generation : ℕ) (content : Bytes) → SlotOnly generation content content
SlotOnly-nothing generation content = record {
  bytes = [];
  short = omega arith;
  same = sym (pwrite-nil content (slot_offset generation));
}

publish_root-SlotOnly :
    (r : Root) (d : Device) → SlotOnly r.generation d.content (publish_root r d).1.content
unfolding publish_root write_full_at sync
publish_root-SlotOnly r d =
    elim (Bool-cases (ltb r.offset index_header_size || r.generation == 0)) [
      | inl refused ↦ rw (publish_root, refused) (SlotOnly-nothing r.generation d.content)
      | inr usable ↦
          let valid = slot-valid_range r in
          let size = length-slot_bytes r in
          elim (Option-cases (next_stop d.stops)) [
            | inl well ↦
                rw (publish_root, usable, valid, well)
                  (record { bytes = slot_bytes r; short = omega arith; same = refl })
            | inr (n, stop) ↦
                rw (publish_root, usable, valid, stop)
                  (record {
                    bytes = take n (slot_bytes r);
                    short = omega (arith, length-take n (slot_bytes r));
                    same = refl;
                  })
          ]
    ]

publish_root-true :
    (r : Root) (d : Device)
    → (publish_root r d).0 ≡ true
    → (publish_root r d).1.content ≡ pwrite d.content (slot_offset r.generation) (slot_bytes r)
unfolding publish_root write_full_at sync
publish_root-true r d h = elim (Bool-cases (ltb r.offset index_header_size || r.generation == 0)) [
  | inl refused ↦ absurd (false_ne_true (sym (rw (publish_root, refused) refl) ∙ h))
  | inr usable ↦
      let valid = slot-valid_range r in
      elim (Option-cases (next_stop d.stops)) [
        | inl well ↦ rw (publish_root, usable, valid, well) refl
        | inr (n, stop) ↦
            absurd (false_ne_true (sym (rw (publish_root, usable, valid, stop) refl) ∙ h))
      ]
]
  where
    false_ne_true : false ≡ true → ⊥
    false_ne_true h = ground arith

abbrev pub root_at : Written → ℕ → Root
root_at w generation = record {
  offset = w.offset;
  crc = w.crc;
  generation = (generation + 1) % 2 ^ 64;
}

-- What `publish_insert` leaves: the file, changed in the slot alone.
record Shape (generation : ℕ) (pool pool' : Pool) : Type 0 where
  pub device : Device
  pub whole : pool' ≡ record pool { device = device }
  pub slot : SlotOnly ((generation + 1) % 2 ^ 64) pool.device.content device.content

publish_insert-Shape :
    (ins : Inserted) (generation : ℕ) (w : Written) (pool : Pool)
    → Shape generation pool (publish_insert ins generation w pool).1
unfolding publish_insert sync
publish_insert-Shape ins generation w pool =
    let d = (sync pool.device).1 in
    let r = root_at w generation in
    elim (Bool-cases (is_well (next_stop pool.device.stops))) [
      | inr failed ↦ record {
        device = d;
        whole = rw (publish_insert, failed) refl;
        slot = SlotOnly-nothing r.generation pool.device.content;
      }
      | inl synced ↦ elim (Bool-cases (publish_root r d).0) [
        | inr unpublished ↦ record {
          device = (publish_root r d).1;
          whole = rw (publish_insert, synced, unpublished) refl;
          slot = publish_root-SlotOnly r d;
        }
        | inl published ↦ record {
          device = (publish_root r d).1;
          whole = rw (publish_insert, synced, published) refl;
          slot = publish_root-SlotOnly r d;
        }
      ]
    ]

pub publish_insert-Tree :
    (fmt : Format) (c : CopyOnWrite fmt) (ins : Inserted) (generation : ℕ) (w : Written)
    (pool : Pool) (height o : ℕ) (es : List Bytes)
    → Tree fmt pool height o es
    → Tree fmt (publish_insert ins generation w pool).1 height o es
publish_insert-Tree fmt c ins generation w pool height o es t =
    let s = publish_insert-Shape ins generation w pool in
    subst (λ (q : Pool). Tree fmt q height o es) (sym s.whole)
      (Tree-published fmt c pool s.device ((generation + 1) % 2 ^ 64) s.slot.bytes height o es
        s.slot.short s.slot.same t)

-- Where `publish_insert` answers with a root, the slot has it.
pub record Answered (generation : ℕ) (w : Written) (pool : Pool) (reply : Placement) (pool' : Pool)
    : Type 0 where
  pub root : reply.root ≡ w.offset
  pub content :
      pool'.device.content
      ≡ pwrite pool.device.content
          (slot_offset ((generation + 1) % 2 ^ 64))
          (slot_bytes (root_at w generation))

pub publish_insert-Answered :
    (ins : Inserted) (generation : ℕ) (w : Written) (pool : Pool) (reply : Placement)
    → (publish_insert ins generation w pool).0 ≡ some reply
    → Answered generation w pool reply (publish_insert ins generation w pool).1
unfolding publish_insert sync
publish_insert-Answered ins generation w pool reply h =
    let d = (sync pool.device).1 in
    let r = root_at w generation in
    elim (Bool-cases (is_well (next_stop pool.device.stops))) [
      | inr failed ↦ absurd (none-ne-some reply (sym (rw (publish_insert, failed) refl) ∙ h))
      | inl synced ↦ elim (Bool-cases (publish_root r d).0) [
        | inr unpublished ↦
            absurd (none-ne-some reply (sym (rw (publish_insert, synced, unpublished) refl) ∙ h))
        | inl published ↦
            let answer : Placement = record {
              root = w.offset;
              generation = r.generation;
              node_offset = ins.leaf_offset;
              entry_index = ins.leaf_index;
            } in
            let same =
              some-injective answer reply (sym (rw (publish_insert, synced, published) refl) ∙ h) in
            record {
              root = sym (ap (λ (p : Placement). p.root) same);
              content = rw (publish_insert, synced, published) (publish_root-true r d published);
            }
      ]
    ]
