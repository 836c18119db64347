-- ===== src/Index/Writes.antt =====
-- What `v2_write_node` of server/index_v2.c leaves: the pages in use, the pages to take, and the node.
use dataman.Base.Int.{pos}
use dataman.Base.{
  ℕ, ◌+◌, ◌-◌, ◌^◌, ◌≤◌, ◌<◌, ◌≡◌, ap, sym, ◌∙◌, subst, Bool, true, false, ◌⊎◌, inl, inr, Option,
  none, some, List, ◌++◌, arith, leb, le→not_ltb, length, take, length-take, Bool-cases,
  Option-cases,
}
use dataman.Storage.{Bytes, int64_max, pwrite, pread, valid_range}
use dataman.Storage.Windows.{pread-pwrite_outside}
use dataman.Index.Header.{index_header_size}
use dataman.Index.Crc.{index_crc, index_crc-lt}
use dataman.Index.Device.{Device, next_stop, later_stops, write_full_at}
use dataman.Index.Stops.{Passed, Passed-refl, Failed, later_stops-Passed, later_stops-Failed}
use dataman.Index.Node.{
  max_keys, node_header, Format, Node, Pool, payload_size, payload_of, node_head, node_page,
  take_page, Written, written_if, write_node, load_node,
}
use dataman.Index.NodeIo.{Fits}
use dataman.Index.NodeLoad.{length-node_page, load_node-node_page}
use dataman.Index.Pages.{Apart, CopyOnWrite, load_node-kept}
use dataman.Index.Taken.{PoolFor, Also, Kept, Failure, Taken, take_page-Taken}

-- After a write of a page that was taken.
PoolFor-device :
    (fmt : Format) (live : ℕ → Type 0) (pool : Pool) (device : Device)
    → PoolFor fmt live pool
    → PoolFor fmt live (record pool { device = device })
PoolFor-device fmt live pool device p = record {
  live_below = p.live_below;
  free_apart = p.free_apart;
  free_below = p.free_below;
  spread = p.spread;
}

-- A node was written: the page is one more in use.
pub record Wrote (fmt : Format) (live : ℕ → Type 0) (node : Node) (pool : Pool) (w : Written)
    (pool' : Pool) : Type 0 where
  pub kept : Kept fmt live pool pool'
  pub good_also : PoolFor fmt (Also live w.offset) pool'
  pub there : load_node fmt pool'.device.content w.offset ≡ some node
  pub apart : (o : ℕ) → live o → Apart fmt.page_size o w.offset
  pub crc_small : w.crc < 2 ^ 32
  pub in_range : w.offset ≤ int64_max

pub record Refused (fmt : Format) (live : ℕ → Type 0) (pool pool' : Pool) : Type 0 where
  pub kept : Kept fmt live pool pool'
  pub because : Failure pool pool'

abbrev pub WriteOutcome :
    (fmt : Format) (live : ℕ → Type 0) (node : Node) (pool : Pool) → Option Written → Pool → Type 0
WriteOutcome fmt live node pool none pool' = Refused fmt live pool pool'
WriteOutcome fmt live node pool (some w) pool' = Wrote fmt live node pool w pool'

out_of_range : (n offset : ℕ) → valid_range n (pos offset) ≡ false → int64_max < offset + n
unfolding valid_range
out_of_range n offset h = range_false n int64_max offset h
  where
    range_false : (n m o : ℕ) → leb n (m - o) ≡ false → m < o + n
    range_false n m o h = ground arith

in_the_range : (n offset : ℕ) → valid_range n (pos offset) ≡ true → 0 < n → offset ≤ int64_max
unfolding valid_range
in_the_range n offset h some_bytes = range_true n int64_max offset h some_bytes
  where
    range_true : (n m o : ℕ) → leb n (m - o) ≡ true → 0 < n → o ≤ m
    range_true n m o h k = ground arith

module _ (fmt : Format) (live : ℕ → Type 0) (c : CopyOnWrite fmt) where
  beside :
      (o page n : ℕ)
      → Apart fmt.page_size o page
      → n ≤ fmt.page_size
      → (o + fmt.page_size ≤ page) ⊎ (page + n ≤ o)
  beside o page n apart short = elim apart [ inl h ↦ inl h | inr h ↦ inr (omega arith) ]

  -- The header lies in the first page.
  beside_header :
      (page n : ℕ)
      → Apart fmt.page_size 0 page
      → n ≤ fmt.page_size
      → (0 + index_header_size ≤ page) ⊎ (page + n ≤ 0)
  beside_header page n apart short = elim apart [
    | inl h ↦ inl (omega (arith, c.room))
    | inr h ↦ absurd (omega (arith, c.room))
  ]

  device-Kept :
      (pool : Pool) (page : ℕ) (pool' : Pool)
      → Taken fmt live pool page pool'
      → Kept fmt live pool (record pool' { device = pool'.device })
  device-Kept pool page pool' t = record {
    good = t.good;
    nodes = λ o node l h.
        subst (λ (d : Device). load_node fmt d.content o ≡ some node) (sym t.device) h;
    header = λ l full. ap (λ (d : Device). pread d.content 0 index_header_size) t.device;
    stops =
        subst (λ (d : Device). Passed pool.device.stops d.stops) (sym t.device)
          (Passed-refl pool.device.stops);
    next = t.next;
  }

  pwrite-Kept :
      (pool : Pool) (page : ℕ) (pool' : Pool) (bytes : Bytes)
      → Taken fmt live pool page pool'
      → length bytes ≤ fmt.page_size
      → Kept fmt live pool (record pool' {
        device = record {
          content = pwrite pool'.device.content page bytes;
          stops = later_stops pool'.device.stops;
        };
      })
  pwrite-Kept pool page pool' bytes t short = record {
    good = PoolFor-device fmt live pool' _ t.good;
    nodes = λ o node l h.
        load_node-kept fmt c pool'.device.content o page bytes node
          (subst (λ (d : Device). load_node fmt d.content o ≡ some node) (sym t.device) h)
          (beside o page (length bytes) (t.apart o l) short);
    header = λ l full.
        pread-pwrite_outside pool'.device.content page bytes 0 index_header_size
          (omega (arith, ap (λ (d : Device). length d.content) t.device, full))
          (beside_header page (length bytes) (t.apart 0 l) short)
        ∙ ap (λ (d : Device). pread d.content 0 index_header_size) t.device;
    stops =
        subst (λ (d : Device). Passed d.stops (later_stops pool'.device.stops)) t.device
          (later_stops-Passed pool'.device.stops);
    next = t.next;
  }

  -- The system's part, on a page that was taken.
  written-Outcome :
      (leaf : Bool) (entries : List Bytes) (children : List ℕ) (crc : ℕ) (pool : Pool) (page : ℕ)
      (pool' : Pool)
      → crc < 2 ^ 32
      → Fits fmt leaf entries children
      → Taken fmt live pool page pool'
      → WriteOutcome fmt live
          (record { leaf = leaf; entries = entries; children = children })
          pool
          (written_if
            (write_full_at (node_page fmt leaf entries children) page pool'.device).0
            (record { offset = page; crc = crc }))
          (record pool' {
            device = (write_full_at (node_page fmt leaf entries children) page pool'.device).1;
          })
  unfolding write_full_at
  written-Outcome leaf entries children crc pool page pool' small f t =
      let bytes = node_page fmt leaf entries children in
      let size = length-node_page fmt leaf entries children f in
      elim (Bool-cases (valid_range (length bytes) (pos page))) [
        | inr out ↦
            rw (write_full_at, out)
              (record {
                kept = device-Kept pool page pool' t;
                because = inr (omega (arith, size, out_of_range (length bytes) page out, t.below));
              })
        | inl in_range ↦ elim (Option-cases (next_stop pool'.device.stops)) [
          | inl well ↦
              rw (write_full_at, in_range, well)
                (record {
                  kept = pwrite-Kept pool page pool' bytes t (omega (arith, size));
                  good_also = PoolFor-device fmt (Also live page) pool' _ t.good_also;
                  apart = t.apart;
                  crc_small = small;
                  there =
                      load_node-node_page fmt leaf entries children pool'.device.content page f (
                        in_the_range (length bytes) page in_range (omega (arith, size, f.in_page)));
                  in_range =
                      in_the_range (length bytes) page in_range (omega (arith, size, f.in_page));
                })
          | inr (n, stop) ↦
              rw (write_full_at, in_range, stop)
                (record {
                  kept =
                      pwrite-Kept pool page pool' (take n bytes) t
                        (omega (arith, size, length-take n bytes));
                  because = inl (
                      subst (λ (d : Device). Failed d.stops (later_stops pool'.device.stops))
                        t.device (later_stops-Failed pool'.device.stops n stop));
                })
        ]
      ]

  pub write_node-WriteOutcome :
      (leaf : Bool) (entries : List Bytes) (children : List ℕ) (old : ℕ) (pool : Pool)
      → PoolFor fmt live pool
      → Fits fmt leaf entries children
      → WriteOutcome fmt live
          (record { leaf = leaf; entries = entries; children = children })
          pool
          (write_node fmt leaf entries children old pool).0
          (write_node fmt leaf entries children old pool).1
  unfolding write_node
  write_node-WriteOutcome leaf entries children old pool p f =
      let t = take_page-Taken fmt live old pool.device pool.next pool.free c p in
      rw
        (
          write_node,
          le→not_ltb max_keys (length entries) f.few,
          le→not_ltb fmt.page_size (node_header + payload_size fmt leaf (length entries)) f.in_page,
        )
        (written-Outcome leaf entries children
          (index_crc (node_head fmt leaf (length entries) ++ payload_of leaf entries children)) pool
          (take_page fmt old pool).0 (take_page fmt old pool).1
          (index_crc-lt (node_head fmt leaf (length entries) ++ payload_of leaf entries children)) f
          t)
