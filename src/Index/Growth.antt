-- ===== src/Index/Growth.antt =====
-- Pages in use while server/index_v2.c inserts: those that the pool does not offer.
use dataman.Base.{
  ℕ, ◌+◌, ◌^◌, ◌≤◌, ◌<◌, ◌≡◌, inl, inr, refl, ap, ◌∙◌, Option, none, some, List, Bool, arith,
  length, All,
}
use dataman.Storage.{Bytes, int64_max, pread}
use dataman.Storage.Windows.{length-pread}
use dataman.Index.Header.{index_header_size}
use dataman.Index.Stops.{Passed, Passed-refl, Passed-trans, Failed-later, Failed-sooner}
use dataman.Index.Node.{Format, Node, Pool, Written, write_node, load_node}
use dataman.Index.NodeIo.{Fits}
use dataman.Index.Pages.{Apart, CopyOnWrite}
use dataman.Index.Taken.{Spread, Kept, Failure}
use dataman.Index.Writes.{WriteOutcome, write_node-WriteOutcome}

-- A page that is neither free nor new.
abbrev pub Used : Format → Pool → ℕ → Type 0
Used fmt pool o = (o + fmt.page_size ≤ pool.next) × All (Apart fmt.page_size o) pool.free

-- The free pages end where new ones begin, do not overlap, and are not the first page, which has the header.
pub record PoolGood (fmt : Format) (pool : Pool) : Type 0 where
  pub header_used : Used fmt pool 0
  pub free_below : All (λ (f : ℕ). f + fmt.page_size ≤ pool.next) pool.free
  pub spread : Spread fmt.page_size pool.free

-- What writes leave: a good pool, every page that was used and the node on it.
pub record Grown (fmt : Format) (pool pool' : Pool) : Type 0 where
  pub good : PoolGood fmt pool'
  pub used : (o : ℕ) → Used fmt pool o → Used fmt pool' o
  pub nodes :
      (o : ℕ) (node : Node)
      → Used fmt pool o
      → load_node fmt pool.device.content o ≡ some node
      → load_node fmt pool'.device.content o ≡ some node
  pub header :
      index_header_size ≤ length pool.device.content
      → pread pool'.device.content 0 index_header_size
        ≡ pread pool.device.content 0 index_header_size
  pub stops : Passed pool.device.stops pool'.device.stops
  pub next : pool.next ≤ pool'.next

pub still_full :
    (content content' : Bytes)
    → index_header_size ≤ length content
    → pread content' 0 index_header_size ≡ pread content 0 index_header_size
    → index_header_size ≤ length content'
still_full content content' full same = omega (
  arith,
  ap length same,
  length-pread content 0 index_header_size,
  length-pread content' 0 index_header_size,
)

pub Grown-refl : (fmt : Format) (pool : Pool) → PoolGood fmt pool → Grown fmt pool pool
Grown-refl fmt pool good = record {
  good = good;
  used = λ o u. u;
  nodes = λ o node u h. h;
  header = λ full. refl;
  stops = Passed-refl pool.device.stops;
  next = omega arith;
}

pub Grown-trans : (fmt : Format) (p q r : Pool) → Grown fmt p q → Grown fmt q r → Grown fmt p r
Grown-trans fmt p q r a b = record {
  good = b.good;
  used = λ o u. b.used o (a.used o u);
  nodes = λ o node u h. b.nodes o node (a.used o u) (a.nodes o node u h);
  header = λ full. b.header (still_full _ _ full (a.header full)) ∙ a.header full;
  stops = Passed-trans p.device.stops q.device.stops r.device.stops a.stops b.stops;
  next = omega (arith, a.next, b.next);
}

pub Failure-later : (fmt : Format) (p q r : Pool) → Grown fmt p q → Failure q r → Failure p r
Failure-later fmt p q r a f = elim f [
  | inl h ↦ inl (Failed-later p.device.stops q.device.stops r.device.stops a.stops h)
  | inr h ↦ inr h
]

pub Failure-sooner : (fmt : Format) (p q r : Pool) → Grown fmt q r → Failure p q → Failure p r
Failure-sooner fmt p q r a f = elim f [
  | inl h ↦ inl (Failed-sooner p.device.stops q.device.stops r.device.stops h a.stops)
  | inr h ↦ inr (omega (arith, a.next))
]

-- The node that was written, at a page of its own.
pub record NewNode (fmt : Format) (node : Node) (pool : Pool) (w : Written) (pool' : Pool)
    : Type 0 where
  pub grown : Grown fmt pool pool'
  pub here : Used fmt pool' w.offset
  pub there : load_node fmt pool'.device.content w.offset ≡ some node
  pub in_range : w.offset ≤ int64_max
  pub behind : index_header_size ≤ w.offset
  pub crc_small : w.crc < 2 ^ 32

pub record NoNode (fmt : Format) (pool pool' : Pool) : Type 0 where
  pub grown : Grown fmt pool pool'
  pub because : Failure pool pool'

abbrev pub NodeOutcome : Format → Node → Pool → Option Written → Pool → Type 0
NodeOutcome fmt node pool none pool' = NoNode fmt pool pool'
NodeOutcome fmt node pool (some w) pool' = NewNode fmt node pool w pool'

Kept-Grown :
    (fmt : Format) (pool pool' : Pool)
    → PoolGood fmt pool
    → Kept fmt (Used fmt pool) pool pool'
    → Grown fmt pool pool'
Kept-Grown fmt pool pool' g k = record {
  good = record {
    header_used = (k.good.live_below 0 g.header_used, k.good.free_apart 0 g.header_used);
    free_below = k.good.free_below;
    spread = k.good.spread;
  };
  used = λ o u. (k.good.live_below o u, k.good.free_apart o u);
  nodes = k.nodes;
  header = k.header g.header_used;
  stops = k.stops;
  next = k.next;
}

WriteOutcome-NodeOutcome :
    (fmt : Format) (node : Node) (pool : Pool) (w : Option Written) (pool' : Pool)
    → CopyOnWrite fmt
    → PoolGood fmt pool
    → WriteOutcome fmt (Used fmt pool) node pool w pool'
    → NodeOutcome fmt node pool w pool'
WriteOutcome-NodeOutcome fmt node pool none pool' c g r = record {
  grown = Kept-Grown fmt pool pool' g r.kept;
  because = r.because;
}
WriteOutcome-NodeOutcome fmt node pool (some w) pool' c g r = record {
  grown = Kept-Grown fmt pool pool' g r.kept;
  here = (r.good_also.live_below w.offset (inr refl), r.good_also.free_apart w.offset (inr refl));
  there = r.there;
  in_range = r.in_range;
  crc_small = r.crc_small;
  behind = elim (r.apart 0 g.header_used) [
    | inl h ↦ omega (arith, c.room)
    | inr h ↦ absurd (omega (arith, c.room))
  ];
}

-- `v2_write_node` puts the node on a page that nothing uses, or fails, because the system failed its
-- write or because the file would grow past the largest offset; either way every node in use can still be loaded.
pub write_node-NodeOutcome :
    (fmt : Format) (leaf : Bool) (entries : List Bytes) (children : List ℕ) (old : ℕ) (pool : Pool)
    → CopyOnWrite fmt
    → PoolGood fmt pool
    → Fits fmt leaf entries children
    → NodeOutcome fmt
        (record { leaf = leaf; entries = entries; children = children })
        pool
        (write_node fmt leaf entries children old pool).0
        (write_node fmt leaf entries children old pool).1
write_node-NodeOutcome fmt leaf entries children old pool c p f =
    WriteOutcome-NodeOutcome fmt _ pool _ _ c p (
      write_node-WriteOutcome fmt (Used fmt pool) c leaf entries children old pool
        (record {
          live_below = λ o u. u.0;
          free_apart = λ o u. u.1;
          free_below = p.free_below;
          spread = p.spread;
        })
        f)
