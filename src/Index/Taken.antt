-- ===== src/Index/Taken.antt =====
-- The page that `v2_write_node` of server/index_v2.c takes is one that nothing else uses.
use dataman.Base.{
  ℕ, ◌+◌, ◌≤◌, ◌<◌, ◌≡◌, refl, sym, subst, ◌⊎◌, inl, inr, some, List, [], ◌∷◌, arith, length, All,
}
use dataman.Storage.{int64_max, pread}
use dataman.Index.Header.{index_header_size}
use dataman.Index.Device.{Device}
use dataman.Index.Stops.{Passed, Failed}
use dataman.Index.Node.{Format, Node, Pool, take_page, load_node}
use dataman.Index.Pages.{Apart, CopyOnWrite}

-- The free pages do not overlap.
abbrev pub Spread : ℕ → List ℕ → Type 0
Spread size [] = Unit
Spread size (f ∷ free) = All (Apart size f) free × Spread size free

-- The pages to take are not among those in use.
pub record PoolFor (fmt : Format) (live : ℕ → Type 0) (pool : Pool) : Type 0 where
  pub live_below : (o : ℕ) → live o → o + fmt.page_size ≤ pool.next
  pub free_apart : (o : ℕ) → live o → All (Apart fmt.page_size o) pool.free
  pub free_below : All (λ (f : ℕ). f + fmt.page_size ≤ pool.next) pool.free
  pub spread : Spread fmt.page_size pool.free

abbrev pub Also : (ℕ → Type 0) → ℕ → ℕ → Type 0
Also live page o = live o ⊎ (o ≡ page)

-- Every node in use is still there, and the pool is still good.
pub record Kept (fmt : Format) (live : ℕ → Type 0) (pool pool' : Pool) : Type 0 where
  pub good : PoolFor fmt live pool'
  pub nodes :
      (o : ℕ) (node : Node)
      → live o
      → load_node fmt pool.device.content o ≡ some node
      → load_node fmt pool'.device.content o ≡ some node
  pub header :
      live 0
      → index_header_size ≤ length pool.device.content
      → pread pool'.device.content 0 index_header_size
        ≡ pread pool.device.content 0 index_header_size
  pub stops : Passed pool.device.stops pool'.device.stops
  pub next : pool.next ≤ pool'.next

-- Why a write failed: the system has failed one of the writes since, or the file would go past the
-- largest offset.
abbrev pub Failure : Pool → Pool → Type 0
Failure pool pool' = Failed pool.device.stops pool'.device.stops ⊎ (int64_max < pool'.next)

-- A page that was taken.
pub record Taken (fmt : Format) (live : ℕ → Type 0) (pool : Pool) (page : ℕ) (pool' : Pool)
    : Type 0 where
  pub device : pool'.device ≡ pool.device
  pub below : page + fmt.page_size ≤ pool'.next
  pub apart : (o : ℕ) → live o → Apart fmt.page_size o page
  pub good : PoolFor fmt live pool'
  pub good_also : PoolFor fmt (Also live page) pool'
  pub next : pool.next ≤ pool'.next

module _ (fmt : Format) (live : ℕ → Type 0) where
  All-below :
      (a b : ℕ) (free : List ℕ)
      → a ≤ b
      → All (λ (f : ℕ). f + fmt.page_size ≤ a) free
      → All (λ (f : ℕ). f + fmt.page_size ≤ b) free
  All-below a b [] h all = tt
  All-below a b (f ∷ free) h all = (omega (arith, all.0), All-below a b free h all.1)

  next-Apart :
      (next : ℕ) (free : List ℕ)
      → All (λ (f : ℕ). f + fmt.page_size ≤ next) free
      → All (Apart fmt.page_size next) free
  next-Apart next [] all = tt
  next-Apart next (f ∷ free) all = (inr all.0, next-Apart next free all.1)

  pub take_page-Taken :
      (old : ℕ) (device : Device) (next : ℕ) (free : List ℕ)
      → CopyOnWrite fmt
      → PoolFor fmt live (record { device = device; next = next; free = free })
      → Taken fmt live
          (record { device = device; next = next; free = free })
          (take_page fmt old (record { device = device; next = next; free = free })).0
          (take_page fmt old (record { device = device; next = next; free = free })).1
  unfolding take_page
  take_page-Taken old device next [] c p = rw c.fresh (record {
    device = refl;
    below = omega arith;
    apart = λ o h. inl (p.live_below o h);
    good = record {
      live_below = λ o h. omega (arith, p.live_below o h);
      free_apart = λ o h. tt;
      free_below = tt;
      spread = tt;
    };
    good_also = record {
      live_below = λ o h. elim h [ inl l ↦ omega (arith, p.live_below o l) | inr e ↦ omega arith ];
      free_apart = λ o h. tt;
      free_below = tt;
      spread = tt;
    };
    next = omega arith;
  })
  take_page-Taken old device next (page ∷ free) c p = rw c.fresh (record {
    device = refl;
    below = p.free_below.0;
    apart = λ o h. (p.free_apart o h).0;
    good = record {
      live_below = p.live_below;
      free_apart = λ o h. (p.free_apart o h).1;
      free_below = p.free_below.1;
      spread = p.spread.1;
    };
    good_also = record {
      live_below =
          λ o h. elim h [ inl l ↦ p.live_below o l | inr e ↦ omega (arith, p.free_below.0) ];
      free_apart = λ o h. elim h [
        | inl l ↦ (p.free_apart o l).1
        | inr e ↦ subst (λ (k : ℕ). All (Apart fmt.page_size k) free) (sym e) p.spread.0
      ];
      free_below = p.free_below.1;
      spread = p.spread.1;
    };
    next = omega arith;
  })
