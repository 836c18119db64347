-- ===== src/Index/FreePages.antt =====
-- The pages that `v2_collect_free_pages` of server/index_v2.c finds are free in fact.
use native.Mathlib.Nat.{div-add-mod', mod-lt}
use mathlib.Core.Option.{some-injective}
use dataman.Base.{
  subst, ℕ, zero, suc, ◌+◌, ◌-◌, ◌*◌, ◌/◌, ◌≤◌, ◌<◌, ◌≡◌, refl, ap, sym, ◌∙◌, inl, inr, true, false,
  not, ◌&&◌, ◌||◌, some, List, [], ◌∷◌, arith, ◌==◌, ==_iff, ltb, ltb→lt, drop, All, Bool-cases,
}
use dataman.Storage.{Bytes}
use dataman.Index.Device.{Device}
use dataman.Index.Node.{
  max_keys, Format, entry_size, Node, Pool, RawNode, payload_size, decode_node, load_node,
  split_entries, split_children,
}
use dataman.Index.Pages.{Apart, times_mono, if-none}
use dataman.Index.Taken.{Spread}
use dataman.Index.Growth.{Used, PoolGood}
use dataman.Index.Tree.{Forest, Tree}
use dataman.Index.Insertion.{is_marked, children_of, unmarked_pages}
use dataman.Index.Marks.{Marked, Visited, Since, page_of}

true_ne_false : true ≡ false → ⊥
true_ne_false h = ground arith

Apart-pages : (f p n k : ℕ) → (n == k) ≡ false → Apart p (f + k * p) (f + n * p)
Apart-pages f p n k h = elim (Bool-cases (ltb n k)) [
  | inl lower ↦ inr (omega (arith, times_mono (suc n) k p (ltb→lt n k lower)))
  | inr higher ↦ inl (omega (arith, times_mono (suc k) n p (above n k h higher)))
]
  where
    above : (n k : ℕ) → (n == k) ≡ false → ltb n k ≡ false → k < n
    above n k h i = ground arith

module _ (first_page page_size : ℕ) (live : List ℕ) where
  -- A marked page overlaps none that is not.
  unmarked-Apart :
      (k n : ℕ)
      → is_marked k live ≡ true
      → All
          (Apart page_size (first_page + k * page_size))
          (unmarked_pages first_page page_size live n)
  unmarked-Apart k zero h = tt
  unmarked-Apart k (suc n) h = elim (Bool-cases (is_marked n live)) [
    | inl used ↦ rw used (unmarked-Apart k n h)
    | inr unused ↦
        rw unused
          (Apart-pages first_page page_size n k (different n k h unused), unmarked-Apart k n h)
  ]
    where
      different : (n k : ℕ) → is_marked k live ≡ true → is_marked n live ≡ false → (n == k) ≡ false
      different n k h u = elim (Bool-cases (n == k)) [
        | inl same ↦ absurd (
            true_ne_false
              (sym h ∙ ap (λ (i : ℕ). is_marked i live) (sym ((==_iff n k).0 same)) ∙ u))
        | inr other ↦ other
      ]

  unmarked-below :
      (n k : ℕ)
      → n ≤ k
      → All
          (λ (f : ℕ). f + page_size ≤ first_page + k * page_size)
          (unmarked_pages first_page page_size live n)
  unmarked-below zero k h = tt
  unmarked-below (suc n) k h = elim (Bool-cases (is_marked n live)) [
    | inl used ↦ rw used (unmarked-below n k (omega arith))
    | inr unused ↦
        rw unused
          (omega (arith, times_mono (suc n) k page_size h), unmarked-below n k (omega arith))
  ]

  All-below-Apart :
      (o : ℕ) (fs : List ℕ) → All (λ (f : ℕ). f + page_size ≤ o) fs → All (Apart page_size o) fs
  All-below-Apart o [] all = tt
  All-below-Apart o (f ∷ fs) all = (inr all.0, All-below-Apart o fs all.1)

  unmarked-Spread : (n : ℕ) → Spread page_size (unmarked_pages first_page page_size live n)
  unmarked-Spread zero = tt
  unmarked-Spread (suc n) = elim (Bool-cases (is_marked n live)) [
    | inl used ↦ rw used (unmarked-Spread n)
    | inr unused ↦ rw unused (
      All-below-Apart (first_page + n * page_size) _ (unmarked-below n n (omega arith)),
      unmarked-Spread n,
    )
  ]

  unmarked-behind :
      (n : ℕ)
      → page_size ≤ first_page
      → All (Apart page_size 0) (unmarked_pages first_page page_size live n)
  unmarked-behind zero h = tt
  unmarked-behind (suc n) h = elim (Bool-cases (is_marked n live)) [
    | inl used ↦ rw used (unmarked-behind n h)
    | inr unused ↦ rw unused (inl (omega arith), unmarked-behind n h)
  ]

All-below-more :
    (a b size : ℕ) (fs : List ℕ)
    → a ≤ b
    → All (λ (f : ℕ). f + size ≤ a) fs
    → All (λ (f : ℕ). f + size ≤ b) fs
All-below-more a b size [] h all = tt
All-below-more a b size (f ∷ fs) h all = (omega (arith, all.0), All-below-more a b size fs h all.1)

pub unmarked-PoolGood :
    (fmt : Format) (device : Device) (first_page : ℕ) (live : List ℕ) (next count : ℕ)
    → fmt.page_size ≤ first_page
    → first_page + count * fmt.page_size ≤ next
    → PoolGood fmt (record {
      device = device;
      next = next;
      free = unmarked_pages first_page fmt.page_size live count;
    })
unmarked-PoolGood fmt device first_page live next count behind room = record {
  header_used = (omega arith, unmarked-behind first_page fmt.page_size live count behind);
  free_below =
      All-below-more _ _ fmt.page_size _ room
        (unmarked-below first_page fmt.page_size live count count (omega arith));
  spread = unmarked-Spread first_page fmt.page_size live count;
}

-- A pool that offers no page below the file's end.
abbrev pub bare : Device → ℕ → Pool
bare device next = record { device = device; next = next; free = [] }

-- The children of a node that was loaded are those of the node that was read.
loaded-children :
    (fmt : Format) (raw : RawNode) (seps : List Bytes) (pages : List ℕ)
    → decode_node fmt raw ≡ some (record { leaf = false; entries = seps; children = pages })
    → ((raw.flags == 1) ≡ false) × (children_of raw ≡ pages)
unfolding decode_node
loaded-children fmt raw seps pages h =
    let leaf = raw.flags == 1 in
    let (_, fits) =
      if-none
        (ltb max_keys raw.key_count
          || (not leaf && raw.key_count == 0)
          || not (raw.payload_length == payload_size fmt leaf raw.key_count))
        _ _ h in
    elim (Bool-cases leaf) [
      | inl is ↦
          let same =
            some-injective
              (record {
                leaf = true;
                entries = split_entries (entry_size fmt) raw.key_count raw.payload;
                children = [];
              })
              (record { leaf = false; entries = seps; children = pages })
              (sym (rw is refl) ∙ fits) in
          absurd (true_ne_false (ap (λ (n : Node). n.leaf) same))
      | inr isnt ↦
          let same =
            some-injective
              (record {
                leaf = false;
                entries =
                    split_entries (entry_size fmt) raw.key_count
                      (drop ((raw.key_count + 1) * 8) raw.payload);
                children = split_children (raw.key_count + 1) raw.payload;
              })
              (record { leaf = false; entries = seps; children = pages })
              (sym (rw isnt refl) ∙ fits) in
          (isnt, ap (λ (n : Node). n.children) same)
    ]

-- The node that was visited is the node that was loaded.
Visited-children :
    (fmt : Format) (content : Bytes) (first_page count : ℕ) (live : List ℕ) (o : ℕ)
    (seps : List Bytes) (pages : List ℕ)
    → Visited fmt content first_page count live o
    → load_node fmt content o ≡ some (record { leaf = false; entries = seps; children = pages })
    → All (Marked fmt content first_page count live) pages
unfolding load_node
Visited-children fmt content first_page count live o seps pages v h =
    let (inner, same) =
      loaded-children fmt v.raw seps pages (sym (rw (load_node, v.there) refl) ∙ h) in
    subst (All (Marked fmt content first_page count live)) same (v.below inner)

Forest-All :
    (P : ℕ → Type 0) (R S : ℕ → List Bytes → Type 0)
    → ((o : ℕ) (es : List Bytes) → P o → R o es → S o es)
    → (pages : List ℕ) (parts : List (List Bytes)) → All P pages
    → Forest R pages parts
    → Forest S pages parts
Forest-All P R S g [] [] all f = tt
Forest-All P R S g [] (es ∷ ess) all f = absurd f
Forest-All P R S g (o ∷ os) [] all f = absurd f
Forest-All P R S g (o ∷ os) (es ∷ ess) all f =
    (g o es all.0 f.0, Forest-All P R S g os ess all.1 f.1)

module _ (fmt : Format) (device : Device) (first_page count : ℕ) (live : List ℕ) (next : ℕ)
    (room : first_page + count * fmt.page_size ≤ next) where
  abbrev pool : Pool
  pool = record {
    device = device;
    next = next;
    free = unmarked_pages first_page fmt.page_size live count;
  }

  Marked-Used : (o : ℕ) → Marked fmt device.content first_page count live o → Used fmt pool o
  Marked-Used o m =
      let p = page_of fmt device.content first_page count o in
      let place : o ≡ first_page + p * fmt.page_size =
        omega (arith, div-add-mod' (o - first_page) fmt.page_size, m.aligned, m.behind) in
      (
        omega (arith, place, times_mono (suc p) count fmt.page_size m.inside),
        subst
            (λ (k : ℕ).
              All (Apart fmt.page_size k) (unmarked_pages first_page fmt.page_size live count))
            (sym place) (unmarked-Apart first_page fmt.page_size live p count m.marked),
      )

  -- A tree whose root was marked lies in pages that are not free.
  pub Marked-Tree :
      (height o : ℕ) (es : List Bytes)
      → Since fmt device.content first_page count [] live
      → Marked fmt device.content first_page count live o
      → Tree fmt (bare device next) height o es
      → Tree fmt pool height o es
  Marked-Tree zero o es s m t = record {
    at = record {
      used = Marked-Used o m;
      there = t.at.there;
      in_range = t.at.in_range;
      behind = t.at.behind;
    };
    order = t.order;
    sized = t.sized;
    few = t.few;
  }
  Marked-Tree (suc height) o es s m t = record {
    seps = t.seps;
    pages = t.pages;
    parts = t.parts;
    at = record {
      used = Marked-Used o m;
      there = t.at.there;
      in_range = t.at.in_range;
      behind = t.at.behind;
    };
    few = t.few;
    some_key = t.some_key;
    fenced = t.fenced;
    below =
        Forest-All _ _ _ (λ o' es' m' t'. Marked-Tree height o' es' s m' t') t.pages t.parts
          (Visited-children fmt device.content first_page count live o t.seps t.pages
            (s.visited o m refl) t.at.there)
          t.below;
    whole = t.whole;
    sized = t.sized;
  }

pub round_up-le : (x size : ℕ) → 0 < size → x ≤ (x + size - 1) / size * size
round_up-le x size h = omega (arith, div-add-mod' (x + size - 1) size, mod-lt (x + size - 1) h)

pub first_page-le : (x size : ℕ) → 0 < size → 0 < x → size ≤ (x + size - 1) / size * size
first_page-le x size h k =
    at_least ((x + size - 1) / size)
      (omega (arith, div-add-mod' (x + size - 1) size, mod-lt (x + size - 1) h))
  where
    at_least : (q : ℕ) → (0 < q * size) → size ≤ q * size
    at_least zero h = absurd (omega arith)
    at_least (suc q) h = omega arith

pub pages-le : (x f size : ℕ) → f ≤ x → f + (x - f) / size * size ≤ x
pages-le x f size h = omega (arith, div-add-mod' (x - f) size)
