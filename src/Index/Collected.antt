-- ===== src/Index/Collected.antt =====
-- What `v2_collect_free_pages` of server/index_v2.c answers.
use mathlib.Core.Option.{none-ne-some, some-injective}
use dataman.Base.{
  subst, ℕ, suc, ◌+◌, ◌-◌, ◌*◌, ◌/◌, ◌%◌, ◌≤◌, ◌<◌, ◌≡◌, refl, sym, ◌∙◌, ◌⊎◌, inl, inr, Bool, true,
  not, ◌&&◌, ◌||◌, Option, none, some, List, [], arith, ◌==◌, ltb, not_ltb→le, if◌then◌else◌,
  length, Option-cases,
}
use dataman.Storage.{Bytes}
use dataman.Index.Codec.{get_u32}
use dataman.Index.Device.{Device, read_full_at}
use dataman.Index.Node.{Format}
use dataman.Index.Header.{index_header_size, Root, first_slot, second_slot, read_slot}
use dataman.Index.Pages.{or-false, if-none, if-some}
use dataman.Index.Growth.{PoolGood}
use dataman.Index.Tree.{Tree}
use dataman.Index.Insertion.{mark_slot, unmarked_pages, collect_free_pages}
use dataman.Index.Marks.{Marked, Marked-more, Since, Since-refl, Since-trans, mark_live_pages-Since}
use dataman.Index.FreePages.{
  bare, unmarked-PoolGood, Marked-Tree, round_up-le, first_page-le, pages-le,
}

mark_slot-Since :
    (fmt : Format) (content : Bytes) (first_page count : ℕ) (slot : Option Root) (live : List ℕ)
    → (mark_slot fmt content first_page count slot live).0 ≡ true
    → Since fmt content first_page count live (mark_slot fmt content first_page count slot live).1
      × ((r : Root)
          → slot ≡ some r
          → Marked fmt content first_page count
              (mark_slot fmt content first_page count slot live).1
              r.offset)
mark_slot-Since fmt content first_page count none live h =
    (Since-refl fmt content first_page count live, λ r e. absurd (none-ne-some r e))
mark_slot-Since fmt content first_page count (some s) live h =
    let (since, here) =
      mark_live_pages-Since fmt content first_page count (suc count) s.offset live h in
    (
      since,
      λ r e.
          subst
            (λ (q : Root).
              Marked fmt content first_page count
                (mark_slot fmt content first_page count (some s) live).1 q.offset)
            (some-injective s r e) here,
    )

-- What was found on the way.
pub record Collected (fmt : Format) (content : Bytes) (free : List ℕ) : Type 0 where
  pub header : Bytes
  pub header_read : read_full_at index_header_size 0 content ≡ some header
  pub first_page : ℕ
  pub place :
      first_page
      ≡ (index_header_size + get_u32 header 16 + fmt.page_size - 1) / fmt.page_size * fmt.page_size
  pub room : first_page ≤ length content
  pub live : List ℕ
  pub whole :
      free
      ≡ unmarked_pages first_page fmt.page_size live ((length content - first_page) / fmt.page_size)
  pub since : Since fmt content first_page ((length content - first_page) / fmt.page_size) [] live
  pub marked :
      (r : Root)
      → (read_slot (first_slot header) ≡ some r) ⊎ (read_slot (second_slot header) ≡ some r)
      → Marked fmt content first_page ((length content - first_page) / fmt.page_size) live r.offset

pub collect_free_pages-Collected :
    (fmt : Format) (content : Bytes) (free : List ℕ)
    → collect_free_pages fmt content ≡ some free
    → Collected fmt content free
unfolding collect_free_pages
collect_free_pages-Collected fmt content free h =
    elim (Option-cases (read_full_at index_header_size 0 content)) [
      | inl gone ↦ absurd (none-ne-some free (sym (rw (collect_free_pages, gone) refl) ∙ h))
      | inr (header, found) ↦
          let size = fmt.page_size in
          let first_page = (index_header_size + get_u32 header 16 + size - 1) / size * size in
          let count = (length content - first_page) / size in
          let a = mark_slot fmt content first_page count (read_slot (first_slot header)) [] in
          let b = mark_slot fmt content first_page count (read_slot (second_slot header)) a.1 in
          let h' : (if ltb (length content) first_page
                  || not ((length content - first_page) % size == 0)
                then none
                else if a.0 && b.0
                then some (unmarked_pages first_page size b.1 count)
                else none)
              ≡ some free =
            sym (rw (collect_free_pages, found) refl) ∙ h in
          let (inside, h'') =
            if-none
              (ltb (length content) first_page || not ((length content - first_page) % size == 0)) _
              _ h' in
          let (good, same) = if-some (a.0 && b.0) _ _ h'' in
          let (first_good, second_good) = and_true a.0 b.0 good in
          let (since, first) =
            mark_slot-Since fmt content first_page count (read_slot (first_slot header)) []
              first_good in
          let (since', second) =
            mark_slot-Since fmt content first_page count (read_slot (second_slot header)) a.1
              second_good in
          record {
            header = header;
            header_read = found;
            first_page = first_page;
            place = refl;
            room =
                not_ltb→le (length content) first_page
                  (or-false (ltb (length content) first_page) _ inside).0;
            live = b.1;
            whole = sym same;
            since = Since-trans fmt content first_page count [] a.1 b.1 since since';
            marked = λ r e. elim e [
              | inl e ↦
                  Marked-more fmt content first_page count a.1 b.1 r.offset since'.more (first r e)
              | inr e ↦ second r e
            ];
          }
    ]
  where
    and_true : (x y : Bool) → (x && y) ≡ true → (x ≡ true) × (y ≡ true)
    and_true x y h = (ground arith, ground arith)

-- The pages that are found make a good pool, in which a tree below either root that the header names
-- is a tree still: none of its pages is free.
pub collect_free_pages-Tree :
    (fmt : Format) (device : Device) (free : List ℕ) (r : Root) (height : ℕ) (es : List Bytes)
    → 0 < fmt.page_size
    → (c : Collected fmt device.content free)
    → (read_slot (first_slot c.header) ≡ some r) ⊎ (read_slot (second_slot c.header) ≡ some r)
    → let next = (length device.content + fmt.page_size - 1) / fmt.page_size * fmt.page_size in
      Tree fmt (bare device next) height r.offset es
      → PoolGood fmt (record { device = device; next = next; free = free })
        × Tree fmt (record { device = device; next = next; free = free }) height r.offset es
collect_free_pages-Tree fmt device free r height es some_size c named t =
    let next = (length device.content + fmt.page_size - 1) / fmt.page_size * fmt.page_size in
    let count = (length device.content - c.first_page) / fmt.page_size in
    let room : c.first_page + count * fmt.page_size ≤ next = omega (
      arith,
      pages-le (length device.content) c.first_page fmt.page_size c.room,
      round_up-le (length device.content) fmt.page_size some_size,
    ) in
    let behind : fmt.page_size ≤ c.first_page = omega (
      arith,
      c.place,
      first_page-le (index_header_size + get_u32 c.header 16) fmt.page_size some_size (omega arith),
    ) in
    subst
      (λ (fs : List ℕ).
        PoolGood fmt (record { device = device; next = next; free = fs })
        × Tree fmt (record { device = device; next = next; free = fs }) height r.offset es)
      (sym c.whole)
      (
        unmarked-PoolGood fmt device c.first_page c.live next count behind room,
        Marked-Tree fmt device c.first_page count c.live next room height r.offset es c.since
            (c.marked r named) t,
      )
