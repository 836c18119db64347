-- ===== src/Index/Marks.antt =====
-- What `v2_mark_live_pages` of server/index_v2.c marks: with a page all that lie below it.
use native.Mathlib.Nat.{div-add-mod}
use dataman.Base.{
  subst, ℕ, zero, suc, ◌-◌, ◌*◌, ◌/◌, ◌%◌, ◌≤◌, ◌<◌, ◌≡◌, refl, ap, sym, ◌∙◌, inl, inr, Bool, true,
  false, not, ◌&&◌, ◌||◌, some, List, [], ◌∷◌, arith, ◌==◌, ==_iff, eq→==, ltb, leb, All,
  Bool-cases, Option-cases,
}
use dataman.Storage.{Bytes}
use dataman.Index.Node.{max_keys, Format, RawNode, payload_size, read_node}
use dataman.Index.Insertion.{mark_children, is_marked, children_of, mark_live_pages}

false_ne_true : false ≡ true → ⊥
false_ne_true h = ground arith

in_place : (o f m : ℕ) → (ltb o f || not (m == 0)) ≡ false → (f ≤ o) × (m ≡ 0)
in_place o f m h = (ground arith, ground arith)

seen_before :
    (page count : ℕ) (marked : Bool)
    → (leb count page || marked) ≡ true
    → ltb page count ≡ true
    → (page < count) × (marked ≡ true)
seen_before page count marked h k = (ground arith, ground arith)

unseen_inside : (page count : ℕ) (marked : Bool) → (leb count page || marked) ≡ false → page < count
unseen_inside page count marked h = ground arith

-- Where the pages of a file lie.
module _ (fmt : Format) (content : Bytes) (first_page page_count : ℕ) where
  abbrev pub page_of : ℕ → ℕ
  page_of offset = (offset - first_page) / fmt.page_size

  -- A page of the file that is marked.
  pub record Marked (live : List ℕ) (offset : ℕ) : Type 0 where
    pub behind : first_page ≤ offset
    pub aligned : (offset - first_page) % fmt.page_size ≡ 0
    pub inside : page_of offset < page_count
    pub marked : is_marked (page_of offset) live ≡ true

  -- What stands on a page that was visited: a node, its children being marked.
  pub record Visited (live : List ℕ) (offset : ℕ) : Type 0 where
    pub raw : RawNode
    pub there : read_node content offset ≡ some raw
    pub below : (raw.flags == 1) ≡ false → All (Marked live) (children_of raw)

  -- Every page that was marked since has been visited.
  pub record Since (live live' : List ℕ) : Type 0 where
    pub more : (n : ℕ) → is_marked n live ≡ true → is_marked n live' ≡ true
    pub visited :
        (offset : ℕ)
        → Marked live' offset
        → is_marked (page_of offset) live ≡ false
        → Visited live' offset

  pub Marked-more :
      (live live' : List ℕ) (offset : ℕ)
      → ((n : ℕ) → is_marked n live ≡ true → is_marked n live' ≡ true)
      → Marked live offset
      → Marked live' offset
  Marked-more live live' offset f m = record {
    behind = m.behind;
    aligned = m.aligned;
    inside = m.inside;
    marked = f (page_of offset) m.marked;
  }

  All-Marked :
      (live live' : List ℕ) (os : List ℕ)
      → ((n : ℕ) → is_marked n live ≡ true → is_marked n live' ≡ true)
      → All (Marked live) os
      → All (Marked live') os
  All-Marked live live' [] f all = tt
  All-Marked live live' (o ∷ os) f all =
      (Marked-more live live' o f all.0, All-Marked live live' os f all.1)

  pub Since-refl : (live : List ℕ) → Since live live
  Since-refl live = record {
    more = λ n h. h;
    visited = λ offset m gone. absurd (true_ne_false (sym m.marked ∙ gone));
  }
    where
      true_ne_false : true ≡ false → ⊥
      true_ne_false h = ground arith

  pub Since-trans : (a b c : List ℕ) → Since a b → Since b c → Since a c
  Since-trans a b c s t = record {
    more = λ n h. t.more n (s.more n h);
    visited = λ offset m gone. elim (Bool-cases (is_marked (page_of offset) b)) [
      | inl early ↦
          let m' : Marked b offset = record {
            behind = m.behind;
            aligned = m.aligned;
            inside = m.inside;
            marked = early;
          } in
          let v = s.visited offset m' gone in
          record {
            raw = v.raw;
            there = v.there;
            below = λ inner. All-Marked b c (children_of v.raw) t.more (v.below inner);
          }
      | inr late ↦ t.visited offset m late
    ];
  }

  children-Outcome :
      (mark : ℕ → List ℕ → Bool × List ℕ)
      → ((c : ℕ) (live : List ℕ)
          → (mark c live).0 ≡ true
          → Since live (mark c live).1 × Marked (mark c live).1 c)
      → (cs live : List ℕ) → (mark_children mark cs live).0 ≡ true
      → Since live (mark_children mark cs live).1 × All (Marked (mark_children mark cs live).1) cs
  children-Outcome mark f [] live h = (Since-refl live, tt)
  children-Outcome mark f (c ∷ cs) live h = elim (Bool-cases (mark c live).0) [
    | inr bad ↦ absurd (false_ne_true (sym (rw bad refl) ∙ h))
    | inl good ↦
        let (since, here) = f c live good in
        let (since', rest) = children-Outcome mark f cs (mark c live).1 (sym (rw good refl) ∙ h) in
        let found : mark_children mark (c ∷ cs) live ≡ mark_children mark cs (mark c live).1 =
          rw good refl in
        subst (λ (r : Bool × List ℕ). Since live r.1 × (Marked r.1 c × All (Marked r.1) cs))
          (sym found)
          (
            Since-trans live (mark c live).1 _ since since',
            (Marked-more (mark c live).1 _ c since'.more here, rest),
          )
  ]
    where
      false_ne_true : false ≡ true → ⊥
      false_ne_true h = ground arith

  same_page :
      (a b : ℕ)
      → first_page ≤ a
      → first_page ≤ b
      → (a - first_page) % fmt.page_size ≡ 0
      → (b - first_page) % fmt.page_size ≡ 0
      → page_of a ≡ page_of b
      → a ≡ b
  same_page a b ha hb ra rb same =
      let wa = div-add-mod (a - first_page) fmt.page_size in
      let wb = div-add-mod (b - first_page) fmt.page_size in
      let scaled : fmt.page_size * page_of a ≡ fmt.page_size * page_of b =
        ap (λ (k : ℕ). fmt.page_size * k) same in
      omega arith

  -- A page that was read, and what was marked after it.
  Since-visit :
      (live live' : List ℕ) (offset : ℕ) (raw : RawNode)
      → first_page ≤ offset
      → (offset - first_page) % fmt.page_size ≡ 0
      → read_node content offset ≡ some raw
      → Since (page_of offset ∷ live) live'
      → ((raw.flags == 1) ≡ false → All (Marked live') (children_of raw))
      → Since live live'
  Since-visit live live' offset raw behind aligned there since below = record {
    more = λ n h. since.more n (marked_later n h);
    visited = λ o m gone. elim (Bool-cases (page_of o == page_of offset)) [
      | inl same ↦
          let e : o ≡ offset =
            same_page o offset m.behind behind m.aligned aligned
              ((==_iff (page_of o) (page_of offset)).0 same) in
          record { raw = raw; there = ap (read_node content) e ∙ there; below = below }
      | inr other ↦ since.visited o m (rw other gone)
    ];
  }
    where
      marked_later : (n : ℕ) → is_marked n live ≡ true → is_marked n (page_of offset ∷ live) ≡ true
      marked_later n h = elim (Bool-cases (n == page_of offset)) [
        | inl is ↦ rw is refl
        | inr isnt ↦ rw isnt h
      ]

  pub mark_live_pages-Since :
      (fuel offset : ℕ) (live : List ℕ)
      → (mark_live_pages fuel fmt content first_page page_count offset live).0 ≡ true
      → Since live (mark_live_pages fuel fmt content first_page page_count offset live).1
        × Marked (mark_live_pages fuel fmt content first_page page_count offset live).1 offset
  unfolding mark_live_pages
  mark_live_pages-Since zero offset live h = absurd (false_ne_true h)
  mark_live_pages-Since (suc fuel) offset live h =
      let page = page_of offset in
      let T : Bool × List ℕ → Type 0 = λ r. Since live r.1 × Marked r.1 offset in
      let sound : RawNode → Bool = λ raw.
        ltb max_keys raw.key_count
        || not (raw.payload_length == payload_size fmt (raw.flags == 1) raw.key_count)
        || (not (raw.flags == 1) && raw.key_count == 0) in
      elim (Bool-cases
        (ltb offset first_page || not ((offset - first_page) % fmt.page_size == 0))) [
          | inl bad ↦ absurd (false_ne_true (sym (rw (mark_live_pages, bad) refl) ∙ h))
          | inr aligned ↦
              let (behind, even) =
                in_place offset first_page ((offset - first_page) % fmt.page_size) aligned in
              elim (Bool-cases (leb page_count page || is_marked page live)) [
                | inl seen ↦
                    let found : mark_live_pages (suc fuel) fmt content first_page page_count offset
                          live
                        ≡ (ltb page page_count, live) =
                      rw (mark_live_pages, aligned, seen) refl in
                    let (inside, marked) =
                      seen_before page page_count (is_marked page live) seen
                        (ap (λ (r : Bool × List ℕ). r.0) (sym found) ∙ h) in
                    subst T (sym found) (
                      Since-refl live,
                      record { behind = behind; aligned = even; inside = inside; marked = marked },
                    )
                | inr unseen ↦ elim (Option-cases (read_node content offset)) [
                  | inl gone ↦
                      absurd
                        (false_ne_true (sym (rw (mark_live_pages, aligned, unseen, gone) refl) ∙ h))
                  | inr (raw, there) ↦ elim (Bool-cases (sound raw)) [
                    | inl bad ↦ absurd (
                        false_ne_true
                          (sym (rw (mark_live_pages, aligned, unseen, there, bad) refl) ∙ h))
                    | inr fits ↦ elim (Bool-cases (raw.flags == 1)) [
                      | inl leaf ↦
                          let found : mark_live_pages (suc fuel) fmt content first_page page_count
                                offset live
                              ≡ (true, page ∷ live) =
                            rw (mark_live_pages, aligned, unseen, there, fits, leaf) refl in
                          subst T (sym found) (
                            Since-visit live (page ∷ live) offset raw behind even there
                                (Since-refl (page ∷ live))
                                (λ inner. absurd (false_ne_true (sym inner ∙ leaf))),
                            here (page ∷ live) behind even unseen (Since-refl (page ∷ live)),
                          )
                      | inr inner ↦
                          let mark : ℕ → List ℕ → Bool × List ℕ =
                            mark_live_pages fuel fmt content first_page page_count in
                          let below = mark_children mark (children_of raw) (page ∷ live) in
                          let found : mark_live_pages (suc fuel) fmt content first_page page_count
                                offset live
                              ≡ below =
                            rw (mark_live_pages, aligned, unseen, there, fits, inner) refl in
                          let (since, marked) =
                            children-Outcome mark (λ c l. mark_live_pages-Since fuel c l)
                              (children_of raw) (page ∷ live)
                              (ap (λ (r : Bool × List ℕ). r.0) (sym found) ∙ h) in
                          subst T (sym found) (
                            Since-visit live below.1 offset raw behind even there since
                                (λ i. marked),
                            here below.1 behind even unseen since,
                          )
                    ]
                  ]
                ]
              ]
        ]
    where
      here :
          (live' : List ℕ)
          → first_page ≤ offset
          → (offset - first_page) % fmt.page_size ≡ 0
          → (leb page_count (page_of offset) || is_marked (page_of offset) live) ≡ false
          → Since (page_of offset ∷ live) live'
          → Marked live' offset
      here live' behind even unseen since = record {
        behind = behind;
        aligned = even;
        inside = unseen_inside (page_of offset) page_count (is_marked (page_of offset) live) unseen;
        marked =
            since.more (page_of offset) (rw (eq→== (page_of offset) (page_of offset) refl) refl);
      }
