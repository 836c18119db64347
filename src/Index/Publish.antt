-- ===== src/Index/Publish.antt =====
-- What readers of server/index_v2.c find after a root was published, or was not.
use mathlib.Core.Option.{none-ne-some, some-injective}
use dataman.Base.Int.{pos}
use dataman.Base.{
  ℕ, suc, ◌+◌, ◌%◌, ◌≤◌, ◌<◌, ◌≡◌, refl, ap, sym, ◌∙◌, subst, ◌⊎◌, inl, inr, Bool, true, false, not,
  ◌||◌, Option, none, some, List, [], arith, ◌==◌, ltb, ltb→lt, lt→ltb, not_ltb→le, le→not_ltb,
  if◌then◌else◌, length, take-all, Bool-cases, Option-cases,
}
use dataman.Storage.{Bytes, pwrite, pread, valid_range}
use dataman.Storage.Windows.{pread-pwrite_inside, pread-pwrite_outside}
use dataman.Storage.Content.{length-pwrite}
use dataman.Index.Device.{Device, next_stop, later_stops, write_full_at, sync}
use dataman.Index.Pages.{if-some, if-none}
use dataman.Index.Header.{
  index_header_size, Root, slot_bytes, slot_offset, publish_root, read_slot, fields_valid,
  newer_root, Heading, heading_of, read_header,
}
use dataman.Index.Root.{
  SlotRoot, length-slot_bytes, read_slot-slot_bytes, parse, read_header-parse, read_header-full,
}

-- What a header that was read consists of.
pub record Parsed (fields a b : Bytes) (h : Heading) : Type 0 where
  pub valid : not (fields_valid 0 fields) ≡ false
  pub newest : newer_root (read_slot a) (read_slot b) ≡ some h.root
  pub heading : (r : Root) → heading_of fields r ≡ some (record h { root = r })

pub parse-Parsed :
    (fields a b : Bytes) (h : Heading) → parse fields a b ≡ some h → Parsed fields a b h
parse-Parsed fields a b h e =
    let (valid, e') = if-none (not (fields_valid 0 fields)) _ h e in
    elim (Option-cases (newer_root (read_slot a) (read_slot b))) [
      | inl gone ↦ absurd (none-ne-some h (sym (rw gone refl) ∙ e'))
      | inr (root, newest) ↦
          let found : heading_of fields root ≡ some h = sym (rw newest refl) ∙ e' in
          let (usable, same) = if-some _ _ _ found in
          record {
            valid = valid;
            newest = newest ∙ ap some (ap (λ (k : Heading). k.root) same);
            heading = λ r. rw usable (ap some (ap (λ (k : Heading). record k { root = r }) same));
          }
    ]

pub Parsed-parse :
    (fields a b : Bytes) (h : Heading) → Parsed fields a b h → parse fields a b ≡ some h
Parsed-parse fields a b h p = rw (p.valid, p.newest) (p.heading h.root)

abbrev generation_of : Option Root → ℕ
generation_of none = 0
generation_of (some r) = r.generation

newest-bound :
    (x y : Option Root) (s : Root)
    → newer_root x y ≡ some s
    → (generation_of x ≤ s.generation) × (generation_of y ≤ s.generation)
newest-bound none none s h = absurd (none-ne-some s h)
newest-bound none (some b) s h =
    let same = ap (λ (r : Root). r.generation) (some-injective b s h) in (omega arith, omega arith)
newest-bound (some a) none s h =
    let same = ap (λ (r : Root). r.generation) (some-injective a s h) in (omega arith, omega arith)
newest-bound (some a) (some b) s h = elim (Bool-cases (ltb b.generation a.generation)) [
  | inl is ↦
      let same = ap (λ (r : Root). r.generation) (some-injective a s (sym (rw is refl) ∙ h)) in
      let lt = ltb→lt b.generation a.generation is in (omega arith, omega arith)
  | inr isnt ↦
      let same = ap (λ (r : Root). r.generation) (some-injective b s (sym (rw isnt refl) ∙ h)) in
      let le = not_ltb→le b.generation a.generation isnt in (omega arith, omega arith)
]

-- A root wins against an older one.
newer_first :
    (y : Option Root) (r : Root) → generation_of y < r.generation → newer_root (some r) y ≡ some r
newer_first none r h = refl
newer_first (some b) r h = rw (lt→ltb b.generation r.generation h) refl

newer_second :
    (x : Option Root) (r : Root) → generation_of x < r.generation → newer_root x (some r) ≡ some r
newer_second none r h = refl
newer_second (some a) r h = rw (le→not_ltb r.generation a.generation (omega arith)) refl

pub if_true : (P Q : Type 0) (c : Bool) → c ≡ true → (if c then P else Q) → P
if_true P Q true h p = p
if_true P Q false h q = absurd (false_ne_true h)
  where
    false_ne_true : false ≡ true → ⊥
    false_ne_true h = ground arith

pub if_false : (P Q : Type 0) (c : Bool) → c ≡ false → (if c then P else Q) → Q
if_false P Q false h q = q
if_false P Q true h p = absurd (true_ne_false h)
  where
    true_ne_false : true ≡ false → ⊥
    true_ne_false h = ground arith

-- The three parts of a file's header after a write into the slot of a generation.
pub record Slots (content content' : Bytes) (generation : ℕ) : Type 0 where
  pub full : index_header_size ≤ length content'
  pub fields : pread content' 0 24 ≡ pread content 0 24
  pub other :
      if generation % 2 == 1
      then (pread content' 64 32 ≡ pread content 64 32)
      else (pread content' 32 32 ≡ pread content 32 32)

pub pwrite-Slots :
    (content bytes : Bytes) (generation : ℕ)
    → index_header_size ≤ length content
    → 0 < length bytes
    → length bytes ≤ 32
    → Slots content (pwrite content (slot_offset generation) bytes) generation
pwrite-Slots content bytes generation full some_bytes short =
    elim (Bool-cases (generation % 2 == 1)) [
      | inl odd ↦ record {
        full = omega (arith, length-pwrite content (slot_offset generation) bytes some_bytes);
        fields =
            rw odd (pread-pwrite_outside content 32 bytes 0 24 (omega arith) (inl (omega arith)));
        other =
            rw odd (pread-pwrite_outside content 32 bytes 64 32 (omega arith) (inr (omega arith)));
      }
      | inr even ↦ record {
        full = omega (arith, length-pwrite content (slot_offset generation) bytes some_bytes);
        fields =
            rw even (pread-pwrite_outside content 64 bytes 0 24 (omega arith) (inl (omega arith)));
        other =
            rw even (pread-pwrite_outside content 64 bytes 32 32 (omega arith) (inl (omega arith)));
      }
    ]

-- A slot that was written in full.
slot-written :
    (content : Bytes) (at : ℕ) (r : Root)
    → SlotRoot r
    → read_slot (pread (pwrite content at (slot_bytes r)) at 32) ≡ some r
slot-written content at r f =
    let size = length-slot_bytes r in
    let here : at + 0 ≡ at = omega arith in
    let found = pread-pwrite_inside content at (slot_bytes r) 0 32 (omega arith) (omega arith) in
    let whole : pread (slot_bytes r) 0 32 ≡ slot_bytes r =
      take-all 32 (slot_bytes r) (omega arith) in
    ap read_slot
      (ap (λ (k : ℕ). pread (pwrite content at (slot_bytes r)) k 32) (sym here) ∙ found ∙ whole)
    ∙ read_slot-slot_bytes r f

Parsed-next :
    (fields a b a' b' : Bytes) (h : Heading) (r : Root)
    → Parsed fields a b h
    → r.generation ≡ suc h.root.generation
    → ((read_slot a' ≡ some r) × (b' ≡ b)) ⊎ ((read_slot b' ≡ some r) × (a' ≡ a))
    → Parsed fields a' b' (record h { root = r })
Parsed-next fields a b a' b' h r p next new =
    let (first_old, second_old) = newest-bound (read_slot a) (read_slot b) h.root p.newest in
    record {
      valid = p.valid;
      newest = elim new [
        | inl (there, same) ↦
            ap (λ (o : Option Root). newer_root o (read_slot b')) there
            ∙ ap (λ (c : Bytes). newer_root (some r) (read_slot c)) same
            ∙ newer_first (read_slot b) r (omega arith)
        | inr (there, same) ↦
            ap (newer_root (read_slot a')) there
            ∙ ap (λ (c : Bytes). newer_root (read_slot c) (some r)) same
            ∙ newer_second (read_slot a) r (omega arith)
      ];
      heading = p.heading;
    }

-- A header is read as before but for the root, when a newer one stands in its slot.
pub header-written :
    (content : Bytes) (h : Heading) (r : Root)
    → read_header content ≡ some h
    → SlotRoot r
    → r.generation ≡ suc h.root.generation
    → read_header (pwrite content (slot_offset r.generation) (slot_bytes r))
      ≡ some (record h { root = r })
header-written content h r e f next =
    let content' = pwrite content (slot_offset r.generation) (slot_bytes r) in
    let full = read_header-full content h e in
    let size = length-slot_bytes r in
    let s = pwrite-Slots content (slot_bytes r) r.generation full (omega arith) (omega arith) in
    let p =
      parse-Parsed (pread content 0 24) (pread content 32 32) (pread content 64 32) h
        (sym (read_header-parse content full) ∙ e) in
    let there = slot-written content (slot_offset r.generation) r f in
    let new : ((read_slot (pread content' 32 32) ≡ some r)
          × (pread content' 64 32 ≡ pread content 64 32))
        ⊎ ((read_slot (pread content' 64 32) ≡ some r)
            × (pread content' 32 32 ≡ pread content 32 32)) =
      which_slot content content' r s there in
    read_header-parse content' s.full
    ∙ ap (λ (fields : Bytes). parse fields (pread content' 32 32) (pread content' 64 32)) s.fields
    ∙ Parsed-parse _ _ _ (record h { root = r })
        (Parsed-next _ _ _ (pread content' 32 32) (pread content' 64 32) h r p next new)
  where
    which_slot :
        (content content' : Bytes) (r : Root)
        → Slots content content' r.generation
        → read_slot (pread content' (slot_offset r.generation) 32) ≡ some r
        → ((read_slot (pread content' 32 32) ≡ some r)
            × (pread content' 64 32 ≡ pread content 64 32))
          ⊎ ((read_slot (pread content' 64 32) ≡ some r)
              × (pread content' 32 32 ≡ pread content 32 32))
    which_slot content content' r s there = elim (Bool-cases (r.generation % 2 == 1)) [
      | inl odd ↦
          let at : slot_offset r.generation ≡ 32 = rw odd refl in
          inl (
            subst (λ (k : ℕ). read_slot (pread content' k 32) ≡ some r) at there,
            if_true _ _ (r.generation % 2 == 1) odd s.other,
          )
      | inr even ↦
          let at : slot_offset r.generation ≡ 64 = rw even refl in
          inr (
            subst (λ (k : ℕ). read_slot (pread content' k 32) ≡ some r) at there,
            if_false _ _ (r.generation % 2 == 1) even s.other,
          )
    ]

pub slot-valid_range :
    (r : Root) → valid_range (length (slot_bytes r)) (pos (slot_offset r.generation)) ≡ true
unfolding valid_range
slot-valid_range r = elim (Bool-cases (r.generation % 2 == 1)) [
  | inl odd ↦ rw (length-slot_bytes r, odd) refl
  | inr even ↦ rw (length-slot_bytes r, even) refl
]

-- What `index_v2_publish_root` asks of a root.
pub usable_root :
    (r : Root) → SlotRoot r → (ltb r.offset index_header_size || r.generation == 0) ≡ false
usable_root r f = in_use r.offset index_header_size r.generation f.behind_header f.some_generation
  where
    in_use : (o n g : ℕ) → n ≤ o → 0 < g → (ltb o n || g == 0) ≡ false
    in_use o n g h k = ground arith

-- On a file whose header can be read, with a system that fails nothing, publishing a root of the next
-- generation that a slot can hold (its numbers fit, it lies behind the header, and the checksum of its
-- slot is not 0) succeeds, and from then on readers find that root, with the same key length and number
-- of files.
pub publish_root-read_header :
    (d : Device) (h : Heading) (r : Root)
    → d.stops ≡ []
    → read_header d.content ≡ some h
    → SlotRoot r
    → r.generation ≡ suc h.root.generation
    → ((publish_root r d).0 ≡ true)
      × (read_header (publish_root r d).1.content ≡ some (record h { root = r }))
unfolding publish_root write_full_at sync
publish_root-read_header d h r quiet e f next =
    let well : next_stop d.stops ≡ none = ap next_stop quiet in
    let calm : next_stop (later_stops d.stops) ≡ none =
      ap (λ (s : List (Option ℕ)). next_stop (later_stops s)) quiet in
    let valid : valid_range (length (slot_bytes r)) (pos (slot_offset r.generation)) ≡ true =
      slot-valid_range r in
    let usable : (ltb r.offset index_header_size || r.generation == 0) ≡ false = usable_root r f in
    let written = header-written d.content h r e f next in
    (
      rw (publish_root, usable, valid, well, calm) refl,
      rw (publish_root, usable, valid, well) written,
    )
