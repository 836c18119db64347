-- ===== src/Index/Torn.antt =====
-- What readers of server/index_v2.c find when the system stops in the middle of publishing a root.
use dataman.Base.{
  ℕ, zero, suc, ◌%◌, ◌≤◌, ◌<◌, ◌≡◌, refl, ap, sym, ◌∙◌, subst, ◌⊎◌, inl, inr, true, false, Option,
  none, some, arith, ◌==◌, ltb, length, take, length-take, Bool-cases,
}
use dataman.Storage.{Bytes, pwrite, pread}
use dataman.Storage.Transfer.{pwrite-nil}
use dataman.Index.Device.{Device, next_stop, write_full_at}
use dataman.Index.Header.{
  Root, slot_bytes, slot_offset, publish_root, read_slot, newer_root, Heading, read_header,
}
use dataman.Index.Root.{SlotRoot, length-slot_bytes, parse, read_header-parse, read_header-full}
use dataman.Index.Publish.{
  Parsed, parse-Parsed, Parsed-parse, Slots, pwrite-Slots, if_true, if_false, slot-valid_range,
  usable_root,
}

-- Each slot that can be read holds a generation of its own kind, odd in the first and even in the second.
pub record Placed (content : Bytes) : Type 0 where
  pub first : (r : Root) → read_slot (pread content 32 32) ≡ some r → (r.generation % 2 == 1) ≡ true
  pub second :
      (r : Root) → read_slot (pread content 64 32) ≡ some r → (r.generation % 2 == 1) ≡ false

-- The old root is still read where the other slot has nothing to read.
Parsed-stays :
    (fields a b a' b' : Bytes) (h : Heading)
    → Parsed fields a b h
    → ((read_slot a' ≡ none) × (b' ≡ b) × (read_slot b ≡ some h.root))
      ⊎ ((read_slot b' ≡ none) × (a' ≡ a) × (read_slot a ≡ some h.root))
    → Parsed fields a' b' h
Parsed-stays fields a b a' b' h p kept = record {
  valid = p.valid;
  newest = elim kept [
    | inl (gone, same, there) ↦
        ap (λ (o : Option Root). newer_root o (read_slot b')) gone ∙ ap read_slot same ∙ there
    | inr (gone, same, there) ↦
        ap (newer_root (read_slot a')) gone
        ∙ ap (λ (c : Bytes). newer_root (read_slot c) none) same
        ∙ ap (λ (o : Option Root). newer_root o none) there
  ];
  heading = p.heading;
}

pub newer_root-which :
    (x y : Option Root) (s : Root) → newer_root x y ≡ some s → (x ≡ some s) ⊎ (y ≡ some s)
newer_root-which none y s h = inr h
newer_root-which (some a) none s h = inl h
newer_root-which (some a) (some b) s h = elim (Bool-cases (ltb b.generation a.generation)) [
  | inl is ↦ inl (sym (rw is refl) ∙ h)
  | inr isnt ↦ inr (sym (rw isnt refl) ∙ h)
]

next_odd : (g n : ℕ) → n ≡ suc g → (n % 2 == 1) ≡ true → (g % 2 == 1) ≡ true → ⊥
next_odd g n e h k = ground arith

next_even : (g n : ℕ) → n ≡ suc g → (n % 2 == 1) ≡ false → (g % 2 == 1) ≡ false → ⊥
next_even g n e h k = ground arith

-- A file whose header can be read, each slot of its own kind; a part of a slot for the next generation.
pub header-torn :
    (content : Bytes) (h : Heading) (generation : ℕ) (bytes : Bytes)
    → read_header content ≡ some h
    → Placed content
    → generation ≡ suc h.root.generation
    → 0 < length bytes
    → length bytes ≤ 32
    → read_slot (pread (pwrite content (slot_offset generation) bytes) (slot_offset generation) 32)
      ≡ none
    → read_header (pwrite content (slot_offset generation) bytes) ≡ some h
header-torn content h generation bytes e placed next some_bytes short gone =
    let content' = pwrite content (slot_offset generation) bytes in
    let full = read_header-full content h e in
    let s = pwrite-Slots content bytes generation full some_bytes short in
    let p =
      parse-Parsed (pread content 0 24) (pread content 32 32) (pread content 64 32) h
        (sym (read_header-parse content full) ∙ e) in
    read_header-parse content' s.full
    ∙ ap (λ (fields : Bytes). parse fields (pread content' 32 32) (pread content' 64 32)) s.fields
    ∙ Parsed-parse _ _ _ h (
        Parsed-stays _ _ _ (pread content' 32 32) (pread content' 64 32) h p
          (which_slot content' s gone (newer_root-which _ _ h.root p.newest)))
  where
    which_slot :
        (content' : Bytes)
        → Slots content content' generation
        → read_slot (pread content' (slot_offset generation) 32) ≡ none
        → (read_slot (pread content 32 32) ≡ some h.root)
          ⊎ (read_slot (pread content 64 32) ≡ some h.root)
        → ((read_slot (pread content' 32 32) ≡ none)
            × (pread content' 64 32 ≡ pread content 64 32)
            × (read_slot (pread content 64 32) ≡ some h.root))
          ⊎ ((read_slot (pread content' 64 32) ≡ none)
              × (pread content' 32 32 ≡ pread content 32 32)
              × (read_slot (pread content 32 32) ≡ some h.root))
    which_slot content' s gone which = elim (Bool-cases (generation % 2 == 1)) [
      | inl odd ↦
          let at : slot_offset generation ≡ 32 = rw odd refl in
          inl (
            subst (λ (k : ℕ). read_slot (pread content' k 32) ≡ none) at gone,
            if_true _ _ (generation % 2 == 1) odd s.other,
            elim which [
              | inl first ↦
                  absurd
                    (next_odd h.root.generation generation next odd (placed.first h.root first))
              | inr second ↦ second
            ],
          )
      | inr even ↦
          let at : slot_offset generation ≡ 64 = rw even refl in
          inr (
            subst (λ (k : ℕ). read_slot (pread content' k 32) ≡ none) at gone,
            if_false _ _ (generation % 2 == 1) even s.other,
            elim which [
              | inl first ↦ first
              | inr second ↦
                  absurd
                    (next_even h.root.generation generation next even (placed.second h.root second))
            ],
          )
    ]

-- The system stops after n bytes of a slot, on a file whose header can be read and whose slots hold
-- generations of their own kind, for a root of the next generation that a slot can hold (its numbers
-- fit, it lies behind the header, and the checksum of its slot is not 0): publishing fails, and as long
-- as what is left of the slot does not pass for a root, readers find the old root.
pub publish_root-stopped :
    (d : Device) (h : Heading) (r : Root) (n : ℕ)
    → next_stop d.stops ≡ some n
    → read_header d.content ≡ some h
    → Placed d.content
    → SlotRoot r
    → r.generation ≡ suc h.root.generation
    → read_slot (pread (publish_root r d).1.content (slot_offset r.generation) 32) ≡ none
    → ((publish_root r d).0 ≡ false) × (read_header (publish_root r d).1.content ≡ some h)
unfolding publish_root write_full_at
publish_root-stopped d h r n stop e placed f next gone =
    let usable = usable_root r f in
    let valid = slot-valid_range r in
    let size = length-slot_bytes r in
    let left : (publish_root r d).1.content
        ≡ pwrite d.content (slot_offset r.generation) (take n (slot_bytes r)) =
      rw (publish_root, usable, valid, stop) refl in
    let gone' =
      subst (λ (c : Bytes). read_slot (pread c (slot_offset r.generation) 32) ≡ none) left gone in
    (rw (publish_root, usable, valid, stop) refl, ap read_header left ∙ torn n gone')
  where
    torn :
        (n : ℕ)
        → read_slot (
            pread
              (pwrite d.content (slot_offset r.generation) (take n (slot_bytes r)))
              (slot_offset r.generation)
              32)
          ≡ none
        → read_header (pwrite d.content (slot_offset r.generation) (take n (slot_bytes r))) ≡ some h
    torn zero gone = ap read_header (pwrite-nil d.content (slot_offset r.generation)) ∙ e
    torn (suc n) gone =
        let size = length-slot_bytes r in
        header-torn d.content h r.generation (take (suc n) (slot_bytes r)) e placed next
          (omega (arith, length-take (suc n) (slot_bytes r)))
          (omega (arith, length-take (suc n) (slot_bytes r))) gone
