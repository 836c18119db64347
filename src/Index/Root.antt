-- ===== src/Index/Root.antt =====
-- Publishing a root in server/index_v2.c: the slots one by one.
use mathlib.Core.Option.{none-ne-some}
use dataman.Base.{
  ℕ, zero, suc, ◌+◌, ◌*◌, ◌/◌, ◌%◌, ◌^◌, ◌≤◌, ◌<◌, ◌≡◌, refl, ap, sym, ◌∙◌, inl, inr, false, not,
  ◌||◌, Option, none, some, [], ◌∷◌, ◌++◌, arith, ◌==◌, ==_iff, ltb, eq→==, if◌then◌else◌, length,
  take, drop, take-take, Option-cases,
}
use dataman.Storage.{Bytes, pread}
use dataman.Storage.Windows.{length-pread}
use dataman.Index.Codec.{
  put_u32, put_u64, put_loop, get_u32, get_u64, get_u32-put_u32, get_u64-put_u64,
}
use dataman.Index.Crc.{index_crc, index_crc-lt}
use dataman.Index.Device.{read_full_at}
use dataman.Index.Node.{max_keys, node_header, zeros}
use dataman.Index.Pages.{if-some}
use dataman.Index.Header.{
  index_header_size, index_page_size, Root, slot_head, slot_bytes, read_slot, fields_of, first_slot,
  second_slot, fields_valid, newer_root, Heading, heading_of, read_header,
}

-- The page size that is computed for a key of at most 32 bytes has room for a full node, is a multiple
-- of 64, and is not cut off by its 16 bits.
pub index_page_size-lt :
    (keylen : ℕ)
    → keylen ≤ 32
    → (node_header + ((max_keys + 1) * 8 + max_keys * (keylen + 2 + 8)) ≤ index_page_size keylen)
      × (index_page_size keylen % 64 ≡ 0)
      × (index_page_size keylen < 2 ^ 16)
unfolding index_page_size
index_page_size-lt keylen h =
    round_up (node_header + (max_keys + 1) * 8 + max_keys * (keylen + 2 + 8)) _ (omega arith)
      (omega arith)
  where
    round_up :
        (size n : ℕ)
        → size ≡ n
        → size ≤ 1000
        → (n ≤ (size + 63) / 64 * 64 % 2 ^ 16)
          × ((size + 63) / 64 * 64 % 2 ^ 16 % 64 ≡ 0)
          × ((size + 63) / 64 * 64 % 2 ^ 16 < 2 ^ 16)
    round_up size n e h = (omega arith, omega arith, omega arith)

-- A root that a slot can hold: its numbers fit, it is one that `index_v2_publish_root` accepts, and its
-- checksum is not the 0 that `read_slot` refuses.
pub record SlotRoot (r : Root) : Type 0 where
  pub generation_fits : r.generation < 2 ^ 64
  pub offset_fits : r.offset < 2 ^ 64
  pub crc_fits : r.crc < 2 ^ 32
  pub some_generation : 0 < r.generation
  pub behind_header : index_header_size ≤ r.offset
  pub some_crc : 0 < index_crc (slot_head r)

pub length-slot_bytes : (r : Root) → length (slot_bytes r) ≡ 32
unfolding slot_bytes put_u64 put_loop put_u32
length-slot_bytes r = refl

-- `read_slot` reads the root that was put into the slot.
pub read_slot-slot_bytes : (r : Root) → SlotRoot r → read_slot (slot_bytes r) ≡ some r
unfolding read_slot slot_bytes put_u64 put_loop put_u32
read_slot-slot_bytes r f =
    let rest = put_u32 (index_crc (slot_head r)) ++ zeros 8 in
    let stored : get_u32 (slot_bytes r) 20 ≡ index_crc (slot_head r) =
      get_u32-put_u32 (slot_head r) (zeros 8) (index_crc (slot_head r))
        (index_crc-lt (slot_head r)) in
    let head : take 20 (slot_bytes r) ≡ slot_head r = refl in
    let generation : get_u64 (slot_bytes r) 0 ≡ r.generation =
      get_u64-put_u64 [] (put_u64 r.offset ++ (put_u32 r.crc ++ rest)) r.generation
        f.generation_fits in
    let offset : get_u64 (slot_bytes r) 8 ≡ r.offset =
      get_u64-put_u64 (put_u64 r.generation) (put_u32 r.crc ++ rest) r.offset f.offset_fits in
    let crc : get_u32 (slot_bytes r) 16 ≡ r.crc =
      get_u32-put_u32 (put_u64 r.generation ++ put_u64 r.offset) rest r.crc f.crc_fits in
    let ok_crc : (index_crc (slot_head r) == 0
          || not (index_crc (slot_head r) == index_crc (slot_head r)))
        ≡ false =
      accepted (index_crc (slot_head r)) f.some_crc in
    let ok_root : (r.generation == 0 || ltb r.offset index_header_size) ≡ false =
      in_use r.generation index_header_size r.offset f.some_generation f.behind_header in
    rw (read_slot, stored, head, ok_crc) (rw (generation, offset, crc, ok_root) refl)
  where
    accepted : (n : ℕ) → 0 < n → (n == 0 || not (n == n)) ≡ false
    accepted n h = ground arith

    in_use : (g n o : ℕ) → 0 < g → n ≤ o → (g == 0 || ltb o n) ≡ false
    in_use g n o h k = ground arith

window :
    (k size n : ℕ) (content : Bytes)
    → k + size ≤ n
    → take size (drop k (take n content)) ≡ take size (drop k content)
window zero size n content h = take-take size n content (omega arith)
window (suc k) size zero content h = absurd (omega arith)
window (suc k) size (suc n) [] h = refl
window (suc k) size (suc n) (c ∷ content) h = window k size n content (omega arith)

-- What the header says, from its three parts.
abbrev pub parse : Bytes → Bytes → Bytes → Option Heading
parse fields a b =
    if not (fields_valid 0 fields) then none else elim (newer_root (read_slot a) (read_slot b)) [
      | none ↦ none
      | some root ↦ heading_of fields root
    ]

abbrev pub heading_from : Option Bytes → Option Heading
heading_from none = none
heading_from (some header) = parse (fields_of header) (first_slot header) (second_slot header)

pub read_header-heading_from :
    (content : Bytes)
    → read_header content ≡ heading_from (read_full_at index_header_size 0 content)
unfolding read_header
read_header-heading_from content = elim (Option-cases (read_full_at index_header_size 0 content)) [
  | inl gone ↦ rw (read_header, gone) refl
  | inr (header, found) ↦ rw (read_header, found) refl
]

read_full-header :
    (content : Bytes)
    → index_header_size ≤ length content
    → read_full_at index_header_size 0 content ≡ some (pread content 0 128)
unfolding read_full_at
read_full-header content h =
    let full : length (pread content 0 128) ≡ 128 = omega (arith, length-pread content 0 128) in
    rw (eq→== (length (pread content 0 128)) 128 full) refl

pub read_header-parse :
    (content : Bytes)
    → index_header_size ≤ length content
    → read_header content ≡ parse (pread content 0 24) (pread content 32 32) (pread content 64 32)
read_header-parse content h =
    read_header-heading_from content
    ∙ ap heading_from (read_full-header content h)
    ∙ ap
        (λ (f : Bytes).
          parse f (first_slot (pread content 0 128)) (second_slot (pread content 0 128)))
        (take-take 24 128 content (omega arith))
    ∙ ap (λ (a : Bytes). parse (pread content 0 24) a (second_slot (pread content 0 128)))
        (window 32 32 128 content (omega arith))
    ∙ ap (λ (b : Bytes). parse (pread content 0 24) (pread content 32 32) b)
        (window 64 32 128 content (omega arith))

pub read_header-full :
    (content : Bytes) (h : Heading)
    → read_header content ≡ some h
    → index_header_size ≤ length content
unfolding read_full_at
read_header-full content h e = elim (Option-cases (read_full_at index_header_size 0 content)) [
  | inl gone ↦
      absurd (none-ne-some h (sym (read_header-heading_from content ∙ ap heading_from gone) ∙ e))
  | inr (header, found) ↦
      let (full, _) = if-some (length (pread content 0 128) == 128) _ _ found in
      omega (arith, length-pread content 0 128, (==_iff (length (pread content 0 128)) 128).0 full)
]

-- The header is read from the first 128 bytes.
pub read_header-same :
    (content content' : Bytes)
    → index_header_size ≤ length content
    → index_header_size ≤ length content'
    → pread content' 0 index_header_size ≡ pread content 0 index_header_size
    → read_header content' ≡ read_header content
read_header-same content content' full full' same =
    read_header-heading_from content'
    ∙ ap heading_from (read_full-header content' full')
    ∙ ap (λ (header : Bytes). heading_from (some header)) same
    ∙ sym (ap heading_from (read_full-header content full))
    ∙ sym (read_header-heading_from content)
