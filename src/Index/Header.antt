-- ===== src/Index/Header.antt =====
-- The header of an index file in server/index_v2.c: 24 bytes of fields, the root while building, and two
-- slots that name a root.
use dataman.Base.{
  ℕ, ◌+◌, ◌*◌, ◌/◌, ◌%◌, ◌^◌, Bool, false, not, ◌&&◌, ◌||◌, Option, none, some, [], ◌∷◌, ◌++◌, ◌==◌,
  ltb, if◌then◌else◌, take, drop,
}
use dataman.Storage.{Bytes}
use dataman.Undo.Names.{same_name}
use dataman.Index.Codec.{put_u16, put_u32, put_u64, get_u16, get_u32, get_u64}
use dataman.Index.Crc.{index_crc}
use dataman.Index.Device.{Device, write_full_at, sync, read_full_at}
use dataman.Index.Node.{max_keys, node_header, zeros}

abbrev pub index_header_size : ℕ
index_header_size = 128

abbrev pub index_version : ℕ
index_version = 2

-- "DMIDXV2"
abbrev pub index_magic : Bytes
index_magic = 0x44 ∷ 0x4d ∷ 0x49 ∷ 0x44 ∷ 0x58 ∷ 0x56 ∷ 0x32 ∷ []

abbrev pub flag_building : ℕ
flag_building = 1

abbrev pub legacy_page_size : ℕ
legacy_page_size = 1024

-- `index_v2_page_size`: room for twelve keys, rounded up to a multiple of 64.
unfoldable pub index_page_size : ℕ → ℕ
index_page_size keylen =
    let size = node_header + (max_keys + 1) * 8 + max_keys * (keylen + 2 + 8) in
    ((size + 63) / 64 * 64) % 2 ^ 16

-- The header that `write_header` fills in.
unfoldable pub header_bytes : ℕ → ℕ → ℕ → ℕ → ℕ → Bytes
unfolding put_u16 put_u32
header_bytes keylen file_count names_length page_size flags =
    index_magic
    ++ ((0 ∷ [])
        ++ (put_u16 index_version
            ++ (put_u16 index_header_size
                ++ (put_u16 keylen
                    ++ (put_u16 file_count
                        ++ (put_u32 names_length
                            ++ (put_u16 page_size ++ (put_u16 flags ++ zeros 104))))))))

-- `write_header`
unfoldable pub write_header : ℕ → ℕ → ℕ → ℕ → ℕ → Device → Bool × Device
unfolding header_bytes write_full_at
write_header keylen file_count names_length page_size flags d =
    write_full_at (header_bytes keylen file_count names_length page_size flags) 0 d

-- `index_v2_init_header`
unfoldable pub init_header : ℕ → ℕ → Device → Bool × Device
unfolding write_header index_page_size
init_header keylen file_count d = write_header keylen file_count 0 (index_page_size keylen) 0 d

-- A root that a slot names.
pub record Root : Type 0 where
  pub offset : ℕ
  pub crc : ℕ
  pub generation : ℕ

abbrev pub slot_head : Root → Bytes
slot_head r = put_u64 r.generation ++ (put_u64 r.offset ++ put_u32 r.crc)

-- The slot that `index_v2_publish_root` fills in.
unfoldable pub slot_bytes : Root → Bytes
slot_bytes r = slot_head r ++ (put_u32 (index_crc (slot_head r)) ++ zeros 8)

-- An odd generation goes to the first slot, an even one to the second.
abbrev pub slot_offset : ℕ → ℕ
slot_offset generation = if generation % 2 == 1 then 32 else 64

-- `index_v2_publish_root`
unfoldable pub publish_root : Root → Device → Bool × Device
unfolding slot_bytes write_full_at sync
publish_root r d =
    let (good, d') = write_full_at (slot_bytes r) (slot_offset r.generation) d in
    if ltb r.offset index_header_size || r.generation == 0
    then (false, d)
    else if good
    then sync d'
    else (false, d')

-- `read_slot`
unfoldable pub read_slot : Bytes → Option Root
unfolding get_u32 get_u64
read_slot slot =
    let stored = get_u32 slot 20 in
    if stored == 0 || not (stored == index_crc (take 20 slot))
    then none
    else if get_u64 slot 0 == 0 || ltb (get_u64 slot 8) index_header_size
    then none
    else some
        (record { offset = get_u64 slot 8; crc = get_u32 slot 16; generation = get_u64 slot 0 })

-- The fields before the slots, and the slots.
abbrev pub fields_of : Bytes → Bytes
fields_of header = take 24 header

abbrev pub first_slot : Bytes → Bytes
first_slot header = take 32 (drop 32 header)

abbrev pub second_slot : Bytes → Bytes
second_slot header = take 32 (drop 64 header)

-- The checks of the magic, the version, the header's size and the flags.
unfoldable pub fields_valid : ℕ → Bytes → Bool
unfolding get_u16
fields_valid flags fields =
    same_name (take 7 fields) index_magic
    && get_u16 fields 8 == index_version
    && get_u16 fields 10 == index_header_size
    && get_u16 fields 22 == flags

-- The valid slot of the higher generation, the second one if they are equal.
abbrev pub newer_root : Option Root → Option Root → Option Root
newer_root none b = b
newer_root (some a) none = some a
newer_root (some a) (some b) = if ltb b.generation a.generation then some a else some b

pub record Heading : Type 0 where
  pub keylen : ℕ
  pub file_count : ℕ
  pub root : Root

abbrev pub heading_of : Bytes → Root → Option Heading
heading_of fields root =
    if ltb 0 (get_u16 fields 12) && ltb 0 (get_u16 fields 14)
    then some (record { keylen = get_u16 fields 12; file_count = get_u16 fields 14; root = root })
    else none

-- `index_v2_read_header`
unfoldable pub read_header : Bytes → Option Heading
unfolding read_full_at fields_valid read_slot
read_header content = elim (read_full_at index_header_size 0 content) [
  | none ↦ none
  | some header ↦
      if not (fields_valid 0 (fields_of header))
      then none
      else elim (newer_root (read_slot (first_slot header)) (read_slot (second_slot header))) [
        | none ↦ none
        | some root ↦ heading_of (fields_of header) root
      ]
]

-- `index_v2_read_page_size`
unfoldable pub read_page_size : ℕ → Bytes → Option ℕ
unfolding read_full_at get_u16 index_page_size
read_page_size keylen content = elim (read_full_at index_header_size 0 content) [
  | none ↦ none
  | some header ↦
      let found = get_u16 header 20 in
      let stored = if found == 0 then legacy_page_size else found in
      if ltb stored (index_page_size keylen) || not (stored % 64 == 0) then none else some stored
]
