-- ===== src/Index/Create.antt =====
-- Creation of an index in server/index_v2.c: `v2_create_empty`, `index_v2_create_empty` and
-- `index_v2_build_begin`, and the names of the files in the header.
use dataman.Base.{
  ℕ, zero, suc, ◌+◌, ◌-◌, ◌*◌, ◌/◌, ◌^◌, Bool, not, ◌&&◌, ◌||◌, Option, none, some, List, [], ◌∷◌,
  ◌++◌, ◌==◌, ltb, if◌then◌else◌, length,
}
use dataman.Storage.{Bytes}
use dataman.Index.Codec.{put_u32, put_u64, get_u16, get_u32, get_u64}
use dataman.Index.Crc.{index_crc}
use dataman.Index.Device.{Device, write_full_at, sync, read_full_at}
use dataman.Index.Node.{node_header, node_magic, zeros}
use dataman.Index.Header.{
  index_header_size, flag_building, index_page_size, write_header, publish_root, fields_of,
  fields_valid,
}

-- The lengths of the names with their closing NULs, `none` for a null pointer or past 32 bits.
unfoldable pub names_size : List (Option Bytes) → ℕ → Option ℕ
names_size [] size = some size
names_size (none ∷ names) size = none
names_size (some name ∷ names) size =
    let rest = names_size names (size + (length name + 1)) in
    if ltb (2 ^ 32 - 1 - size) (length name + 1) then none else rest

-- The loop that writes the names, with where it ends.
unfoldable pub write_names : List (Option Bytes) → ℕ → Device → Option ℕ × Device
unfolding write_full_at
write_names [] offset d = (some offset, d)
write_names (none ∷ names) offset d = (none, d)
write_names (some name ∷ names) offset d =
    let (good, d') = write_full_at (name ++ (0 ∷ [])) offset d in
    let rest = write_names names (offset + (length name + 1)) d' in
    if good then rest else (none, d')

-- The first page: a leaf without entries.
abbrev pub empty_head : Bytes
empty_head = node_magic ++ (1 ∷ zeros 7)

unfoldable pub empty_page : ℕ → Bytes
unfolding put_u32
empty_page page_size =
    empty_head ++ (put_u32 (index_crc empty_head) ++ zeros (page_size - node_header))

-- The root of a file that is being built, where `write_full_at` puts it.
abbrev pub build_root_offset : ℕ
build_root_offset = 24

-- From the first page on: it is synced, and the root is named in the header or in a slot.
unfoldable pub create_root : Bool → ℕ → ℕ → Device → Option ℕ × Device
unfolding write_full_at sync publish_root empty_page put_u64
create_root building page_size offset d =
    let (good, d1) = write_full_at (empty_page page_size) offset d in
    let (synced, d2) = sync d1 in
    let (named, d3) = write_full_at (put_u64 offset) build_root_offset d2 in
    let (settled, d4) = sync d3 in
    let (published, d5) =
      publish_root (record { offset = offset; crc = index_crc empty_head; generation = 1 }) d2 in
    if not good
    then (none, d1)
    else if not synced
    then (none, d2)
    else if building
    then if not named then (none, d3) else if settled then (some offset, d4) else (none, d4)
    else if published
    then (some offset, d5)
    else (none, d5)

-- `v2_create_empty`; it answers with the root.
unfoldable pub create_empty : ℕ → List (Option Bytes) → Bool → Device → Option ℕ × Device
unfolding names_size write_header write_names create_root index_page_size
create_empty keylen names building d =
    let page_size = index_page_size keylen in
    if keylen == 0 || ltb 32 keylen || length names == 0
    then (none, d)
    else elim (names_size names 0) [
      | none ↦ (none, d)
      | some size ↦
          let (good, d1) =
            write_header keylen (length names) size page_size
              (if building then flag_building else 0) d in
          let (end, d2) = write_names names index_header_size d1 in
          if not good then (none, d1) else elim end [
            | none ↦ (none, d2)
            | some offset ↦
                create_root building page_size ((offset + page_size - 1) / page_size * page_size) d2
          ]
    ]

-- The header of a file that is being built.
pub record BuildHeading : Type 0 where
  pub keylen : ℕ
  pub file_count : ℕ
  pub root : ℕ

-- `v2_read_build_header`
unfoldable pub read_build_header : Bytes → Option BuildHeading
unfolding read_full_at fields_valid get_u16 get_u64
read_build_header content = elim (read_full_at index_header_size 0 content) [
  | none ↦ none
  | some header ↦
      let keylen = get_u16 header 12 in
      let file_count = get_u16 header 14 in
      let root = get_u64 header build_root_offset in
      if not (fields_valid flag_building (fields_of header))
      then none
      else if ltb 0 keylen
          && not (ltb 32 keylen)
          && ltb 0 file_count
          && not (ltb root index_header_size)
      then some (record { keylen = keylen; file_count = file_count; root = root })
      else none
]

-- A name up to its NUL, and what is behind it.
abbrev pub next_name : Bytes → Option (Bytes × Bytes)
next_name [] = none
next_name (c ∷ bytes) =
    let rest = next_name bytes in
    if c == 0
    then some ([], bytes)
    else elim rest [ none ↦ none | some (name, behind) ↦ some (c ∷ name, behind) ]

-- The loop of `index_v2_read_file_names`: as many names as files, and nothing behind them.
unfoldable pub split_names : ℕ → Bytes → Option (List Bytes)
split_names zero [] = some []
split_names zero (c ∷ bytes) = none
split_names (suc count) bytes = elim (next_name bytes) [
  | none ↦ none
  | some (name, behind) ↦ elim (split_names count behind) [
    | none ↦ none
    | some names ↦ some (name ∷ names)
  ]
]

-- `index_v2_read_file_names`
unfoldable pub read_file_names : ℕ → Bytes → Option (List Bytes)
unfolding read_full_at get_u32 split_names
read_file_names file_count content = elim (read_full_at index_header_size 0 content) [
  | none ↦ none
  | some header ↦
      if ltb (get_u32 header 16) file_count || ltb (1024 * 1024) (get_u32 header 16)
      then none
      else elim (read_full_at (get_u32 header 16) index_header_size content) [
        | none ↦ none
        | some names ↦ split_names file_count names
      ]
]
