-- ===== src/Index/Insertion.antt =====
-- `index_v2_insert` of server/index_v2.c: the free pages, the insertion, and the new root.
use dataman.Base.{
  ℕ, zero, suc, ◌+◌, ◌-◌, ◌*◌, ◌/◌, ◌%◌, ◌^◌, Bool, true, false, not, ◌&&◌, ◌||◌, Option, none,
  some, List, [], ◌∷◌, ◌++◌, ◌==◌, ltb, leb, if◌then◌else◌, length, take,
}
use dataman.Storage.{Bytes}
use dataman.Index.Codec.{put_u16, put_u64, get_u32}
use dataman.Index.Device.{Device, sync, read_full_at}
use dataman.Index.Node.{
  max_keys, Format, Pool, RawNode, payload_size, read_node, split_children, Written, write_node,
}
use dataman.Index.Insert.{Inserted, insert_node}
use dataman.Index.Header.{
  index_header_size, Root, first_slot, second_slot, read_slot, read_header, read_page_size,
  publish_root,
}

-- The loop over the children of a page in use.
abbrev pub mark_children : (ℕ → List ℕ → Bool × List ℕ) → List ℕ → List ℕ → Bool × List ℕ
mark_children mark [] live = (true, live)
mark_children mark (c ∷ children) live =
    let (good, live') = mark c live in
    let rest = mark_children mark children live' in if good then rest else (false, live')

abbrev pub is_marked : ℕ → List ℕ → Bool
is_marked page [] = false
is_marked page (p ∷ live) = page == p || is_marked page live

abbrev pub children_of : RawNode → List ℕ
children_of raw = split_children (raw.key_count + 1) raw.payload

-- `v2_mark_live_pages`; `live` has the numbers of the pages that are marked. Every call marks a page
-- more before it calls itself, so fuel for the pages is enough.
unfoldable pub mark_live_pages : ℕ → Format → Bytes → ℕ → ℕ → ℕ → List ℕ → Bool × List ℕ
unfolding read_node payload_size split_children
mark_live_pages zero fmt content first_page page_count offset live = (false, live)
mark_live_pages (suc fuel) fmt content first_page page_count offset live =
    let page = (offset - first_page) / fmt.page_size in
    if ltb offset first_page || not ((offset - first_page) % fmt.page_size == 0)
    then (false, live)
    else if leb page_count page || is_marked page live
    then (ltb page page_count, live)
    else elim (read_node content offset) [
      | none ↦ (false, page ∷ live)
      | some raw ↦
          let leaf = raw.flags == 1 in
          let below =
            mark_children (mark_live_pages fuel fmt content first_page page_count) (children_of raw)
              (page ∷ live) in
          if ltb max_keys raw.key_count
            || not (raw.payload_length == payload_size fmt leaf raw.key_count)
            || (not leaf && raw.key_count == 0)
          then (false, page ∷ live)
          else if leaf
          then (true, page ∷ live)
          else below
    ]

-- The pages that are not marked, the last one first.
abbrev pub unmarked_pages : ℕ → ℕ → List ℕ → ℕ → List ℕ
unmarked_pages first_page page_size live zero = []
unmarked_pages first_page page_size live (suc n) =
    let rest = unmarked_pages first_page page_size live n in
    if is_marked n live then rest else (first_page + n * page_size) ∷ rest

-- The pages below a root that a slot names, if it names one.
abbrev pub mark_slot : Format → Bytes → ℕ → ℕ → Option Root → List ℕ → Bool × List ℕ
mark_slot fmt content first_page page_count none live = (true, live)
mark_slot fmt content first_page page_count (some r) live =
    mark_live_pages (suc page_count) fmt content first_page page_count r.offset live

-- `v2_collect_free_pages`
unfoldable pub collect_free_pages : Format → Bytes → Option (List ℕ)
unfolding read_full_at mark_live_pages read_slot get_u32
collect_free_pages fmt content = elim (read_full_at index_header_size 0 content) [
  | none ↦ none
  | some header ↦
      let size = fmt.page_size in
      let first_page = (index_header_size + get_u32 header 16 + size - 1) / size * size in
      let page_count = (length content - first_page) / size in
      let (good, live) =
        mark_slot fmt content first_page page_count (read_slot (first_slot header)) [] in
      let (good', live') =
        mark_slot fmt content first_page page_count (read_slot (second_slot header)) live in
      if ltb (length content) first_page || not ((length content - first_page) % size == 0)
      then none
      else if good && good'
      then some (unmarked_pages first_page size live' page_count)
      else none
]

-- The entry: the key, the file's number and the record's offset.
unfoldable pub entry_of : Bytes → ℕ → ℕ → Bytes
unfolding put_u16 put_u64
entry_of key file_id record_offset = key ++ (put_u16 file_id ++ put_u64 record_offset)

-- The root after the insertion: a new one where the old one was split.
unfoldable pub new_root : Format → Inserted → Pool → Option Written × Pool
unfolding write_node
new_root fmt ins pool = elim ins.split [
  | none ↦ (some (record { offset = ins.offset; crc = ins.crc }), pool)
  | some s ↦ write_node fmt false (s.separator ∷ []) (ins.offset ∷ s.right ∷ []) ins.offset pool
]

-- `INDEX_V2_CURSOR`, and the root.
pub record Placement : Type 0 where
  pub root : ℕ
  pub generation : ℕ
  pub node_offset : ℕ
  pub entry_index : ℕ

-- From the root's node on: the sync and the slot.
unfoldable pub publish_insert : Inserted → ℕ → Written → Pool → Option Placement × Pool
unfolding sync publish_root
publish_insert ins generation w pool =
    let (synced, d) = sync pool.device in
    let next = (generation + 1) % 2 ^ 64 in
    let (published, d') =
      publish_root (record { offset = w.offset; crc = w.crc; generation = next }) d in
    if not synced
    then (none, record pool { device = d })
    else if not published
    then (none, record pool { device = d' })
    else (
      some (record {
        root = w.offset;
        generation = next;
        node_offset = ins.leaf_offset;
        entry_index = ins.leaf_index;
      }),
      record pool { device = d' },
    )

-- The part of `index_v2_insert` that writes; the fuel bounds the depth of the tree.
unfoldable pub insert_entry : ℕ → Format → Bytes → Root → Pool → Option Placement × Pool
unfolding insert_node new_root publish_insert
insert_entry fuel fmt entry root pool =
    let (ins, pool') = insert_node fuel fmt entry root.offset pool in
    elim ins [
      | none ↦ (none, pool')
      | some ins ↦
          let (w, pool'') = new_root fmt ins pool' in
          elim w [ none ↦ (none, pool'') | some w ↦ publish_insert ins root.generation w pool'' ]
    ]

-- `index_v2_insert`; the key has the header's length.
unfoldable pub index_insert : ℕ → Bytes → ℕ → ℕ → Device → Option Placement × Device
unfolding read_header read_page_size collect_free_pages entry_of insert_entry
index_insert fuel key file_id record_offset d = elim (read_header d.content) [
  | none ↦ (none, d)
  | some h ↦ elim (read_page_size h.keylen d.content) [
    | none ↦ (none, d)
    | some size ↦
        let fmt : Format = record {
          keylen = h.keylen;
          file_count = h.file_count;
          page_size = size;
          in_place = false;
        } in
        elim (collect_free_pages fmt d.content) [
          | none ↦ (none, d)
          | some free ↦
              let pool : Pool = record {
                device = d;
                next = (length d.content + size - 1) / size * size;
                free = free;
              } in
              let (placed, pool') =
                insert_entry fuel fmt (entry_of (take h.keylen key) file_id record_offset) h.root
                  pool in
              if ltb 32 h.keylen || leb h.file_count file_id
              then (none, d)
              else (placed, pool'.device)
        ]
  ]
]
