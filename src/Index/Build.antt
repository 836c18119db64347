-- ===== src/Index/Build.antt =====
-- Building an index in place in server/index_v2.c: `index_v2_build_insert` and `index_v2_build_finish`.
use dataman.Base.{
  ℕ, ◌+◌, ◌-◌, ◌*◌, ◌/◌, true, false, not, Option, none, some, [], ◌∷◌, leb, if◌then◌else◌, length,
  take,
}
use dataman.Storage.{Bytes}
use dataman.Index.Codec.{put_u64}
use dataman.Index.Device.{Device, write_full_at, sync}
use dataman.Index.Node.{Format, Pool, read_node, write_node, zeros}
use dataman.Index.Insert.{Inserted, insert_node}
use dataman.Index.Header.{publish_root, read_page_size}
use dataman.Index.Insertion.{entry_of}
use dataman.Index.Create.{build_root_offset, read_build_header}

-- The root above a root that was split, and its place in the header.
unfoldable pub build_root : Format → ℕ → Inserted → Pool → Option ℕ × Pool
unfolding write_node write_full_at put_u64
build_root fmt root ins pool = elim ins.split [
  | none ↦ (some root, pool)
  | some s ↦
      let (w, pool') = write_node fmt false (s.separator ∷ []) (ins.offset ∷ s.right ∷ []) 0 pool in
      elim w [
        | none ↦ (none, pool')
        | some w ↦
            let (good, d) = write_full_at (put_u64 w.offset) build_root_offset pool'.device in
            (if good then some w.offset else none, record pool' { device = d })
      ]
]

-- `index_v2_build_insert`; it answers with the root. The fuel bounds the depth of the tree.
unfoldable pub build_insert : ℕ → Bytes → ℕ → ℕ → Device → Option ℕ × Device
unfolding read_build_header read_page_size entry_of insert_node build_root
build_insert fuel key file_id record_offset d = elim (read_build_header d.content) [
  | none ↦ (none, d)
  | some h ↦ elim (read_page_size h.keylen d.content) [
    | none ↦ (none, d)
    | some size ↦
        let fmt : Format = record {
          keylen = h.keylen;
          file_count = h.file_count;
          page_size = size;
          in_place = true;
        } in
        let pool : Pool = record {
          device = d;
          next = (length d.content + size - 1) / size * size;
          free = [];
        } in
        let (ins, pool') =
          insert_node fuel fmt (entry_of (take h.keylen key) file_id record_offset) h.root pool in
        if leb h.file_count file_id then (none, d) else elim ins [
          | none ↦ (none, pool'.device)
          | some ins ↦ let (root, pool'') = build_root fmt h.root ins pool' in (root, pool''.device)
        ]
  ]
]

-- The flags and the root of the building are cleared.
abbrev pub cleared_offset : ℕ
cleared_offset = 22

-- `index_v2_build_finish`; it answers with the root.
unfoldable pub build_finish : Device → Option ℕ × Device
unfolding read_build_header read_node sync publish_root write_full_at
build_finish d = elim (read_build_header d.content) [
  | none ↦ (none, d)
  | some h ↦ elim (read_node d.content h.root) [
    | none ↦ (none, d)
    | some raw ↦
        let (synced, d1) = sync d in
        let (published, d2) =
          publish_root (record { offset = h.root; crc = raw.crc; generation = 1 }) d1 in
        let (cleared, d3) = write_full_at (zeros 10) cleared_offset d2 in
        let (settled, d4) = sync d3 in
        if not synced
        then (none, d1)
        else if not published
        then (none, d2)
        else if not cleared
        then (none, d3)
        else if settled
        then (some h.root, d4)
        else (none, d4)
  ]
]
