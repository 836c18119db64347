-- ===== src/Index/Node.antt =====
-- Nodes of the tree in server/index_v2.c, on disk and in memory.
use dataman.Base.{
  ℕ, zero, suc, ◌+◌, ◌-◌, ◌*◌, Bool, true, false, not, ◌&&◌, ◌||◌, Option, none, some, List, [],
  ◌∷◌, ◌++◌, ◌==◌, ltb, leb, if◌then◌else◌, length, take, drop, get_or,
}
use dataman.Storage.{Bytes, int64_max}
use dataman.Undo.Names.{same_name}
use dataman.Index.Codec.{put_u32, put_u64, get_u32, get_u64}
use dataman.Index.Crc.{index_crc}
use dataman.Index.Device.{Device, write_full_at, read_full_at}

abbrev pub max_keys : ℕ
max_keys = 12

abbrev pub node_header : ℕ
node_header = 16

-- "DMN2"
abbrev pub node_magic : Bytes
node_magic = 0x44 ∷ 0x4d ∷ 0x4e ∷ 0x32 ∷ []

-- The fields of `V2_INSERT_CONTEXT` that stay: an entry is the key, two bytes for the file's number and
-- eight for the record's offset.
pub record Format : Type 0 where
  pub keylen : ℕ
  pub file_count : ℕ
  pub page_size : ℕ
  pub in_place : Bool

abbrev pub entry_size : Format → ℕ
entry_size fmt = fmt.keylen + 2 + 8

-- A node in memory, as `v2_load_node` gives it.
pub record Node : Type 0 where
  pub leaf : Bool
  pub entries : List Bytes
  pub children : List ℕ

-- What changes: the file, and where new pages come from. `free` has the last free page first.
pub record Pool : Type 0 where
  pub device : Device
  pub next : ℕ
  pub free : List ℕ

abbrev pub flat : List Bytes → Bytes
flat [] = []
flat (e ∷ entries) = e ++ flat entries

abbrev pub child_bytes : List ℕ → Bytes
child_bytes [] = []
child_bytes (c ∷ children) = put_u64 c ++ child_bytes children

abbrev pub zeros : ℕ → Bytes
zeros zero = []
zeros (suc n) = 0 ∷ zeros n

-- The payload's length, from the number of keys.
unfoldable pub payload_size : Format → Bool → ℕ → ℕ
payload_size fmt leaf count =
    if leaf then count * entry_size fmt else (count + 1) * 8 + count * entry_size fmt

-- The payload: the children, and the entries.
unfoldable pub payload_of : Bool → List Bytes → List ℕ → Bytes
payload_of leaf entries children =
    if leaf then flat entries else child_bytes children ++ flat entries

-- The first twelve bytes: magic, flags, the number of keys, two zeros and the payload's length.
unfoldable pub node_head : Format → Bool → ℕ → Bytes
unfolding put_u32 payload_size
node_head fmt leaf count =
    node_magic ++ ((if leaf then 1 else 0) ∷ count ∷ 0 ∷ 0 ∷ put_u32 (payload_size fmt leaf count))

-- A page: the head, the checksum, the payload and zeros.
unfoldable pub node_page : Format → Bool → List Bytes → List ℕ → Bytes
unfolding node_head payload_of put_u32
node_page fmt leaf entries children =
    let head = node_head fmt leaf (length entries) in
    let payload = payload_of leaf entries children in
    head
    ++ (put_u32 (index_crc (head ++ payload))
        ++ (payload
            ++ zeros (fmt.page_size - (node_header + payload_size fmt leaf (length entries)))))

-- The page that a node goes to: its own when pages are rewritten in place, a free one, or a new one.
unfoldable pub take_page : Format → ℕ → Pool → ℕ × Pool
take_page fmt old pool = if fmt.in_place && not (old == 0) then (old, pool) else elim pool.free [
  | [] ↦ (pool.next, record pool { next = pool.next + fmt.page_size })
  | page ∷ free ↦ (page, record pool { free = free })
]

-- What `v2_write_node` answers: the page and the checksum.
pub record Written : Type 0 where
  pub offset : ℕ
  pub crc : ℕ

abbrev pub written_if : Bool → Written → Option Written
written_if true w = some w
written_if false w = none

-- `v2_write_node`
unfoldable pub write_node : Format → Bool → List Bytes → List ℕ → ℕ → Pool → Option Written × Pool
unfolding node_page take_page payload_of node_head
write_node fmt leaf entries children old pool =
    let (page, pool') = take_page fmt old pool in
    let (good, device) = write_full_at (node_page fmt leaf entries children) page pool'.device in
    let crc = index_crc (node_head fmt leaf (length entries) ++ payload_of leaf entries children) in
    if ltb max_keys (length entries)
    then (none, pool)
    else if ltb fmt.page_size (node_header + payload_size fmt leaf (length entries))
    then (none, pool)
    else (written_if good (record { offset = page; crc = crc }), record pool' { device = device })

-- `INDEX_V2_NODE`
pub record RawNode : Type 0 where
  pub flags : ℕ
  pub key_count : ℕ
  pub payload_length : ℕ
  pub crc : ℕ
  pub payload : Bytes

-- The header's fields, the magic and the limits being checked.
unfoldable pub raw_valid : Bytes → Bool
unfolding get_u32
raw_valid header =
    same_name (take 4 header) node_magic
    && leb (get_or header 4 0) 1
    && leb (get_u32 header 8) (1024 * 1024)

unfoldable pub raw_node : Bytes → Bytes → Option RawNode
unfolding get_u32
raw_node header payload =
    if index_crc (take 12 header ++ payload) == get_u32 header 12
    then some (record {
      flags = get_or header 4 0;
      key_count = get_or header 5 0;
      payload_length = get_u32 header 8;
      crc = get_u32 header 12;
      payload = payload;
    })
    else none

-- `index_v2_read_node`
unfoldable pub read_node : Bytes → ℕ → Option RawNode
unfolding read_full_at raw_valid raw_node get_u32
read_node content offset =
    if ltb int64_max offset then none else elim (read_full_at node_header offset content) [
      | none ↦ none
      | some header ↦
          if not (raw_valid header)
          then none
          else elim (read_full_at (get_u32 header 8) (offset + node_header) content) [
            | none ↦ none
            | some payload ↦ raw_node header payload
          ]
    ]

unfoldable pub split_entries : ℕ → ℕ → Bytes → List Bytes
split_entries size zero bytes = []
split_entries size (suc n) bytes = take size bytes ∷ split_entries size n (drop size bytes)

unfoldable pub split_children : ℕ → Bytes → List ℕ
unfolding get_u64
split_children zero bytes = []
split_children (suc n) bytes = get_u64 bytes 0 ∷ split_children n (drop 8 bytes)

-- `v2_load_node` from the node that was read.
unfoldable pub decode_node : Format → RawNode → Option Node
unfolding payload_size split_entries split_children
decode_node fmt raw =
    let leaf = raw.flags == 1 in
    let count = raw.key_count in
    if ltb max_keys count
      || (not leaf && count == 0)
      || not (raw.payload_length == payload_size fmt leaf count)
    then none
    else if leaf
    then some (record {
      leaf = true;
      entries = split_entries (entry_size fmt) count raw.payload;
      children = [];
    })
    else some (record {
      leaf = false;
      entries = split_entries (entry_size fmt) count (drop ((count + 1) * 8) raw.payload);
      children = split_children (count + 1) raw.payload;
    })

-- `v2_load_node`
unfoldable pub load_node : Format → Bytes → ℕ → Option Node
unfolding read_node decode_node
load_node fmt content offset = elim (read_node content offset) [
  | none ↦ none
  | some raw ↦ decode_node fmt raw
]
