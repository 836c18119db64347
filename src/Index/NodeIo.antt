-- ===== src/Index/NodeIo.antt =====
-- A node that `v2_write_node` of server/index_v2.c has put down is the node that `v2_load_node` gives.
use dataman.Base.{
  ℕ, suc, ◌+◌, ◌*◌, ◌^◌, ◌≤◌, ◌<◌, ◌≡◌, refl, ap, sym, ◌∙◌, Bool, true, false, ◌&&◌, List, [], ◌∷◌,
  ◌++◌, arith, leb, if◌then◌else◌, length, take, drop, get_or, All, append_assoc, length-append,
  take-append_eq, drop-append_eq, le→leb,
}
use dataman.Storage.{Bytes}
use dataman.Index.Codec.{
  put_u32, put_u64, put_loop, get_u32, get_u64, get_u32-put_u32, get_u64-put_u64,
}
use dataman.Index.Crc.{index_crc, index_crc-lt}
use dataman.Index.Node.{
  max_keys, node_header, node_magic, Format, entry_size, flat, child_bytes, payload_size,
  payload_of, node_head, raw_valid, split_entries, split_children,
}

-- A node that fits its page.
pub record Fits (fmt : Format) (leaf : Bool) (entries : List Bytes) (children : List ℕ)
    : Type 0 where
  pub key_small : fmt.keylen ≤ 32
  pub few : length entries ≤ max_keys
  pub sizes : All (λ (e : Bytes). length e ≡ entry_size fmt) entries
  pub offsets : All (λ (c : ℕ). c < 2 ^ 64) children
  pub shape :
      if leaf
      then (children ≡ [])
      else ((length children ≡ suc (length entries)) × (0 < length entries))
  pub in_page : node_header + payload_size fmt leaf (length entries) ≤ fmt.page_size

length-flat :
    (n : ℕ) (es : List Bytes)
    → All (λ (e : Bytes). length e ≡ n) es
    → length (flat es) ≡ length es * n
length-flat n [] all = grind arith
length-flat n (e ∷ es) all = grind (arith, length-append e (flat es), length-flat n es all.1, all.0)

pub length-child_bytes : (cs : List ℕ) → length (child_bytes cs) ≡ length cs * 8
unfolding put_u64 put_loop
length-child_bytes [] = omega arith
length-child_bytes (c ∷ cs) = omega (arith, length-child_bytes cs)

pub split_entries-flat :
    (n : ℕ) (es : List Bytes) (rest : Bytes)
    → All (λ (e : Bytes). length e ≡ n) es
    → split_entries n (length es) (flat es ++ rest) ≡ es
unfolding split_entries
split_entries-flat n [] rest all = refl
split_entries-flat n (e ∷ es) rest all =
    let whole : flat (e ∷ es) ++ rest ≡ e ++ (flat es ++ rest) = append_assoc e (flat es) rest in
    let first : take n (flat (e ∷ es) ++ rest) ≡ e =
      ap (take n) whole ∙ take-append_eq n e (flat es ++ rest) (sym all.0) in
    let behind : drop n (flat (e ∷ es) ++ rest) ≡ flat es ++ rest =
      ap (drop n) whole ∙ drop-append_eq n e (flat es ++ rest) (sym all.0) in
    rw (first, behind) (ap (◌∷◌ e) (split_entries-flat n es rest all.1))

pub split_children-child_bytes :
    (cs : List ℕ) (rest : Bytes)
    → All (λ (c : ℕ). c < 2 ^ 64) cs
    → split_children (length cs) (child_bytes cs ++ rest) ≡ cs
unfolding split_children put_u64 put_loop
split_children-child_bytes [] rest all = refl
split_children-child_bytes (c ∷ cs) rest all =
    let whole : child_bytes (c ∷ cs) ++ rest ≡ put_u64 c ++ (child_bytes cs ++ rest) =
      append_assoc (put_u64 c) (child_bytes cs) rest in
    let first : get_u64 (child_bytes (c ∷ cs) ++ rest) 0 ≡ c =
      ap (λ (b : Bytes). get_u64 b 0) whole ∙ get_u64-put_u64 [] (child_bytes cs ++ rest) c all.0 in
    let behind : drop 8 (child_bytes (c ∷ cs) ++ rest) ≡ child_bytes cs ++ rest =
      ap (drop 8) whole
      ∙ drop-append_eq 8 (put_u64 c) (child_bytes cs ++ rest) (sym (length-put_u64 c)) in
    rw (first, behind) (ap (◌∷◌ c) (split_children-child_bytes cs rest all.1))
  where
    length-put_u64 : (c : ℕ) → length (put_u64 c) ≡ 8
    length-put_u64 c = refl

pub length-payload :
    (fmt : Format) (leaf : Bool) (entries : List Bytes) (children : List ℕ)
    → Fits fmt leaf entries children
    → length (payload_of leaf entries children) ≡ payload_size fmt leaf (length entries)
unfolding payload_of payload_size
length-payload fmt true entries children f = length-flat (entry_size fmt) entries f.sizes
length-payload fmt false entries children f = omega (
  arith,
  length-append (child_bytes children) (flat entries),
  length-child_bytes children,
  length-flat (entry_size fmt) entries f.sizes,
  f.shape,
)

-- The first sixteen bytes of a page.
abbrev pub header_of : Format → Bool → List Bytes → List ℕ → Bytes
header_of fmt leaf entries children =
    node_head fmt leaf (length entries)
    ++ put_u32 (index_crc (node_head fmt leaf (length entries) ++ payload_of leaf entries children))

-- What the header says.
pub record HeaderSays (fmt : Format) (leaf : Bool) (entries : List Bytes) (children : List ℕ)
    : Type 0 where
  pub valid : raw_valid (header_of fmt leaf entries children) ≡ true
  pub flags : get_or (header_of fmt leaf entries children) 4 0 ≡ (if leaf then 1 else 0)
  pub count : get_or (header_of fmt leaf entries children) 5 0 ≡ length entries
  pub size :
      get_u32 (header_of fmt leaf entries children) 8 ≡ payload_size fmt leaf (length entries)
  pub head : take 12 (header_of fmt leaf entries children) ≡ node_head fmt leaf (length entries)
  pub crc :
      get_u32 (header_of fmt leaf entries children) 12
      ≡ index_crc (node_head fmt leaf (length entries) ++ payload_of leaf entries children)

times_small : (n s : ℕ) → n ≤ 12 → s ≤ 42 → n * s ≤ 504
times_small n s h k = grind arith

pub small_payload :
    (fmt : Format) (leaf : Bool) (n : ℕ) → fmt.keylen ≤ 32 → n ≤ 12 → payload_size fmt leaf n ≤ 1024
unfolding payload_size
small_payload fmt true n h k = omega (arith, times_small n (entry_size fmt) k (omega arith))
small_payload fmt false n h k = omega (arith, times_small n (entry_size fmt) k (omega arith))

pub header-HeaderSays :
    (fmt : Format) (leaf : Bool) (entries : List Bytes) (children : List ℕ)
    → payload_size fmt leaf (length entries) ≤ 1024
    → HeaderSays fmt leaf entries children
unfolding raw_valid node_head put_u32 get_u32
header-HeaderSays fmt leaf entries children small =
    let payload = payload_of leaf entries children in
    let head = node_head fmt leaf (length entries) in
    let first_eight = node_magic ++ ((if leaf then 1 else 0) ∷ length entries ∷ 0 ∷ 0 ∷ []) in
    let size_says : get_u32 (header_of fmt leaf entries children) 8
        ≡ payload_size fmt leaf (length entries) =
      get_u32-put_u32 first_eight (put_u32 (index_crc (head ++ payload)))
        (payload_size fmt leaf (length entries)) (omega arith) in
    record {
      valid = header_valid leaf _ (omega (arith, size_says));
      flags = refl;
      count = refl;
      size = size_says;
      head = refl;
      crc = get_u32-put_u32 head [] (index_crc (head ++ payload)) (index_crc-lt (head ++ payload));
    }
  where
    header_valid :
        (leaf : Bool) (n : ℕ)
        → n ≤ 1024 * 1024
        → (leb (if leaf then 1 else 0) 1 && leb n (1024 * 1024)) ≡ true
    header_valid true n h = le→leb n (1024 * 1024) h
    header_valid false n h = le→leb n (1024 * 1024) h
