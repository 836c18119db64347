-- ===== src/Index/NodeLoad.antt =====
-- A node that `v2_write_node` of server/index_v2.c has put down is the node that `v2_load_node` gives.
use dataman.Base.{
  ℕ, zero, suc, ◌+◌, ◌-◌, ◌*◌, ◌≤◌, ◌<◌, ◌≡◌, refl, ap, sym, ◌∙◌, Bool, true, false, some, List, [],
  ◌++◌, arith, ◌==◌, eq→==, if◌then◌else◌, length, take, drop, append-nil, length-append,
  take-append_eq, drop-append_eq, le→not_ltb,
}
use dataman.Storage.{Bytes, int64_max, pwrite, pread}
use dataman.Storage.Windows.{length-pread, pread-pwrite_inside}
use dataman.Index.Codec.{put_u32}
use dataman.Index.Crc.{index_crc}
use dataman.Index.Device.{read_full_at}
use dataman.Index.Node.{
  max_keys, node_header, Format, entry_size, flat, child_bytes, zeros, payload_size, payload_of,
  node_head, node_page, RawNode, raw_node, read_node, split_entries, split_children, decode_node,
  load_node,
}
use dataman.Index.NodeIo.{
  Fits, length-payload, header_of, HeaderSays, header-HeaderSays, small_payload, split_entries-flat,
  split_children-child_bytes, length-child_bytes,
}

-- A read of a part of what was written.
pub read_full-pwrite :
    (content : Bytes) (at : ℕ) (bytes : Bytes) (k size : ℕ)
    → 0 < length bytes
    → k + size ≤ length bytes
    → read_full_at size (at + k) (pwrite content at bytes) ≡ some (take size (drop k bytes))
unfolding read_full_at
read_full-pwrite content at bytes k size some_bytes h =
    let same = pread-pwrite_inside content at bytes k size some_bytes h in
    let full : length (pread bytes k size) ≡ size = omega (arith, length-pread bytes k size) in
    rw (same, eq→== (length (pread bytes k size)) size full) refl

abbrev raw_of : Format → Bool → List Bytes → List ℕ → RawNode
raw_of fmt leaf entries children = record {
  flags = if leaf then 1 else 0;
  key_count = length entries;
  payload_length = payload_size fmt leaf (length entries);
  crc = index_crc (node_head fmt leaf (length entries) ++ payload_of leaf entries children);
  payload = payload_of leaf entries children;
}

decode_node-raw_of :
    (fmt : Format) (leaf : Bool) (entries : List Bytes) (children : List ℕ)
    → Fits fmt leaf entries children
    → decode_node fmt (raw_of fmt leaf entries children)
      ≡ some (record { leaf = leaf; entries = entries; children = children })
unfolding decode_node payload_of
decode_node-raw_of fmt true entries children f =
    let n = payload_size fmt true (length entries) in
    let whole : flat entries ≡ flat entries ++ [] = sym (append-nil (flat entries)) in
    let got : split_entries (entry_size fmt) (length entries) (flat entries) ≡ entries =
      ap (split_entries (entry_size fmt) (length entries)) whole
      ∙ split_entries-flat (entry_size fmt) entries [] f.sizes in
    simp (le→not_ltb max_keys (length entries) f.few, eq→== n n refl, got, f.shape) refl
decode_node-raw_of fmt false entries children f =
    let n = payload_size fmt false (length entries) in
    let (count, some_entries) = f.shape in
    let at_children : (length entries + 1) * 8 ≡ length (child_bytes children) =
      omega (arith, length-child_bytes children) in
    let next : length entries + 1 ≡ length children = omega arith in
    let whole : flat entries ≡ flat entries ++ [] = sym (append-nil (flat entries)) in
    let got : split_entries (entry_size fmt) (length entries)
          (drop ((length entries + 1) * 8) (child_bytes children ++ flat entries))
        ≡ entries =
      ap (split_entries (entry_size fmt) (length entries)) (
        drop-append_eq ((length entries + 1) * 8) (child_bytes children) (flat entries) at_children
        ∙ whole)
      ∙ split_entries-flat (entry_size fmt) entries [] f.sizes in
    let got_children : split_children (length entries + 1) (child_bytes children ++ flat entries)
        ≡ children =
      ap (λ (k : ℕ). split_children k (child_bytes children ++ flat entries)) next
      ∙ split_children-child_bytes children (flat entries) f.offsets in
    let not_zero : (length entries == 0) ≡ false = ground arith in
    rw (decode_node, le→not_ltb max_keys (length entries) f.few, not_zero, eq→== n n refl)
      (rw (got, got_children) refl)

module _ (fmt : Format) (leaf : Bool) (entries : List Bytes) (children : List ℕ) where
  abbrev page_of : Bytes
  page_of = node_page fmt leaf entries children

  raw_node-header :
      HeaderSays fmt leaf entries children
      → raw_node (header_of fmt leaf entries children) (payload_of leaf entries children)
        ≡ some (raw_of fmt leaf entries children)
  unfolding raw_node
  raw_node-header s =
      let crc =
        index_crc (node_head fmt leaf (length entries) ++ payload_of leaf entries children) in
      simp (s.head, s.crc, eq→== crc crc refl, s.flags, s.count, s.size) refl

  -- A page is the header, the payload and zeros.
  page-header :
      page_of
      ≡ header_of fmt leaf entries children
        ++ (payload_of leaf entries children
            ++ zeros (fmt.page_size - (node_header + payload_size fmt leaf (length entries))))
  unfolding node_page node_head put_u32
  page-header = refl

  length-header : length (header_of fmt leaf entries children) ≡ 16
  unfolding node_head put_u32
  length-header = refl

  pub length-node_page : Fits fmt leaf entries children → length page_of ≡ fmt.page_size
  length-node_page f =
      let payload = payload_of leaf entries children in
      let rest = zeros (fmt.page_size - (node_header + payload_size fmt leaf (length entries))) in
      omega (
        arith,
        f.in_page,
        ap length page-header,
        length-header,
        length-append (header_of fmt leaf entries children) (payload ++ rest),
        length-append payload rest,
        length-payload fmt leaf entries children f,
        length-zeros (fmt.page_size - (node_header + payload_size fmt leaf (length entries))),
      )
    where
      length-zeros : (n : ℕ) → length (zeros n) ≡ n
      length-zeros zero = refl
      length-zeros (suc n) = ap suc (length-zeros n)

  header_read :
      (content : Bytes) (at : ℕ)
      → Fits fmt leaf entries children
      → read_full_at 16 at (pwrite content at page_of) ≡ some (header_of fmt leaf entries children)
  header_read content at f =
      let there : at + 0 ≡ at = omega arith in
      let head : take 16 (drop 0 page_of) ≡ header_of fmt leaf entries children =
        ap (take 16) page-header
        ∙ take-append_eq 16 (header_of fmt leaf entries children) _ (sym length-header) in
      let size = length-node_page f in
      let room = f.in_page in
      ap (λ (k : ℕ). read_full_at 16 k (pwrite content at page_of)) (sym there)
      ∙ (read_full-pwrite content at page_of 0 16 (omega arith) (omega arith) ∙ ap some head)

  payload_read :
      (content : Bytes) (at : ℕ)
      → Fits fmt leaf entries children
      → read_full_at (payload_size fmt leaf (length entries)) (at + 16) (pwrite content at page_of)
        ≡ some (payload_of leaf entries children)
  payload_read content at f =
      let size = length-node_page f in
      let room = f.in_page in
      let n = payload_size fmt leaf (length entries) in
      let behind : drop 16 page_of ≡ _ =
        ap (drop 16) page-header
        ∙ drop-append_eq 16 (header_of fmt leaf entries children) _ (sym length-header) in
      read_full-pwrite content at page_of 16 n (omega arith) (omega arith)
      ∙ ap some (
          ap (take n) behind
          ∙ take-append_eq n (payload_of leaf entries children) _
              (sym (length-payload fmt leaf entries children f)))

  read_node-page :
      (content : Bytes) (at : ℕ)
      → Fits fmt leaf entries children
      → at ≤ int64_max
      → read_node (pwrite content at page_of) at ≡ some (raw_of fmt leaf entries children)
  unfolding read_node
  read_node-page content at f h =
      let small : payload_size fmt leaf (length entries) ≤ 1024 =
        small_payload fmt leaf (length entries) f.key_small f.few in
      let s = header-HeaderSays fmt leaf entries children small in
      rw
        (
          read_node,
          le→not_ltb int64_max at h,
          header_read content at f,
          s.valid,
          s.size,
          payload_read content at f,
        )
        (raw_node-header s)

  -- A node that fits, written anywhere below the largest offset, is loaded as it was.
  pub load_node-node_page :
      (content : Bytes) (at : ℕ)
      → Fits fmt leaf entries children
      → at ≤ int64_max
      → load_node fmt (pwrite content at page_of) at
        ≡ some (record { leaf = leaf; entries = entries; children = children })
  unfolding load_node
  load_node-node_page content at f h =
      rw (load_node, read_node-page content at f h) (decode_node-raw_of fmt leaf entries children f)
