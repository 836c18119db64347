-- ===== src/Index/Pages.antt =====
-- Pages of server/index_v2.c: a node keeps what it says when other pages are written, and a page that
-- is taken is one that nothing else uses.
use mathlib.Core.Option.{none-ne-some, some-injective}
use dataman.Base.{
  ℕ, zero, suc, ◌+◌, ◌*◌, ◌≤◌, ◌≡◌, refl, ap, sym, ◌∙◌, Bool, true, false, not, ◌&&◌, ◌||◌, ◌⊎◌,
  inl, inr, Option, none, some, arith, ◌==◌, ==_iff, ltb, not_ltb→le, if◌then◌else◌, length,
  Bool-cases, Option-cases,
}
use dataman.Storage.{Bytes, int64_max, pwrite, pread}
use dataman.Storage.Windows.{length-pread, pread-pwrite_outside}
use dataman.Index.Codec.{get_u32}
use dataman.Index.Device.{read_full_at}
use dataman.Index.Node.{
  max_keys, node_header, Format, entry_size, Node, payload_size, RawNode, raw_valid, raw_node,
  read_node, decode_node, load_node,
}

pub if-some {ℓ} :
    {A : Type ℓ} (c : Bool) (x y : A) → (if c then some x else none) ≡ some y → (c ≡ true) × (x ≡ y)
if-some true x y h = (refl, some-injective x y h)
if-some false x y h = absurd (none-ne-some y h)

pub if-none {ℓ} :
    {A : Type ℓ} (c : Bool) (x : Option A) (y : A)
    → (if c then none else x) ≡ some y
    → (c ≡ false) × (x ≡ some y)
if-none true x y h = absurd (none-ne-some y h)
if-none false x y h = (refl, h)

read_full-kept :
    (size offset : ℕ) (content found : Bytes) (at : ℕ) (bytes : Bytes)
    → read_full_at size offset content ≡ some found
    → (offset + size ≤ at) ⊎ (at + length bytes ≤ offset)
    → read_full_at size offset (pwrite content at bytes) ≡ some found
unfolding read_full_at
read_full-kept zero offset content found at bytes h apart = h
read_full-kept (suc size) offset content found at bytes h apart =
    let (full, same) = if-some _ _ _ h in
    let there : length (pread content offset (suc size)) ≡ suc size =
      (==_iff _ (suc size)).0 full in
    let kept =
      pread-pwrite_outside content at bytes offset (suc size)
        (omega (arith, length-pread content offset (suc size))) apart in
    rw (read_full_at, kept) h

-- What `index_v2_read_node` found on its way.
record NodeRead (content : Bytes) (offset : ℕ) (raw : RawNode) : Type 0 where
  pub header : Bytes
  pub payload : Bytes
  pub in_range : ltb int64_max offset ≡ false
  pub header_read : read_full_at node_header offset content ≡ some header
  pub valid : not (raw_valid header) ≡ false
  pub payload_read : read_full_at (get_u32 header 8) (offset + node_header) content ≡ some payload
  pub checked : raw_node header payload ≡ some raw

read_node-NodeRead :
    (content : Bytes) (offset : ℕ) (raw : RawNode)
    → read_node content offset ≡ some raw
    → NodeRead content offset raw
unfolding read_node
read_node-NodeRead content offset raw h =
    let (in_range, _) = if-none (ltb int64_max offset) _ _ h in
    elim (Option-cases (read_full_at node_header offset content)) [
      | inl gone ↦ absurd (none-ne-some raw (sym (rw (read_node, in_range, gone) refl) ∙ h))
      | inr (header, header_read) ↦ elim (Bool-cases (not (raw_valid header))) [
        | inl bad ↦
            absurd (none-ne-some raw (sym (rw (read_node, in_range, header_read, bad) refl) ∙ h))
        | inr valid ↦
            elim (Option-cases (read_full_at (get_u32 header 8) (offset + node_header) content)) [
              | inl gone ↦ absurd (
                  none-ne-some raw
                    (sym (rw (read_node, in_range, header_read, valid, gone) refl) ∙ h))
              | inr (payload, payload_read) ↦ record {
                header = header;
                payload = payload;
                in_range = in_range;
                header_read = header_read;
                valid = valid;
                payload_read = payload_read;
                checked = sym (rw (read_node, in_range, header_read, valid, payload_read) refl) ∙ h;
              }
            ]
      ]
    ]

NodeRead-read_node :
    (content : Bytes) (offset : ℕ) (raw : RawNode)
    → NodeRead content offset raw
    → read_node content offset ≡ some raw
unfolding read_node
NodeRead-read_node content offset raw r =
    rw (read_node, r.in_range, r.header_read, r.valid, r.payload_read) r.checked

raw_node-length :
    (header payload : Bytes) (raw : RawNode)
    → raw_node header payload ≡ some raw
    → raw.payload_length ≡ get_u32 header 8
unfolding raw_node
raw_node-length header payload raw h =
    let (good, same) = if-some _ _ _ h in sym (ap (λ (r : RawNode). r.payload_length) same)

-- Two pages that do not overlap.
abbrev pub Apart : ℕ → ℕ → ℕ → Type 0
Apart size a b = (a + size ≤ b) ⊎ (b + size ≤ a)

-- What `index_v2_create_empty` settles: a page has room for twelve keys, and nothing is rewritten in place.
pub record CopyOnWrite (fmt : Format) : Type 0 where
  pub key_small : fmt.keylen ≤ 32
  pub room : node_header + ((max_keys + 1) * 8 + max_keys * entry_size fmt) ≤ fmt.page_size
  pub fresh : fmt.in_place ≡ false

pub times_mono : (n m s : ℕ) → n ≤ m → n * s ≤ m * s
times_mono n m s h = grind arith

pub or-false : (a b : Bool) → (a || b) ≡ false → (a ≡ false) × (b ≡ false)
or-false true b h = absurd (true_ne_false h)
  where
    true_ne_false : true ≡ false → ⊥
    true_ne_false h = ground arith
or-false false b h = (refl, h)

module _ (fmt : Format) (good : CopyOnWrite fmt) where
  pub payload-in_page :
      (leaf : Bool) (n : ℕ) → n ≤ max_keys → node_header + payload_size fmt leaf n ≤ fmt.page_size
  unfolding payload_size
  payload-in_page true n h = omega (arith, times_mono n max_keys (entry_size fmt) h, good.room)
  payload-in_page false n h = omega (arith, times_mono n max_keys (entry_size fmt) h, good.room)

  decode_node-payload :
      (raw : RawNode) (node : Node)
      → decode_node fmt raw ≡ some node
      → node_header + raw.payload_length ≤ fmt.page_size
  unfolding decode_node
  decode_node-payload raw node h =
      let leaf = raw.flags == 1 in
      let (ok, _) =
        if-none
          (ltb max_keys raw.key_count
            || (not leaf && raw.key_count == 0)
            || not (raw.payload_length == payload_size fmt leaf raw.key_count))
          _ _ h in
      let (sound, size) =
        or-false (ltb max_keys raw.key_count || (not leaf && raw.key_count == 0))
          (not (raw.payload_length == payload_size fmt leaf raw.key_count)) ok in
      let (many, _) =
        or-false (ltb max_keys raw.key_count) (not leaf && raw.key_count == 0) sound in
      let same = raw_size raw.payload_length (payload_size fmt leaf raw.key_count) size in
      omega
        (arith, same, payload-in_page leaf raw.key_count (not_ltb→le max_keys raw.key_count many))
    where
      raw_size : (a b : ℕ) → not (a == b) ≡ false → a ≡ b
      raw_size a b h = ground arith

  -- A node is still there after a write that leaves its page alone.
  pub load_node-kept :
      (content : Bytes) (offset at : ℕ) (bytes : Bytes) (node : Node)
      → load_node fmt content offset ≡ some node
      → (offset + fmt.page_size ≤ at) ⊎ (at + length bytes ≤ offset)
      → load_node fmt (pwrite content at bytes) offset ≡ some node
  unfolding load_node
  load_node-kept content offset at bytes node h apart =
      elim (Option-cases (read_node content offset)) [
        | inl gone ↦ absurd (none-ne-some node (sym (rw (load_node, gone) refl) ∙ h))
        | inr (raw, there) ↦
            let decoded : decode_node fmt raw ≡ some node = sym (rw (load_node, there) refl) ∙ h in
            let r = read_node-NodeRead content offset raw there in
            let room = decode_node-payload raw node decoded in
            let size = raw_node-length r.header r.payload raw r.checked in
            let kept = NodeRead-read_node (pwrite content at bytes) offset raw (record {
              header = r.header;
              payload = r.payload;
              in_range = r.in_range;
              valid = r.valid;
              checked = r.checked;
              header_read =
                  read_full-kept node_header offset content r.header at bytes r.header_read
                    (elim apart [ inl h ↦ inl (omega arith) | inr h ↦ inr (omega arith) ]);
              payload_read =
                  read_full-kept (get_u32 r.header 8) (offset + node_header) content r.payload at
                    bytes r.payload_read
                    (elim apart [
                      | inl h ↦ inl (omega (arith, size, room))
                      | inr h ↦ inr (omega arith)
                    ]);
            }) in
            rw (load_node, kept) decoded
      ]
