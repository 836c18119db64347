-- ===== src/Index/Lost.antt =====
-- `index_v2_publish_root` of server/index_v2.c where the checksum of the slot comes out as 0.
use dataman.Base.{
  ℕ, suc, ◌+◌, ◌≤◌, ◌≡◌, ◌++◌, refl, ap, sym, ◌∙◌, false, true, ◌||◌, none, some, List, [], Option,
  arith, ◌==◌, ltb, take-all,
}
use dataman.Storage.{Bytes, pwrite, pread}
use dataman.Storage.Windows.{pread-pwrite_inside}
use dataman.Index.Codec.{get_u32, put_u32, put_u64, put_loop, get_u32-put_u32}
use dataman.Index.Crc.{index_crc}
use dataman.Index.Device.{Device, next_stop, later_stops, write_full_at, sync}
use dataman.Index.Header.{
  index_header_size, Root, slot_head, slot_bytes, slot_offset, publish_root, read_slot, Heading,
  read_header,
}
use dataman.Index.Node.{zeros}
use dataman.Index.Root.{length-slot_bytes}
use dataman.Index.Publish.{slot-valid_range}
use dataman.Index.Torn.{Placed, header-torn}

-- `read_slot` takes such a slot for an empty one.
read_slot-empty : (r : Root) → index_crc (slot_head r) ≡ 0 → read_slot (slot_bytes r) ≡ none
unfolding read_slot slot_bytes put_u64 put_loop put_u32
read_slot-empty r h =
    let stored : get_u32 (slot_bytes r) 20 ≡ 0 =
      ap (λ (n : ℕ). get_u32 (slot_head r ++ (put_u32 n ++ zeros 8)) 20) h
      ∙ get_u32-put_u32 (slot_head r) (zeros 8) 0 (omega arith) in
    rw (read_slot, stored) refl

empty-written :
    (content : Bytes) (at : ℕ) (r : Root)
    → index_crc (slot_head r) ≡ 0
    → read_slot (pread (pwrite content at (slot_bytes r)) at 32) ≡ none
empty-written content at r h =
    let size = length-slot_bytes r in
    let here : at + 0 ≡ at = omega arith in
    ap read_slot (
      ap (λ (k : ℕ). pread (pwrite content at (slot_bytes r)) k 32) (sym here)
      ∙ pread-pwrite_inside content at (slot_bytes r) 0 32 (omega arith) (omega arith)
      ∙ take-all 32 (slot_bytes r) (omega arith))
    ∙ read_slot-empty r h

accepted : (o n g k : ℕ) → n ≤ o → g ≡ suc k → (ltb o n || g == 0) ≡ false
accepted o n g k h e = ground arith

-- On a file whose header can be read and whose slots hold generations of their own kind, with a system
-- that fails nothing, publishing a root of the next generation that lies behind the header, the checksum
-- of whose slot is 0: it succeeds, and readers find the old root still.
pub publish_root-lost :
    (d : Device) (h : Heading) (r : Root)
    → d.stops ≡ []
    → read_header d.content ≡ some h
    → Placed d.content
    → index_header_size ≤ r.offset
    → r.generation ≡ suc h.root.generation
    → index_crc (slot_head r) ≡ 0
    → ((publish_root r d).0 ≡ true) × (read_header (publish_root r d).1.content ≡ some h)
unfolding publish_root write_full_at sync
publish_root-lost d h r quiet e placed behind next zero_crc =
    let well : next_stop d.stops ≡ none = ap next_stop quiet in
    let calm : next_stop (later_stops d.stops) ≡ none =
      ap (λ (s : List (Option ℕ)). next_stop (later_stops s)) quiet in
    let valid = slot-valid_range r in
    let usable = accepted r.offset index_header_size r.generation h.root.generation behind next in
    let size = length-slot_bytes r in
    let kept =
      header-torn d.content h r.generation (slot_bytes r) e placed next (omega arith) (omega arith)
        (empty-written d.content (slot_offset r.generation) r zero_crc) in
    (rw (publish_root, usable, valid, well, calm) refl, rw (publish_root, usable, valid, well) kept)
