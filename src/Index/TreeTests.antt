-- ===== src/Index/TreeTests.antt =====
-- An index file of server/index_v2.c with one leaf, and what becomes of it.
use mathlib.Core.Option.{none-ne-some, some-injective}
use dataman.Base.{
  ℕ, ◌≡◌, ◌%◌, ◌==◌, refl, ap, sym, ◌∙◌, true, false, Option, none, some, List, [], ◌∷◌, arith,
}
use dataman.Storage.{Bytes, pwrite, pread, valid_range}
use dataman.Index.Codec.{put_u32, put_u64}
use dataman.Index.Device.{Device}
use dataman.Index.Node.{Format, Pool, zeros, node_page, payload_size, load_node, write_node}
use dataman.Index.NodeIo.{Fits}
use dataman.Index.NodeLoad.{load_node-node_page}
use dataman.Index.Header.{
  header_bytes, Root, slot_bytes, slot_head, Heading, read_slot, read_header, publish_root,
}
use dataman.Index.Crc.{index_crc}
use dataman.Index.Root.{SlotRoot}
use dataman.Index.Pages.{CopyOnWrite}
use dataman.Index.Growth.{PoolGood, NodeOutcome, write_node-NodeOutcome}
use dataman.Index.Insert.{insert_node}
use dataman.Index.Tree.{Tree}
use dataman.Index.Outcome.{InsertOutcome}
use dataman.Index.Refines.{insert_node-InsertOutcome}
use dataman.Index.Publish.{publish_root-read_header}
use dataman.Index.Torn.{Placed, publish_root-stopped}
use dataman.Index.Lost.{publish_root-lost}
use dataman.Index.Insertion.{Placement, insert_entry, index_insert}
use dataman.Index.Find.{index_find, index_end}
use dataman.Index.Visible.{Visible, insert_entry-Tree}

abbrev fmt : Format
fmt = record { keylen = 1; file_count = 1; page_size = 256; in_place = false }

abbrev entry : ℕ → Bytes
entry key = key ∷ zeros 10

abbrev entries : List Bytes
entries = entry 5 ∷ entry 9 ∷ []

abbrev first_root : Root
first_root = record { offset = 256; crc = 77; generation = 1 }

abbrev heading : Heading
heading = record { keylen = 1; file_count = 1; root = first_root }

abbrev blank_file : Bytes
blank_file = pwrite (header_bytes 1 1 0 256 0) 32 (slot_bytes first_root)

abbrev file : Bytes
file = pwrite blank_file 256 (node_page fmt true entries [])

abbrev device : Device
device = record { content = file; stops = [] }

abbrev pool : Pool
pool = record { device = device; next = 512; free = [] }

abbrev stopping : Pool
stopping = record {
  device = record { content = file; stops = some 100 ∷ [] };
  next = 512;
  free = [];
}

abbrev second_root : Root
second_root = record { offset = 512; crc = 99; generation = 2 }

abbrev tearing : Device
tearing = record { content = file; stops = some 9 ∷ [] }

abbrev answer : Option Placement
answer = (insert_entry 3 fmt (entry 7) first_root pool).0

abbrev placement : Placement
placement = record { root = 512; generation = 2; node_offset = 512; entry_index = 1 }

header_found : read_header file ≡ some heading
unfolding read_header header_bytes slot_bytes pwrite node_page put_u64 index_crc
header_found = refl

fmt-CopyOnWrite : CopyOnWrite fmt
fmt-CopyOnWrite = record { key_small = omega arith; room = omega arith; fresh = refl }

entries-Fits : Fits fmt true entries []
unfolding payload_size
entries-Fits = record {
  key_small = omega arith;
  few = omega arith;
  sizes = (refl, (refl, tt));
  offsets = tt;
  shape = refl;
  in_page = omega arith;
}

pool-PoolGood : PoolGood fmt pool
pool-PoolGood = record { header_used = (omega arith, tt); free_below = tt; spread = tt }

entries-Tree : Tree fmt pool 0 256 entries
entries-Tree = record {
  at = record {
    used = (omega arith, tt);
    there = load_node-node_page fmt true entries [] blank_file 256 entries-Fits (omega arith);
    in_range = omega arith;
    behind = omega arith;
  };
  order = ((refl, tt), (tt, tt));
  sized = (refl, (refl, tt));
  few = omega arith;
}

load_node-node_page_example :
    load_node fmt file 256 ≡ some (record { leaf = true; entries = entries; children = [] })
load_node-node_page_example =
    load_node-node_page fmt true entries [] blank_file 256 entries-Fits (omega arith)

write_node-NodeOutcome_example :
    NodeOutcome fmt
      (record { leaf = true; entries = entries; children = [] })
      pool
      (write_node fmt true entries [] 0 pool).0
      (write_node fmt true entries [] 0 pool).1
write_node-NodeOutcome_example =
    write_node-NodeOutcome fmt true entries [] 0 pool fmt-CopyOnWrite pool-PoolGood entries-Fits

stopping-PoolGood : PoolGood fmt stopping
stopping-PoolGood = record { header_used = (omega arith, tt); free_below = tt; spread = tt }

stopping-Tree : Tree fmt stopping 0 256 entries
stopping-Tree = record {
  at = record {
    used = (omega arith, tt);
    there = load_node-node_page fmt true entries [] blank_file 256 entries-Fits (omega arith);
    in_range = omega arith;
    behind = omega arith;
  };
  order = ((refl, tt), (tt, tt));
  sized = (refl, (refl, tt));
  few = omega arith;
}

torn_slot : read_slot (pread (publish_root second_root tearing).1.content 64 32) ≡ none
unfolding read_slot publish_root valid_range put_u64 put_u32 pwrite node_page header_bytes
torn_slot = refl

insert_node-InsertOutcome_example :
    InsertOutcome fmt 0
      (entry 7)
      entries
      (entry 5 ∷ entry 7 ∷ entry 9 ∷ [])
      pool
      (insert_node 3 fmt (entry 7) 256 pool).0
      (insert_node 3 fmt (entry 7) 256 pool).1
insert_node-InsertOutcome_example =
    insert_node-InsertOutcome 3 0 fmt (entry 7) 256 entries pool fmt-CopyOnWrite pool-PoolGood refl
      (omega arith) entries-Tree

-- The system stops in the middle of the first page.
insert_entry-Tree_example :
    Tree fmt (insert_entry 3 fmt (entry 7) first_root stopping).1 0 256 entries
insert_entry-Tree_example =
    insert_entry-Tree 3 0 fmt (entry 7) entries first_root stopping 0 256 entries fmt-CopyOnWrite
      stopping-PoolGood refl (omega arith) stopping-Tree stopping-Tree

second_root_crc : index_crc (slot_head second_root) ≡ 4143628079
unfolding index_crc put_u64 put_u32
second_root_crc = refl

second_root-SlotRoot : SlotRoot second_root
second_root-SlotRoot = record {
  generation_fits = omega arith;
  offset_fits = omega arith;
  crc_fits = omega arith;
  some_generation = omega arith;
  behind_header = omega arith;
  some_crc = omega (arith, second_root_crc);
}

publish_root-read_header_example :
    ((publish_root second_root device).0 ≡ true)
    × (read_header (publish_root second_root device).1.content
        ≡ some (record heading { root = second_root }))
publish_root-read_header_example =
    publish_root-read_header device heading second_root refl header_found second_root-SlotRoot refl

first_slot_found : read_slot (pread file 32 32) ≡ some first_root
unfolding read_slot header_bytes slot_bytes pwrite node_page put_u64 index_crc
first_slot_found = refl

second_slot_found : read_slot (pread file 64 32) ≡ none
unfolding read_slot header_bytes slot_bytes pwrite node_page put_u64 index_crc
second_slot_found = refl

file-Placed : Placed file
file-Placed = record {
  first = λ r h.
      ap (λ (q : Root). q.generation % 2 == 1)
        (sym (some-injective first_root r (sym first_slot_found ∙ h)));
  second = λ r h. absurd (none-ne-some r (sym second_slot_found ∙ h));
}

-- The system stops after nine bytes of the slot.
publish_root-stopped_example :
    ((publish_root second_root tearing).0 ≡ false)
    × (read_header (publish_root second_root tearing).1.content ≡ some heading)
publish_root-stopped_example =
    publish_root-stopped tearing heading second_root 9 refl header_found file-Placed
      second_root-SlotRoot refl torn_slot

-- A root whose slot has the checksum 0.
abbrev lost_root : Root
lost_root = record { offset = 512; crc = 3423314589; generation = 2 }

lost_root_crc : index_crc (slot_head lost_root) ≡ 0
unfolding index_crc put_u64 put_u32
lost_root_crc = refl

publish_root-lost_example :
    ((publish_root lost_root device).0 ≡ true)
    × (read_header (publish_root lost_root device).1.content ≡ some heading)
publish_root-lost_example =
    publish_root-lost device heading lost_root refl header_found file-Placed (omega arith) refl
      lost_root_crc

-- After a page was put down in part at the end of the file, the next insertion is refused.
abbrev after_stop : Device
after_stop = record {
  content = (index_insert 3 (7 ∷ []) 0 0 stopping.device).1.content;
  stops = [];
}

refused_after_stop : (index_insert 3 (7 ∷ []) 0 0 after_stop).0 ≡ none
unfolding index_insert pwrite header_bytes index_crc valid_range
refused_after_stop = refl

nine_found :
    index_find 3 (9 ∷ []) true 0 0 file
    ≡ some (
      1,
      record {
        file_id = 0;
        record_offset = 0;
        matched_key = 9 ∷ [];
        node_offset = 256;
        entry_index = 1;
      },
    )
unfolding index_find pwrite slot_bytes put_u64 header_bytes index_crc node_page
nine_found = refl

last_found :
    index_end 3 true file
    ≡ some (
      1,
      record {
        file_id = 0;
        record_offset = 0;
        matched_key = 9 ∷ [];
        node_offset = 256;
        entry_index = 1;
      },
    )
unfolding index_end pwrite slot_bytes put_u64 header_bytes index_crc node_page
last_found = refl
