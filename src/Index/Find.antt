-- ===== src/Index/Find.antt =====
-- Search in server/index_v2.c: `index_v2_find`, `index_v2_first` and `index_v2_last`.
use dataman.Base.{
  ℕ, zero, suc, ◌+◌, ◌-◌, Bool, true, false, not, ◌&&◌, ◌||◌, Option, none, some, List, [], ◌∷◌,
  ◌==◌, ltb, leb, if◌then◌else◌, length, take, get_or,
}
use dataman.Storage.{Bytes}
use dataman.Undo.Names.{same_name, has_byte}
use dataman.Index.Codec.{get_u16, get_u64}
use dataman.Index.Node.{Format, load_node}
use dataman.Index.Order.{before}
use dataman.Index.Header.{Heading, read_header}
use dataman.Index.Insertion.{entry_of}

-- What a search answers: the entry's parts, and `INDEX_V2_CURSOR`.
pub record Found : Type 0 where
  pub file_id : ℕ
  pub record_offset : ℕ
  pub matched_key : Bytes
  pub node_offset : ℕ
  pub entry_index : ℕ

abbrev pub found_at : Format → Bytes → ℕ → ℕ → Found
found_at fmt entry offset position = record {
  file_id = get_u16 entry fmt.keylen;
  record_offset = get_u64 entry (fmt.keylen + 2);
  matched_key = take fmt.keylen entry;
  node_offset = offset;
  entry_index = position;
}

-- The first entry that the target is before or, in a leaf, equal to.
unfoldable pub find_position : Bool → Bytes → List Bytes → ℕ
find_position leaf target [] = 0
find_position leaf target (x ∷ entries) =
    let rest = find_position leaf target entries in
    if before target x || (leaf && same_name target x) then 0 else suc rest

-- `v2_find_entry`; `next_subtree` is 0 where there is none. The fuel bounds the pages that are read.
unfoldable pub find_entry : ℕ → Format → Bytes → Bytes → Bool → ℕ → ℕ → ℕ → Option Found
unfolding load_node find_position get_u16 get_u64
find_entry zero fmt content target exact key_length offset next_subtree = none
find_entry (suc fuel) fmt content target exact key_length offset next_subtree =
    elim (load_node fmt content offset) [
      | none ↦ none
      | some node ↦
          let position = find_position node.leaf target node.entries in
          let count = length node.entries in
          let nearest =
            if not exact && ltb position count
            then get_or node.children (position + 1) 0
            else next_subtree in
          let down =
            find_entry fuel fmt content target exact key_length (get_or node.children position 0)
              nearest in
          let over = find_entry fuel fmt content target exact key_length next_subtree 0 in
          let entry = get_or node.entries position [] in
          if not node.leaf
          then down
          else if position == count
          then if next_subtree == 0 then none else over
          else if (exact && not (same_name target entry))
              || (not exact && not (same_name (take key_length target) (take key_length entry)))
          then none
          else some (found_at fmt entry offset position)
    ]

-- `v2_pattern_matches`, for a pattern of the length that is compared.
unfoldable pub pattern_matches : Bytes → Bytes → Bool
pattern_matches entry [] = true
pattern_matches [] (p ∷ pattern) = false
pattern_matches (e ∷ entry) (p ∷ pattern) =
    let rest = pattern_matches entry pattern in
    if p == b'*' then not (e == 0) && rest else e == p && rest

-- The first entry of a leaf that matches.
unfoldable pub match_position : Bytes → List Bytes → ℕ
unfolding pattern_matches
match_position pattern [] = 0
match_position pattern (x ∷ entries) =
    let rest = match_position pattern entries in if pattern_matches x pattern then 0 else suc rest

-- `V2_FIND_RESULT`
pub data FindResult : Type 0 where
  find_error not_found : FindResult
  was_found : Found → FindResult

-- The loop over the children: it ends at the first answer but `not_found`.
abbrev pub find_children : (ℕ → FindResult) → List ℕ → FindResult
find_children find [] = not_found
find_children find (c ∷ children) =
    let rest = find_children find children in
    elim (find c) [ find_error ↦ find_error | not_found ↦ rest | was_found f ↦ was_found f ]

-- `v2_find_pattern_node`; the fuel bounds the depth of the tree.
unfoldable pub find_pattern_node : ℕ → Format → Bytes → Bytes → ℕ → FindResult
unfolding load_node match_position get_u16 get_u64
find_pattern_node zero fmt content pattern offset = find_error
find_pattern_node (suc fuel) fmt content pattern offset = elim (load_node fmt content offset) [
  | none ↦ find_error
  | some node ↦
      let position = match_position pattern node.entries in
      let below = find_children (find_pattern_node fuel fmt content pattern) node.children in
      if not node.leaf
      then below
      else if position == length node.entries
      then not_found
      else was_found (found_at fmt (get_or node.entries position []) offset position)
]

-- `strnlen`
abbrev pub text_length : Bytes → ℕ
text_length [] = 0
text_length (c ∷ text) = let rest = text_length text in if c == 0 then 0 else suc rest

abbrev pub found_option : FindResult → Option Found
found_option find_error = none
found_option not_found = none
found_option (was_found f) = some f

-- The fields of the context that a search uses.
abbrev pub search_format : Heading → Format
search_format h = record {
  keylen = h.keylen;
  file_count = h.file_count;
  page_size = 0;
  in_place = false;
}

-- The answer with the generation that the cursor gets.
abbrev pub dated : ℕ → Option Found → Option (ℕ × Found)
dated generation none = none
dated generation (some f) = some (generation, f)

-- `index_v2_find`; the file's number and the record's offset count where the search is exact.
unfoldable pub index_find : ℕ → Bytes → Bool → ℕ → ℕ → Bytes → Option (ℕ × Found)
unfolding read_header find_entry find_pattern_node entry_of
index_find fuel key exact file_id record_offset content = elim (read_header content) [
  | none ↦ none
  | some h ↦
      let fmt = search_format h in
      let text = take h.keylen key in
      let key_length = text_length text in
      let target =
        entry_of text (if exact then file_id else 0) (if exact then record_offset else 0) in
      if ltb 32 h.keylen || (exact && leb h.file_count file_id)
      then none
      else if not exact && has_byte b'*' (take key_length text)
      then dated h.root.generation
          (found_option (find_pattern_node fuel fmt content (take key_length text) h.root.offset))
      else dated h.root.generation
          (find_entry fuel fmt content target exact key_length h.root.offset 0)
]

-- The loop of `v2_descend_tree` and the entry it ends at: the first one, or the last one.
unfoldable pub descend_tree : ℕ → Format → Bytes → Bool → ℕ → Option Found
unfolding load_node get_u16 get_u64
descend_tree zero fmt content last offset = none
descend_tree (suc fuel) fmt content last offset = elim (load_node fmt content offset) [
  | none ↦ none
  | some node ↦
      let count = length node.entries in
      let below =
        descend_tree fuel fmt content last (get_or node.children (if last then count else 0) 0) in
      let position = if last then count - 1 else 0 in
      if not node.leaf
      then below
      else if count == 0
      then none
      else some (found_at fmt (get_or node.entries position []) offset position)
]

-- `index_v2_first` and `index_v2_last`
unfoldable pub index_end : ℕ → Bool → Bytes → Option (ℕ × Found)
unfolding read_header descend_tree
index_end fuel last content = elim (read_header content) [
  | none ↦ none
  | some h ↦
      dated h.root.generation (descend_tree fuel (search_format h) content last h.root.offset)
]
