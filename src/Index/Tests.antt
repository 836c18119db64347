-- ===== src/Index/Tests.antt =====
-- The integers of server/index_v2.c at concrete values.
use dataman.Base.{◌+◌, ◌*◌, ◌%◌, ◌^◌, ◌≤◌, ◌<◌, ◌≡◌, refl, [], ◌∷◌, ◌++◌, arith}
use dataman.Undo.Wire.{crc}
use dataman.Index.Crc.{index_crc, index_crc-crc}
use dataman.Index.Header.{index_page_size}
use dataman.Index.Root.{index_page_size-lt}
use dataman.Index.Codec.{
  put_u16, put_u32, put_u64, get_u16, get_u32, get_u64, get_u16-put_u16, get_u32-put_u32,
  get_u64-put_u64,
}

put_u32_bytes : put_u32 0x01020304 ≡ 1 ∷ 2 ∷ 3 ∷ 4 ∷ []
unfolding put_u32
put_u32_bytes = refl

put_u64_bytes : put_u64 0x0102030405060708 ≡ 1 ∷ 2 ∷ 3 ∷ 4 ∷ 5 ∷ 6 ∷ 7 ∷ 8 ∷ []
unfolding put_u64
put_u64_bytes = refl

get_u16-put_u16_example : get_u16 ((5 ∷ []) ++ (put_u16 700 ++ (1 ∷ []))) 1 ≡ 700
get_u16-put_u16_example = get_u16-put_u16 (5 ∷ []) (1 ∷ []) 700 (omega arith)

get_u32-put_u32_example : get_u32 ((5 ∷ []) ++ (put_u32 70000 ++ (1 ∷ []))) 1 ≡ 70000
get_u32-put_u32_example = get_u32-put_u32 (5 ∷ []) (1 ∷ []) 70000 (omega arith)

get_u64-put_u64_example : get_u64 ((5 ∷ []) ++ (put_u64 70000000000 ++ (1 ∷ []))) 1 ≡ 70000000000
get_u64-put_u64_example = get_u64-put_u64 (5 ∷ []) (1 ∷ []) 70000000000 (omega arith)

index_crc-crc_example : index_crc (1 ∷ 2 ∷ 3 ∷ []) ≡ crc (1 ∷ 2 ∷ 3 ∷ [])
index_crc-crc_example = index_crc-crc (1 ∷ 2 ∷ 3 ∷ [])

index_page_size-lt_example :
    (16 + ((12 + 1) * 8 + 12 * (7 + 2 + 8)) ≤ index_page_size 7)
    × (index_page_size 7 % 64 ≡ 0)
    × (index_page_size 7 < 2 ^ 16)
index_page_size-lt_example = index_page_size-lt 7 (omega arith)
