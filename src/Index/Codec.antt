-- ===== src/Index/Codec.antt =====
-- The big-endian integers of server/index_v2.c.
use dataman.Base.{
  ℕ, zero, suc, ◌+◌, ◌*◌, ◌/◌, ◌%◌, ◌^◌, ◌<◌, ◌≡◌, ap, ◌∙◌, [], ◌∷◌, ◌++◌, arith, length, get_or,
  drop, drop-append_self,
}
use dataman.Storage.{Bytes}

-- `put_u16`
unfoldable pub put_u16 : ℕ → Bytes
put_u16 value = (value / 2 ^ 8 % 256) ∷ (value % 256) ∷ []

-- `put_u32`
unfoldable pub put_u32 : ℕ → Bytes
put_u32 value =
    (value / 2 ^ 24 % 256) ∷ (value / 2 ^ 16 % 256) ∷ (value / 2 ^ 8 % 256) ∷ (value % 256) ∷ []

-- The loop of `put_u64`, from the last byte to the first: `buf[i] = value; value >>= 8`.
unfoldable pub put_loop : ℕ → ℕ → Bytes → Bytes
put_loop zero value behind = behind
put_loop (suc i) value behind = put_loop i (value / 256) ((value % 256) ∷ behind)

-- `put_u64`
unfoldable pub put_u64 : ℕ → Bytes
unfolding put_loop
put_u64 value = put_loop 8 value []

-- `get_u16` at an offset; a buffer is long enough in every call.
unfoldable pub get_u16 : Bytes → ℕ → ℕ
get_u16 buf at = get_or buf at 0 * 2 ^ 8 + get_or buf (at + 1) 0

-- `get_u32`
unfoldable pub get_u32 : Bytes → ℕ → ℕ
get_u32 buf at =
    get_or buf at 0 * 2 ^ 24
    + get_or buf (at + 1) 0 * 2 ^ 16
    + get_or buf (at + 2) 0 * 2 ^ 8
    + get_or buf (at + 3) 0

-- The loop of `get_u64`: `value << 8 | buf[i]`, where the shift drops what is above 64 bits.
unfoldable pub get_loop : ℕ → ℕ → Bytes → ℕ
get_loop zero value buf = value
get_loop (suc n) value buf = get_loop n ((value * 256) % 2 ^ 64 + get_or buf 0 0) (drop 1 buf)

-- `get_u64`
unfoldable pub get_u64 : Bytes → ℕ → ℕ
unfolding get_loop
get_u64 buf at = get_loop 8 0 (drop at buf)

get_or-skip :
    (before rest : Bytes) (n : ℕ) → get_or (before ++ rest) (length before + n) 0 ≡ get_or rest n 0
get_or-skip [] rest n = let e : 0 + n ≡ n = omega arith in ap (λ (k : ℕ). get_or rest k 0) e
get_or-skip (b ∷ before) rest n =
    let e : suc (length before) + n ≡ suc (length before + n) = omega arith in
    ap (λ (k : ℕ). get_or (b ∷ (before ++ rest)) k 0) e ∙ get_or-skip before rest n

get_or-first : (before rest : Bytes) → get_or (before ++ rest) (length before) 0 ≡ get_or rest 0 0
get_or-first before rest =
    let e : length before ≡ length before + 0 = omega arith in
    ap (λ (k : ℕ). get_or (before ++ rest) k 0) e ∙ get_or-skip before rest 0

-- A value of 16 bits that `put_u16` stores anywhere in a buffer is what `get_u16` reads there.
pub get_u16-put_u16 :
    (before after : Bytes) (value : ℕ)
    → value < 2 ^ 16
    → get_u16 (before ++ (put_u16 value ++ after)) (length before) ≡ value
unfolding get_u16 put_u16
get_u16-put_u16 before after value h = omega (
  arith,
  get_or-first before (put_u16 value ++ after),
  get_or-skip before (put_u16 value ++ after) 1,
)

-- A value of 32 bits that `put_u32` stores anywhere in a buffer is what `get_u32` reads there.
pub get_u32-put_u32 :
    (before after : Bytes) (value : ℕ)
    → value < 2 ^ 32
    → get_u32 (before ++ (put_u32 value ++ after)) (length before) ≡ value
unfolding get_u32 put_u32
get_u32-put_u32 before after value h = omega (
  arith,
  get_or-first before (put_u32 value ++ after),
  get_or-skip before (put_u32 value ++ after) 1,
  get_or-skip before (put_u32 value ++ after) 2,
  get_or-skip before (put_u32 value ++ after) 3,
)

-- A value of 64 bits that `put_u64` stores anywhere in a buffer is what `get_u64` reads there.
pub get_u64-put_u64 :
    (before after : Bytes) (value : ℕ)
    → value < 2 ^ 64
    → get_u64 (before ++ (put_u64 value ++ after)) (length before) ≡ value
unfolding get_u64 put_u64 get_loop put_loop
get_u64-put_u64 before after value h =
    rw (drop-append_self before (put_u64 value ++ after)) (omega arith)
