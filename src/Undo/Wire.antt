-- ===== src/Undo/Wire.antt =====
-- The little-endian integers and the checksum of server/undo_journal.c.
use Prim.Native.Nat.{bit_and, bit_xor}
use dataman.Base.{
  ℕ, zero, suc, ◌+◌, ◌-◌, ◌*◌, ◌/◌, ◌%◌, ◌^◌, ◌<◌, ◌≡◌, refl, ap, [], ◌∷◌, ◌++◌, arith, length,
  take, drop, drop-append_self,
}
use dataman.Storage.{Bytes}

-- The loop of `put64` and `put32`: the low byte, then the rest shifted down by eight.
unfoldable pub put_bytes : ℕ → ℕ → Bytes
put_bytes zero value = []
put_bytes (suc n) value = (value % 256) ∷ put_bytes n (value / 256)

-- The loop of `get64`, from the last byte: `value << 8 | p[i]`. The bytes are below 256 and there
-- are eight at most, so nothing is shifted out.
unfoldable pub get_bytes : Bytes → ℕ
get_bytes [] = 0
get_bytes (b ∷ bytes) = get_bytes bytes * 256 + b

unfoldable pub put64 : ℕ → Bytes
unfolding put_bytes
put64 value = put_bytes 8 value

unfoldable pub put32 : ℕ → Bytes
unfolding put_bytes
put32 value = put_bytes 4 value

-- `get64(p + offset)`
unfoldable pub get64 : Bytes → ℕ → ℕ
unfolding get_bytes
get64 p offset = get_bytes (take 8 (drop offset p))

-- `get32(p + offset)`
unfoldable pub get32 : Bytes → ℕ → ℕ
unfolding get_bytes
get32 p offset = get_bytes (take 4 (drop offset p))

-- One round for a bit: `(value >> 1) ^ (0xedb88320u & (0u - (value & 1)))`.
unfoldable pub crc_bit : ℕ → ℕ
crc_bit value = bit_xor (value / 2) (bit_and 0xedb88320 ((2 ^ 32 - value % 2) % 2 ^ 32))

unfoldable pub crc_bits : ℕ → ℕ → ℕ
unfolding crc_bit
crc_bits zero value = value
crc_bits (suc n) value = crc_bits n (crc_bit value)

unfoldable pub crc_from : ℕ → Bytes → ℕ
unfolding crc_bits
crc_from value [] = value
crc_from value (b ∷ bytes) = crc_from (crc_bits 8 (bit_xor value b)) bytes

-- `~value` of a `uint32_t`
unfoldable pub crc : Bytes → ℕ
unfolding crc_from
crc bytes = bit_xor (crc_from 0xffff_ffff bytes) 0xffff_ffff % 2 ^ 32

pub crc-lt : (bytes : Bytes) → crc bytes < 2 ^ 32
unfolding crc
crc-lt bytes = omega arith

pub length-put_bytes : (n value : ℕ) → length (put_bytes n value) ≡ n
unfolding put_bytes
length-put_bytes zero value = refl
length-put_bytes (suc n) value = ap suc (length-put_bytes n (value / 256))

-- Four bytes read back.
pub get_bytes-put32 : (value : ℕ) → value < 2 ^ 32 → get_bytes (put32 value) ≡ value
unfolding put32 get_bytes
get_bytes-put32 value h = omega arith

-- Eight bytes read back.
pub get_bytes-put64 : (value : ℕ) → value < 2 ^ 64 → get_bytes (put64 value) ≡ value
unfolding put64 get_bytes
get_bytes-put64 value h = omega arith

-- A value of 32 bits that `put32` stores anywhere in a buffer is what `get32` reads there.
pub get32-put32 :
    (before after : Bytes) (value : ℕ)
    → value < 2 ^ 32
    → get32 (before ++ (put32 value ++ after)) (length before) ≡ value
unfolding get32 put32
get32-put32 before after value h =
    rw (drop-append_self before (put32 value ++ after)) (get_bytes-put32 value h)

-- A value of 64 bits that `put64` stores anywhere in a buffer is what `get64` reads there.
pub get64-put64 :
    (before after : Bytes) (value : ℕ)
    → value < 2 ^ 64
    → get64 (before ++ (put64 value ++ after)) (length before) ≡ value
unfolding get64 put64
get64-put64 before after value h =
    rw (drop-append_self before (put64 value ++ after)) (get_bytes-put64 value h)

-- The standard check value of CRC-32: "123456789".
crc_check : crc (0x31 ∷ 0x32 ∷ 0x33 ∷ 0x34 ∷ 0x35 ∷ 0x36 ∷ 0x37 ∷ 0x38 ∷ 0x39 ∷ []) ≡ 0xcbf43926
unfolding crc
crc_check = refl
