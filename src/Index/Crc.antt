-- ===== src/Index/Crc.antt =====
-- `index_v2_crc32` of server/index_v2.c, and that it is the checksum of the undo journal.
use Prim.Native.Nat.{bit_xor, digits, differ, bit_xor-bitwise}
use dataman.Base.{
  ℕ, zero, suc, ◌-◌, ◌/◌, ◌%◌, ◌^◌, ◌<◌, ◌≤◌, ◌≡◌, refl, ap, sym, ◌∙◌, [], ◌∷◌, arith, ◌==◌,
  if◌then◌else◌, Bool-cases, inl, inr,
}
use dataman.Storage.{Bytes}
use dataman.Undo.Wire.{crc, crc_from, crc_bits, crc_bit}

-- One round for a bit: shift, and fold the polynomial in if the bit was set.
unfoldable pub index_bit : ℕ → ℕ
index_bit crc = if crc % 2 == 0 then crc / 2 else bit_xor (crc / 2) 0xedb88320

unfoldable pub index_bits : ℕ → ℕ → ℕ
unfolding index_bit
index_bits zero crc = crc
index_bits (suc n) crc = index_bits n (index_bit crc)

unfoldable pub index_crc_from : ℕ → Bytes → ℕ
unfolding index_bits
index_crc_from crc [] = crc
index_crc_from crc (b ∷ bytes) = index_crc_from (index_bits 8 (bit_xor crc b)) bytes

-- `index_v2_crc32`; the result is a `uint32_t`.
unfoldable pub index_crc : Bytes → ℕ
unfolding index_crc_from
index_crc bytes = bit_xor (index_crc_from 0xffff_ffff bytes) 0xffff_ffff % 2 ^ 32

pub index_crc-lt : (bytes : Bytes) → index_crc bytes < 2 ^ 32
unfolding index_crc
index_crc-lt bytes = omega arith

differ-zero : (x : ℕ) → differ x 0 ≡ x
differ-zero zero = refl
differ-zero (suc x) = refl

xor_digits_zero : (n a : ℕ) → a ≤ n → digits (λ b. b) differ n a 0 ≡ a
xor_digits_zero zero zero h = refl
xor_digits_zero zero (suc a) h = absurd (omega arith)
xor_digits_zero (suc n) zero h = refl
xor_digits_zero (suc n) (suc a) h =
    omega (arith, xor_digits_zero n (suc a / 2) (omega arith), differ-zero (suc a % 2))

bit_xor-zero : (a : ℕ) → bit_xor a 0 ≡ a
bit_xor-zero a = bit_xor-bitwise a 0 ∙ xor_digits_zero a a (omega arith)

index_bit_lem : (value : ℕ) → index_bit value ≡ crc_bit value
unfolding index_bit crc_bit
index_bit_lem value = elim (Bool-cases (value % 2 == 0)) [
  | inl even ↦
      (let mask : (2 ^ 32 - value % 2) % 2 ^ 32 ≡ 0 = ground arith in
        simp (index_bit, crc_bit, even, mask) (sym (bit_xor-zero (value / 2))))
  | inr odd ↦
      (let mask : (2 ^ 32 - value % 2) % 2 ^ 32 ≡ 0xffff_ffff = ground arith in
        simp (index_bit, crc_bit, odd, mask) refl)
]

index_bits_lem : (n value : ℕ) → index_bits n value ≡ crc_bits n value
unfolding index_bits crc_bits
index_bits_lem zero value = refl
index_bits_lem (suc n) value =
    ap (index_bits n) (index_bit_lem value) ∙ index_bits_lem n (crc_bit value)

index_crc_from_lem : (value : ℕ) (bytes : Bytes) → index_crc_from value bytes ≡ crc_from value bytes
unfolding index_crc_from crc_from
index_crc_from_lem value [] = refl
index_crc_from_lem value (b ∷ bytes) =
    ap (λ (v : ℕ). index_crc_from v bytes) (index_bits_lem 8 (bit_xor value b))
    ∙ index_crc_from_lem (crc_bits 8 (bit_xor value b)) bytes

-- The two checksums of the server are the same function: `index_v2_crc32`, which tests each bit, and the
-- journal's `crc`, which masks the polynomial.
pub index_crc-crc : (bytes : Bytes) → index_crc bytes ≡ crc bytes
unfolding index_crc crc
index_crc-crc bytes =
    ap (λ (v : ℕ). bit_xor v 0xffff_ffff % 2 ^ 32) (index_crc_from_lem 0xffff_ffff bytes)
