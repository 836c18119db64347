-- ===== src/Storage/Windows.antt =====
-- What a read finds after a write, inside the range that was written and outside of it.
use dataman.Base.{
  ℕ, ◌+◌, ◌-◌, ◌≤◌, ◌<◌, min, ◌≡◌, ap, ◌⊎◌, [], ◌∷◌, arith, length, drop, length-take, length-drop,
}
use dataman.Storage.{Bytes, pwrite, pread}
use dataman.Storage.Transfer.{pwrite-nil}
use dataman.Storage.Content.{byte, content_ext, byte-pwrite, length-pwrite, byte-pread}

pub length-pread :
    (content : Bytes) (offset size : ℕ)
    → length (pread content offset size) ≡ min size (length content - offset)
length-pread content offset size =
    omega (arith, length-take size (drop offset content), length-drop offset content)

-- A read inside the range.
pub pread-pwrite_inside :
    (content : Bytes) (at : ℕ) (bytes : Bytes) (k size : ℕ)
    → 0 < length bytes
    → k + size ≤ length bytes
    → pread (pwrite content at bytes) (at + k) size ≡ pread bytes k size
pread-pwrite_inside content at bytes k size some_bytes h =
    content_ext _ _
      (omega (
        arith,
        length-pread (pwrite content at bytes) (at + k) size,
        length-pread bytes k size,
        length-pwrite content at bytes some_bytes,
      ))
      (λ p.
        let same : at + k + p - at ≡ k + p = omega arith in
        ground (
          arith,
          byte-pread (pwrite content at bytes) (at + k) size p,
          byte-pread bytes k size p,
          byte-pwrite content at bytes (at + k + p),
          ap (byte bytes) same,
        ))

-- A read outside the range, of bytes that were all there.
pub pread-pwrite_outside :
    (content : Bytes) (at : ℕ) (bytes : Bytes) (offset size : ℕ)
    → offset + size ≤ length content
    → (offset + size ≤ at) ⊎ (at + length bytes ≤ offset)
    → pread (pwrite content at bytes) offset size ≡ pread content offset size
pread-pwrite_outside content at [] offset size h apart =
    ap (λ (c : Bytes). pread c offset size) (pwrite-nil content at)
pread-pwrite_outside content at (b ∷ bytes) offset size h apart =
    content_ext _ _
      (omega (
        arith,
        length-pread (pwrite content at (b ∷ bytes)) offset size,
        length-pread content offset size,
        length-pwrite content at (b ∷ bytes) (omega arith),
      ))
      (λ p. ground (
        arith,
        byte-pread (pwrite content at (b ∷ bytes)) offset size p,
        byte-pread content offset size p,
        byte-pwrite content at (b ∷ bytes) (offset + p),
      ))
