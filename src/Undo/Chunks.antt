-- ===== src/Undo/Chunks.antt =====
-- The chunks of a blob in the journal of server/undo_journal.c: `blob_stream` reads back what
-- `append_blob` writes.
use dataman.Base.{
  ℕ, zero, suc, ◌+◌, ◌-◌, ◌^◌, ◌≤◌, ◌<◌, ◌≡◌, refl, ap, sym, ◌∙◌, [], ◌∷◌, ◌++◌, arith, length,
  take, drop, ltb, if◌then◌else◌, append_assoc, length-take, length-drop, drop-drop, take-append_eq,
  drop-append_eq, eq→==, min,
}
use dataman.Storage.{Bytes}
use dataman.Undo.Wire.{put_bytes, put32, get32, crc, crc-lt, get_bytes-put32}
use dataman.Undo.State.{blob_chunk, Result, ok, fail}
use dataman.Undo.Record.{chunks}
use dataman.Undo.Scan.{blob_stream}

take-drop_id : (n : ℕ) (xs : Bytes) → take n xs ++ drop n xs ≡ xs
take-drop_id zero xs = refl
take-drop_id (suc n) [] = refl
take-drop_id (suc n) (x ∷ xs) = ap (◌∷◌ x) (take-drop_id n xs)

-- A chunk's eight bytes before its data.
abbrev chunk_head : Bytes → Bytes
chunk_head chunk = put32 (length chunk) ++ put32 (crc chunk)

chunk_bytes-split :
    (chunk rest : Bytes)
    → put32 (length chunk) ++ (put32 (crc chunk) ++ (chunk ++ rest))
      ≡ chunk_head chunk ++ (chunk ++ rest)
unfolding put32 put_bytes
chunk_bytes-split chunk rest = refl

length-chunk_head : (chunk : Bytes) → length (chunk_head chunk) ≡ 8
unfolding put32 put_bytes
length-chunk_head chunk = refl

size_in_head : (chunk : Bytes) → length chunk < 2 ^ 32 → get32 (chunk_head chunk) 0 ≡ length chunk
unfolding put32 put_bytes get32
size_in_head chunk h = get_bytes-put32 (length chunk) h

crc_in_head : (chunk : Bytes) → get32 (chunk_head chunk) 4 ≡ crc chunk
unfolding put32 put_bytes get32
crc_in_head chunk = get_bytes-put32 (crc chunk) (crc-lt chunk)

min_lem : (m n : ℕ) → (if ltb m n then m else n) ≡ min m n
min_lem m n = ground arith

count_lem :
    (b : ℕ) (c : Bytes)
    → (if ltb blob_chunk (suc (length c)) then blob_chunk else suc (length c))
      ≡ length (take blob_chunk (b ∷ c))
count_lem b c = min_lem blob_chunk (suc (length c)) ∙ sym (length-take blob_chunk (b ∷ c))

-- One round of `blob_stream` over a chunk that is in order.
stream_round :
    (fuel : ℕ) (journal chunk rest : Bytes) (at n : ℕ)
    → drop at journal ≡ chunk_head chunk ++ (chunk ++ rest)
    → length chunk < 2 ^ 32
    → (if ltb blob_chunk (suc n) then blob_chunk else suc n) ≡ length chunk
    → blob_stream (suc fuel) journal at (suc n)
      ≡ elim (blob_stream fuel journal (at + 8 + length chunk) (suc n - length chunk)) [
        | ok bytes ↦ ok (chunk ++ bytes)
        | fail e ↦ fail e
      ]
unfolding blob_stream
stream_round fuel journal chunk rest at n h small count =
    let head : take 8 (drop at journal) ≡ chunk_head chunk =
      rw h (take-append_eq 8 (chunk_head chunk) (chunk ++ rest) (sym (length-chunk_head chunk))) in
    let behind : drop (at + 8) journal ≡ chunk ++ rest =
      sym (drop-drop at 8 journal)
      ∙ ap (drop 8) h
      ∙ drop-append_eq 8 (chunk_head chunk) (chunk ++ rest) (sym (length-chunk_head chunk)) in
    let data_ : take (length chunk) (drop (at + 8) journal) ≡ chunk =
      rw behind (take-append_eq (length chunk) chunk rest refl) in
    simp
      (
        count,
        head,
        data_,
        eq→== (length (chunk_head chunk)) 8 (length-chunk_head chunk),
        eq→== (get32 (chunk_head chunk) 0) (length chunk) (size_in_head chunk small),
        eq→== (length chunk) (length chunk) refl,
        eq→== (get32 (chunk_head chunk) 4) (crc chunk) (crc_in_head chunk),
      )
      (ap
        (λ (xs : Bytes).
          elim (blob_stream fuel journal (at + 8 + length chunk) (suc n - length chunk))
            as (λ x. Result Bytes) [ ok bytes ↦ ok (xs ++ bytes) | fail e ↦ fail e ])
        (ap (λ (k : ℕ). take k (drop (at + 8) journal)) count ∙ data_))

-- The chunks that `append_blob` writes for a content, wherever they stand in the journal, are read back
-- as that content; as much fuel as there are bytes is enough on both sides.
pub blob_stream-chunks :
    (content journal rest : Bytes) (at fuel k : ℕ)
    → length content ≤ fuel
    → length content ≤ k
    → drop at journal ≡ chunks k content ++ rest
    → blob_stream fuel journal at (length content) ≡ ok content
unfolding chunks blob_stream
blob_stream-chunks [] journal rest at fuel k h j e = refl
blob_stream-chunks (b ∷ c) journal rest at zero k h j e = absurd (omega arith)
blob_stream-chunks (b ∷ c) journal rest at (suc fuel) zero h j e = absurd (omega arith)
blob_stream-chunks (b ∷ c) journal rest at (suc fuel) (suc k) h j e =
    let chunk = take blob_chunk (b ∷ c) in
    let more = drop blob_chunk (b ∷ c) in
    let size = length-take blob_chunk (b ∷ c) in
    let left = length-drop blob_chunk (b ∷ c) in
    let here : drop at journal ≡ chunk_head chunk ++ (chunk ++ (chunks k more ++ rest)) =
      e
      ∙ ap (λ (xs : Bytes). xs ++ rest) (chunk_bytes-split chunk (chunks k more))
      ∙ append_assoc (chunk_head chunk) (chunk ++ chunks k more) rest
      ∙ ap (λ (xs : Bytes). chunk_head chunk ++ xs) (append_assoc chunk (chunks k more) rest) in
    let next : drop (at + 8 + length chunk) journal ≡ chunks k more ++ rest =
      sym (drop-drop (at + 8) (length chunk) journal)
      ∙ ap (drop (length chunk)) (
          sym (drop-drop at 8 journal)
          ∙ ap (drop 8) here
          ∙ drop-append_eq 8 (chunk_head chunk) (chunk ++ (chunks k more ++ rest))
              (sym (length-chunk_head chunk)))
      ∙ drop-append_eq (length chunk) chunk (chunks k more ++ rest) refl in
    let remaining : suc (length c) - length chunk ≡ length more = omega (arith, size, left) in
    let recursive =
      blob_stream-chunks more journal rest (at + 8 + length chunk) fuel k (omega (arith, left))
        (omega (arith, left)) next in
    stream_round fuel journal chunk (chunks k more ++ rest) at (length c) here (omega (arith, size))
      (count_lem b c)
    ∙ rw (remaining, recursive) (ap (λ (xs : Bytes). ok xs) (take-drop_id blob_chunk (b ∷ c)))
