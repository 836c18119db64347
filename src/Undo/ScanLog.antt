-- ===== src/Undo/ScanLog.antt =====
-- `scan` of server/undo_journal.c over a whole journal of byte undos, with a last record that may be
-- torn off.
use dataman.Base.{
  ℕ, zero, suc, ◌+◌, ◌-◌, ◌^◌, ◌≤◌, ◌<◌, ◌≡◌, refl, ap, sym, ◌∙◌, ◌⊎◌, inl, inr, true, false, some,
  List, [], ◌∷◌, ◌++◌, arith, length, take, drop, ltb, le→not_ltb, not_ltb→le, lt→ltb, ltb→lt,
  eq→==, Bool-cases, All, if◌then◌else◌, append-nil, append_assoc, length-append, take-append_eq,
  drop-append_self, length-take, length-drop, drop-drop, take-take,
}
use dataman.Storage.{Bytes}
use dataman.Undo.Wire.{get32, crc}
use dataman.Undo.State.{Files, Place, record_size, max_write, ok, type_undo, type_resolved}
use dataman.Undo.Record.{Fields, seal, undo_record}
use dataman.Undo.Layout.{Fits, Says, fixed_bytes, seal_split, take-fixed_bytes, fixed_bytes-Says}
use dataman.Undo.Scan.{UndoEntry, Entry, undo, fixed_valid}
use dataman.Undo.ScanLoop.{stop, Step, entry_here, scan_record, scan_loop, extra_of}
use dataman.Undo.ScanUndo.{
  IsReadable, fields_of, record_of, record_of-Says, length-record_of, scan_undo_lem,
  fixed_valid_lem, fields_of-Fits, payload_of, payload_of_record,
}

-- The fixed bytes of a record, read off the journal at its position.
fixed_at :
    (r : Fields) (payload journal rest : Bytes) (at : ℕ)
    → drop at journal ≡ seal r payload ++ rest
    → take record_size (drop at journal) ≡ fixed_bytes r payload
fixed_at r payload journal rest at h =
    rw (h, seal_split r payload, append_assoc (fixed_bytes r payload) payload rest)
      (take-fixed_bytes r payload (payload ++ rest))

fixed_at-Says : (r : Fields) (payload : Bytes) → Fits r → Says (fixed_bytes r payload) r payload
fixed_at-Says r payload f =
    rw (append-nil (fixed_bytes r payload)) at (fixed_bytes-Says r payload [] f)

-- How much of the journal is left at a position.
left_at :
    (journal rest : Bytes) (at : ℕ) → drop at journal ≡ rest → length journal - at ≡ length rest
left_at journal rest at h = omega (arith, length-drop at journal, ap length h)

pub undo_record_lem :
    (sequence : ℕ) (e : UndoEntry)
    → record_of sequence e ≡ seal (fields_of sequence e) (payload_of e)
unfolding undo_record
undo_record_lem sequence e = refl

never_negative : (n : ℕ) (s : Step) → (if ltb n 0 then stop else s) ≡ s
never_negative n s = ground arith

scan_record_lem :
    (place : Place) (files : Files) (journal rest : Bytes) (at sequence : ℕ) (entries : List Entry)
    (e : UndoEntry)
    → IsReadable place files e
    → sequence < 2 ^ 64 - 1
    → drop at journal ≡ record_of sequence e ++ rest
    → scan_record 4 place files journal at entries (take record_size (drop at journal)) 0
      ≡ entry_here (undo e)
unfolding scan_record
scan_record_lem place files journal rest at sequence entries e v lt h =
    let r = fields_of sequence e in
    let s = fixed_at-Says r (payload_of e) (fields_of-Fits place files sequence e v lt) in
    let w = record_of-Says place files sequence e v lt in
    let whole : take (record_size + length e.name + length e.before) (drop at journal)
        ≡ record_of sequence e =
      rw h (
        take-append_eq (record_size + length e.name + length e.before) (record_of sequence e) rest
          (sym (length-record_of sequence e))) in
    let left = left_at journal (record_of sequence e ++ rest) at h in
    let enough : record_size + length e.name + length e.before ≤ length journal - at =
      omega (arith, left, length-append (record_of sequence e) rest, length-record_of sequence e) in
    let sum : get32 (record_of sequence e) 60 ≡ crc (drop record_size (record_of sequence e)) =
      w.payload_crc ∙ sym (ap crc (payload_of_record sequence e)) in
    simp
      (
        fixed_at r (payload_of e) journal rest at
            (h ∙ ap (λ (xs : Bytes). xs ++ rest) (undo_record_lem sequence e)),
        s.size,
        s.type,
        whole,
        scan_undo_lem place files sequence e v lt,
        le→not_ltb (length journal - at) (record_size + length e.name + length e.before) enough,
        eq→== (get32 (record_of sequence e) 60) (crc (drop record_size (record_of sequence e))) sum,
      )
      (never_negative (length journal - at - (record_size + length e.name + length e.before))
        (entry_here (undo e)))

-- The records of entries in order, the first of them with this number before it.
unfoldable pub log_bytes : ℕ → List UndoEntry → Bytes
log_bytes sequence [] = []
log_bytes sequence (e ∷ log) = record_of sequence e ++ log_bytes (sequence + 1) log

-- Entries as the loop stacks them up.
abbrev pub stack : List UndoEntry → List Entry → List Entry
stack [] entries = entries
stack (e ∷ log) entries = stack log (undo e ∷ entries)

-- The first part of a record that was not written to its end, or nothing.
pub record IsFragment (sequence : ℕ) (tail : Bytes) : Type 0 where
  pub fields : Fields
  pub payload : Bytes
  pub cut : ℕ
  pub is_part : tail ≡ take cut (seal fields payload)
  pub fits : Fits fields
  pub plain : (fields.type ≡ type_undo) ⊎ (fields.type ≡ type_resolved)
  pub numbered : fields.sequence ≡ sequence + 1
  pub name_short : fields.name_size ≤ 4095
  pub short : fields.length ≤ max_write
  pub total : fields.size ≡ record_size + fields.name_size + fields.length
  pub cut_lt : cut < fields.size

loop_end :
    (place : Place) (files : Files) (journal : Bytes) (fuel at sequence : ℕ) (entries : List Entry)
    → length journal - at < record_size
    → scan_loop (suc fuel) 4 place files journal at sequence entries false
      ≡ ok (record { entries = entries; resolved = false; end = at; sequence = sequence })
unfolding scan_loop
loop_end place files journal fuel at sequence entries h =
    rw (lt→ltb (length journal - at) record_size h)
      (elim (Bool-cases (ltb at (length journal))) [ inl a ↦ rw a refl | inr b ↦ rw b refl ])

scan_record_stops :
    (place : Place) (files : Files) (journal : Bytes) (at : ℕ) (entries : List Entry)
    (fixed : Bytes) (extra : ℕ)
    → length journal - at < get32 fixed 16
    → scan_record 4 place files journal at entries fixed extra ≡ stop
unfolding scan_record
scan_record_stops place files journal at entries fixed extra h = rw (lt→ltb _ _ h)

no_extra :
    (r : Fields) (p : Bytes)
    → Says (fixed_bytes r p) r p
    → (r.type ≡ type_undo) ⊎ (r.type ≡ type_resolved)
    → extra_of (fixed_bytes r p) ≡ some 0
no_extra r p s (inl t) = rw (s.type, t)
no_extra r p s (inr t) = rw (s.type, t)

-- The 72 bytes at the head of a record are also at the head of a longer part of it.
fixed_of_part :
    (r : Fields) (payload : Bytes) (cut : ℕ)
    → 72 ≤ cut
    → take record_size (take cut (seal r payload)) ≡ fixed_bytes r payload
unfolding fixed_bytes
fixed_of_part r payload cut h = take-take 72 cut (seal r payload) h

next_at :
    (journal bytes rest : Bytes) (at next : ℕ)
    → drop at journal ≡ bytes ++ rest
    → next ≡ at + length bytes
    → drop next journal ≡ rest
next_at journal bytes rest at next h e =
    rw (e, ← drop-drop at (length bytes) journal, h) (drop-append_self bytes rest)

-- The loop stops at a fragment.
scan_fragment :
    (place : Place) (files : Files) (journal tail : Bytes) (fuel at sequence : ℕ)
    (entries : List Entry)
    → IsFragment sequence tail
    → sequence < 2 ^ 64 - 1
    → drop at journal ≡ tail
    → scan_loop (suc fuel) 4 place files journal at sequence entries false
      ≡ ok (record { entries = entries; resolved = false; end = at; sequence = sequence })
unfolding scan_loop
scan_fragment place files journal tail fuel at sequence entries g lt h =
    elim (Bool-cases (ltb (length journal - at) record_size)) [
      | inl short ↦ loop_end place files journal fuel at sequence entries (ltb→lt _ _ short)
      | inr long ↦
          (let r = g.fields in
            let p = g.payload in
            let left : length journal - at ≡ length tail = left_at journal tail at h in
            let tail_len : length tail ≤ g.cut =
              rw (g.is_part) (omega (arith, length-take g.cut (seal r p))) in
            let many : record_size ≤ length journal - at = not_ltb→le _ _ long in
            let fixed_eq : take record_size (drop at journal) ≡ fixed_bytes r p =
              rw (h, g.is_part) (fixed_of_part r p g.cut (omega (arith, left, tail_len))) in
            let s = fixed_at-Says r p g.fits in
            let valid : fixed_valid 4 sequence (take record_size (drop at journal)) ≡ true =
              rw fixed_eq (
                fixed_valid_lem _ r p sequence s g.plain g.numbered lt g.name_short g.short
                  g.total) in
            let extra : extra_of (take record_size (drop at journal)) ≡ some 0 =
              rw fixed_eq (no_extra r p s g.plain) in
            let size : get32 (take record_size (drop at journal)) 16 ≡ r.size =
              rw fixed_eq s.size in
            simp
              (
                lt→ltb at (length journal) (omega (arith, many)),
                le→not_ltb (length journal - at) record_size many,
                valid,
                extra,
              )
              (simp (
                scan_record_stops place files journal at entries
                  (take record_size (drop at journal)) 0
                  (rw size (omega (arith, left, tail_len, g.cut_lt))))))
    ]

scan_round :
    (place : Place) (files : Files) (journal rest : Bytes) (fuel at sequence : ℕ)
    (entries : List Entry) (e : UndoEntry)
    → IsReadable place files e
    → sequence < 2 ^ 64 - 1
    → drop at journal ≡ record_of sequence e ++ rest
    → scan_loop (suc fuel) 4 place files journal at sequence entries false
      ≡ scan_loop fuel 4 place files journal
          (at + (record_size + length e.name + length e.before) + 0)
          (sequence + 1)
          (undo e ∷ entries)
          false
unfolding scan_loop
scan_round place files journal rest fuel at sequence entries e v lt h =
    let r = fields_of sequence e in
    let s = fixed_at-Says r (payload_of e) (fields_of-Fits place files sequence e v lt) in
    let fixed_eq =
      fixed_at r (payload_of e) journal rest at
        (h ∙ ap (λ (xs : Bytes). xs ++ rest) (undo_record_lem sequence e)) in
    let left = left_at journal (record_of sequence e ++ rest) at h in
    let many : record_size ≤ length journal - at =
      omega (arith, left, length-append (record_of sequence e) rest, length-record_of sequence e) in
    let valid : fixed_valid 4 sequence (take record_size (drop at journal)) ≡ true = rw fixed_eq (
      fixed_valid_lem _ r (payload_of e) sequence s (inl refl) refl lt v.name_short v.before_short
        refl) in
    let extra : extra_of (take record_size (drop at journal)) ≡ some 0 =
      rw fixed_eq (no_extra r (payload_of e) s (inl refl)) in
    let size : get32 (take record_size (drop at journal)) 16
        ≡ record_size + length e.name + length e.before =
      rw fixed_eq s.size in
    simp
      (
        lt→ltb at (length journal) (omega (arith, many)),
        le→not_ltb (length journal - at) record_size many,
        valid,
        extra,
      )
      (simp (scan_record_lem place files journal rest at sequence entries e v lt h) (rw size refl))

-- The whole loop: a journal that holds the records of readable entries and then a fragment.
pub scan_log :
    (place : Place) (files : Files) (journal tail : Bytes) (log : List UndoEntry)
    (fuel at sequence : ℕ) (entries : List Entry)
    → All (IsReadable place files) log
    → drop at journal ≡ log_bytes sequence log ++ tail
    → IsFragment (sequence + length log) tail
    → length log < fuel
    → sequence + length log < 2 ^ 64 - 1
    → scan_loop fuel 4 place files journal at sequence entries false
      ≡ ok (record {
        entries = stack log entries;
        resolved = false;
        end = at + length (log_bytes sequence log);
        sequence = sequence + length log;
      })
unfolding log_bytes
scan_log place files journal tail [] zero at sequence entries all h g f lt = absurd (omega arith)
scan_log place files journal tail (e ∷ log) zero at sequence entries all h g f lt =
    absurd (omega arith)
scan_log place files journal tail [] (suc fuel) at sequence entries all h g f lt =
    let e1 : sequence + 0 ≡ sequence = omega arith in
    let e2 : at + 0 ≡ at = omega arith in
    rw (e1, e2)
      (scan_fragment place files journal tail fuel at sequence entries (rw e1 at g) (omega arith) h)
scan_log place files journal tail (e ∷ log) (suc fuel) at sequence entries all h g f lt =
    let here : drop at journal ≡ record_of sequence e ++ (log_bytes (sequence + 1) log ++ tail) =
      h ∙ append_assoc (record_of sequence e) (log_bytes (sequence + 1) log) tail in
    let next : ℕ = at + (record_size + length e.name + length e.before) + 0 in
    let rest : drop next journal ≡ log_bytes (sequence + 1) log ++ tail =
      next_at journal (record_of sequence e) (log_bytes (sequence + 1) log ++ tail) at next here
        (omega (arith, length-record_of sequence e)) in
    let count : sequence + 1 + length log ≡ sequence + suc (length log) = omega arith in
    let place_end : next + length (log_bytes (sequence + 1) log)
        ≡ at + length (record_of sequence e ++ log_bytes (sequence + 1) log) =
      omega (
        arith,
        length-append (record_of sequence e) (log_bytes (sequence + 1) log),
        length-record_of sequence e,
      ) in
    scan_round place files journal _ fuel at sequence entries e all.0 (omega arith) here
    ∙ scan_log place files journal tail log fuel next (sequence + 1) (undo e ∷ entries) all.1 rest
        (rw count g) (omega arith) (omega arith)
    ∙ (λ i. ok (record {
      entries = stack log (undo e ∷ entries);
      resolved = false;
      end = place_end i;
      sequence = count i;
    }))
