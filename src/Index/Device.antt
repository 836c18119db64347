-- ===== src/Index/Device.antt =====
-- An index file as server/index_v2.c reads and writes it, and where the system fails.
use dataman.Base.Int.{pos}
use dataman.Base.{
  ℕ, Bool, true, false, Option, none, some, List, [], ◌∷◌, ◌==◌, if◌then◌else◌, length,
}
use dataman.Storage.{Bytes, pwrite, pread, valid_range}
use dataman.Undo.State.{stopped}

-- The content, and what the coming writes and syncs do: `some n` fails after n bytes, `none` goes
-- well, and so does everything after the list.
pub record Device : Type 0 where
  pub content : Bytes
  pub stops : List (Option ℕ)

abbrev pub next_stop : List (Option ℕ) → Option ℕ
next_stop [] = none
next_stop (s ∷ stops) = s

abbrev pub later_stops : List (Option ℕ) → List (Option ℕ)
later_stops [] = []
later_stops (s ∷ stops) = stops

abbrev pub is_well : Option ℕ → Bool
is_well none = true
is_well (some n) = false

-- `write_full_at`, which ends in `dm_storage_write_at`.
unfoldable pub write_full_at : Bytes → ℕ → Device → Bool × Device
write_full_at bytes offset d =
    let stop = next_stop d.stops in
    if valid_range (length bytes) (pos offset)
    then (
      is_well stop,
      record {
        content = pwrite d.content offset (stopped stop bytes);
        stops = later_stops d.stops;
      },
    )
    else (false, d)

-- `fdatasync(fd) == 0`
unfoldable pub sync : Device → Bool × Device
sync d = (is_well (next_stop d.stops), record d { stops = later_stops d.stops })

-- `read_full_at`: the bytes, if the file has all of them.
unfoldable pub read_full_at : ℕ → ℕ → Bytes → Option Bytes
read_full_at size offset content =
    if length (pread content offset size) == size then some (pread content offset size) else none
