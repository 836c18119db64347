-- ===== src/Index/Whole.antt =====
-- `index_v2_insert` of server/index_v2.c, from the file to the file.
use dataman.Base.{ℕ, ◌+◌, ◌-◌, ◌*◌, ◌/◌, ◌≡◌, false, List, length}
use dataman.Storage.{Bytes}
use dataman.Index.Device.{Device}
use dataman.Index.Node.{Format, Pool}
use dataman.Index.Header.{Heading}
use dataman.Index.Tree.{Tree}
use dataman.Index.Insertion.{Placement}
use dataman.Index.Visible.{Visible}

-- The format that the header gives.
abbrev pub format_of : Heading → ℕ → Format
format_of h size = record {
  keylen = h.keylen;
  file_count = h.file_count;
  page_size = size;
  in_place = false;
}

abbrev pub end_of : Device → ℕ → ℕ
end_of d size = (length d.content + size - 1) / size * size

-- The file in which the insertion is visible.
pub record VisibleIn (fmt : Format) (d : Device) (height : ℕ) (es : List Bytes) (h : Heading)
    (reply : Placement) : Type 0 where
  pub pool : Pool
  pub device : pool.device ≡ d
  pub visible : Visible fmt pool height es h reply
