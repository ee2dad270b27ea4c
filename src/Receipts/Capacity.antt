-- ===== src/Receipts/Capacity.antt =====
-- The telemetry of the receipt store: `capacity` and `row_count` of src/oathcast/receipts.py.
use oathcast.Prelude.{ℕ, ◌-◌, Bool, Option, none, some, length, ◌&&◌, not}
use oathcast.Prelude.Exec.{Exec, gets, pure, ◌>>=◌}
use oathcast.Receipts.Store.{Table, Caps, Error, over_cap}

pub record Report : Type 0 where
  pub rows : ℕ
  pub max_rows : Option ℕ
  pub used_bytes : ℕ
  pub max_bytes : Option ℕ
  pub accepting_new_receipts : Bool
  pub rows_remaining : Option ℕ
  pub bytes_remaining : Option ℕ

-- `max(0, cap - used)`, if there is a cap
abbrev pub remaining : Option ℕ → ℕ → Option ℕ
remaining none n = none
remaining (some cap) n = some (cap - n)

-- `capacity`
unfoldable pub capacity : Caps → Exec Table Error Report
capacity caps = do
  rows ← gets length
  used ← gets caps.used_bytes
  pure (record {
    rows = rows;
    max_rows = caps.max_rows;
    used_bytes = used;
    max_bytes = caps.max_bytes;
    accepting_new_receipts =
        not (over_cap caps.max_rows rows) && not (over_cap caps.max_bytes used);
    rows_remaining = remaining caps.max_rows rows;
    bytes_remaining = remaining caps.max_bytes used;
  })

-- `row_count`
unfoldable pub row_count : Exec Table Error ℕ
row_count = gets length
