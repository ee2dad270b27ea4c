-- ===== src/Prelude/Moment.antt =====
-- A datetime: an instant in microseconds from 1970 on, and whether it carries a timezone.
use Prim.Native.Nat.{ℕ}
use mathlib.Core.Bool.{Bool}

pub record Moment : Type 0 where
  pub micros : ℕ
  pub aware : Bool
