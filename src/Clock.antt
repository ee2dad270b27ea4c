-- ===== src/Clock.antt =====
-- Timestamps: `ensure_utc` and `format_timestamp` of src/oathcast/forecast.py. A datetime is an
-- instant, in microseconds from 1970 on, with whether it carries a timezone; `astimezone(UTC)` keeps
-- the instant, so the offset itself is not kept.
mod Tests
pub use oathcast.Prelude.Moment.{Moment}
use Prim.Native.String.{◌++◌}
use oathcast.Prelude.{
  ℕ, ◌+◌, ◌-◌, ◌*◌, ◌/◌, ◌%◌, String, Bool, Option, none, some, ltb, leb, eqb, if◌then◌else◌, ◌≡◌,
  true,
}
use oathcast.Prelude.Exec.{Result, ok, err}
use oathcast.Json.Dumps.{decimal}

pub record Date : Type 0 where
  pub year : ℕ
  pub month : ℕ
  pub day : ℕ

-- The proleptic Gregorian date of a day, counted from 1970-01-01, by 400-year eras that begin in
-- March.
unfoldable pub date_of_days : ℕ → Date
date_of_days days =
    let z = days + 719468 in
    let doe = z % 146097 in
    let yoe = (doe - doe / 1460 + doe / 36524 - doe / 146096) / 365 in
    let doy = doe - (365 * yoe + yoe / 4 - yoe / 100) in
    let mp = (5 * doy + 2) / 153 in
    let month : ℕ = if ltb mp 10 then mp + 3 else mp - 9 in
    record {
      year = yoe + z / 146097 * 400 + (if leb month 2 then 1 else 0);
      month = month;
      day = doy - (153 * mp + 2) / 5 + 1;
    }

two_digits : ℕ → String
unfolding decimal
two_digits n = if ltb n 10 then "0" ++ decimal n else decimal n

three_digits : ℕ → String
unfolding two_digits
three_digits n = if ltb n 100 then "0" ++ two_digits n else decimal n

-- `isoformat` writes the microseconds only if there are any.
fraction : ℕ → String
unfolding three_digits
fraction n = if eqb n 0 then "" else "." ++ three_digits (n / 1000) ++ three_digits (n % 1000)

-- `value.isoformat().replace("+00:00", "Z")` in UTC, for the years 1970 to 9999.
unfoldable pub iso_utc : ℕ → String
unfolding date_of_days fraction
iso_utc micros =
    let seconds = micros / 1000000 in
    let d = date_of_days (seconds / 86400) in
    decimal d.year
    ++ "-"
    ++ two_digits d.month
    ++ "-"
    ++ two_digits d.day
    ++ "T"
    ++ two_digits (seconds % 86400 / 3600)
    ++ ":"
    ++ two_digits (seconds % 3600 / 60)
    ++ ":"
    ++ two_digits (seconds % 60)
    ++ fraction (micros % 1000000)
    ++ "Z"

-- `none` is the ValueError about a datetime with no timezone.
unfoldable pub ensure_utc : Moment → Option ℕ
ensure_utc m = if m.aware then some m.micros else none

unfoldable pub format_timestamp : Moment → Option String
unfolding iso_utc
format_timestamp m = if m.aware then some (iso_utc m.micros) else none

pub format_timestamp-aware :
    (m : Moment) → m.aware ≡ true → format_timestamp m ≡ some (iso_utc m.micros)
unfolding format_timestamp
format_timestamp-aware m e = rw e
