-- ===== src/Jsonl/Stamp.antt =====
-- rust/sensorwatch-cli/src/jsonl.rs: a rendered timestamp says what it was rendered from.
use sensorwatch.Prelude.{
  ℕ, ◌+◌, ◌*◌, ◌/◌, ◌≤◌, ◌<◌, Bool, false, Option, none, some, [], ◌∷◌, ◌==◌, if◌then◌else◌, take,
  drop,
}
use sensorwatch.Prelude.Int.{pos, pos_part, neg_part, ltb_ℤ}
use sensorwatch.Prelude.Panic.{◌>>=◌}
use sensorwatch.Prelude.Text.{Text}
use sensorwatch.Prelude.Decimal.{digits_value}
use sensorwatch.Jsonl.{Zoned}

-- A reader of RFC 3339 timestamps with six digits of a second, whose offset is a sign and a number of
-- minutes, and `Z` for none.
pub record Stamp : Type 0 where
  pub year : ℕ
  pub month : ℕ
  pub day : ℕ
  pub hour : ℕ
  pub minute : ℕ
  pub second : ℕ
  pub microsecond : ℕ
  pub behind : Bool
  pub offset_minutes : ℕ

-- the number in the next `w` places, and what follows them
unfoldable pub field : ℕ → Text → ℕ × Text
unfolding digits_value
field w s = (digits_value 0 (take w s), drop w s)

abbrev pub skip : ℕ → Text → Option Text
skip c [] = none
skip c (d ∷ s) = if d == c then some s else none

unfoldable pub read_offset : Text → Option (Bool × ℕ)
read_offset [] = none
read_offset (c ∷ s) = if c == b'Z' then some (false, 0) else do
  let (hours, s1) = field 2 s
  s2 ← skip b':' s1
  some (c == b'-', hours * 60 + (field 2 s2).0)

-- each step takes what was read, the next number, and what follows it
abbrev pub from_fraction : (year month day hour minute second : ℕ) → ℕ × Text → Option Stamp
from_fraction year month day hour minute second (microsecond, s) = do
  (behind, offset_minutes) ← read_offset s
  some record {
    year = year;
    month = month;
    day = day;
    hour = hour;
    minute = minute;
    second = second;
    microsecond = microsecond;
    behind = behind;
    offset_minutes = offset_minutes;
  }

abbrev pub from_second : (year month day hour minute : ℕ) → ℕ × Text → Option Stamp
from_second year month day hour minute (second, s) =
    skip b'.' s >>= λ rest. from_fraction year month day hour minute second (field 6 rest)

abbrev pub from_minute : (year month day hour : ℕ) → ℕ × Text → Option Stamp
from_minute year month day hour (minute, s) =
    skip b':' s >>= λ rest. from_second year month day hour minute (field 2 rest)

abbrev pub from_hour : (year month day : ℕ) → ℕ × Text → Option Stamp
from_hour year month day (hour, s) =
    skip b':' s >>= λ rest. from_minute year month day hour (field 2 rest)

abbrev pub from_day : (year month : ℕ) → ℕ × Text → Option Stamp
from_day year month (day, s) = skip b'T' s >>= λ rest. from_hour year month day (field 2 rest)

abbrev pub from_month : ℕ → ℕ × Text → Option Stamp
from_month year (month, s) = skip b'-' s >>= λ rest. from_day year month (field 2 rest)

abbrev pub from_year : ℕ × Text → Option Stamp
from_year (year, s) = skip b'-' s >>= λ rest. from_month year (field 2 rest)

unfoldable pub read_stamp : Text → Option Stamp
read_stamp s = from_year (field 4 s)

-- what civil times and offsets are within
pub record IsCivil (now : Zoned) : Type 0 where
  pub year_fits : now.year < 10_000
  pub month_fits : now.month ≤ 12
  pub day_fits : now.day ≤ 31
  pub hour_fits : now.hour < 24
  pub minute_fits : now.minute < 60
  pub second_fits : now.second < 60
  pub subsec_fits : now.subsec_nanosecond < 1_000_000_000
  pub offset_fits : pos_part now.offset_seconds + neg_part now.offset_seconds < 100_000

abbrev pub offset_of : Zoned → Bool × ℕ
offset_of now = if now.is_utc then (false, 0) else (
  ltb_ℤ now.offset_seconds (pos 0),
  (pos_part now.offset_seconds + neg_part now.offset_seconds) / 60,
)

abbrev pub stamp_of : Zoned → Stamp
stamp_of now = record {
  year = now.year;
  month = now.month;
  day = now.day;
  hour = now.hour;
  minute = now.minute;
  second = now.second;
  microsecond = now.subsec_nanosecond / 1_000;
  behind = (offset_of now).0;
  offset_minutes = (offset_of now).1;
}
