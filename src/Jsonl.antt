-- ===== src/Jsonl.antt =====
-- jsonl.rs: the records of the log. How serde_json renders a record with the Python separators is a
-- parameter.
pub mod Stamp
use sensorwatch.Prelude.{
  ℕ, zero, suc, ◌+◌, ◌-◌, ◌/◌, ◌%◌, Bool, true, false, Option, none, some, List, [], ◌∷◌, ◌++◌, ltb,
  if◌then◌else◌, length,
}
use sensorwatch.Prelude.Int.{ℤ, pos, pos_part, neg_part, ltb_ℤ}
use sensorwatch.Prelude.Text.{Text, text}
use sensorwatch.Prelude.Decimal.{print}
use sensorwatch.Labels.{type_label}
use sensorwatch.Source.{SampleReading}
use sensorwatch.Binding.{Reading}

pub record LogEntry (W : Type 0) : Type 0 where
  pub sensor : Text
  pub reading : Text
  pub kind : Text
  pub value : W
  pub min : W
  pub max : W
  pub avg : W
  pub unit : Text

module _ {W : Type 0} where
  -- `From<&Reading>`
  unfoldable pub entry_of_reading : Reading W → LogEntry W
  entry_of_reading r = record {
    sensor = r.sensor;
    reading = r.reading;
    kind = type_label r.kind;
    value = r.value;
    min = r.minimum;
    max = r.maximum;
    avg = r.average;
    unit = r.unit;
  }

  -- `From<&SampleReading>`
  unfoldable pub entry_of_sample_reading : SampleReading W → LogEntry W
  entry_of_sample_reading r = record {
    sensor = r.sensor;
    reading = r.reading;
    kind = r.kind;
    value = r.value;
    min = r.min;
    max = r.max;
    avg = r.avg;
    unit = r.unit;
  }

-- The civil fields of a `Zoned`, whose year is not negative, with its offset in seconds and whether the
-- name of its zone is UTC.
pub record Zoned : Type 0 where
  pub year : ℕ
  pub month : ℕ
  pub day : ℕ
  pub hour : ℕ
  pub minute : ℕ
  pub second : ℕ
  pub subsec_nanosecond : ℕ
  pub offset_seconds : ℤ
  pub is_utc : Bool

abbrev pub zeros : ℕ → Text
zeros zero = []
zeros (suc n) = b'0' ∷ zeros n

-- `{:0width}`
unfoldable pub padded : ℕ → ℕ → Text
unfolding print
padded width n = zeros (width - length (print n)) ++ print n

unfoldable pub offset_suffix : Zoned → Text
unfolding padded
offset_suffix now =
    let secs = pos_part now.offset_seconds + neg_part now.offset_seconds in
    let sign = if ltb_ℤ now.offset_seconds (pos 0) then b'-' else b'+' in
    if now.is_utc
    then text "Z"
    else sign ∷ (padded 2 (secs / 3_600) ++ b':' ∷ padded 2 ((secs % 3_600) / 60))

unfoldable pub format_timestamp : Zoned → Text
unfolding padded offset_suffix
format_timestamp now =
    padded 4 now.year
    ++ (b'-' ∷ padded 2 now.month
        ++ (b'-' ∷ padded 2 now.day
            ++ (b'T' ∷ padded 2 now.hour
                ++ (b':' ∷ padded 2 now.minute
                    ++ (b':' ∷ padded 2 now.second
                        ++ (b'.' ∷ padded 6 (now.subsec_nanosecond / 1_000)
                            ++ offset_suffix now))))))

module _ {W : Type 0} (format_record_raw : Text → List (LogEntry W) → Text) where
  unfoldable pub format_record : Zoned → List (LogEntry W) → Text
  unfolding format_timestamp
  format_record now entries = format_record_raw (format_timestamp now) entries
