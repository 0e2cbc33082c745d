-- ===== src/Replay/Parse.antt =====
-- replay.rs: `parse_line` and `leading_timestamp`. What serde_json and jiff read is a parameter.
use sensorwatch.Prelude.{ℕ, Bool, Option, none, some, List, [], ◌∷◌, map, ◌==◌, if◌then◌else◌, take}
use sensorwatch.Prelude.Text.{Text, text, strip_prefix}
use sensorwatch.Float.{Float}
use sensorwatch.Labels.{normalize_type_label}
use sensorwatch.Source.{Timestamp, SampleReading, Sample}
use sensorwatch.Replay.Tokens.{fixup_python_tokens}

pub record RawEntry (W : Type 0) : Type 0 where
  pub sensor : Text
  pub reading : Text
  pub type_ : Text
  pub value : Option W
  pub min : Option W
  pub max : Option W
  pub avg : Option W
  pub unit : Text

pub record RawRecord (W : Type 0) : Type 0 where
  pub timestamp : Text
  pub sensors : List (RawEntry W)

-- `from_slice::<RawRecord>`, `from_slice::<IgnoredAny>`, `str::from_utf8` and the parsing of an instant,
-- where `none` is an error
pub record Readers (W : Type 0) : Type 0 where
  pub raw_record : Text → Option (RawRecord W)
  pub is_json : Text → Bool
  pub from_utf8 : Text → Option Text
  pub parse_timestamp : Text → Option Timestamp

abbrev pub timestamp_prefix : Text
timestamp_prefix = text "{\"timestamp\": \""

abbrev pub max_timestamp_bytes : ℕ
max_timestamp_bytes = 48

-- the bytes before the first quote
unfoldable pub before_quote : Text → Option Text
before_quote [] = none
before_quote (b ∷ bytes) =
    let rest = before_quote bytes in
    if b == b'"' then some [] else elim rest [ none ↦ none | some front ↦ some (b ∷ front) ]

module _ {W : Type 0} (readers : Readers W) where
  abbrev pub instant_of : Option Text → Option Timestamp
  instant_of none = none
  instant_of (some s) = readers.parse_timestamp s

  abbrev pub decoded_instant : Option Text → Option Timestamp
  decoded_instant none = none
  decoded_instant (some bytes) = instant_of (readers.from_utf8 bytes)

  abbrev pub leading_in : Option Text → Option Timestamp
  leading_in none = none
  leading_in (some rest) = decoded_instant (before_quote (take max_timestamp_bytes rest))

  unfoldable pub leading_timestamp : Text → Option Timestamp
  unfolding strip_prefix before_quote
  leading_timestamp line = leading_in (strip_prefix line timestamp_prefix)

  module _ ⦃f : Float W⦄ where
    abbrev pub or_nan : Option W → W
    or_nan none = f.nan
    or_nan (some v) = v

    abbrev pub reading_of_entry : RawEntry W → SampleReading W
    reading_of_entry e = record {
      sensor = e.sensor;
      reading = e.reading;
      kind = normalize_type_label e.type_;
      value = or_nan e.value;
      min = or_nan e.min;
      max = or_nan e.max;
      avg = or_nan e.avg;
      unit = e.unit;
    }

    -- the record, if its timestamp is an instant
    abbrev pub sample_of : RawRecord W → Option (Sample W)
    sample_of r = elim (readers.parse_timestamp r.timestamp) [
      | none ↦ none
      | some ts ↦ some record {
        timestamp = ts;
        raw_timestamp = r.timestamp;
        readings = map reading_of_entry r.sensors;
      }
    ]

    abbrev pub sample_in : Option (RawRecord W) → Option (Sample W)
    sample_in none = none
    sample_in (some r) = sample_of r

    abbrev pub read_fixed : Option Text → Option (Sample W)
    read_fixed none = none
    read_fixed (some fixed) = sample_in (readers.raw_record fixed)

    -- `none` is a line that is skipped, whatever the reason
    unfoldable pub parse_line : Text → Option (Sample W)
    unfolding fixup_python_tokens normalize_type_label
    parse_line bytes = elim (readers.raw_record bytes) [
      | some r ↦ sample_of r
      | none ↦ read_fixed (fixup_python_tokens bytes)
    ]
