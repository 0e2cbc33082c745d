-- ===== src/Source/Live.antt =====
-- source.rs: a reading of the library as a sample reading, and one poll of `LiveSource`.
use sensorwatch.Prelude.{List, map}
use sensorwatch.Prelude.Text.{Text}
use sensorwatch.Labels.{type_label}
use sensorwatch.Source.{Timestamp, SampleReading, Tick, sampled, unavailable}
use sensorwatch.Binding.{Reading, Result, ok, err}

module _ {W : Type 0} where
  -- `From<&Reading> for SampleReading`
  unfoldable pub sample_reading : Reading W → SampleReading W
  sample_reading r = record {
    sensor = r.sensor;
    reading = r.reading;
    kind = type_label r.kind;
    value = r.value;
    min = r.minimum;
    max = r.maximum;
    avg = r.average;
    unit = r.unit;
  }

  -- `LiveSource::next_tick`, from the instant, its rendering and what `collect_live` returns
  unfoldable pub live_tick : Timestamp → Text → Result (List (Reading W)) → Tick W
  unfolding sample_reading
  live_tick timestamp raw_timestamp (ok readings) = sampled record {
    timestamp = timestamp;
    raw_timestamp = raw_timestamp;
    readings = map sample_reading readings;
  }
  live_tick timestamp raw_timestamp (err e) = unavailable timestamp raw_timestamp
