-- ===== src/Examples/OfJsonl.antt =====
-- jsonl.rs at a concrete instant.
use sensorwatch.Prelude.{◌≡◌, refl, false}
use sensorwatch.Prelude.Int.{negsuc}
use sensorwatch.Prelude.Text.{text}
use sensorwatch.Jsonl.{Zoned, format_timestamp}

abbrev noon : Zoned
noon = record {
  year = 2026;
  month = 3;
  day = 9;
  hour = 12;
  minute = 5;
  second = 0;
  subsec_nanosecond = 45_678_901;
  offset_seconds = negsuc 17_999;
  is_utc = false;
}

format_timestamp_run : format_timestamp noon ≡ text "2026-03-09T12:05:00.045678-05:00"
unfolding format_timestamp
format_timestamp_run = refl
