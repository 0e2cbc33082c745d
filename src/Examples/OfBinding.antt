-- ===== src/Examples/OfBinding.antt =====
-- The wrapper of the C library at a concrete library.
use sensorwatch.Prelude.{
  ◌≡◌, refl, some, [], ◌∷◌, ◌++◌, ◌+◌, ◌==◌, if◌then◌else◌, length, arith, map,
}
use sensorwatch.Prelude.Int.{pos, negsuc}
use sensorwatch.Prelude.Text.{Text, text}
use sensorwatch.Float.{Level, level}
use sensorwatch.Binding.{
  Core, StringAccessor, Utf8, ok, sw_ok, sw_err_buffer_too_small, check_abi_compatibility,
  collect_live,
}
use sensorwatch.Binding.Handles.{Balanced, collect_live-Balanced}
use sensorwatch.Binding.Reads.{Name, Entry, reading_of, collect_live-reads}

instance abbrev ascii : Utf8
ascii = record { from_utf8 = some }

abbrev tells : Text → StringAccessor
tells s ptr index capacity =
    if capacity == 0
    then record { code = sw_err_buffer_too_small; needed = length s + 1; buffer = [] }
    else record { code = sw_ok; needed = length s + 1; buffer = s ++ (0 ∷ []) }

-- one reading, of a temperature
abbrev core : Core Level
core = record {
  api_version = 200;
  session_open = (sw_ok, 3);
  snapshot_take = λ s. (sw_ok, 7);
  snapshot_from_buffer = λ b. (negsuc 5, 0);
  entry_count = λ p. (sw_ok, 1);
  reading_type = λ p i. (sw_ok, pos 1);
  value = λ p i. (sw_ok, level 50);
  minimum = λ p i. (sw_ok, level 30);
  maximum = λ p i. (sw_ok, level 60);
  average = λ p i. (sw_ok, level 45);
  source_name = tells (text "HWiNFO");
  sensor_name = tells (text "board");
  reading_name = tells (text "CPU");
  unit = tells (text "C");
}

collect_live-Balanced_example : Balanced (collect_live core).1
collect_live-Balanced_example = collect_live-Balanced core

abbrev name : Text → Name
name s = record { bytes = s; chars = s }

abbrev cpu_entry : Entry Level
cpu_entry = record {
  sensor = name (text "board");
  reading = name (text "CPU");
  unit = name (text "C");
  raw_type = pos 1;
  value = level 50;
  minimum = level 30;
  maximum = level 60;
  average = level 45;
}

collect_live-reads_example :
    (collect_live core).0 ≡ ok (map (reading_of core (text "HWiNFO")) (cpu_entry ∷ []))
unfolding check_abi_compatibility
collect_live-reads_example = collect_live-reads core 3 7 (name (text "HWiNFO")) (cpu_entry ∷ []) (
  refl,
  refl,
  refl,
  refl,
  (refl, omega arith, refl, refl, refl, refl, refl),
  (
    (
      refl,
      refl,
      refl,
      refl,
      refl,
      (refl, omega arith, refl, refl, refl, refl, refl),
      (refl, omega arith, refl, refl, refl, refl, refl),
      (refl, omega arith, refl, refl, refl, refl, refl),
    ),
    tt,
  ),
)
