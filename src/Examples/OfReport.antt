-- ===== src/Examples/OfReport.antt =====
-- A report of concrete files, with days counted by numbers and a day of ten instants.
use sensorwatch.Prelude.{ℕ, ◌≡◌, refl, true, none, some, List, [], ◌∷◌, arith, map}
use sensorwatch.Prelude.Int.{pos}
use sensorwatch.Prelude.Text.{text, trim, to_ascii_lowercase}
use sensorwatch.Float.{Level, level_float}
use sensorwatch.Source.{Sample, sampled}
use sensorwatch.Rules.Validate.{validate}
use sensorwatch.Rules.Sound.{validate-IsValid}
use sensorwatch.Config.{default_config}
use sensorwatch.Replay.Ticks.{ReplaySource, drain, from_files}
use sensorwatch.Report.{State, violation_cap, scan}
use sensorwatch.Report.Run.{
  ReportArgs, Outside, emitted, first_state, window_of, digest_of, report_window,
}
use sensorwatch.Digest.Candidates.{selected}
use sensorwatch.Report.Whole.{report_window-whole}
use sensorwatch.Examples.Data.{ascii_fold, hot_entry, hot_only}
use sensorwatch.Examples.OfReplay.{readers, readers-IsReaders, files}
use sensorwatch.Examples.OfLogger.{days}
use sensorwatch.Examples.OfWhen.{zone}

abbrev args : ReportArgs
args = record {
  config = none;
  log_dir = some (text "logs");
  since = none;
  until = none;
  last = text "24h";
  matches = text "cpu" ∷ [];
  type_filter = none;
  top = 25;
  max_bytes = 12_000;
  indent = 2;
}

abbrev outside : Outside ℕ ℕ Level
outside = record {
  toml = record { parse = λ s. none; parse_rules = λ s. none };
  disk = record { exists = λ p. true; read_to_string = λ p. none };
  now = pos 7;
  zone = zone;
  calendar = days;
  is_file = λ d p. true;
  file_open = λ d. files;
  readers = readers;
  display = λ t. text "now";
  to_json = λ d n. [];
}

report_window-whole_example :
    (xs : List (Sample Level)) × (end : ReplaySource) × (s : State Level) × (skipped : ℕ) × (drain
        readers files 100
        (from_files (selected zone days (λ p. true) (pos 3) (pos 7)))
      ≡ some (xs, end))
    × (scan violation_cap
          (window_of outside args (pos 3) (pos 7))
          (first_state outside hot_only default_config)
          (map sampled xs)
        ≡ some s)
    × (report_window outside 100 args hot_only default_config (pos 3) (pos 7)
        ≡ some (
            emitted (
              digest_of outside args hot_only default_config
                (window_of outside args (pos 3) (pos 7))
                end.opened_files
                skipped
                s)))
unfolding from_files validate trim to_ascii_lowercase
report_window-whole_example =
    report_window-whole outside readers-IsReaders 100 args hot_only default_config (pos 3) (pos 7)
      (validate-IsValid hot_entry 0 refl, tt) (omega arith) (omega arith) (omega arith)
