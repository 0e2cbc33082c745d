-- ===== src/Examples/OfExported.antt =====
-- An export of concrete files, with days counted by numbers and a day of ten instants.
use sensorwatch.Prelude.{ℕ, ◌≡◌, refl, true, none, some, List, [], arith, map}
use sensorwatch.Prelude.Int.{pos}
use sensorwatch.Prelude.Text.{text}
use sensorwatch.Float.{Level, level_float}
use sensorwatch.Source.{Sample, sampled}
use sensorwatch.Config.{default_config}
use sensorwatch.Replay.Ticks.{ReplaySource, drain, from_files}
use sensorwatch.Digest.Candidates.{selected}
use sensorwatch.Export.{created, prepare_output, export_rows}
use sensorwatch.Export.Run.{ExportArgs, Outside, written, export_window}
use sensorwatch.Export.Whole.{export_window-whole}
use sensorwatch.Examples.OfExport.{fs}
use sensorwatch.Examples.OfReplay.{readers, readers-IsReaders, files}
use sensorwatch.Examples.OfLogger.{days}
use sensorwatch.Examples.OfWhen.{zone}

abbrev args : ExportArgs
args = record {
  config = none;
  log_dir = some (text "logs");
  since = none;
  until = none;
  last = text "24h";
  out = text "o";
}

abbrev outside : Outside ℕ ℕ ℕ Level
outside = record {
  toml = record { parse = λ s. none; parse_rules = λ s. none };
  disk = record { exists = λ p. true; read_to_string = λ p. none };
  now = pos 7;
  zone = zone;
  calendar = days;
  is_file = λ d p. true;
  file_open = λ d. files;
  readers = readers;
  as_microsecond = λ t. t;
  identities = fs;
  opened = created;
  reopens = true;
  out_identity = none;
  truncates = true;
  initializes = true;
  io = [];
}

export_window-whole_example :
    (xs : List (Sample Level)) × (end : ReplaySource) × (drain readers files 100
        (from_files (selected zone days (λ p. true) (pos 3) (pos 7)))
      ≡ some (xs, end))
    × (export_window outside 100 args default_config (pos 3) (pos 7)
        ≡ some (written outside (export_rows (λ t. t) (pos 3) (pos 7) [] (map sampled xs))))
unfolding from_files prepare_output
export_window-whole_example =
    export_window-whole outside readers-IsReaders 100 args default_config (pos 3) (pos 7)
      (omega arith) (omega arith) refl refl (omega arith)
