-- ===== src/Examples/OfReplay.antt =====
-- A replay source with a window at concrete files.
use sensorwatch.Prelude.{◌≡◌, refl, Option, none, some, List, [], ◌∷◌, arith, keep}
use sensorwatch.Prelude.Int.{pos}
use sensorwatch.Prelude.Order.{list_ord, nat_ord, same, same_iff}
use sensorwatch.Prelude.Text.{Text, text}
use sensorwatch.Float.{Level, level, level_float}
use sensorwatch.Source.{Sample}
use sensorwatch.Replay.Pieces.{Piece, quoted, plain, other, written}
use sensorwatch.Replay.Parse.{RawEntry, Readers}
use sensorwatch.Replay.Ticks.{BufReader, ReplaySource, drain, from_files, with_window}
use sensorwatch.Replay.Window.{IsReaders}
use sensorwatch.Replay.Lockstep.{in_window}
use sensorwatch.Replay.Precheck.{with_window-keeps}

-- {"t":5}
abbrev short_pieces : List Piece
short_pieces = other b'{' ∷ quoted (plain b't' ∷ []) ∷ other b':' ∷ other b'5' ∷ other b'}' ∷ []

abbrev short_line : Text
short_line = text "{\"t\":5}"

abbrev measured : RawEntry Level
measured = record {
  sensor = text "board";
  reading = text "CPU";
  type_ = text "temperature";
  value = some (level 95);
  min = some (level 20);
  max = none;
  avg = some (level 50);
  unit = text "C";
}

-- a JSON reader for which every line is a record of one reading, and every instant is 5
abbrev pub readers : Readers Level
readers = record {
  raw_record = λ l. some record { timestamp = text "5"; sensors = measured ∷ [] };
  is_json = λ l. same l short_line;
  from_utf8 = some;
  parse_timestamp = λ s. some (pos 5);
}

pub readers-IsReaders : IsReaders readers
unfolding written
readers-IsReaders = record {
  json-pieces = λ l h. (
    short_pieces,
    (
      (omega arith, omega arith, omega arith, omega arith),
      (
        ((omega arith, omega arith), tt),
        (
          (omega arith, omega arith, omega arith, omega arith),
          (
            (omega arith, omega arith, omega arith, omega arith),
            ((omega arith, omega arith, omega arith, omega arith), tt),
          ),
        ),
      ),
    ),
    refl,
    (same_iff l short_line).0 h,
  );
  leading-record = λ front tail ts r d e. d;
}

abbrev pub files : Text → Option BufReader
files path =
    some record { chunks = text "{\"timestamp\": \"5\"}\n" ∷ text "x\n" ∷ []; reads_left = none }

with_window-keeps_example :
    (xs : List (Sample Level)) × (s : ReplaySource) × (ys : List (Sample Level))
    × (t : ReplaySource) × (drain readers files 100 (from_files (text "a" ∷ text "b" ∷ []))
        ≡ some (xs, s))
    × (drain readers files 100 (with_window (from_files (text "a" ∷ text "b" ∷ [])) (pos 6) (pos 9))
        ≡ some (ys, t))
    × (keep (in_window (pos 6) (pos 9)) xs ≡ keep (in_window (pos 6) (pos 9)) ys)
    × (s.opened_files ≡ t.opened_files)
unfolding from_files
with_window-keeps_example =
    with_window-keeps readers readers-IsReaders files (pos 6) (pos 9) (text "a" ∷ text "b" ∷ []) 100
      (omega arith)
