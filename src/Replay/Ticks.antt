-- ===== src/Replay/Ticks.antt =====
-- replay.rs: `ReplaySource` and `next_tick`. What opening a path gives is a parameter: the chunks of its
-- reader, and how many lines can be read before a read error, if there is one.
use sensorwatch.Prelude.{
  ℕ, zero, suc, ◌+◌, ◌-◌, Bool, false, ◌&&◌, ◌||◌, Option, none, some, List, [], ◌∷◌, ltb, ◌==◌,
  if◌then◌else◌, all,
}
use sensorwatch.Prelude.Int.{ltb_ℤ}
use sensorwatch.Prelude.Words.{u64}
use sensorwatch.Prelude.Text.{Text}
use sensorwatch.Float.{Float}
use sensorwatch.Source.{Timestamp, Sample}
use sensorwatch.Replay.Lines.{LineOutcome, line, oversized, eof, read_line_bounded, max_line_bytes}
use sensorwatch.Replay.Parse.{Readers, leading_timestamp, parse_line}

abbrev pub detailed_warnings_per_file : ℕ
detailed_warnings_per_file = 3

pub record BufReader : Type 0 where
  pub chunks : List Text
  pub reads_left : Option ℕ

pub record FileReader : Type 0 where
  pub path : Text
  pub reader : BufReader
  pub line_number : ℕ  -- u64
  pub detailed_warnings : ℕ  -- u32
  pub skipped_in_file : ℕ  -- u64

pub record ReplaySource : Type 0 where
  pub pending : List Text
  pub current : Option FileReader
  pub skipped_lines : ℕ  -- u64
  pub opened_files : ℕ
  pub window : Option (Timestamp × Timestamp)

unfoldable pub from_files : List Text → ReplaySource
from_files paths = record {
  pending = paths;
  current = none;
  skipped_lines = 0;
  opened_files = 0;
  window = none;
}

unfoldable pub with_window : ReplaySource → Timestamp → Timestamp → ReplaySource
with_window s since until = record s { window = some (since, until) }

-- without its warning
unfoldable pub finish_current_file : ReplaySource → ReplaySource
finish_current_file s = record s { current = none }

-- `FileReader::record_skip`; a warning is written while `detailed_warnings` grows
unfoldable pub record_skip : FileReader → ReplaySource → ReplaySource
record_skip fr s = record s {
  skipped_lines = u64 (s.skipped_lines + 1);
  current = some record fr {
    skipped_in_file = u64 (fr.skipped_in_file + 1);
    detailed_warnings =
        if ltb fr.detailed_warnings detailed_warnings_per_file
        then fr.detailed_warnings + 1
        else fr.detailed_warnings;
  };
}

-- `u8::is_ascii_whitespace`: tab, line feed, form feed, carriage return and space
unfoldable pub is_ascii_whitespace : ℕ → Bool
is_ascii_whitespace b = b == 0x9 || b == 0xa || b == 0xc || b == 0xd || b == 0x20

unfoldable pub out_of_window : Timestamp → Timestamp → Timestamp → Bool
out_of_window since until ts = ltb_ℤ ts since || ltb_ℤ until ts

-- how a turn of the loop ends: it returns a sample, goes on, or returns the end
pub data Turn (W : Type 0) : Type 0 where
  returned : Sample W → ReplaySource → Turn W
  again : ReplaySource → Turn W
  exhausted : Turn W

-- a sample in front of what is drained after it
abbrev pub after :
    {W : Type 0}
    → Sample W
    → Option (List (Sample W) × ReplaySource)
    → Option (List (Sample W) × ReplaySource)
after x none = none
after x (some (xs, s)) = some (x ∷ xs, s)

abbrev pub one_less : Option ℕ → Option ℕ
one_less none = none
one_less (some n) = some (n - 1)

abbrev pub fails_now : Option ℕ → Bool
fails_now none = false
fails_now (some n) = n == 0

module _ {W : Type 0} ⦃f : Float W⦄ (readers : Readers W)
    (file_open : Text → Option BufReader) where
  abbrev pub window_drops : Option (Timestamp × Timestamp) → Option Timestamp → Text → Bool
  window_drops (some (since, until)) (some ts) bytes =
      out_of_window since until ts && readers.is_json bytes
  window_drops _ _ bytes = false

  abbrev pub parsed_turn : FileReader → ReplaySource → Option (Sample W) → Turn W
  parsed_turn fr s (some sample) = returned sample s
  parsed_turn fr s none = again (record_skip fr s)

  -- the arm of a line that was read; `s.current` is the reader past the line
  unfoldable pub line_turn : FileReader → ReplaySource → Text → Turn W
  unfolding is_ascii_whitespace leading_timestamp out_of_window parse_line record_skip
  line_turn fr s bytes =
      if all is_ascii_whitespace bytes
      then again s
      else if window_drops s.window (leading_timestamp readers bytes) bytes
      then again s
      else parsed_turn fr s (parse_line readers bytes)

  abbrev pub outcome_turn : FileReader → ReplaySource → LineOutcome × Text × List Text → Turn W
  outcome_turn fr s (o, bytes, rest) =
      let fr' : FileReader = record fr {
        reader = record { chunks = rest; reads_left = one_less fr.reader.reads_left };
        line_number = u64 (fr.line_number + 1);
      } in
      let s' : ReplaySource = record s { current = some fr' } in
      elim o [
        | eof ↦ again (finish_current_file s')
        | oversized ↦ again (record_skip fr' s')
        | line ↦ line_turn fr' s' bytes
      ]

  abbrev pub opened : Text → List Text → ReplaySource → Option BufReader → Turn W
  opened path rest s none = again (record s { pending = rest })
  opened path rest s (some reader) = again (record s {
    pending = rest;
    opened_files = s.opened_files + 1;
    current = some record {
      path = path;
      reader = reader;
      line_number = 0;
      detailed_warnings = 0;
      skipped_in_file = 0;
    };
  })

  -- one turn of the loop of `next_tick`, for the values of `current` and `pending`
  unfoldable pub turn_at : ReplaySource → Option FileReader → List Text → Turn W
  unfolding line_turn finish_current_file record_skip read_line_bounded
  turn_at s none [] = exhausted
  turn_at s none (path ∷ rest) = opened path rest s (file_open path)
  turn_at s (some fr) pending =
      if fails_now fr.reader.reads_left
      then again (finish_current_file s)
      else outcome_turn fr s (read_line_bounded max_line_bytes fr.reader.chunks)

  unfoldable pub turn : ReplaySource → Turn W
  unfolding turn_at
  turn s = turn_at s s.current s.pending

  -- `next_tick`, with fuel for its loop; `none` is too little of it
  unfoldable pub next_tick : ℕ → ReplaySource → Option (Option (Sample W) × ReplaySource)
  unfolding turn
  next_tick zero s = none
  next_tick (suc fuel) s = elim (turn s) [
    | exhausted ↦ some (none, s)
    | returned sample s' ↦ some (some sample, s')
    | again s' ↦ next_tick fuel s'
  ]

  -- the samples of the whole source: `next_tick` until it returns the end
  unfoldable pub drain : ℕ → ReplaySource → Option (List (Sample W) × ReplaySource)
  unfolding turn
  drain zero s = none
  drain (suc fuel) s = elim (turn s) [
    | exhausted ↦ some ([], s)
    | returned sample s' ↦ after sample (drain fuel s')
    | again s' ↦ drain fuel s'
  ]
