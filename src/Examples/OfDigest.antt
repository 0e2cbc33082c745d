-- ===== src/Examples/OfDigest.antt =====
-- digest.rs at concrete inputs.
use sensorwatch.Prelude.{
  ℕ, zero, suc, ◌+◌, ◌<◌, ◌≡◌, ◌↔◌, refl, Bool, true, false, none, List, [], ◌∷◌, arith, length,
  All, keep,
}
use sensorwatch.Prelude.Text.{Text, text}
use sensorwatch.Float.{Level, level, not_a_number, level_float, Level-IsFloat}
use sensorwatch.Digest.Duration.{ok, parse_duration_secs}
use sensorwatch.Digest.RoundTrip.{days, hours, total_secs, written, parse-written}
use sensorwatch.Digest.Gaps.{Gap, seconds_at}
use sensorwatch.Digest.Retained.{retain_all, Settled}
use sensorwatch.Digest.Largest.{retain_all-Settled}
use sensorwatch.Digest.Aggregate.{new_series}
use sensorwatch.Digest.Bounds.{Between, observe_all-Between}
use sensorwatch.Digest.Counts.{finite_of, observe_all, Reports, observe_all-Reports}
use sensorwatch.Digest.Fit.{Assembled, Digest, meta_with, overflowing, fit}
use sensorwatch.Digest.Search.{Smallest}
use sensorwatch.Digest.Shrink.{PrintsLess, rendering, fit-Smallest, fit-overflows, length_sublist}
use sensorwatch.Digest.Rows.{ReadingRow, rank_rows}
use sensorwatch.Digest.Emit.{flagged, top_rows, top_rows-keeps, row_of}
use sensorwatch.Examples.Data.{ascii_fold}

parse-written_example :
    parse_duration_secs (written ((1, days) ∷ (12, hours) ∷ []))
    ≡ ok (total_secs ((1, days) ∷ (12, hours) ∷ []))
parse-written_example = parse-written 1 days ((12, hours) ∷ []) (omega arith) (omega arith)

abbrev gap : ℕ → Gap
gap n = record { from = text "a"; to = text "b"; seconds = n }

abbrev gaps : List Gap
gaps = gap 5 ∷ gap 9 ∷ gap 7 ∷ []

retain_all-Settled_example : All (Settled 2 (retain_all 2 [] gaps)) gaps
retain_all-Settled_example = retain_all-Settled 2 gaps (omega arith)

abbrev values : List (Level × Text)
values = (level 3, text "C") ∷ (not_a_number, text "C") ∷ (level 5, text "C") ∷ []

observe_all-Reports_example :
    Reports
      (new_series (text "temperature"))
      values
      (observe_all (new_series (text "temperature")) values)
unfolding new_series
observe_all-Reports_example =
    observe_all-Reports (new_series (text "temperature")) values (omega arith) refl

-- a renderer that prints one blank for each row, violation and gap
abbrev blanks : ℕ → Text
blanks zero = []
blanks (suc n) = b' ' ∷ blanks n

length-blanks : (n : ℕ) → length (blanks n) ≡ n
length-blanks zero = refl
length-blanks (suc n) = omega (arith, length-blanks n)

abbrev items : Digest Level → ℕ
items d = length d.readings + length d.violations + length d.gaps

abbrev to_blanks : Digest Level → ℕ → Text
to_blanks d indent = blanks (items d)

to_blanks-PrintsLess : PrintsLess to_blanks
to_blanks-PrintsLess a indent rows rows' vs vs' gs gs' r v g = omega (
  arith,
  length-blanks (length rows + length vs + length gs),
  length-blanks (length rows' + length vs' + length gs'),
  length_sublist rows' rows r,
  length_sublist vs' vs v,
  length_sublist gs' gs g,
)

abbrev assembled : Assembled Level
assembled = record {
  facts = record {
    since = [];
    until = [];
    log_dir = [];
    files_scanned = 1;
    interval_seconds = 60;
    samples = 4;
    skipped_lines = 0;
    first_sample = none;
    last_sample = none;
    series_total = 0;
    rules_evaluated = 0;
    readings_total = 0;
    gaps_total = 3;
    violations_total = 0;
  };
  rows = [];
  gaps = gaps;
  violations = [];
}

fit-Smallest_example :
    (k : ℕ) × Smallest (rendering to_blanks to_blanks-PrintsLess assembled 0) 1 3 (blanks 1) k
unfolding fit seconds_at meta_with
fit-Smallest_example = fit-Smallest to_blanks to_blanks-PrintsLess assembled 1 0 refl

fit-overflows_example :
    (fit to_blanks assembled 1 0 ≡ overflowing 2)
    ↔ ((length (rendering to_blanks to_blanks-PrintsLess assembled 0 3) ≡ 2) × (1 < 2))
fit-overflows_example = fit-overflows to_blanks to_blanks-PrintsLess assembled 1 0 2

abbrev row : Bool → ReadingRow Level
row b = record (row_of ((text "board", text "CPU"), new_series (text "other"))) { in_violation = b }

top_rows-keeps_example :
    keep flagged (top_rows 0 (row false ∷ row true ∷ []))
    ≡ keep flagged (rank_rows (row false ∷ row true ∷ []))
top_rows-keeps_example = top_rows-keeps 0 (row false ∷ row true ∷ [])

observe_all-Between_example :
    All
      (Between Level-IsFloat (observe_all (new_series (text "temperature")) values))
      (finite_of values)
unfolding new_series
observe_all-Between_example =
    observe_all-Between Level-IsFloat (new_series (text "temperature")) values (refl, refl)
