-- ===== src/Examples/OfWatch.antt =====
-- watch.rs and report.rs at concrete inputs.
use sensorwatch.Prelude.{
  All, ◌≢◌, ◌≡◌, ◌↔◌, refl, true, false, none, some, List, [], ◌∷◌, ◌++◌, arith, keep, take,
}
use sensorwatch.Prelude.Int.{pos}
use sensorwatch.Prelude.Text.{text, contains, starts_with, to_ascii_lowercase}
use sensorwatch.Prelude.SortedMap.{get, put}
use sensorwatch.Engine.Gate.{apply, unevaluable}
use sensorwatch.Engine.Series.{select_metric, verdict_of, evaluate_value}
use sensorwatch.Float.{Level, level_float}
use sensorwatch.Rules.{Rule, matches, compare}
use sensorwatch.Engine.Observe.{Transition, new, run, observe, series_transition}
use sensorwatch.Digest.Aggregate.{new_aggregator, aggregate}
use sensorwatch.Watch.{Args, MinSeverity, World, left, apply_filters, exited, success}
use sensorwatch.Watch.Filters.{Names, selected, apply_filters_iff}
use sensorwatch.Watch.OneShot.{replaying, replayed}
use sensorwatch.Watch.Follow.{run_follow}
use sensorwatch.Watch.Followed.{Wrote, run_follow-replay}
use sensorwatch.Report.{Window, State, scan}
use sensorwatch.Report.Scan.{in_window, latest, scan-run}
use sensorwatch.Examples.Data.{ascii_fold, hot_only, ticks, hot_run, hot_fired, hot_cleared}

abbrev args : Args
args = record {
  rules = text "hot" ∷ [];
  min_severity = some MinSeverity.warning;
  live = true;
  spooling = true;
}

abbrev world : World Level
world = record {
  directory = record { seq_file = none; staging = none };
  store = record { last = 7 };
  io = [];
  printed = [];
  spooled = [];
  daily = [];
  daily_io = false ∷ [];
}

apply_filters_iff_example : (apply_filters hot_only args ≡ left hot_only) ↔ (
    All (Names hot_only.rules) args.rules
    × (hot_only.rules ≡ keep (λ (r : Rule Level). selected args r.name r.severity) hot_only.rules)
    × (hot_only.rules ≢ []))
apply_filters_iff_example = apply_filters_iff args hot_only hot_only

run_follow-replay_example :
    (w : World Level) × (run_follow
        (replaying args)
        true
        false
        world
        (new hot_only)
        (replayed ticks)
      ≡ some (w, exited success))
    × Wrote (replaying args) world w (hot_fired ∷ hot_cleared ∷ [])
run_follow-replay_example =
    run_follow-replay args false world (new hot_only) ticks hot_run refl (omega arith)

abbrev window : Window
window = record { since = pos 0; until = pos 9; needles = []; type_filter = none }

abbrev start : State Level
start = record {
  engine = new hot_only;
  agg = new_aggregator 60;
  transitions = [];
  violations_total = 0;
}

one_sample : (s : State Level) × (scan 1 window start (take 1 ticks) ≡ some s)
unfolding scan run matches contains starts_with to_ascii_lowercase get put select_metric apply
    compare verdict_of evaluate_value unevaluable series_transition new observe aggregate
one_sample = (_, refl)

scan-run_example :
    (out : List (Transition Level)) × (run start.engine (keep (in_window 1 window) (take 1 ticks))
      ≡ some (one_sample.0.engine, out))
    × (one_sample.0.transitions ≡ latest 1 ([] ++ out))
scan-run_example = scan-run 1 window start [] (take 1 ticks) (omega arith) refl one_sample.1
