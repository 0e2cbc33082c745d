-- ===== src/Examples/Data.antt =====
-- Rules, samples and files to apply the theorems to.
use sensorwatch.Prelude.{ℕ, ◌≡◌, refl, none, some, List, [], ◌∷◌, map}
use sensorwatch.Prelude.Int.{pos}
use sensorwatch.Prelude.Text.{text, CaseFold, to_ascii_lowercase, contains, starts_with}
use sensorwatch.Float.{Level, level, not_a_number, level_float}
use sensorwatch.Source.{SampleReading, Sample, Tick, sampled, unavailable}
use sensorwatch.Rules.{RuleKind, Metric, Op, Severity, Rule, RuleSet, matches, compare}
use sensorwatch.Engine.Gate.{apply, default_gate, unevaluable}
use sensorwatch.Engine.Series.{select_metric, verdict_of, evaluate_value}
use sensorwatch.Prelude.SortedMap.{get, put}
use sensorwatch.Rules.Validate.{RawRule}
use sensorwatch.Engine.Observe.{Engine, Transition, TransitionState, new, run, series_transition}

instance abbrev pub ascii_fold : CaseFold
ascii_fold = record { to_lowercase = map to_ascii_lowercase }

abbrev pub hot_entry : RawRule Level
hot_entry = record {
  name = some (text " hot ");
  kind = some RuleKind.threshold;
  sensor = none;
  reading = some (text "CPU");
  type_ = none;
  metric = none;
  op = some Op.gt;
  threshold = some (level 90);
  clear = some (level 85);
  for_samples = some 2;
  window_samples = none;
  severity = some Severity.critical;
}

-- the rule of that entry
abbrev pub hot : Rule Level
hot = record {
  name = text "hot";
  kind = RuleKind.threshold;
  matcher = record { sensor = none; reading = some (text "cpu"); kind = none };
  metric = Metric.value;
  op = some Op.gt;
  threshold = some (level 90);
  clear = some (level 85);
  for_samples = 2;
  window_samples = none;
  severity = Severity.critical;
}

abbrev pub hot_only : RuleSet Level
hot_only = record { rules = hot ∷ [] }

abbrev pub cpu : Level → SampleReading Level
cpu v = record {
  sensor = text "board";
  reading = text "CPU";
  kind = text "temperature";
  value = v;
  min = v;
  max = v;
  avg = v;
  unit = text "C";
}

abbrev pub sample_at : ℕ → Level → Sample Level
sample_at n v = record { timestamp = pos n; raw_timestamp = text "t"; readings = cpu v ∷ [] }

-- hot twice, a reading that is not a number, and cool again
abbrev pub ticks : List (Tick Level)
ticks =
    sampled (sample_at 1 (level 95))
    ∷ sampled (sample_at 2 (level 96))
    ∷ unavailable (pos 3) (text "t")
    ∷ sampled (sample_at 4 not_a_number)
    ∷ sampled (sample_at 5 (level 80))
    ∷ []

abbrev pub hot_at : ℕ → TransitionState → Level → ℕ → Transition Level
hot_at n state v samples = record {
  rule = text "hot";
  kind = RuleKind.threshold;
  severity = Severity.critical;
  state = state;
  raw_timestamp = text "t";
  timestamp = pos n;
  sensor = some (text "board");
  reading = some (text "CPU");
  value = some v;
  unit = some (text "C");
  threshold = some (level 90);
  samples_in_violation = samples;
}

-- what the engine makes of the ticks
abbrev pub hot_fired : Transition Level
hot_fired = hot_at 2 TransitionState.fired (level 96) 2

abbrev pub hot_cleared : Transition Level
hot_cleared = hot_at 5 TransitionState.cleared (level 80) 2

abbrev pub hot_end : Engine Level
hot_end = record {
  rules = hot ∷ [];
  states =
      record {
        series =
            (
              (text "board", text "CPU"),
              record {
                gate = default_gate;
                unit = text "C";
                last_seen_tick = 5;
                baseline = none;
                window = [];
              },
            )
            ∷ [];
        source = default_gate;
      }
      ∷ [];
  tick_index = 5;
}

pub hot_run : run (new hot_only) ticks ≡ some (hot_end, hot_fired ∷ hot_cleared ∷ [])
unfolding run new matches contains to_ascii_lowercase get put select_metric apply compare verdict_of
    evaluate_value unevaluable starts_with series_transition
hot_run = refl
