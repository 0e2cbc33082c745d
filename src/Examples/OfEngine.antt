-- ===== src/Examples/OfEngine.antt =====
-- engine.rs at concrete inputs.
use sensorwatch.Prelude.{
  suc, ◌+◌, ◌≡◌, ◌↔◌, refl, Bool, true, false, none, some, [], ◌∷◌, ◌++◌, arith, keep, not,
}
use sensorwatch.Prelude.Order.{same, list_ord, nat_ord}
use sensorwatch.Prelude.Panic.{Returns}
use sensorwatch.Prelude.Words.{u32}
use sensorwatch.Float.{Level, level, level_float, Level-IsFloat}
use sensorwatch.Rules.{Op, Severity, compare, retain}
use sensorwatch.Rules.Sound.{validate-IsValid}
use sensorwatch.Engine.Gate.{default_gate, violates, recovers, fired, cleared}
use sensorwatch.Engine.Series.{SeriesState, default_series}
use sensorwatch.Engine.Debounce.{feed, gate_after, feed_all, recent, fires_iff, episode}
use sensorwatch.Engine.Verdicts.{clear-ne-violation}
use sensorwatch.Engine.Observe.{Engine, new, run}
use sensorwatch.Engine.Total.{run-Returns}
use sensorwatch.Engine.Selection.{run-retain, selects, selects_transition}
use sensorwatch.Rules.Validate.{validate, on_recovery_side}
use sensorwatch.Prelude.Text.{trim, to_ascii_lowercase, text, Text}
use sensorwatch.Examples.Data.{
  ascii_fold, hot, hot_entry, hot_only, hot_run, hot_fired, hot_cleared, ticks,
}

fires_iff_example :
    ((feed 2 (gate_after 2 (some violates ∷ none ∷ [])) (some violates)).1 ≡ some fired) ↔ (
      ((gate_after 2 (some violates ∷ none ∷ [])).fired ≡ false)
      × (some violates ≡ some violates)
      × (suc (recent (some violates ∷ none ∷ [])) ≡ 2))
fires_iff_example =
    fires_iff 2 (some violates ∷ none ∷ []) (some violates) (omega arith) (omega arith)
      (tt, (tt, tt))

episode_example :
    feed_all 2
      (gate_after 2 (some violates ∷ []))
      (some violates ∷ (none ∷ some violates ∷ []) ++ some recovers ∷ [])
    ≡ (default_gate, fired ∷ cleared (u32 (2 + 1)) ∷ [])
unfolding gate_after feed
episode_example =
    episode 2 (some violates ∷ []) (none ∷ some violates ∷ []) (omega arith) (omega arith) (tt, tt)
      refl refl tt

-- a series whose alert stands
abbrev alerted : SeriesState Level
alerted = record default_series { gate = record { fired = true; streak = 2; total = 3 } }

-- and an engine with it
abbrev alerting : Engine Level
alerting = record {
  rules = hot ∷ [];
  states =
      record { series = ((text "board", text "CPU"), alerted) ∷ []; source = default_gate } ∷ [];
  tick_index = 4;
}

clear-ne-violation_example : compare Op.gt (level 80) (level 90) ≡ false
unfolding compare on_recovery_side
clear-ne-violation_example =
    clear-ne-violation Level-IsFloat Op.gt (level 90) (level 85) (level 80) refl refl refl

run-Returns_example : Returns (run (new hot_only) ticks)
unfolding new validate trim to_ascii_lowercase
run-Returns_example = run-Returns (new hot_only) ticks (validate-IsValid hot_entry 0 refl, tt)

-- every rule but one of another name
abbrev not_other : Text → Severity → Bool
not_other name severity = not (same name (text "other"))

run-retain_example :
    (e' : Engine Level) × (run (new (retain (selects not_other) hot_only)) ticks
      ≡ some (e', keep (selects_transition not_other) (hot_fired ∷ hot_cleared ∷ [])))
run-retain_example = run-retain not_other hot_only ticks hot_run
