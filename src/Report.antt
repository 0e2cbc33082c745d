-- ===== src/Report.antt =====
-- rust/sensorwatch-cli/src/report.rs: the scan of `run`, one pass that aggregates the samples of the
-- window, evaluates the rules, and retains the latest transitions.
pub mod Scan
pub mod Returns
pub mod Run
pub mod Whole
use sensorwatch.Prelude.{
  ℕ, zero, suc, ◌+◌, Bool, true, false, ◌||◌, Option, none, some, List, [], ◌∷◌, ◌++◌, ◌==◌,
  if◌then◌else◌, length, drop,
}
use sensorwatch.Prelude.Int.{ltb_ℤ}
use sensorwatch.Prelude.Panic.{◌>>=◌}
use sensorwatch.Prelude.Words.{u64}
use sensorwatch.Prelude.Text.{Text, CaseFold}
use sensorwatch.Float.{Float}
use sensorwatch.Source.{Timestamp, Sample, Tick, sampled, unavailable}
use sensorwatch.Engine.Observe.{Engine, Transition, observe}
use sensorwatch.Digest.Aggregate.{Aggregator, aggregate, mark_in_violation}
use sensorwatch.Digest.Rows.{violation_passes}

-- `VIOLATION_CAP`
abbrev pub violation_cap : ℕ
violation_cap = 512

pub record Window : Type 0 where
  pub since : Timestamp
  pub until : Timestamp
  pub needles : List Text
  pub type_filter : Option Text

abbrev pub outside : Window → Timestamp → Bool
outside w ts = ltb_ℤ ts w.since || ltb_ℤ w.until ts

-- the variables of the scan
pub record State (W : Type 0) : Type 0 where
  pub engine : Engine W
  pub agg : Aggregator W
  pub transitions : List (Transition W)
  pub violations_total : ℕ  -- usize

-- `pop_front` at the cap, then `push_back`; the cap is a parameter, for the code `violation_cap`
unfoldable pub retain_latest :
    {W : Type 0} → ℕ → List (Transition W) → Transition W → List (Transition W)
retain_latest cap ts t = (if length ts == cap then drop 1 ts else ts) ++ (t ∷ [])

module _ {W : Type 0} ⦃f : Float W⦄ ⦃c : CaseFold⦄ where
  abbrev pub mark : Aggregator W → Option Text → Option Text → Aggregator W
  mark agg (some sensor) (some reading) = mark_in_violation agg sensor reading
  mark agg _ _ = agg

  -- one transition of the scan
  unfoldable pub take_transition : ℕ → Window → State W → Transition W → State W
  unfolding retain_latest
  take_transition cap w s t =
      let agg = mark s.agg t.sensor t.reading in
      record s {
        agg = agg;
        violations_total =
            if violation_passes t w.needles w.type_filter agg
            then u64 (s.violations_total + 1)
            else s.violations_total;
        transitions = retain_latest cap s.transitions t;
      }

  unfoldable pub take_transitions : ℕ → Window → State W → List (Transition W) → State W
  unfolding take_transition
  take_transitions cap w s [] = s
  take_transitions cap w s (t ∷ ts) = take_transitions cap w (take_transition cap w s t) ts

  -- the body of the loop; `none` is a panic of the engine
  unfoldable pub scan_tick : ℕ → Window → State W → Tick W → Option (State W)
  unfolding take_transitions
  scan_tick cap w s (unavailable ts raw) = some s
  scan_tick cap w s (sampled sample) = if outside w sample.timestamp then some s else (do
    (engine, out) ← observe s.engine (sampled sample)
    some (take_transitions cap w (record s { engine = engine; agg = aggregate s.agg sample }) out))

  unfoldable pub scan : ℕ → Window → State W → List (Tick W) → Option (State W)
  unfolding scan_tick
  scan cap w s [] = some s
  scan cap w s (t ∷ ts) = do s' ← scan_tick cap w s t; scan cap w s' ts
