-- ===== src/Engine/Series.antt =====
-- engine.rs: the state of one series and the evaluation of one reading against one rule. The result is
-- `none` where the code panics: a value rule with no `op` or `threshold`, a rate rule with no window.
use sensorwatch.Prelude.{
  ℕ, Bool, ◌&&◌, not, Option, none, some, List, [], ◌∷◌, ◌++◌, ltb, ◌==◌, if◌then◌else◌, length,
  drop,
}
use sensorwatch.Prelude.Panic.{◌>>=◌, map_some}
use sensorwatch.Prelude.Words.{usize_pred}
use sensorwatch.Prelude.Text.{Text}
use sensorwatch.Float.{Float}
use sensorwatch.Source.{SampleReading}
use sensorwatch.Rules.{Rule, Metric, Op, compare}
use sensorwatch.Engine.Gate.{
  Gate, default_gate, Verdict, violates, recovers, holds, GateEvent, apply, unevaluable,
}

-- the bit patterns of (value, min, max, avg)
pub record Bits : Type 0 where
  pub value : ℕ
  pub min : ℕ
  pub max : ℕ
  pub avg : ℕ

abbrev pub same_bits : Bits → Bits → Bool
same_bits a b = a.value == b.value && a.min == b.min && a.max == b.max && a.avg == b.avg

pub record SeriesState (W : Type 0) : Type 0 where
  pub gate : Gate
  pub unit : Text
  pub last_seen_tick : ℕ  -- u64
  pub baseline : Option Bits
  pub window : List W  -- oldest first

abbrev pub default_series : {W : Type 0} → SeriesState W
default_series = record {
  gate = default_gate;
  unit = [];
  last_seen_tick = 0;
  baseline = none;
  window = [];
}

-- the series after the evaluation, and the gate event with the compared value
abbrev pub Evaluation : Type 0 → Type 0
Evaluation W = SeriesState W × Option (GateEvent × Option W)

module _ {W : Type 0} ⦃f : Float W⦄ where
  unfoldable pub select_metric : Metric → SampleReading W → W
  select_metric Metric.value r = r.value
  select_metric Metric.min r = r.min
  select_metric Metric.max r = r.max
  select_metric Metric.avg r = r.avg

  -- The verdict on a value that is not NaN. `clear` is the clear level.
  unfoldable pub verdict_of : Op → (threshold clear : W) → Bool → W → Verdict
  verdict_of op threshold clear fired compared =
      if fired
      then (if not (compare op compared clear)
          then recovers
          else if compare op compared threshold
          then violates
          else holds)
      else if compare op compared threshold
      then violates
      else recovers

  abbrev pub or_else : Option W → W → W
  or_else none d = d
  or_else (some c) d = c

  -- the gate after the check for NaN, and the verdict if there is one
  unfoldable pub value_verdict : Rule W → Gate → W → Option (Gate × Option Verdict)
  unfolding verdict_of
  value_verdict rule gate compared = do
    op ← rule.op
    threshold ← rule.threshold
    some (
        if f.is_nan compared then (unevaluable gate, none) else (
          gate,
          some (verdict_of op threshold (or_else rule.clear threshold) gate.fired compared),
        ))

  -- `gate.apply(verdict, rule.for_samples).map(|event| (event, value))`, or nothing on no verdict
  unfoldable pub judge : Rule W → SeriesState W → Gate → Option Verdict → Option W → Evaluation W
  judge rule s gate none value = (record s { gate = gate }, none)
  judge rule s gate (some verdict) value =
      let (gate', event) = apply gate verdict rule.for_samples in
      (record s { gate = gate' }, map_some (λ e. (e, value)) event)

  unfoldable pub evaluate_value : Rule W → SeriesState W → W → Option (Evaluation W)
  unfolding value_verdict judge
  evaluate_value rule s compared = do
    (gate, verdict) ← value_verdict rule s.gate compared
    some (judge rule s gate verdict (some compared))

  unfoldable pub evaluate_threshold :
      Rule W → SeriesState W → SampleReading W → Option (Evaluation W)
  unfolding evaluate_value
  evaluate_threshold rule s r = evaluate_value rule s (select_metric rule.metric r)

  -- `window.front().copied().unwrap_or(NAN)`
  abbrev pub front : List W → W
  front [] = f.nan
  front (w ∷ ws) = w

  -- the push at the back, and the pop at the front of a window that has grown too wide
  unfoldable pub slide : ℕ → W → List W → List W
  slide width current window =
      let pushed = window ++ (current ∷ []) in
      if ltb width (length pushed) then drop 1 pushed else pushed

  unfoldable pub evaluate_rate : Rule W → SeriesState W → SampleReading W → Option (Evaluation W)
  unfolding evaluate_value slide
  evaluate_rate rule s r = do
    window_samples ← rule.window_samples
    let current = select_metric rule.metric r
    let width = usize_pred window_samples
    let slid = record s { window = slide width current s.window }
    (if length s.window == width
        then evaluate_value rule slid (f.sub current (front s.window))
        else some (slid, none))

  abbrev pub bits_of : SampleReading W → Bits
  bits_of r = record {
    value = f.to_bits r.value;
    min = f.to_bits r.min;
    max = f.to_bits r.max;
    avg = f.to_bits r.avg;
  }

  unfoldable pub evaluate_against :
      Rule W → SeriesState W → SampleReading W → Option Bits → Evaluation W
  unfolding judge
  evaluate_against rule s r none = (record s { baseline = some (bits_of r) }, none)
  evaluate_against rule s r (some previous) =
      if same_bits previous (bits_of r)
      then judge rule s s.gate (some violates) (some r.value)
      else judge rule (record s { baseline = some (bits_of r) }) s.gate (some recovers)
          (some r.value)

  unfoldable pub evaluate_stale : Rule W → SeriesState W → SampleReading W → Evaluation W
  unfolding evaluate_against
  evaluate_stale rule s r = evaluate_against rule s r s.baseline
