-- ===== src/Engine/Observe.antt =====
-- engine.rs: `Engine::observe`, the passes over a sample and the transitions that they push.
use sensorwatch.Prelude.{
  ℕ, ◌+◌, Bool, true, false, Option, none, some, List, [], ◌∷◌, ◌++◌, map, ◌==◌, if◌then◌else◌,
}
use sensorwatch.Prelude.Order.{list_ord, nat_ord, pair_ord}
use sensorwatch.Prelude.SortedMap.{SortedMap, get, put}
use sensorwatch.Prelude.Panic.{◌>>=◌}
use sensorwatch.Prelude.Words.{u64}
use sensorwatch.Prelude.Text.{Text, CaseFold}
use sensorwatch.Float.{Float}
use sensorwatch.Source.{Timestamp, SampleReading, Sample, Tick, sampled, unavailable}
use sensorwatch.Rules.{
  Rule, RuleKind, threshold, rate, stale, missing, source_unavailable, Severity, RuleSet, matches,
}
use sensorwatch.Engine.Gate.{Gate, default_gate, Verdict, violates, recovers, GateEvent, apply}
use sensorwatch.Engine.Series.{
  SeriesState, default_series, Evaluation, judge, evaluate_threshold, evaluate_rate, evaluate_stale,
}

pub data TransitionState : Type 0 where
  fired cleared : TransitionState

pub record Transition (W : Type 0) : Type 0 where
  pub rule : Text
  pub kind : RuleKind
  pub severity : Severity
  pub state : TransitionState
  pub raw_timestamp : Text
  pub timestamp : Timestamp
  pub sensor : Option Text
  pub reading : Option Text
  pub value : Option W
  pub unit : Option Text
  pub threshold : Option W
  pub samples_in_violation : ℕ

abbrev pub Key : Type 0
Key = Text × Text

pub record RuleState (W : Type 0) : Type 0 where
  pub series : SortedMap Key (SeriesState W)
  pub source : Gate

abbrev pub default_state : {W : Type 0} → RuleState W
default_state = record { series = []; source = default_gate }

pub record Engine (W : Type 0) : Type 0 where
  pub rules : List (Rule W)
  pub states : List (RuleState W)
  pub tick_index : ℕ  -- u64

-- `Engine::new`
unfoldable pub new : {W : Type 0} → RuleSet W → Engine W
new s = record { rules = s.rules; states = map (λ _. default_state) s.rules; tick_index = 0 }

unfoldable pub split_event : GateEvent → ℕ → TransitionState × ℕ
split_event GateEvent.fired for_samples = (TransitionState.fired, for_samples)
split_event (GateEvent.cleared total) for_samples = (TransitionState.cleared, total)

module _ {W : Type 0} where
  unfoldable pub series_transition :
      Rule W → GateEvent → Sample W → Key → Option W → Text → Transition W
  unfolding split_event
  series_transition rule event sample key value unit =
      let (state, samples) = split_event event rule.for_samples in
      record {
        rule = rule.name;
        kind = rule.kind;
        severity = rule.severity;
        state = state;
        raw_timestamp = sample.raw_timestamp;
        timestamp = sample.timestamp;
        sensor = some key.0;
        reading = some key.1;
        value = value;
        unit = some unit;
        threshold = rule.threshold;
        samples_in_violation = samples;
      }

  unfoldable pub source_transition : Rule W → GateEvent → Timestamp → Text → Transition W
  unfolding split_event
  source_transition rule event timestamp raw_timestamp =
      let (state, samples) = split_event event rule.for_samples in
      record {
        rule = rule.name;
        kind = rule.kind;
        severity = rule.severity;
        state = state;
        raw_timestamp = raw_timestamp;
        timestamp = timestamp;
        sensor = none;
        reading = none;
        value = none;
        unit = none;
        threshold = none;
        samples_in_violation = samples;
      }

  -- `if let Some(event) = … { out.push(…) }`
  abbrev pub push {ℓ} : {A : Type ℓ} → Option A → (A → Transition W) → List (Transition W)
  push none t = []
  push (some a) t = t a ∷ []

  -- one step of the source gate of a source-unavailable rule
  unfoldable pub observe_source :
      Rule W → RuleState W → Verdict → Timestamp → Text → RuleState W × List (Transition W)
  unfolding source_transition
  observe_source rule st verdict timestamp raw =
      let (gate, event) = apply st.source verdict rule.for_samples in
      (record st { source = gate }, push event λ e. source_transition rule e timestamp raw)

abbrev pub is_source : RuleKind → Bool
is_source source_unavailable = true
is_source threshold = false
is_source rate = false
is_source stale = false
is_source missing = false

abbrev pub Pass : Type 0 → Type 0
Pass W = SortedMap Key (SeriesState W) × List (Transition W)

module _ {W : Type 0} ⦃f : Float W⦄ where
  -- the `match rule.kind` of the present pass; the last branch is `unreachable!`
  unfoldable pub evaluate :
      RuleKind → Rule W → SeriesState W → SampleReading W → Option (Evaluation W)
  unfolding evaluate_threshold evaluate_rate evaluate_stale
  evaluate threshold rule s r = evaluate_threshold rule s r
  evaluate rate rule s r = evaluate_rate rule s r
  evaluate stale rule s r = some (evaluate_stale rule s r)
  evaluate missing rule s r = some (judge rule s s.gate (some recovers) none)
  evaluate source_unavailable rule s r = none

  abbrev pub or_default : Option (SeriesState W) → SeriesState W
  or_default none = default_series
  or_default (some s) = s

  abbrev pub key_of : SampleReading W → Key
  key_of r = (r.sensor, r.reading)

  -- the state of a series when its reading is seen
  abbrev pub stamp : ℕ → SampleReading W → SeriesState W → SeriesState W
  stamp tick r s = record s { last_seen_tick = tick; unit = r.unit }

  -- a reading that matched, first in its sample under its key or not
  unfoldable pub observe_matched :
      Rule W → ℕ → Sample W → SampleReading W → SortedMap Key (SeriesState W) → Option (Pass W)
  unfolding evaluate series_transition
  observe_matched rule tick sample r m =
      let s = or_default (get (key_of r) m) in
      if s.last_seen_tick == tick then some (put (key_of r) s m, []) else do
        (s', event) ← evaluate rule.kind rule (stamp tick r s) r
        some (
          put (key_of r) s' m,
          push event λ e. series_transition rule e.0 sample (key_of r) e.1 r.unit,
        )

  module _ ⦃c : CaseFold⦄ where
    unfoldable pub matches_reading : Rule W → SampleReading W → Bool
    matches_reading rule r =
        matches rule.matcher (c.to_lowercase r.sensor) (c.to_lowercase r.reading) r.kind

    unfoldable pub present_one :
        Rule W → ℕ → Sample W → SampleReading W → SortedMap Key (SeriesState W) → Option (Pass W)
    unfolding matches_reading observe_matched
    present_one rule tick sample r m =
        if matches_reading rule r then observe_matched rule tick sample r m else some (m, [])

    -- the present pass, in sample order
    unfoldable pub present :
        Rule W
        → ℕ
        → Sample W
        → List (SampleReading W)
        → SortedMap Key (SeriesState W)
        → Option (Pass W)
    unfolding present_one
    present rule tick sample [] m = some (m, [])
    present rule tick sample (r ∷ rs) m = do
      (m', out) ← present_one rule tick sample r m
      (m'', outs) ← present rule tick sample rs m'
      some (m'', out ++ outs)

  -- a series that is absent from the sample; the last branch is `unreachable!`
  unfoldable pub observe_absent :
      RuleKind
      → Rule W
      → Sample W
      → Key
      → SeriesState W
      → Option (SeriesState W × List (Transition W))
  unfolding series_transition
  observe_absent missing rule sample key s =
      let (gate, event) = apply s.gate violates rule.for_samples in
      some
        (record s { gate = gate }, push event λ e. series_transition rule e sample key none s.unit)
  observe_absent source_unavailable rule sample key s = none
  observe_absent _ rule sample key s =
      some (record s { gate = record s.gate { streak = 0 }; window = []; baseline = none }, [])

  unfoldable pub absent_one :
      Rule W → ℕ → Sample W → Key → SeriesState W → Option (SeriesState W × List (Transition W))
  unfolding observe_absent
  absent_one rule tick sample key s =
      if s.last_seen_tick == tick then some (s, []) else observe_absent rule.kind rule sample key s

  -- the absent pass, in key order
  unfoldable pub absent : Rule W → ℕ → Sample W → SortedMap Key (SeriesState W) → Option (Pass W)
  unfolding absent_one
  absent rule tick sample [] = some ([], [])
  absent rule tick sample ((key, s) ∷ m) = do
    (s', out) ← absent_one rule tick sample key s
    (m', outs) ← absent rule tick sample m
    some ((key, s') ∷ m', out ++ outs)

  module _ ⦃c : CaseFold⦄ where
    -- both passes, for a rule about readings
    unfoldable pub observe_series :
        ℕ → Sample W → Rule W → SortedMap Key (SeriesState W) → Option (Pass W)
    unfolding present absent
    observe_series tick sample rule m = do
      (seen, out) ← present rule tick sample sample.readings m
      (swept, outs) ← absent rule tick sample seen
      some (swept, out ++ outs)

    -- one rule at one sample
    unfoldable pub observe_rule :
        ℕ → Sample W → Rule W → RuleState W → Option (RuleState W × List (Transition W))
    unfolding observe_source observe_series
    observe_rule tick sample rule st =
        if is_source rule.kind
        then some (observe_source rule st recovers sample.timestamp sample.raw_timestamp)
        else do
          (series, out) ← observe_series tick sample rule st.series
          some (record st { series = series }, out)

    -- one rule at one tick; an unavailable tick is for source-unavailable rules alone
    unfoldable pub step :
        ℕ → Tick W → Rule W → RuleState W → Option (RuleState W × List (Transition W))
    unfolding observe_rule
    step tick (sampled sample) rule st = observe_rule tick sample rule st
    step tick (unavailable timestamp raw) rule st =
        some
          (if is_source rule.kind then observe_source rule st violates timestamp raw else (st, []))

    -- `self.rules.iter().zip(self.states.iter_mut())`
    unfoldable pub step_all :
        ℕ
        → Tick W
        → List (Rule W)
        → List (RuleState W)
        → Option (List (RuleState W) × List (Transition W))
    unfolding step
    step_all tick t [] sts = some (sts, [])
    step_all tick t (rule ∷ rules) [] = some ([], [])
    step_all tick t (rule ∷ rules) (st ∷ sts) = do
      (st', out) ← step tick t rule st
      (sts', outs) ← step_all tick t rules sts
      some (st' ∷ sts', out ++ outs)

    -- `Engine::observe`
    unfoldable pub observe : Engine W → Tick W → Option (Engine W × List (Transition W))
    unfolding step_all
    observe e t = do
      let tick = u64 (e.tick_index + 1)
      (states, out) ← step_all tick t e.rules e.states
      some (record e { states = states; tick_index = tick }, out)

    -- a run over the ticks of a source, with the transitions in order
    unfoldable pub run : Engine W → List (Tick W) → Option (Engine W × List (Transition W))
    unfolding observe
    run e [] = some (e, [])
    run e (t ∷ ts) = do (e', out) ← observe e t; (e'', outs) ← run e' ts; some (e'', out ++ outs)
