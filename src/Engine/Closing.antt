-- ===== src/Engine/Closing.antt =====
-- rust/sensorwatch-cli/src/engine.rs: what an evaluation that closes an alert says of its reading.
use sensorwatch.Prelude.{
  ℕ, ◌+◌, ◌≡◌, ◌⊎◌, ◌∙◌, ap, refl, true, false, Option, none, some, Any, ◌==◌, length, Bool-cases,
  Option-cases, inl, inr,
}
use sensorwatch.Prelude.Panic.{map_some, >>=-eq-some, Yields, Yields-some, Yields-if}
use sensorwatch.Prelude.Text.{CaseFold}
use sensorwatch.Prelude.Words.{u32, usize_pred}
use sensorwatch.Float.{Float}
use sensorwatch.Source.{SampleReading, Tick, sampled, unavailable}
use sensorwatch.Rules.{Rule, RuleKind, threshold, rate, stale, missing, source_unavailable, compare}
use sensorwatch.Engine.Gate.{Gate, Verdict, GateEvent, violates, recovers, apply}
use sensorwatch.Engine.Series.{
  Bits, SeriesState, Evaluation, or_else, select_metric, value_verdict, evaluate_value,
  evaluate_threshold, evaluate_rate, evaluate_stale, evaluate_against, judge, same_bits, bits_of,
  front, slide,
}
use sensorwatch.Engine.Verdicts.{cleared_value}
use sensorwatch.Engine.Observe.{Transition, evaluate, matches_reading}

-- a gate in violation closes nothing
abbrev pub NotCleared : Option GateEvent → Type 0
NotCleared none = Unit {0}
NotCleared (some GateEvent.fired) = Unit {0}
NotCleared (some (GateEvent.cleared n)) = ⊥

pub apply-violates : (g : Gate) (n : ℕ) → NotCleared (apply g violates n).1
unfolding apply
apply-violates g n = elim (Bool-cases g.fired) [
  | inl e ↦ rw e tt
  | inr e ↦ elim (Bool-cases (u32 (g.streak + 1) == n)) [
    | inl q ↦ rw (e, q) tt
    | inr q ↦ rw (e, q) tt
  ]
]

module _ {W : Type 0} ⦃f : Float W⦄ where
  -- a number past the clear level, or past the threshold where there is none
  abbrev pub PastClear : Rule W → W → Type 0
  PastClear rule x =
      (op : _) × (limit : W) × (rule.op ≡ some op)
      × (rule.threshold ≡ some limit)
      × (f.is_nan x ≡ false)
      × (compare op x (or_else rule.clear limit) ≡ false)

  -- what the reading of a series says where an alert of the rule is closed, with the value of the event
  abbrev pub Recovered : RuleKind → Rule W → SampleReading W → Option W → Type 0
  Recovered threshold rule r v =
      (v ≡ some (select_metric rule.metric r)) × PastClear rule (select_metric rule.metric r)
  Recovered rate rule r v =
      (before : W) × (v ≡ some (f.sub (select_metric rule.metric r) before))
      × PastClear rule (f.sub (select_metric rule.metric r) before)
  Recovered stale rule r v = v ≡ some r.value
  Recovered missing rule r v = v ≡ none
  Recovered source_unavailable rule r v = ⊥

  PastClear-cleared :
      (rule : Rule W) (s : SeriesState W) (x : W) {s' : SeriesState W} {n : ℕ} {v : Option W}
      → evaluate_value rule s x ≡ some (s', some (GateEvent.cleared n, v))
      → (v ≡ some x) × PastClear rule x
  unfolding evaluate_value value_verdict
  PastClear-cleared rule s x h = elim (Option-cases rule.op) [
    | inl e ↦ let y = rw (evaluate_value, value_verdict, e) at h in cc
    | inr (op, e) ↦ elim (Option-cases rule.threshold) [
      | inl e' ↦ let y = rw (evaluate_value, value_verdict, e, e') at h in cc
      | inr (limit, e') ↦
          let (_, n, p, _, v) = cleared_value rule s x op limit e e' h in
          (v, (op, limit, e, e', n, p))
    ]
  ]

  -- an event that closes an alert has a reason
  abbrev pub Justified : RuleKind → Rule W → SampleReading W → Evaluation W → Type 0
  Justified k rule r (s, none) = Unit {0}
  Justified k rule r (s, some (GateEvent.fired, v)) = Unit {0}
  Justified k rule r (s, some (GateEvent.cleared n, v)) = Recovered k rule r v

  Justified-cases :
      (rule : Rule W) (r : SampleReading W) (p : Evaluation W)
      → (k : RuleKind)
      → ((s : SeriesState W) (n : ℕ) (v : Option W)
          → p ≡ (s, some (GateEvent.cleared n, v))
          → Recovered k rule r v)
      → Justified k rule r p
  Justified-cases rule r (s, none) k h = tt
  Justified-cases rule r (s, some (GateEvent.fired, v)) k h = tt
  Justified-cases rule r (s, some (GateEvent.cleared n, v)) k h = h s n v refl

  judged :
      (k : RuleKind) (rule : Rule W) (r : SampleReading W) (s : SeriesState W) (x : Option W)
      (q : Gate × Option GateEvent)
      → Recovered k rule r x
      → Justified k rule r (record s { gate = q.0 }, map_some (λ e. (e, x)) q.1)
  judged k rule r s x (g, none) h = tt
  judged k rule r s x (g, some GateEvent.fired) h = tt
  judged k rule r s x (g, some (GateEvent.cleared n)) h = h

  judge-Justified :
      (k : RuleKind) (rule : Rule W) (r : SampleReading W) (s : SeriesState W) (g : Gate)
      (v : Verdict) (x : Option W)
      → Recovered k rule r x
      → Justified k rule r (judge rule s g (some v) x)
  unfolding judge
  judge-Justified k rule r s g v x h = judged k rule r s x (apply g v rule.for_samples) h

  value-Justified :
      (rule : Rule W) (r : SampleReading W) (s : SeriesState W) (before : W)
      → let current = select_metric rule.metric r in
        Yields (Justified rate rule r) (evaluate_value rule s (f.sub current before))
  value-Justified rule r s before p e = Justified-cases rule r p rate λ s' n v q.
      let (a, b) =
        PastClear-cleared rule s (f.sub (select_metric rule.metric r) before) (e ∙ ap some q) in
      (before, a, b)

  evaluate_against-Justified :
      (rule : Rule W) (s : SeriesState W) (r : SampleReading W) (o : Option Bits)
      → Justified stale rule r (evaluate_against rule s r o)
  unfolding evaluate_against
  evaluate_against-Justified rule s r none = tt
  evaluate_against-Justified rule s r (some b) = elim (Bool-cases (same_bits b (bits_of r))) [
    | inl q ↦ rw q (judge-Justified stale rule r s s.gate violates (some r.value) refl)
    | inr q ↦ rw q (
        judge-Justified stale rule r (record s { baseline = some (bits_of r) }) s.gate recovers
          (some r.value) refl)
  ]

  pub evaluate-Justified :
      (k : RuleKind) (rule : Rule W) (s : SeriesState W) (r : SampleReading W)
      → Yields (Justified k rule r) (evaluate k rule s r)
  unfolding evaluate evaluate_threshold evaluate_rate evaluate_stale
  evaluate-Justified threshold rule s r p e =
      Justified-cases rule r p threshold
        λ s' n v q. PastClear-cleared rule s (select_metric rule.metric r) (e ∙ ap some q)
  evaluate-Justified rate rule s r p e =
      let (w, _, e') = >>=-eq-some rule.window_samples _ e in
      let current = select_metric rule.metric r in
      let width = usize_pred w in
      let slid = record s { window = slide width current s.window } in
      Yields-if (Justified rate rule r) (length s.window == width)
        (evaluate_value rule slid (f.sub current (front s.window))) (some (slid, none))
        (value-Justified rule r slid (front s.window))
        (Yields-some (Justified rate rule r) (slid, none) tt) p e'
  evaluate-Justified stale rule s r p e =
      Yields-some (Justified stale rule r) (evaluate_stale rule s r)
        (evaluate_against-Justified rule s r s.baseline) p e
  evaluate-Justified missing rule s r p e =
      Yields-some (Justified missing rule r) (judge rule s s.gate (some recovers) none)
        (judge-Justified missing rule r s s.gate recovers none refl) p e
  evaluate-Justified source_unavailable rule s r p e = cc

  -- the reading closes the alert of the transition
  abbrev pub Closes : ⦃c : CaseFold⦄ → Rule W → Transition W → SampleReading W → Type 0
  Closes rule t r =
      (matches_reading rule r ≡ true)
      × (t.sensor ≡ some r.sensor)
      × (t.reading ≡ some r.reading)
      × Recovered rule.kind rule r t.value

  -- The source is closed by any sample, and a series by a reading in the sample.
  abbrev pub ClosedBy : ⦃c : CaseFold⦄ → Tick W → Transition W → Rule W → Type 0
  ClosedBy (unavailable ts raw) t rule = ⊥
  ClosedBy (sampled sample) t rule =
      (rule.kind ≡ source_unavailable) ⊎ Any (Closes rule t) sample.readings
