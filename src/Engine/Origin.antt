-- ===== src/Engine/Origin.antt =====
-- Every transition carries the name and the severity of the rule that made it.
use sensorwatch.Prelude.{
  ℕ, ◌≡◌, refl, Bool, true, false, Option, none, some, List, [], ◌∷◌, ◌++◌, All, All-append,
  if◌then◌else◌, ◌==◌,
}
use sensorwatch.Prelude.Panic.{Yields, Yields-some, Yields-bind, Yields-if}
use sensorwatch.Prelude.SortedMap.{SortedMap}
use sensorwatch.Prelude.Text.{Text, CaseFold}
use sensorwatch.Float.{Float}
use sensorwatch.Source.{Timestamp, SampleReading, Sample, Tick, sampled, unavailable}
use sensorwatch.Rules.{Rule, RuleKind, missing, source_unavailable}
use sensorwatch.Engine.Gate.{GateEvent, Verdict, violates, recovers}
use sensorwatch.Engine.Series.{SeriesState}
use sensorwatch.Engine.Observe.{
  Key, RuleState, Transition, evaluate, observe_matched, present, observe_absent, absent,
  observe_rule, observe_source, step, is_source, matches_reading, push, series_transition,
  present_one, absent_one, observe_series,
}

module _ {W : Type 0} where
  -- the transition is of the rule
  pub record IsOf (rule : Rule W) (t : Transition W) : Type 0 where
    pub by_name : t.rule ≡ rule.name
    pub by_severity : t.severity ≡ rule.severity

  IsOf-push {ℓ} :
      {A : Type ℓ} (rule : Rule W) (o : Option A) (g : A → Transition W)
      → ((a : A) → IsOf rule (g a))
      → All (IsOf rule) (push o g)
  IsOf-push rule none g h = tt
  IsOf-push rule (some a) g h = (h a, tt)

module _ {W : Type 0} ⦃f : Float W⦄ (rule : Rule W) where
  abbrev pub AllOf : {S : Type 0} → S × List (Transition W) → Type 0
  AllOf p = All (IsOf rule) p.1

  series-IsOf :
      (e : GateEvent) (sample : Sample W) (key : Key) (v : Option W) (u : Text)
      → IsOf rule (series_transition rule e sample key v u)
  unfolding series_transition
  series-IsOf e sample key v u = record { by_name = refl; by_severity = refl }

  observe_source-IsOf :
      (st : RuleState W) (v : Verdict) (ts : Timestamp) (raw : Text)
      → AllOf (observe_source rule st v ts raw)
  unfolding observe_source
  observe_source-IsOf st v ts raw =
      IsOf-push rule _ _ λ e. record { by_name = refl; by_severity = refl }

  module _ (tick : ℕ) (sample : Sample W) where
    observe_matched-IsOf :
        (r : SampleReading W) (m : SortedMap Key (SeriesState W))
        → Yields AllOf (observe_matched rule tick sample r m)
    unfolding observe_matched
    observe_matched-IsOf r m = Yields-if AllOf _ _ _ (Yields-some AllOf _ tt) (
        Yields-bind (λ _. Unit {0}) AllOf (evaluate rule.kind rule _ r) _ (λ _ _. tt)
          λ p _. Yields-some AllOf _ (IsOf-push rule _ _ λ e. series-IsOf e.0 sample _ _ _))

    present_one-IsOf :
        ⦃c : CaseFold⦄ (r : SampleReading W) (m : SortedMap Key (SeriesState W))
        → Yields AllOf (present_one rule tick sample r m)
    unfolding present_one
    present_one-IsOf r m =
        Yields-if AllOf (matches_reading rule r) _ _ (observe_matched-IsOf r m)
          (Yields-some AllOf (m, []) tt)

    present-IsOf :
        ⦃c : CaseFold⦄ (rs : List (SampleReading W)) (m : SortedMap Key (SeriesState W))
        → Yields AllOf (present rule tick sample rs m)
    unfolding present
    present-IsOf [] m = Yields-some AllOf _ tt
    present-IsOf (r ∷ rs) m =
        Yields-bind AllOf AllOf (present_one rule tick sample r m) _ (present_one-IsOf r m) λ p hp.
          Yields-bind AllOf AllOf (present rule tick sample rs p.0) _ (present-IsOf rs p.0)
            λ q hq. Yields-some AllOf (q.0, p.1 ++ q.1) (All-append (IsOf rule) p.1 q.1 hp hq)

    observe_absent-IsOf :
        (k : RuleKind) (key : Key) (s : SeriesState W)
        → Yields AllOf (observe_absent k rule sample key s)
    unfolding observe_absent
    observe_absent-IsOf missing key s =
        Yields-some AllOf _ (IsOf-push rule _ _ λ e. series-IsOf e sample _ _ _)
    observe_absent-IsOf source_unavailable key s = λ a e. cc
    observe_absent-IsOf _ key s = Yields-some AllOf _ tt

    absent_one-IsOf :
        (key : Key) (s : SeriesState W) → Yields AllOf (absent_one rule tick sample key s)
    unfolding absent_one
    absent_one-IsOf key s =
        Yields-if AllOf (s.last_seen_tick == tick) _ _ (Yields-some AllOf (s, []) tt)
          (observe_absent-IsOf rule.kind key s)

    absent-IsOf : (m : SortedMap Key (SeriesState W)) → Yields AllOf (absent rule tick sample m)
    unfolding absent
    absent-IsOf [] = Yields-some AllOf _ tt
    absent-IsOf ((key, s) ∷ m) =
        Yields-bind AllOf AllOf (absent_one rule tick sample key s) _ (absent_one-IsOf key s)
          λ p hp. Yields-bind AllOf AllOf (absent rule tick sample m) _ (absent-IsOf m) λ q hq.
            Yields-some AllOf ((key, p.0) ∷ q.0, p.1 ++ q.1) (All-append (IsOf rule) p.1 q.1 hp hq)

    observe_series-IsOf :
        ⦃c : CaseFold⦄ (m : SortedMap Key (SeriesState W))
        → Yields AllOf (observe_series tick sample rule m)
    unfolding observe_series
    observe_series-IsOf m =
        Yields-bind AllOf AllOf (present rule tick sample sample.readings m) _
          (present-IsOf sample.readings m)
          λ p hp.
            Yields-bind AllOf AllOf (absent rule tick sample p.0) _ (absent-IsOf p.0)
              λ q hq. Yields-some AllOf (q.0, p.1 ++ q.1) (All-append (IsOf rule) p.1 q.1 hp hq)

  pub step-IsOf :
      ⦃c : CaseFold⦄ (tick : ℕ) (t : Tick W) (st : RuleState W) → Yields AllOf (step tick t rule st)
  unfolding step observe_rule
  step-IsOf tick (unavailable ts raw) st =
      Yields-some AllOf _ (source_or_none (is_source rule.kind))
    where
      source_or_none :
          (b : Bool) → AllOf (if b then observe_source rule st violates ts raw else (st, []))
      source_or_none true = observe_source-IsOf st violates ts raw
      source_or_none false = tt
  step-IsOf tick (sampled sample) st =
      Yields-if AllOf (is_source rule.kind) _ _
        (Yields-some AllOf _ (observe_source-IsOf st recovers _ _))
        (Yields-bind AllOf AllOf (observe_series tick sample rule st.series) _
          (observe_series-IsOf tick sample st.series)
          λ p hp. Yields-some AllOf (record st { series = p.0 }, p.1) hp)
