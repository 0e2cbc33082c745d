-- ===== src/Engine/Total.antt =====
-- The engine does not panic on validated rules.
use sensorwatch.Prelude.{
  ℕ, ◌+◌, ◌≡◌, refl, true, false, Option, none, some, List, [], ◌∷◌, arith, All, Bool-cases, inl,
  inr, ◌==◌,
}
use sensorwatch.Prelude.Panic.{>>=-eq-some, Returns, Returns-bind, Returns-if}
use sensorwatch.Prelude.Words.{u64}
use sensorwatch.Prelude.SortedMap.{SortedMap}
use sensorwatch.Prelude.Text.{CaseFold}
use sensorwatch.Float.{Float}
use sensorwatch.Source.{SampleReading, Sample, Tick, sampled, unavailable}
use sensorwatch.Rules.{Rule, RuleKind, rate, stale, missing, source_unavailable}
use sensorwatch.Rules.Validate.{is_some, value_based}
use sensorwatch.Rules.Sound.{IsValid}
use sensorwatch.Engine.Verdicts.{evaluate_value-eq-feed}
use sensorwatch.Engine.Series.{SeriesState, evaluate_value, evaluate_threshold, evaluate_rate}
use sensorwatch.Engine.Observe.{
  Key, RuleState, Engine, Transition, evaluate, observe_matched, present, observe_absent, absent,
  present_one, absent_one, observe_series, observe_rule, step, step_all, observe, run, is_source,
  matches_reading,
}

present_value {ℓ} : {A : Type ℓ} (o : Option A) → is_some o ≡ true → (a : A) × (o ≡ some a)
present_value none h = cc
present_value (some a) h = (a, refl)

module _ {W : Type 0} ⦃f : Float W⦄ (rule : Rule W) (v : IsValid rule) where
  evaluate_value-Returns :
      (s : SeriesState W) (x : W) → value_based rule.kind ≡ true → Returns (evaluate_value rule s x)
  evaluate_value-Returns s x k =
      let (o, eo) = present_value rule.op (v.compared k).0 in
      let (t, et) = present_value rule.threshold (v.compared k).1 in
      (_, evaluate_value-eq-feed rule s x o t eo et)

  evaluate-Returns :
      (k : RuleKind) (s : SeriesState W) (r : SampleReading W)
      → rule.kind ≡ k
      → is_source k ≡ false
      → Returns (evaluate k rule s r)
  unfolding evaluate evaluate_threshold evaluate_rate
  evaluate-Returns RuleKind.threshold s r e h = evaluate_value-Returns s _ (rw e)
  evaluate-Returns rate s r e h =
      let (w, ew, _, _) = v.windowed (rw e) in
      rw ew (Returns-if _ _ _ (evaluate_value-Returns _ _ (rw e)) (_, refl))
  evaluate-Returns stale s r e h = (_, refl)
  evaluate-Returns missing s r e h = (_, refl)
  evaluate-Returns source_unavailable s r e h = cc

  observe_absent-Returns :
      (k : RuleKind) (sample : Sample W) (key : Key) (s : SeriesState W)
      → is_source k ≡ false
      → Returns (observe_absent k rule sample key s)
  unfolding observe_absent
  observe_absent-Returns missing sample key s h = (_, refl)
  observe_absent-Returns source_unavailable sample key s h = cc
  observe_absent-Returns _ sample key s h = (_, refl)

  module _ (plain : is_source rule.kind ≡ false) (tick : ℕ) (sample : Sample W) where
    observe_matched-Returns :
        (r : SampleReading W) (m : SortedMap Key (SeriesState W))
        → Returns (observe_matched rule tick sample r m)
    unfolding observe_matched
    observe_matched-Returns r m =
        Returns-if _ _ _ (_, refl)
          (Returns-bind (evaluate rule.kind rule _ r) _ (evaluate-Returns rule.kind _ r refl plain)
            λ p. (_, refl))

    present_one-Returns :
        ⦃c : CaseFold⦄ (r : SampleReading W) (m : SortedMap Key (SeriesState W))
        → Returns (present_one rule tick sample r m)
    unfolding present_one
    present_one-Returns r m =
        Returns-if (matches_reading rule r) _ _ (observe_matched-Returns r m) (_, refl)

    present-Returns :
        ⦃c : CaseFold⦄ (rs : List (SampleReading W)) (m : SortedMap Key (SeriesState W))
        → Returns (present rule tick sample rs m)
    unfolding present
    present-Returns [] m = (_, refl)
    present-Returns (r ∷ rs) m =
        Returns-bind (present_one rule tick sample r m) _ (present_one-Returns r m) λ p.
          Returns-bind (present rule tick sample rs p.0) _ (present-Returns rs p.0) λ q. (_, refl)

    absent_one-Returns :
        (key : Key) (s : SeriesState W) → Returns (absent_one rule tick sample key s)
    unfolding absent_one
    absent_one-Returns key s =
        Returns-if (s.last_seen_tick == tick) _ _ (_, refl)
          (observe_absent-Returns rule.kind sample key s plain)

    absent-Returns : (m : SortedMap Key (SeriesState W)) → Returns (absent rule tick sample m)
    unfolding absent
    absent-Returns [] = (_, refl)
    absent-Returns ((key, s) ∷ m) =
        Returns-bind (absent_one rule tick sample key s) _ (absent_one-Returns key s)
          λ p. Returns-bind (absent rule tick sample m) _ (absent-Returns m) λ q. (_, refl)

    observe_series-Returns :
        ⦃c : CaseFold⦄ (m : SortedMap Key (SeriesState W))
        → Returns (observe_series tick sample rule m)
    unfolding observe_series
    observe_series-Returns m =
        Returns-bind (present rule tick sample sample.readings m) _
          (present-Returns sample.readings m)
          λ p. Returns-bind (absent rule tick sample p.0) _ (absent-Returns p.0) λ q. (_, refl)

module _ {W : Type 0} ⦃f : Float W⦄ ⦃c : CaseFold⦄ where
  step-Returns :
      (tick : ℕ) (t : Tick W) (rule : Rule W) (st : RuleState W)
      → IsValid rule
      → Returns (step tick t rule st)
  unfolding step observe_rule
  step-Returns tick (unavailable ts raw) rule st v = (_, refl)
  step-Returns tick (sampled sample) rule st v = elim (Bool-cases (is_source rule.kind)) [
    | inl e ↦ rw e (_, refl)
    | inr e ↦ rw e (
        Returns-bind (observe_series tick sample rule st.series) _
          (observe_series-Returns rule v e tick sample st.series) λ p. (_, refl))
  ]

  step_all-Returns :
      (tick : ℕ) (t : Tick W) (rules : List (Rule W)) (sts : List (RuleState W))
      → All IsValid rules
      → Returns (step_all tick t rules sts)
  unfolding step_all
  step_all-Returns tick t [] sts v = (_, refl)
  step_all-Returns tick t (rule ∷ rules) [] v = (_, refl)
  step_all-Returns tick t (rule ∷ rules) (st ∷ sts) v =
      Returns-bind _ _ (step-Returns tick t rule st v.0)
        λ p. Returns-bind _ _ (step_all-Returns tick t rules sts v.1) λ q. (_, refl)

  pub observe-Returns : (e : Engine W) (t : Tick W) → All IsValid e.rules → Returns (observe e t)
  unfolding observe
  observe-Returns e t v = Returns-bind _ _ (step_all-Returns _ t e.rules e.states v) λ p. (_, refl)

  pub rules-observe :
      (e : Engine W) (t : Tick W) {e' : Engine W} {out : List (Transition W)}
      → observe e t ≡ some (e', out)
      → e'.rules ≡ e.rules
  unfolding observe
  rules-observe e t h =
      let (p, _, q) = >>=-eq-some (step_all (u64 (e.tick_index + 1)) t e.rules e.states) _ h in
      ground arith

  -- An engine whose rules passed validation takes any ticks without a panic: no `expect` and no
  -- `unreachable!` of the evaluation is met.
  pub run-Returns : (e : Engine W) (ts : List (Tick W)) → All IsValid e.rules → Returns (run e ts)
  unfolding run
  run-Returns e [] v = (_, refl)
  run-Returns e (t ∷ ts) v =
      let ((e', out), eq) = observe-Returns e t v in
      rw eq (Returns-bind _ _ (run-Returns e' ts (rw (rules-observe e t eq) v)) λ q. (_, refl))
