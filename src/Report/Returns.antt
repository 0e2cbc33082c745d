-- ===== src/Report/Returns.antt =====
-- The scan of `report` does not panic on validated rules.
use sensorwatch.Prelude.{ℕ, ◌≡◌, refl, some, List, [], ◌∷◌, All, Bool-cases, inl, inr}
use sensorwatch.Prelude.Panic.{Returns}
use sensorwatch.Prelude.Text.{CaseFold}
use sensorwatch.Float.{Float}
use sensorwatch.Source.{Tick, sampled, unavailable}
use sensorwatch.Rules.Sound.{IsValid}
use sensorwatch.Engine.Observe.{Transition}
use sensorwatch.Engine.Total.{observe-Returns, rules-observe}
use sensorwatch.Digest.Aggregate.{aggregate}
use sensorwatch.Report.{Window, State, take_transition, take_transitions, outside, scan_tick, scan}

module _ {W : Type 0} ⦃f : Float W⦄ ⦃c : CaseFold⦄ (cap : ℕ) (w : Window) where
  engine-take_transitions :
      (s : State W) (out : List (Transition W)) → (take_transitions cap w s out).engine ≡ s.engine
  unfolding take_transitions take_transition
  engine-take_transitions s [] = refl
  engine-take_transitions s (t ∷ out) = engine-take_transitions (take_transition cap w s t) out

  -- one tick returns, and the engine keeps its rules
  scan_tick-Returns :
      (s : State W) (t : Tick W)
      → All IsValid s.engine.rules
      → (s' : State W) × (scan_tick cap w s t ≡ some s') × All IsValid s'.engine.rules
  unfolding scan_tick
  scan_tick-Returns s (unavailable ts raw) v = (s, refl, v)
  scan_tick-Returns s (sampled sample) v = elim (Bool-cases (outside w sample.timestamp)) [
    | inl o ↦ (s, rw o refl, v)
    | inr o ↦
        let ((e, out), h) = observe-Returns s.engine (sampled sample) v in
        let start : State W = record s { engine = e; agg = aggregate s.agg sample } in
        (
          take_transitions cap w start out,
          rw (o, h) refl,
          rw (engine-take_transitions start out, rules-observe s.engine (sampled sample) h) v,
        )
  ]

  -- With rules that passed validation, the scan returns for any ticks.
  pub scan-Returns :
      (s : State W) (ts : List (Tick W)) → All IsValid s.engine.rules → Returns (scan cap w s ts)
  unfolding scan
  scan-Returns s [] v = (s, refl)
  scan-Returns s (t ∷ ts) v =
      let (s', e, v') = scan_tick-Returns s t v in rw e (scan-Returns s' ts v')
