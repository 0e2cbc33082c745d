-- ===== src/Engine/Verdicts.antt =====
-- rust/sensorwatch-cli/src/engine.rs: the evaluation of one value, from its verdict to the gate.
use sensorwatch.Prelude.{
  ℕ, ◌≡◌, inl, inr, Bool, true, false, Option, none, some, arith, if◌then◌else◌, Bool-cases,
}
use sensorwatch.Prelude.Panic.{map_some}
use sensorwatch.Float.{Float, IsFloat}
use sensorwatch.Rules.{Rule, Op, gt, ge, lt, le, compare}
use sensorwatch.Rules.Validate.{on_recovery_side}
use sensorwatch.Engine.Gate.{Gate, cleared}
use sensorwatch.Engine.Series.{SeriesState, or_else, verdict_of, evaluate_value}
use sensorwatch.Engine.Debounce.{Signal, feed, Fits}

module _ {W : Type 0} ⦃f : Float W⦄ where
  -- what a compared value means for a gate
  unfoldable pub signal : Op → (limit clear : W) → Bool → W → Signal
  signal op limit clear is_fired x =
      if f.is_nan x then none else some (verdict_of op limit clear is_fired x)

  -- The evaluation of a value feeds its signal to the gate and changes nothing else.
  pub evaluate_value-eq-feed :
      (rule : Rule W) (s : SeriesState W) (x : W) (o : Op) (t : W)
      → rule.op ≡ some o
      → rule.threshold ≡ some t
      → let fed = feed rule.for_samples s.gate (signal o t (or_else rule.clear t) s.gate.fired x) in
        evaluate_value rule s x
        ≡ some (record s { gate = fed.0 }, map_some (λ e. (e, some x)) fed.1)
  unfolding evaluate_value feed signal
  evaluate_value-eq-feed rule s x o t eo et = rw (eo, et) (ground arith)

  -- The hysteresis band is reported for a fired gate alone.
  pub signal-Fits : (o : Op) (t c : W) (g : Gate) (x : W) → Fits g (signal o t c g.fired x)
  unfolding signal verdict_of
  signal-Fits o t c g x = ground arith

  -- A value closes an alert only if it is a number past the clear level, and the event carries the count
  -- of the episode and that value.
  pub cleared_value :
      (rule : Rule W) (s : SeriesState W) (x : W) (o : Op) (t : W) {s' : SeriesState W} {n : ℕ}
      {v : Option W}
      → rule.op ≡ some o
      → rule.threshold ≡ some t
      → evaluate_value rule s x ≡ some (s', some (cleared n, v))
      → (s.gate.fired ≡ true)
        × (f.is_nan x ≡ false)
        × (compare o x (or_else rule.clear t) ≡ false)
        × (n ≡ s.gate.total)
        × (v ≡ some x)
  unfolding feed signal verdict_of
  cleared_value rule s x o t {s'} {n} {v} eo et h =
      ground (arith, evaluate_value-eq-feed rule s x o t eo et)

  module _ (laws : IsFloat W) where
    open laws use {gt-eq-lt, ge-eq-le, le-eq-not-lt, le_trans, le_nan}

    numbers : (x y : W) → f.le x y ≡ true → (f.is_nan x ≡ false) × (f.is_nan y ≡ false)
    numbers x y h = elim (Bool-cases (f.is_nan x)) [
      | inl e ↦ cc (le_nan x y (inl e))
      | inr e ↦ elim (Bool-cases (f.is_nan y)) [
        | inl e' ↦ cc (le_nan x y (inr e'))
        | inr e' ↦ (e, e')
      ]
    ]

    -- With the clear level on the recovery side of the threshold, a number past the clear level is past
    -- the threshold too, so what closes an alert never violates.
    pub clear-ne-violation :
        (o : Op) (t c x : W)
        → on_recovery_side o t c ≡ true
        → f.is_nan x ≡ false
        → compare o x c ≡ false
        → compare o x t ≡ false
    unfolding compare on_recovery_side
    clear-ne-violation gt t c x h n k = ground (
      arith,
      numbers c t h,
      gt-eq-lt x t,
      gt-eq-lt x c,
      le-eq-not-lt x c,
      le_trans x c t,
      le-eq-not-lt x t,
    )
    clear-ne-violation ge t c x h n k = ground (arith, ge-eq-le x t, ge-eq-le x c, le_trans c t x)
    clear-ne-violation lt t c x h n k =
        ground
          (arith, ge-eq-le c t, numbers t c, le-eq-not-lt c x, le_trans t c x, le-eq-not-lt t x)
    clear-ne-violation le t c x h n k = ground (arith, ge-eq-le c t, le_trans x t c)
