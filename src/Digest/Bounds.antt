-- ===== src/Digest/Bounds.antt =====
-- The minimum and the maximum that a series reports.
use sensorwatch.Prelude.{◌≡◌, sym, true, false, List, [], ◌∷◌, arith, All, Bool-cases, inl, inr}
use mathlib.Core.Path.{subst}
use sensorwatch.Prelude.Text.{Text}
use sensorwatch.Float.{Float, IsFloat}
use sensorwatch.Digest.Aggregate.{SeriesAgg, observe_value}
use sensorwatch.Digest.Counts.{observe_all, finite_of, finite_of-finite, finite_of-other}

module _ {W : Type 0} ⦃f : Float W⦄ (laws : IsFloat W) where
  open laws use {
    gt-eq-lt, le-eq-not-lt, le_trans, lt_le, finite_nan, finite-lt-infinity, neg_infinity-lt-finite,
  }

  -- a value between the minimum and the maximum of a series
  abbrev pub Between : SeriesAgg W → W → Type 0
  Between s v = (f.le s.min v ≡ true) × (f.le v s.max ≡ true)

  -- the first observation of a value puts it between
  observe_value-Between :
      (s : SeriesAgg W) (v : W) (u : Text)
      → f.is_finite v ≡ true
      → f.is_nan s.min ≡ false
      → f.is_nan s.max ≡ false
      → Between (observe_value s v u) v
  unfolding observe_value
  observe_value-Between s v u e m n = rw e (
      ground (
        arith,
        gt-eq-lt v s.max,
        le-eq-not-lt s.min v,
        le-eq-not-lt v s.max,
        le-eq-not-lt v v,
        lt_le v v,
        finite_nan v e,
      ))

  observe_value-keeps :
      (s : SeriesAgg W) (v x : W) (u : Text)
      → f.is_finite v ≡ true
      → Between s x
      → Between (observe_value s v u) x
  unfolding observe_value
  observe_value-keeps s v x u e h = rw e (
      ground (
        arith,
        h,
        gt-eq-lt v s.max,
        lt_le v s.min,
        lt_le s.max v,
        le_trans v s.min x,
        le_trans x s.max v,
      ))

  -- Neither bound is NaN, as at the start, where they are the infinities.
  abbrev pub Bounded : SeriesAgg W → Type 0
  Bounded s = (f.is_nan s.min ≡ false) × (f.is_nan s.max ≡ false)

  observe_value-Bounded :
      (s : SeriesAgg W) (v : W) (u : Text) → Bounded s → Bounded (observe_value s v u)
  unfolding observe_value
  observe_value-Bounded s v u h = elim (Bool-cases (f.is_finite v)) [
    | inl e ↦ rw e (ground (arith, h, finite_nan v e))
    | inr e ↦ rw e h
  ]

  observe_value-other :
      (s : SeriesAgg W) (v x : W) (u : Text)
      → f.is_finite v ≡ false
      → Between s x
      → Between (observe_value s v u) x
  unfolding observe_value
  observe_value-other s v x u e h = rw e h

  observe_all-keeps :
      (s : SeriesAgg W) (vs : List (W × Text)) (x : W) → Between s x → Between (observe_all s vs) x
  unfolding observe_all
  observe_all-keeps s [] x h = h
  observe_all-keeps s ((v, u) ∷ vs) x h = elim (Bool-cases (f.is_finite v)) [
    | inl e ↦ observe_all-keeps (observe_value s v u) vs x (observe_value-keeps s v x u e h)
    | inr e ↦ observe_all-keeps (observe_value s v u) vs x (observe_value-other s v x u e h)
  ]

  -- For floats under the laws of IEEE 754, and a series whose bounds are not NaN, every finite value that
  -- was folded in is at least the minimum and at most the maximum.
  pub observe_all-Between :
      (s : SeriesAgg W) (vs : List (W × Text))
      → Bounded s
      → All (Between (observe_all s vs)) (finite_of vs)
  unfolding observe_all
  observe_all-Between s [] h = tt
  observe_all-Between s ((v, u) ∷ vs) h =
      let rest = observe_all-Between (observe_value s v u) vs (observe_value-Bounded s v u h) in
      elim (Bool-cases (f.is_finite v)) [
        | inl e ↦
            let first =
              observe_all-keeps (observe_value s v u) vs v
                (observe_value-Between s v u e h.0 h.1) in
            subst (All (Between (observe_all (observe_value s v u) vs)))
              (sym (finite_of-finite v u vs e)) (first, rest)
        | inr e ↦
            subst (All (Between (observe_all (observe_value s v u) vs)))
              (sym (finite_of-other v u vs e)) rest
      ]
