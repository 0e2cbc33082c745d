-- ===== src/Digest/Counts.antt =====
-- What the aggregates of one series say of the values that it was given.
use sensorwatch.Prelude.{
  ◌+◌, ◌<◌, ◌≡◌, refl, sym, ap, ◌∙◌, inl, inr, true, false, Option, none, some, List, [], ◌∷◌,
  arith, if◌then◌else◌, length, Bool-cases,
}
use sensorwatch.Prelude.Words.{u64, u64_mod}
use sensorwatch.Prelude.Text.{Text}
use sensorwatch.Float.{Float, level_float}
use sensorwatch.Digest.Aggregate.{SeriesAgg, observe_value, or_some}

module _ {W : Type 0} ⦃f : Float W⦄ where
  -- the aggregates after a list of (value, unit) pairs
  unfoldable pub observe_all : SeriesAgg W → List (W × Text) → SeriesAgg W
  unfolding observe_value
  observe_all s [] = s
  observe_all s ((v, u) ∷ vs) = observe_all (observe_value s v u) vs

  abbrev pub finite_of : List (W × Text) → List W
  finite_of [] = []
  finite_of ((v, u) ∷ vs) = let rest = finite_of vs in if f.is_finite v then v ∷ rest else rest

  abbrev pub last_of : Option W → List W → Option W
  last_of d [] = d
  last_of d (v ∷ vs) = last_of (some v) vs

  abbrev pub first_of : Option W → List W → Option W
  first_of (some d) vs = some d
  first_of none [] = none
  first_of none (v ∷ vs) = some v

  abbrev pub sum_of : W → List W → W
  sum_of acc [] = acc
  sum_of acc (v ∷ vs) = sum_of (f.add acc v) vs

  pub record Reports (s : SeriesAgg W) (vs : List (W × Text)) (r : SeriesAgg W) : Type 0 where
    pub sampled : r.samples ≡ s.samples + length vs
    pub finites : r.finite ≡ s.finite + length (finite_of vs)
    pub rest : r.finite + r.non_finite ≡ r.samples
    pub summed : r.sum ≡ sum_of s.sum (finite_of vs)
    pub firstly : r.first ≡ first_of s.first (finite_of vs)
    pub lastly : r.last ≡ last_of s.last (finite_of vs)

  first_of-some :
      (d : Option W) (v : W) (vs : List W) → first_of (or_some d v) vs ≡ first_of d (v ∷ vs)
  first_of-some none v vs = refl
  first_of-some (some d) v vs = refl

  first_of-nil : (d : Option W) → first_of d [] ≡ d
  first_of-nil none = refl
  first_of-nil (some d) = refl

  -- the aggregates after a finite value and after any other, while the counts are below 2^64
  abbrev with_finite : SeriesAgg W → W → Text → SeriesAgg W
  with_finite s v u = record s {
    samples = s.samples + 1;
    unit = u;
    finite = s.finite + 1;
    sum = f.add s.sum v;
    min = if f.lt v s.min then v else s.min;
    max = if f.gt v s.max then v else s.max;
    first = or_some s.first v;
    last = some v;
  }

  abbrev with_other : SeriesAgg W → Text → SeriesAgg W
  with_other s u = record s { samples = s.samples + 1; unit = u; non_finite = s.non_finite + 1 }

  observe_value-finite :
      (s : SeriesAgg W) (v : W) (u : Text)
      → f.is_finite v ≡ true
      → s.samples + 1 < u64_mod
      → s.finite + s.non_finite ≡ s.samples
      → observe_value s v u ≡ with_finite s v u
  unfolding observe_value
  observe_value-finite s v u e h a =
      let n : u64 (s.samples + 1) ≡ s.samples + 1 = omega arith in
      let m : u64 (s.finite + 1) ≡ s.finite + 1 = omega arith in rw (e, n, m)

  observe_value-other :
      (s : SeriesAgg W) (v : W) (u : Text)
      → f.is_finite v ≡ false
      → s.samples + 1 < u64_mod
      → s.finite + s.non_finite ≡ s.samples
      → observe_value s v u ≡ with_other s u
  unfolding observe_value
  observe_value-other s v u e h a =
      let n : u64 (s.samples + 1) ≡ s.samples + 1 = omega arith in
      let m : u64 (s.non_finite + 1) ≡ s.non_finite + 1 = omega arith in rw (e, n, m)

  pub finite_of-finite :
      (v : W) (u : Text) (vs : List (W × Text))
      → f.is_finite v ≡ true
      → finite_of ((v, u) ∷ vs) ≡ v ∷ finite_of vs
  finite_of-finite v u vs e = rw e

  pub finite_of-other :
      (v : W) (u : Text) (vs : List (W × Text))
      → f.is_finite v ≡ false
      → finite_of ((v, u) ∷ vs) ≡ finite_of vs
  finite_of-other v u vs e = rw e

  -- Below 2^64 samples, folding values into a series counts them, splits the count into finite and
  -- non-finite values, and sums, and keeps the first and last of, exactly the finite ones, in order.
  pub observe_all-Reports :
      (s : SeriesAgg W) (vs : List (W × Text))
      → s.samples + length vs < u64_mod
      → s.finite + s.non_finite ≡ s.samples
      → Reports s vs (observe_all s vs)
  unfolding observe_all
  observe_all-Reports s [] h a = record {
    sampled = omega arith;
    finites = omega arith;
    rest = omega arith;
    summed = refl;
    firstly = sym (first_of-nil s.first);
    lastly = refl;
  }
  observe_all-Reports s ((v, u) ∷ vs) h a = elim (Bool-cases (f.is_finite v)) [
    | inl e ↦
        let ih = observe_all-Reports (with_finite s v u) vs (omega arith) (omega arith) in
        rw (observe_value-finite s v u e (omega arith) a) (record {
          sampled = omega (arith, ih.sampled);
          finites = omega (arith, ih.finites, ap length (finite_of-finite v u vs e));
          rest = ih.rest;
          summed = ih.summed ∙ ap (sum_of _) (sym (finite_of-finite v u vs e));
          firstly =
              ih.firstly
              ∙ first_of-some s.first v (finite_of vs)
              ∙ ap (first_of s.first) (sym (finite_of-finite v u vs e));
          lastly = ih.lastly ∙ ap (last_of s.last) (sym (finite_of-finite v u vs e));
        })
    | inr e ↦
        let ih = observe_all-Reports (with_other s u) vs (omega arith) (omega arith) in
        rw (observe_value-other s v u e (omega arith) a) (record {
          sampled = omega (arith, ih.sampled);
          finites = omega (arith, ih.finites, ap length (finite_of-other v u vs e));
          rest = ih.rest;
          summed = ih.summed ∙ ap (sum_of _) (sym (finite_of-other v u vs e));
          firstly = ih.firstly ∙ ap (first_of s.first) (sym (finite_of-other v u vs e));
          lastly = ih.lastly ∙ ap (last_of s.last) (sym (finite_of-other v u vs e));
        })
  ]
