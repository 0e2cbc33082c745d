-- ===== src/Rules/Sound.antt =====
-- What holds of every rule that `validate` accepts.
use mathlib.Core.Path.{subst}
use sensorwatch.Prelude.{
  ℕ, ◌≤◌, ◌≡◌, ◌≢◌, refl, Bool, true, false, ◌||◌, Option, none, some, List, [], ◌∷◌, ◌++◌, arith,
  Option-cases, append-eq-nil, is_empty,
}
use sensorwatch.Prelude.Text.{Text, CaseFold, trim}
use sensorwatch.Float.{Float}
use sensorwatch.Rules.{RuleKind, rate, source_unavailable, Op, Rule, Matcher, max_samples}
use sensorwatch.Rules.Problem.{Label, Problem, Field, name_empty}
use sensorwatch.Rules.Validate.{
  RawRule, ok, report, value_based, is_some, in_samples, or_value, on_recovery_side,
  matcher_pattern, type_pattern, common_problems, kind_problems, built, validate, trimmed, label_of,
  finish, validate_kind, fold_pattern, parse_type_label, name_problems, comparison_problems,
  window_problems, matcher_problems, finite_problems, clear_problems,
}

abbrev pub is_rate : RuleKind → Bool
is_rate rate = true
is_rate _ = false

abbrev pub is_matching : Matcher → Bool
is_matching m = is_some m.sensor || is_some m.reading || is_some m.kind

abbrev pub is_source_kind : RuleKind → Bool
is_source_kind source_unavailable = true
is_source_kind _ = false

module _ {W : Type 0} ⦃f : Float W⦄ where
  pub record IsValid (r : Rule W) : Type 0 where
    pub is_named : r.name ≢ []
    pub debounced : (1 ≤ r.for_samples) × (r.for_samples ≤ max_samples)
    pub compared : value_based r.kind ≡ true → (is_some r.op ≡ true) × (is_some r.threshold ≡ true)
    pub finite : (t : W) → r.threshold ≡ some t → f.is_finite t ≡ true
    pub recovering :
        (o : Op) (t c : W)
        → r.op ≡ some o
        → r.threshold ≡ some t
        → r.clear ≡ some c
        → (f.is_finite c ≡ true) × (on_recovery_side o t c ≡ true)
    pub uncompared :
        value_based r.kind ≡ false → (r.op ≡ none) × (r.threshold ≡ none) × (r.clear ≡ none)
    pub windowed :
        is_rate r.kind ≡ true → (w : ℕ) × (r.window_samples ≡ some w) × (2 ≤ w) × (w ≤ max_samples)
    pub unwindowed : is_rate r.kind ≡ false → r.window_samples ≡ none
    pub matching : value_based r.kind ≡ true → is_matching r.matcher ≡ true
    pub unmatching : is_source_kind r.kind ≡ true → is_matching r.matcher ≡ false

module _ {W : Type 0} where
  pub named_written :
      (o : Option Text) (label : Label)
      → name_problems {W = W} o (trimmed o) label ≡ []
      → trimmed o ≢ []
  unfolding name_problems
  named_written none label p q = cc
  named_written (some t) label p q =
      let p' : report {P = Problem W} (is_empty {A = ℕ} []) (name_empty label) ≡ [] = rw q at p in
      cc

module _ {W : Type 0} ⦃c : CaseFold⦄ where
  -- a pattern without an error is present exactly when it was written
  fold_pattern_present :
      (s : Text) (field : Field) (label : Label)
      → (fold_pattern {W = W} s field label).1 ≡ []
      → is_some (fold_pattern {W = W} s field label).0 ≡ true
  unfolding fold_pattern
  fold_pattern_present [] field label h = cc
  fold_pattern_present (x ∷ xs) field label h = refl

  pub matcher_pattern_present :
      (raw : Option Text) (field : Field) (label : Label)
      → (matcher_pattern {W = W} raw field label).1 ≡ []
      → is_some (matcher_pattern {W = W} raw field label).0 ≡ is_some raw
  unfolding matcher_pattern
  matcher_pattern_present none field label h = refl
  matcher_pattern_present (some raw) field label h = fold_pattern_present (trim raw) field label h

  pub type_pattern_present :
      (raw : Option Text) (label : Label)
      → (type_pattern {W = W} raw label).1 ≡ []
      → is_some (type_pattern {W = W} raw label).0 ≡ is_some raw
  unfolding type_pattern
  type_pattern_present none label h = refl
  type_pattern_present (some raw) label h = ground (arith, Option-cases (parse_type_label raw))

module _ {W : Type 0} ⦃f : Float W⦄ ⦃c : CaseFold⦄ where
  finish-eq-ok :
      (raw : RawRule W) (name : Text) (label : Label) (kind : RuleKind) (ps : List (Problem W))
      {r : Rule W}
      → finish raw name label kind ps ≡ ok r
      → (ps ≡ []) × (built kind raw name label ≡ r)
  unfolding finish
  finish-eq-ok raw name label kind [] h = (refl, ground arith)
  finish-eq-ok raw name label kind (p ∷ ps) h = ground arith

  -- no check of an entry found anything
  pub record IsClean (raw : RawRule W) (name : Text) (label : Label) (kind : RuleKind)
      : Type 0 where
    pub name_ok : name_problems {W = W} raw.name name label ≡ []
    pub sensor_ok : (matcher_pattern {W = W} raw.sensor Field.sensor label).1 ≡ []
    pub reading_ok : (matcher_pattern {W = W} raw.reading Field.reading label).1 ≡ []
    pub type_ok : (type_pattern {W = W} raw.type_ label).1 ≡ []
    pub threshold_ok : finite_problems raw.threshold Field.threshold label ≡ []
    pub clear_ok : finite_problems raw.clear Field.clear label ≡ []
    pub side_ok : clear_problems raw.op raw.threshold raw.clear label ≡ []
    pub samples_ok : in_samples 1 (or_value raw.for_samples 1) ≡ true
    pub matcher_ok : matcher_problems kind raw label ≡ []
    pub comparison_ok : comparison_problems kind raw label ≡ []
    pub window_ok : window_problems {W = W} kind raw.window_samples label ≡ []

  IsClean-of_nil :
      (raw : RawRule W) (name : Text) (label : Label) (kind : RuleKind)
      → common_problems raw name label ++ kind_problems kind raw label ≡ []
      → IsClean raw name label kind
  unfolding common_problems kind_problems
  IsClean-of_nil raw name label kind h =
      let (c, k) = append-eq-nil _ _ h in
      let (c1, c') = append-eq-nil _ _ c in
      let (c2, c'') = append-eq-nil _ _ c' in
      let (c3, c3') = append-eq-nil _ _ c'' in
      let (c4, c4') = append-eq-nil _ _ c3' in
      let (c5, c5') = append-eq-nil _ _ c4' in
      let (c6, c6') = append-eq-nil _ _ c5' in
      let (c7, c8) = append-eq-nil _ _ c6' in
      let (k1, k') = append-eq-nil _ _ k in
      let (k2, k3) = append-eq-nil _ _ k' in
      record {
        name_ok = c1;
        sensor_ok = c2;
        reading_ok = c3;
        type_ok = c4;
        threshold_ok = c5;
        clear_ok = c6;
        side_ok = c7;
        samples_ok = ground arith;
        matcher_ok = k1;
        comparison_ok = k2;
        window_ok = k3;
      }

  -- An accepted entry has a kind, passes every check, and is turned into the rule as it stands.
  pub validate-eq-ok :
      (raw : RawRule W) (index : ℕ) {r : Rule W}
      → validate raw index ≡ ok r
      → let name = trimmed raw.name in
        let label = label_of name index in
        (kind : RuleKind) × (raw.kind ≡ some kind)
        × IsClean raw name label kind
        × (built kind raw name label ≡ r)
  unfolding validate
  validate-eq-ok raw index {r} h = go raw.kind refl h
    where
      name : Text
      name = trimmed raw.name

      label : Label
      label = label_of name index

      go :
          (k : Option RuleKind)
          → raw.kind ≡ k
          → validate_kind raw name label (common_problems raw name label) k ≡ ok r
          → (kind : RuleKind) × (raw.kind ≡ some kind)
            × IsClean raw name label kind
            × (built kind raw name label ≡ r)
      go none e h = cc
      go (some kind) e h =
          let (empty, same) = finish-eq-ok raw name label kind _ h in
          (kind, e, IsClean-of_nil raw name label kind empty, same)

module _ {W : Type 0} ⦃f : Float W⦄ ⦃c : CaseFold⦄ (raw : RawRule W) (label : Label)
    (kind : RuleKind) where
  abbrev name_of : Text
  name_of = trimmed raw.name

  abbrev rule_of : Rule W
  rule_of = built kind raw name_of label

  is_named_lem : IsClean raw name_of label kind → trimmed raw.name ≢ []
  is_named_lem h = named_written {W = W} raw.name label h.name_ok

  compared_lem :
      IsClean raw name_of label kind
      → value_based kind ≡ true
      → (is_some raw.op ≡ true) × (is_some raw.threshold ≡ true)
  unfolding comparison_problems
  compared_lem h v = ground (arith, h.comparison_ok)

  uncompared_lem :
      IsClean raw name_of label kind
      → value_based kind ≡ false
      → (raw.op ≡ none) × (raw.threshold ≡ none) × (raw.clear ≡ none)
  unfolding comparison_problems
  uncompared_lem h v = ground (arith, h.comparison_ok)

  finite_lem :
      IsClean raw name_of label kind → (t : W) → raw.threshold ≡ some t → f.is_finite t ≡ true
  unfolding finite_problems
  finite_lem h t e = ground (arith, h.threshold_ok)

  recovering_lem :
      IsClean raw name_of label kind
      → (o : Op) (t x : W) → raw.op ≡ some o
      → raw.threshold ≡ some t
      → raw.clear ≡ some x
      → (f.is_finite x ≡ true) × (on_recovery_side o t x ≡ true)
  unfolding finite_problems clear_problems
  recovering_lem h o t x eo et ex = ground (arith, h.threshold_ok, h.clear_ok, h.side_ok)

  windowed_lem :
      IsClean raw name_of label kind
      → is_rate kind ≡ true
      → (w : ℕ) × (raw.window_samples ≡ some w) × (2 ≤ w) × (w ≤ max_samples)
  unfolding window_problems
  windowed_lem h k = ground (arith, h.window_ok)

  unwindowed_lem : IsClean raw name_of label kind → is_rate kind ≡ false → raw.window_samples ≡ none
  unfolding window_problems
  unwindowed_lem h k = ground (arith, h.window_ok)

  matching_lem :
      IsClean raw name_of label kind → value_based kind ≡ true → is_matching rule_of.matcher ≡ true
  unfolding built matcher_problems
  matching_lem h v = ground (
    arith,
    h.matcher_ok,
    matcher_pattern_present {W = W} raw.sensor Field.sensor label h.sensor_ok,
    matcher_pattern_present {W = W} raw.reading Field.reading label h.reading_ok,
    type_pattern_present {W = W} raw.type_ label h.type_ok,
  )

  unmatching_lem :
      IsClean raw name_of label kind
      → is_source_kind kind ≡ true
      → is_matching rule_of.matcher ≡ false
  unfolding built matcher_problems
  unmatching_lem h v = ground (
    arith,
    h.matcher_ok,
    matcher_pattern_present {W = W} raw.sensor Field.sensor label h.sensor_ok,
    matcher_pattern_present {W = W} raw.reading Field.reading label h.reading_ok,
    type_pattern_present {W = W} raw.type_ label h.type_ok,
  )

  clean-IsValid : IsClean raw name_of label kind → IsValid rule_of
  unfolding built
  clean-IsValid h = record {
    is_named = is_named_lem h;
    debounced = ground (arith, h.samples_ok);
    compared = compared_lem h;
    finite = finite_lem h;
    recovering = recovering_lem h;
    uncompared = uncompared_lem h;
    windowed = windowed_lem h;
    unwindowed = unwindowed_lem h;
    matching = matching_lem h;
    unmatching = unmatching_lem h;
  }

-- A rule that `validate` accepts has a name, a debounce count between 1 and `max_samples`, and just the
-- fields of its kind: a comparison with a finite threshold and a clear level on its recovery side, a
-- window of 2 to `max_samples` samples for a rate, a matcher where values are compared and none for the
-- source.
pub validate-IsValid :
    {W : Type 0} ⦃f : Float W⦄ ⦃c : CaseFold⦄ (raw : RawRule W) (index : ℕ) {r : Rule W}
    → validate raw index ≡ ok r
    → IsValid r
validate-IsValid raw index {r} h =
    let (kind, k, clean, same) = validate-eq-ok raw index h in
    subst IsValid same (clean-IsValid raw (label_of (trimmed raw.name) index) kind clean)
