-- ===== src/Rules/Complete.antt =====
-- The entries that `validate` accepts, described by what is written in them.
use mathlib.Core.Option.{some-injective}
use sensorwatch.Prelude.{
  ℕ, ◌≤◌, ◌≡◌, ◌≢◌, refl, ◌↔◌, Bool, true, false, ◌||◌, Option, none, some, [], ◌∷◌, arith,
  Option-cases,
}
use sensorwatch.Prelude.Order.{same, list_ord, nat_ord}
use sensorwatch.Prelude.Text.{Text, CaseFold, trim}
use sensorwatch.Float.{Float}
use sensorwatch.Rules.{RuleKind, Op, Rule, max_samples}
use sensorwatch.Rules.Problem.{Label, Field}
use sensorwatch.Rules.Validate.{
  RawRule, ok, value_based, is_some, or_value, on_recovery_side, matcher_pattern, type_pattern,
  common_problems, kind_problems, built, validate, trimmed, label_of, finish, validate_kind,
  fold_pattern, parse_type_label, name_problems, comparison_problems, window_problems,
  matcher_problems, finite_problems, clear_problems,
}
use sensorwatch.Rules.Sound.{is_rate, is_source_kind, IsClean, validate-eq-ok, named_written}

abbrev has_matcher : {W : Type 0} → RawRule W → Bool
has_matcher raw = is_some raw.sensor || is_some raw.reading || is_some raw.type_

module _ {W : Type 0} ⦃f : Float W⦄ where
  pub record IsAcceptable (raw : RawRule W) (kind : RuleKind) : Type 0 where
    pub has_kind : raw.kind ≡ some kind
    pub is_named : trimmed raw.name ≢ []
    pub sensor_ok : (s : Text) → raw.sensor ≡ some s → trim s ≢ []
    pub reading_ok : (s : Text) → raw.reading ≡ some s → trim s ≢ []
    pub type_ok : (s : Text) → raw.type_ ≡ some s → parse_type_label s ≢ none
    pub threshold_ok : (t : W) → raw.threshold ≡ some t → f.is_finite t ≡ true
    pub clear_ok : (t : W) → raw.clear ≡ some t → f.is_finite t ≡ true
    pub side_ok :
        (o : Op) (t x : W)
        → raw.op ≡ some o
        → raw.threshold ≡ some t
        → raw.clear ≡ some x
        → on_recovery_side o t x ≡ true
    pub debounced : (1 ≤ or_value raw.for_samples 1) × (or_value raw.for_samples 1 ≤ max_samples)
    pub matched : value_based kind ≡ true → has_matcher raw ≡ true
    pub unmatched : is_source_kind kind ≡ true → has_matcher raw ≡ false
    pub compared : value_based kind ≡ true → (raw.op ≢ none) × (raw.threshold ≢ none)
    pub uncompared :
        value_based kind ≡ false
        → (raw.op ≡ none) × (raw.threshold ≡ none) × (raw.clear ≡ none) × (raw.metric ≡ none)
    pub windowed :
        is_rate kind ≡ true → (w : ℕ) × (raw.window_samples ≡ some w) × (2 ≤ w) × (w ≤ max_samples)
    pub unwindowed : is_rate kind ≡ false → raw.window_samples ≡ none

module _ {W : Type 0} ⦃c : CaseFold⦄ where
  fold_pattern_clean :
      (s : Text) (field : Field) (label : Label)
      → s ≢ []
      → (fold_pattern {W = W} s field label).1 ≡ []
  unfolding fold_pattern
  fold_pattern_clean [] field label h = absurd (h refl)
  fold_pattern_clean (x ∷ xs) field label h = refl

  pattern_clean :
      (o : Option Text) (field : Field) (label : Label)
      → ((s : Text) → o ≡ some s → trim s ≢ [])
      → (matcher_pattern {W = W} o field label).1 ≡ []
  unfolding matcher_pattern
  pattern_clean none field label h = refl
  pattern_clean (some s) field label h = fold_pattern_clean (trim s) field label (h s refl)

  type_clean :
      (o : Option Text) (label : Label)
      → ((s : Text) → o ≡ some s → parse_type_label s ≢ none)
      → (type_pattern {W = W} o label).1 ≡ []
  unfolding type_pattern
  type_clean none label h = refl
  type_clean (some s) label h = ground (arith, h s refl)

  name_clean :
      (o : Option Text) (label : Label)
      → trimmed o ≢ []
      → name_problems {W = W} o (trimmed o) label ≡ []
  unfolding name_problems
  name_clean none label h = absurd (h refl)
  name_clean (some s) label h = ground arith

module _ {W : Type 0} ⦃f : Float W⦄ where
  finite_clean :
      (o : Option W) (field : Field) (label : Label)
      → ((t : W) → o ≡ some t → f.is_finite t ≡ true)
      → finite_problems o field label ≡ []
  unfolding finite_problems
  finite_clean none field label h = refl
  finite_clean (some t) field label h = rw (h t refl)

  side_clean :
      (o : Option Op) (t x : Option W) (label : Label)
      → ((o' : Op) (t' x' : W)
          → o ≡ some o'
          → t ≡ some t'
          → x ≡ some x'
          → on_recovery_side o' t' x' ≡ true)
      → clear_problems o t x label ≡ []
  unfolding clear_problems
  side_clean none t x label h = refl
  side_clean (some o) none x label h = refl
  side_clean (some o) (some t) none label h = refl
  side_clean (some o) (some t) (some x) label h = ground (arith, h o t x refl refl refl)

module _ {W : Type 0} ⦃f : Float W⦄ ⦃c : CaseFold⦄ (raw : RawRule W) (kind : RuleKind)
    (label : Label) where
  common_clean : IsAcceptable raw kind → common_problems raw (trimmed raw.name) label ≡ []
  unfolding common_problems
  common_clean h =
      rw
        (
          name_clean {W = W} raw.name label h.is_named,
          pattern_clean {W = W} raw.sensor Field.sensor label h.sensor_ok,
          pattern_clean {W = W} raw.reading Field.reading label h.reading_ok,
          type_clean {W = W} raw.type_ label h.type_ok,
          finite_clean raw.threshold Field.threshold label h.threshold_ok,
          finite_clean raw.clear Field.clear label h.clear_ok,
          side_clean raw.op raw.threshold raw.clear label h.side_ok,
        )
        (ground (arith, h.debounced))

  matcher_clean : IsAcceptable raw kind → matcher_problems kind raw label ≡ []
  unfolding matcher_problems
  matcher_clean h = ground (arith, h.matched, h.unmatched)

  comparison_clean : IsAcceptable raw kind → comparison_problems kind raw label ≡ []
  unfolding comparison_problems
  comparison_clean h = ground (arith, h.compared, h.uncompared)

  window_clean : IsAcceptable raw kind → window_problems {W = W} kind raw.window_samples label ≡ []
  unfolding window_problems
  window_clean h = ground (arith, h.windowed, h.unwindowed)

  kind_clean : IsAcceptable raw kind → kind_problems kind raw label ≡ []
  unfolding kind_problems
  kind_clean h = rw (matcher_clean h, comparison_clean h, window_clean h)

  finished :
      (k : Option RuleKind)
      → k ≡ some kind
      → IsAcceptable raw kind
      → let name = trimmed raw.name in
        (r : Rule W) × (validate_kind raw name label (common_problems raw name label) k ≡ ok r)
  unfolding validate_kind finish
  finished k e h =
      rw (e, common_clean h, kind_clean h) (built kind raw (trimmed raw.name) label, refl)

module _ {W : Type 0} ⦃c : CaseFold⦄ where
  fold_pattern_written :
      (s : Text) (field : Field) (label : Label)
      → (fold_pattern {W = W} s field label).1 ≡ []
      → s ≢ []
  unfolding fold_pattern
  fold_pattern_written [] field label h = cc
  fold_pattern_written (x ∷ xs) field label h = ground arith

  pattern_written :
      (o : Option Text) (field : Field) (label : Label)
      → (matcher_pattern {W = W} o field label).1 ≡ []
      → (s : Text) → o ≡ some s
      → trim s ≢ []
  unfolding matcher_pattern
  pattern_written none field label h s e = cc
  pattern_written (some t) field label h s e =
      rw (some-injective _ _ e) at (fold_pattern_written (trim t) field label h)

  type_written :
      (o : Option Text) (label : Label)
      → (type_pattern {W = W} o label).1 ≡ []
      → (s : Text) → o ≡ some s
      → parse_type_label s ≢ none
  unfolding type_pattern
  type_written none label h s e = cc
  type_written (some t) label h s e = ground (arith, Option-cases (parse_type_label t))

module _ {W : Type 0} ⦃f : Float W⦄ ⦃c : CaseFold⦄ (raw : RawRule W) (kind : RuleKind)
    (label : Label) where
  abbrev Clean : Type 0
  Clean = IsClean raw (trimmed raw.name) label kind

  finite_written :
      (o : Option W) (field : Field)
      → finite_problems o field label ≡ []
      → (t : W) → o ≡ some t
      → f.is_finite t ≡ true
  unfolding finite_problems
  finite_written o field h t e = ground arith

  side_written :
      Clean
      → (o : Op) (t x : W) → raw.op ≡ some o
      → raw.threshold ≡ some t
      → raw.clear ≡ some x
      → on_recovery_side o t x ≡ true
  unfolding finite_problems clear_problems
  side_written h o t x eo et ex = ground (arith, h.threshold_ok, h.clear_ok, h.side_ok)

  matched_written : Clean → value_based kind ≡ true → has_matcher raw ≡ true
  unfolding matcher_problems
  matched_written h v = ground (arith, h.matcher_ok)

  unmatched_written : Clean → is_source_kind kind ≡ true → has_matcher raw ≡ false
  unfolding matcher_problems
  unmatched_written h v = ground (arith, h.matcher_ok)

  compared_written : Clean → value_based kind ≡ true → (raw.op ≢ none) × (raw.threshold ≢ none)
  unfolding comparison_problems
  compared_written h v = ground (arith, h.comparison_ok)

  uncompared_written :
      Clean
      → value_based kind ≡ false
      → (raw.op ≡ none) × (raw.threshold ≡ none) × (raw.clear ≡ none) × (raw.metric ≡ none)
  unfolding comparison_problems
  uncompared_written h v = ground (arith, h.comparison_ok)

  windowed_written :
      Clean
      → is_rate kind ≡ true
      → (w : ℕ) × (raw.window_samples ≡ some w) × (2 ≤ w) × (w ≤ max_samples)
  unfolding window_problems
  windowed_written h k = ground (arith, h.window_ok)

  unwindowed_written : Clean → is_rate kind ≡ false → raw.window_samples ≡ none
  unfolding window_problems
  unwindowed_written h k = ground (arith, h.window_ok)

  IsAcceptable-of_clean : raw.kind ≡ some kind → Clean → IsAcceptable raw kind
  IsAcceptable-of_clean e h = record {
    has_kind = e;
    is_named = named_written {W = W} raw.name label h.name_ok;
    sensor_ok = pattern_written {W = W} raw.sensor Field.sensor label h.sensor_ok;
    reading_ok = pattern_written {W = W} raw.reading Field.reading label h.reading_ok;
    type_ok = type_written {W = W} raw.type_ label h.type_ok;
    threshold_ok = finite_written raw.threshold Field.threshold h.threshold_ok;
    clear_ok = finite_written raw.clear Field.clear h.clear_ok;
    side_ok = side_written h;
    debounced = ground (arith, h.samples_ok);
    matched = matched_written h;
    unmatched = unmatched_written h;
    compared = compared_written h;
    uncompared = uncompared_written h;
    windowed = windowed_written h;
    unwindowed = unwindowed_written h;
  }

-- `validate` accepts exactly the entries that are acceptable as written, under some kind.
pub validate_iff :
    {W : Type 0} ⦃f : Float W⦄ ⦃c : CaseFold⦄ (raw : RawRule W) (index : ℕ)
    → ((r : Rule W) × (validate raw index ≡ ok r)) ↔ ((kind : RuleKind) × IsAcceptable raw kind)
unfolding validate
validate_iff raw index = (
  λ p.
      let (kind, e, clean, same) = validate-eq-ok raw index p.1 in
      (kind, IsAcceptable-of_clean raw kind (label_of (trimmed raw.name) index) e clean),
  λ p. finished raw p.0 (label_of (trimmed raw.name) index) raw.kind p.1.has_kind p.1,
)
