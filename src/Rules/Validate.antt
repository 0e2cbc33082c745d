-- ===== src/Rules/Validate.antt =====
-- rules.rs: `validate`, the second pass over one `[[rules]]` entry.
use sensorwatch.Prelude.{
  ℕ, Bool, true, false, not, ◌&&◌, ◌||◌, Option, none, some, List, [], ◌∷◌, ◌++◌, leb,
  if◌then◌else◌, is_empty,
}
use sensorwatch.Prelude.Text.{Text, CaseFold, trim, eq_ignore_ascii_case}
use sensorwatch.Float.{Float}
use sensorwatch.Labels.{unknown_label, canonical_labels, find_label}
use sensorwatch.Rules.{
  RuleKind, rate, stale, missing, source_unavailable, Severity, warning, Metric, Op, gt, ge, lt, le,
  Rule, max_samples,
}
use sensorwatch.Rules.Problem.{
  Label, nth, named, Field, Problem, name_missing, name_empty, kind_missing, pattern_empty,
  type_unknown, not_finite, clear_side, for_samples_range, matcher_required, matcher_refused,
  op_required, threshold_required, field_refused, window_required, window_range, window_refused,
}

-- one entry as serde reads it
pub record RawRule (W : Type 0) : Type 0 where
  pub name : Option Text
  pub kind : Option RuleKind
  pub sensor : Option Text
  pub reading : Option Text
  pub type_ : Option Text
  pub metric : Option Metric
  pub op : Option Op
  pub threshold : Option W
  pub clear : Option W
  pub for_samples : Option ℕ  -- u32
  pub window_samples : Option ℕ  -- u32
  pub severity : Option Severity

pub data Validated (W : Type 0) : Type 0 where
  ok : Rule W → Validated W
  err : List (Problem W) → Validated W

abbrev pub is_some {ℓ} : {A : Type ℓ} → Option A → Bool
is_some none = false
is_some (some a) = true

abbrev pub or_value {ℓ} : {A : Type ℓ} → Option A → A → A
or_value none d = d
or_value (some a) d = a

-- `if test { errors.push(problem) }`
abbrev pub report {ℓ} : {P : Type ℓ} → Bool → P → List P
report true p = p ∷ []
report false p = []

unfoldable pub parse_type_label : Text → Option Text
unfolding find_label
parse_type_label raw =
    if eq_ignore_ascii_case raw unknown_label
    then some unknown_label
    else find_label raw canonical_labels

abbrev pub trimmed : Option Text → Text
trimmed none = []
trimmed (some name) = trim name

abbrev pub label_of : Text → ℕ → Label
label_of [] index = nth index
label_of (c ∷ cs) index = named (c ∷ cs)

-- `(lo..=max_samples).contains(&n)`
abbrev pub in_samples : ℕ → ℕ → Bool
in_samples lo n = leb lo n && leb n max_samples

-- `matches!(kind, Threshold | Rate)`
abbrev pub value_based : RuleKind → Bool
value_based RuleKind.threshold = true
value_based rate = true
value_based stale = false
value_based missing = false
value_based source_unavailable = false

module _ {W : Type 0} where
  unfoldable pub name_problems : Option Text → Text → Label → List (Problem W)
  name_problems none name label = name_missing label ∷ []
  name_problems (some raw) name label = report (is_empty name) (name_empty label)

  module _ ⦃c : CaseFold⦄ where
    unfoldable pub fold_pattern : Text → Field → Label → Option Text × List (Problem W)
    fold_pattern [] field label = (none, pattern_empty label field ∷ [])
    fold_pattern (x ∷ xs) field label = (some (c.to_lowercase (x ∷ xs)), [])

    unfoldable pub matcher_pattern : Option Text → Field → Label → Option Text × List (Problem W)
    unfolding fold_pattern
    matcher_pattern none field label = (none, [])
    matcher_pattern (some raw) field label = fold_pattern (trim raw) field label

  unfoldable pub type_found : Text → Label → Option Text → Option Text × List (Problem W)
  type_found raw label none = (none, type_unknown label raw ∷ [])
  type_found raw label (some canonical) = (some canonical, [])

  unfoldable pub type_pattern : Option Text → Label → Option Text × List (Problem W)
  unfolding type_found
  type_pattern none label = (none, [])
  type_pattern (some raw) label = type_found raw label (parse_type_label raw)

  module _ ⦃f : Float W⦄ where
    unfoldable pub finite_problems : Option W → Field → Label → List (Problem W)
    finite_problems none field label = []
    finite_problems (some v) field label = report (not (f.is_finite v)) (not_finite label field v)

    -- is `clear` on the recovery side of `threshold`?
    unfoldable pub on_recovery_side : Op → (threshold clear : W) → Bool
    on_recovery_side gt threshold clear = f.le clear threshold
    on_recovery_side ge threshold clear = f.le clear threshold
    on_recovery_side lt threshold clear = f.ge clear threshold
    on_recovery_side le threshold clear = f.ge clear threshold

    unfoldable pub clear_problems :
        Option Op → (threshold clear : Option W) → Label → List (Problem W)
    unfolding on_recovery_side
    clear_problems (some op) (some threshold) (some clear) label =
        report
          (f.is_finite threshold && f.is_finite clear && not (on_recovery_side op threshold clear))
          (clear_side label op)
    clear_problems _ _ _ label = []

  unfoldable pub matcher_problems : RuleKind → RawRule W → Label → List (Problem W)
  matcher_problems kind raw label =
      let some_matcher = is_some raw.sensor || is_some raw.reading || is_some raw.type_ in
      if value_based kind
      then report (not some_matcher) (matcher_required label kind)
      else elim kind [ source_unavailable ↦ report some_matcher (matcher_refused label) | _ ↦ [] ]

  unfoldable pub comparison_problems : RuleKind → RawRule W → Label → List (Problem W)
  comparison_problems kind raw label =
      if value_based kind
      then report (not (is_some raw.op)) (op_required label kind)
        ++ report (not (is_some raw.threshold)) (threshold_required label kind)
      else report (is_some raw.op) (field_refused label kind Field.op)
        ++ (report (is_some raw.threshold) (field_refused label kind Field.threshold)
            ++ (report (is_some raw.clear) (field_refused label kind Field.clear)
                ++ report (is_some raw.metric) (field_refused label kind Field.metric)))

  unfoldable pub window_problems : RuleKind → Option ℕ → Label → List (Problem W)
  window_problems rate none label = window_required label ∷ []
  window_problems rate (some w) label = report (not (in_samples 2 w)) (window_range label w)
  window_problems kind none label = []
  window_problems kind (some w) label = window_refused label kind ∷ []

module _ {W : Type 0} ⦃f : Float W⦄ ⦃c : CaseFold⦄ where
  -- the checks that do not depend on the kind, in their order
  unfoldable pub common_problems : RawRule W → Text → Label → List (Problem W)
  unfolding name_problems matcher_pattern type_pattern finite_problems clear_problems
  common_problems raw name label =
      name_problems raw.name name label
      ++ ((matcher_pattern raw.sensor Field.sensor label).1
          ++ ((matcher_pattern raw.reading Field.reading label).1
              ++ ((type_pattern raw.type_ label).1
                  ++ (finite_problems raw.threshold Field.threshold label
                      ++ (finite_problems raw.clear Field.clear label
                          ++ (clear_problems raw.op raw.threshold raw.clear label
                              ++ report (not (in_samples 1 (or_value raw.for_samples 1)))
                                  (for_samples_range label (or_value raw.for_samples 1))))))))

  unfoldable pub kind_problems : RuleKind → RawRule W → Label → List (Problem W)
  unfolding matcher_problems comparison_problems window_problems
  kind_problems kind raw label =
      matcher_problems kind raw label
      ++ (comparison_problems kind raw label ++ window_problems kind raw.window_samples label)

  unfoldable pub built : RuleKind → RawRule W → Text → Label → Rule W
  built kind raw name label = record {
    name = name;
    kind = kind;
    matcher = record {
      sensor = (matcher_pattern {W = W} raw.sensor Field.sensor label).0;
      reading = (matcher_pattern {W = W} raw.reading Field.reading label).0;
      kind = (type_pattern {W = W} raw.type_ label).0;
    };
    metric = or_value raw.metric Metric.value;
    op = raw.op;
    threshold = raw.threshold;
    clear = raw.clear;
    for_samples = or_value raw.for_samples 1;
    window_samples = raw.window_samples;
    severity = or_value raw.severity warning;
  }

  unfoldable pub finish : RawRule W → Text → Label → RuleKind → List (Problem W) → Validated W
  unfolding built
  finish raw name label kind [] = ok (built kind raw name label)
  finish raw name label kind (p ∷ ps) = err (p ∷ ps)

  unfoldable pub validate_kind :
      RawRule W → Text → Label → List (Problem W) → Option RuleKind → Validated W
  unfolding finish kind_problems
  validate_kind raw name label errors none = err (errors ++ kind_missing label ∷ [])
  validate_kind raw name label errors (some kind) =
      finish raw name label kind (errors ++ kind_problems kind raw label)

  unfoldable pub validate : RawRule W → ℕ → Validated W
  unfolding validate_kind common_problems
  validate raw index =
      let name = trimmed raw.name in
      let label = label_of name index in
      validate_kind raw name label (common_problems raw name label) raw.kind
