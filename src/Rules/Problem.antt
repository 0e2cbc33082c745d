-- ===== src/Rules/Problem.antt =====
-- rules.rs: what is wrong with an entry. An error message is the constructor of the problem, with what
-- the message quotes.
use sensorwatch.Prelude.{ℕ}
use sensorwatch.Prelude.Text.{Text}
use sensorwatch.Rules.{RuleKind, Op}

-- how a message names the entry: `rules[index]` or `rule 'name'`
pub data Label : Type 0 where
  nth : ℕ → Label
  named : Text → Label

pub data Field : Type 0 where
  sensor reading threshold clear op metric : Field

pub data Problem (W : Type 0) : Type 0 where
  name_missing name_empty kind_missing : Label → Problem W
  pattern_empty : Label → Field → Problem W
  type_unknown : Label → Text → Problem W
  not_finite : Label → Field → W → Problem W
  clear_side : Label → Op → Problem W
  for_samples_range : Label → ℕ → Problem W
  matcher_required : Label → RuleKind → Problem W
  matcher_refused : Label → Problem W
  op_required threshold_required : Label → RuleKind → Problem W
  field_refused : Label → RuleKind → Field → Problem W
  window_required : Label → Problem W
  window_range : Label → ℕ → Problem W
  window_refused : Label → RuleKind → Problem W
  duplicate_name : Text → Problem W
