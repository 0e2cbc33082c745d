-- ===== src/Rules.antt =====
-- rust/sensorwatch-cli/src/rules.rs: the rules, their matchers and operators. Parsing and validation
-- are in the modules below.
pub mod Problem
pub mod Validate
pub mod Load
pub mod Sound
pub mod Complete
pub mod Names
use sensorwatch.Prelude.{
  ℕ, ◌≡◌, Bool, true, false, ◌&&◌, ◌||◌, Option, none, some, List, [], ◌∷◌, keep, is_empty,
}
use sensorwatch.Prelude.Order.{same, list_ord, nat_ord}
use sensorwatch.Prelude.Text.{Text, contains}
use sensorwatch.Float.{Float}

pub data RuleKind : Type 0 where
  threshold rate stale missing source_unavailable : RuleKind

pub data Severity : Type 0 where
  info warning critical : Severity

unfoldable pub rank : Severity → ℕ
rank info = 0
rank warning = 1
rank critical = 2

pub data Metric : Type 0 where
  value min max avg : Metric

pub data Op : Type 0 where
  gt ge lt le : Op

module _ {W : Type 0} ⦃f : Float W⦄ where
  -- `Op::compare`
  unfoldable pub compare : Op → W → W → Bool
  compare gt lhs rhs = f.gt lhs rhs
  compare ge lhs rhs = f.ge lhs rhs
  compare lt lhs rhs = f.lt lhs rhs
  compare le lhs rhs = f.le lhs rhs

-- `Option::is_none_or`
abbrev pub is_none_or {ℓ} : {A : Type ℓ} → Option A → (A → Bool) → Bool
is_none_or none p = true
is_none_or (some a) p = p a

pub record Matcher : Type 0 where
  pub sensor : Option Text
  pub reading : Option Text
  pub kind : Option Text

unfoldable pub matches : Matcher → Text → Text → Text → Bool
matches m sensor_lower reading_lower kind =
    is_none_or m.sensor (λ pat. contains sensor_lower pat)
    && is_none_or m.reading (λ pat. contains reading_lower pat)
    && is_none_or m.kind (λ label. same label kind)

pub record Rule (W : Type 0) : Type 0 where
  pub name : Text
  pub kind : RuleKind
  pub matcher : Matcher
  pub metric : Metric
  pub op : Option Op
  pub threshold : Option W
  pub clear : Option W
  pub for_samples : ℕ
  pub window_samples : Option ℕ
  pub severity : Severity

-- `RuleSet` is its vector of rules; `retain` is `Vec::retain`.
pub record RuleSet (W : Type 0) : Type 0 where
  pub rules : List (Rule W)

unfoldable pub retain : {W : Type 0} → (Rule W → Bool) → RuleSet W → RuleSet W
retain p s = record { rules = keep p s.rules }

unfoldable pub has_no_rules : {W : Type 0} → RuleSet W → Bool
has_no_rules s = is_empty s.rules

-- `MAX_SAMPLES`
abbrev pub max_samples : ℕ
max_samples = 1_000_000
