-- ===== src/Rules/Load.antt =====
-- rules.rs: `RuleSet::from_toml_str` after serde has read the document.
use sensorwatch.Prelude.{ℕ, ◌+◌, List, [], ◌∷◌, ◌++◌, if◌then◌else◌, any}
use sensorwatch.Prelude.Order.{same, list_ord, nat_ord}
use sensorwatch.Prelude.Text.{CaseFold}
use sensorwatch.Float.{Float}
use sensorwatch.Rules.{Rule, RuleSet}
use sensorwatch.Rules.Problem.{Problem, duplicate_name}
use sensorwatch.Rules.Validate.{RawRule, Validated, ok, err, validate}

pub data Loaded (W : Type 0) : Type 0 where
  loaded : RuleSet W → Loaded W
  invalid : List (Problem W) → Loaded W

-- `rules[..i].iter().any(|r| r.name == rule.name)` for each rule; `seen` holds the earlier rules
unfoldable pub duplicates : {W : Type 0} → List (Rule W) → List (Rule W) → List (Problem W)
duplicates seen [] = []
duplicates seen (rule ∷ rules) =
    let rest = duplicates (rule ∷ seen) rules in
    if any (λ r. same r.name rule.name) seen then duplicate_name rule.name ∷ rest else rest

-- one turn of the loop over the entries
abbrev pub collect :
    {W : Type 0} → Validated W → List (Rule W) × List (Problem W) → List (Rule W) × List (Problem W)
collect (ok rule) (rules, errors) = (rule ∷ rules, errors)
collect (err problems) (rules, errors) = (rules, problems ++ errors)

module _ {W : Type 0} ⦃f : Float W⦄ ⦃c : CaseFold⦄ where
  unfoldable pub validate_all : ℕ → List (RawRule W) → List (Rule W) × List (Problem W)
  validate_all index [] = ([], [])
  validate_all index (raw ∷ raws) = collect (validate raw index) (validate_all (index + 1) raws)

  unfoldable pub decide : List (Rule W) → List (Problem W) → Loaded W
  decide rules [] = loaded (record { rules = rules })
  decide rules (p ∷ ps) = invalid (p ∷ ps)

  -- `doc.rules.unwrap_or_default()` is the empty list where the key is absent
  unfoldable pub load : List (RawRule W) → Loaded W
  unfolding validate_all duplicates decide
  load raws =
      let (rules, errors) = validate_all 0 raws in decide rules (errors ++ duplicates [] rules)
