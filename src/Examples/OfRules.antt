-- ===== src/Examples/OfRules.antt =====
-- rules.rs at concrete inputs.
use sensorwatch.Prelude.{◌≡◌, ◌↔◌, refl, [], ◌∷◌}
use sensorwatch.Prelude.Text.{trim, to_ascii_lowercase}
use sensorwatch.Float.{Level, level_float}
use sensorwatch.Rules.{Rule, RuleKind}
use sensorwatch.Rules.Validate.{ok, validate}
use sensorwatch.Rules.Load.{load}
use sensorwatch.Rules.Sound.{IsValid, validate-IsValid}
use sensorwatch.Rules.Complete.{IsAcceptable, validate_iff}
use sensorwatch.Rules.Names.{Accepted, DistinctNames, load-eq-loaded}
use sensorwatch.Prelude.{All}
use sensorwatch.Examples.Data.{ascii_fold, hot, hot_only, hot_entry}

validate-IsValid_example : IsValid hot
unfolding validate trim to_ascii_lowercase
validate-IsValid_example = validate-IsValid hot_entry 0 refl

validate_iff_example :
    ((r : Rule Level) × (validate hot_entry 0 ≡ ok r))
    ↔ ((kind : RuleKind) × IsAcceptable hot_entry kind)
validate_iff_example = validate_iff hot_entry 0

load-eq-loaded_example :
    Accepted 0 (hot_entry ∷ []) hot_only.rules
    × All IsValid hot_only.rules
    × DistinctNames hot_only.rules
unfolding load validate trim to_ascii_lowercase
load-eq-loaded_example = load-eq-loaded (hot_entry ∷ []) refl
