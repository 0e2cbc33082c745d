-- ===== src/Labels.antt =====
-- rust/sensorwatch-cli/src/labels.rs: the vocabulary of reading types.
use sensorwatch.Prelude.{◌≡◌, refl, Option, none, some, List, [], ◌∷◌, if◌then◌else◌}
use sensorwatch.Prelude.Text.{Text, text, eq_ignore_ascii_case}

-- `sensorwatch::ReadingType`; `unknown` stands for every variant that is added later too.
pub data ReadingType : Type 0 where
  nothing temperature voltage fan current power clock usage other unknown : ReadingType

-- the `--type` values of the command line
pub data TypeFilter : Type 0 where
  nothing temperature voltage fan current power clock usage other unknown : TypeFilter

abbrev pub unknown_label : Text
unknown_label = text "unknown"

pub type_label : ReadingType → Text
type_label nothing = text "None"
type_label temperature = text "Temperature"
type_label voltage = text "Voltage"
type_label fan = text "Fan"
type_label current = text "Current"
type_label power = text "Power"
type_label clock = text "Clock"
type_label usage = text "Usage"
type_label other = text "Other"
type_label unknown = unknown_label

pub filter_label : TypeFilter → Text
filter_label nothing = text "None"
filter_label temperature = text "Temperature"
filter_label voltage = text "Voltage"
filter_label fan = text "Fan"
filter_label current = text "Current"
filter_label power = text "Power"
filter_label clock = text "Clock"
filter_label usage = text "Usage"
filter_label other = text "Other"
filter_label unknown = unknown_label

abbrev pub canonical_labels : List Text
canonical_labels =
    text "None"
    ∷ text "Temperature"
    ∷ text "Voltage"
    ∷ text "Fan"
    ∷ text "Current"
    ∷ text "Power"
    ∷ text "Clock"
    ∷ text "Usage"
    ∷ text "Other"
    ∷ []

-- the first label of a list that a raw string equals but for ASCII case
unfoldable pub find_label : Text → List Text → Option Text
find_label raw [] = none
find_label raw (l ∷ ls) = if eq_ignore_ascii_case raw l then some l else find_label raw ls

unfoldable pub normalize_type_label : Text → Text
unfolding find_label
normalize_type_label raw = elim (find_label raw canonical_labels) [
  | none ↦ unknown_label
  | some l ↦ l
]

-- The label of every reading type is folded onto itself.
pub normalize-type_label : (k : ReadingType) → normalize_type_label (type_label k) ≡ type_label k
unfolding normalize_type_label type_label eq_ignore_ascii_case
normalize-type_label nothing = refl
normalize-type_label temperature = refl
normalize-type_label voltage = refl
normalize-type_label fan = refl
normalize-type_label current = refl
normalize-type_label power = refl
normalize-type_label clock = refl
normalize-type_label usage = refl
normalize-type_label other = refl
normalize-type_label unknown = refl

-- the reading type that a filter is named after
abbrev type_of_filter : TypeFilter → ReadingType
type_of_filter TypeFilter.nothing = ReadingType.nothing
type_of_filter TypeFilter.temperature = ReadingType.temperature
type_of_filter TypeFilter.voltage = ReadingType.voltage
type_of_filter TypeFilter.fan = ReadingType.fan
type_of_filter TypeFilter.current = ReadingType.current
type_of_filter TypeFilter.power = ReadingType.power
type_of_filter TypeFilter.clock = ReadingType.clock
type_of_filter TypeFilter.usage = ReadingType.usage
type_of_filter TypeFilter.other = ReadingType.other
type_of_filter TypeFilter.unknown = ReadingType.unknown

-- A `--type` filter selects the label of the reading type that it is named after.
filter_label-eq-type_label : (t : TypeFilter) → filter_label t ≡ type_label (type_of_filter t)
unfolding filter_label type_label
filter_label-eq-type_label nothing = refl
filter_label-eq-type_label temperature = refl
filter_label-eq-type_label voltage = refl
filter_label-eq-type_label fan = refl
filter_label-eq-type_label current = refl
filter_label-eq-type_label power = refl
filter_label-eq-type_label clock = refl
filter_label-eq-type_label usage = refl
filter_label-eq-type_label other = refl
filter_label-eq-type_label unknown = refl
