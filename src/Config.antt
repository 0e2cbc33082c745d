-- ===== src/Config.antt =====
-- rust/sensorwatch-cli/src/config.rs: the lenient configuration. What the TOML reader and the file
-- system answer are parameters; warnings are not modelled, since they change nothing.
pub mod Filter
pub mod Sound
use sensorwatch.Prelude.{
  ℕ, Bool, true, false, not, ◌&&◌, Option, none, some, List, [], ◌∷◌, if◌then◌else◌, is_empty, any,
  map,
}
use sensorwatch.Prelude.Int.{ℤ, pos, ltb_ℤ}
use sensorwatch.Prelude.Order.{list_ord, nat_ord, same}
use sensorwatch.Prelude.Text.{Text, text, CaseFold, trim, contains}
use sensorwatch.Float.{Float}
use sensorwatch.Rules.{RuleSet}
use sensorwatch.Rules.Load.{Loaded, loaded, invalid, load}
use sensorwatch.Rules.Validate.{RawRule}
use sensorwatch.Watch.{fatal, usage}

-- `toml::Value` and `toml::Table`, of which the code looks at strings, integers, arrays and tables
mutual
  pub data Value : Type 0 where
    string : Text → Value
    integer : ℤ → Value
    float : Value
    boolean : Bool → Value
    datetime : Value
    array : Items → Value
    table : Table → Value

  pub data Items : Type 0 where
    nil : Items
    item : Value → Items → Items

  pub data Table : Type 0 where
    no_entries : Table
    entry : Text → Value → Table → Table

-- `toml::Table::get`
unfoldable pub get : Table → Text → Option Value
get no_entries key = none
get (entry k v rest) key = if same k key then some v else get rest key

-- `text.parse::<toml::Table>()`, where `none` is a syntax error, and what serde makes of the rules
pub record Toml (W : Type 0) : Type 0 where
  pub parse : Text → Option Table
  pub parse_rules : Text → Option (List (RawRule W))

-- `Path::exists` and `std::fs::read_to_string`
pub record Disk : Type 0 where
  pub exists : Text → Bool
  pub read_to_string : Text → Option Text

pub record Config : Type 0 where
  pub interval_seconds : ℤ
  pub log_dir : Text
  pub retention_days : ℤ
  pub sensor_include : List Text
  pub sensor_exclude : List Text

abbrev pub default_config : Config
default_config = record {
  interval_seconds = pos 10;
  log_dir = text "logs";
  retention_days = pos 30;
  sensor_include = [];
  sensor_exclude = [];
}

unfoldable pub section : Table → Text → Option Table
unfolding get
section data_ key = elim (get data_ key) [ some (table t) ↦ some t | _ ↦ none ]

-- the inner `get` of `from_toml_str`
unfoldable pub get_in : Option Table → Text → Option Value
unfolding get
get_in none key = none
get_in (some t) key = get t key

-- the value, the default and the minimum
unfoldable pub as_int : Option Value → ℤ → ℤ → ℤ
as_int (some (integer i)) default minimum = if ltb_ℤ i minimum then default else i
as_int _ default minimum = default

abbrev pub as_str : Value → Option Text
as_str (string s) = some s
as_str _ = none

-- one turn of the iterator chain of `clean_str_list`
abbrev pub clean_item : Option Text → List Text → List Text
clean_item none rest = rest
clean_item (some s) rest = if is_empty (trim s) then rest else trim s ∷ rest

unfoldable pub clean_items : Items → List Text
clean_items nil = []
clean_items (item v vs) = clean_item (as_str v) (clean_items vs)

unfoldable pub clean_str_list : Option Value → List Text
unfolding clean_items
clean_str_list (some (array items)) = clean_items items
clean_str_list _ = []

unfoldable pub log_dir_of : Option Value → Text
log_dir_of (some (string s)) = s
log_dir_of _ = default_config.log_dir

-- `from_toml_str` past the reader
unfoldable pub from_table : Table → Config
unfolding section get_in as_int clean_str_list log_dir_of
from_table data_ =
    let general = section data_ (text "general") in
    let sensors = section data_ (text "sensors") in
    record {
      interval_seconds =
          as_int (get_in general (text "interval_seconds")) default_config.interval_seconds (pos 1);
      log_dir = log_dir_of (get_in general (text "log_dir"));
      retention_days =
          as_int (get_in general (text "retention_days")) default_config.retention_days (pos 0);
      sensor_include = clean_str_list (get_in sensors (text "include"));
      sensor_exclude = clean_str_list (get_in sensors (text "exclude"));
    }

-- the file that is read first; `Config::config_path_from`
unfoldable pub find_existing : Disk → List Text → Option Text
find_existing disk [] = none
find_existing disk (p ∷ ps) = if disk.exists p then some p else find_existing disk ps

unfoldable pub config_path_from : Disk → Option Text → List Text → Option Text
unfolding find_existing
config_path_from disk none fallbacks = find_existing disk fallbacks
config_path_from disk (some path) fallbacks =
    if disk.exists path then some path else find_existing disk fallbacks

-- the rules and the text they were read from, or the exit code
pub data Prepared (W : Type 0) : Type 0 where
  prepared : RuleSet W → Text → Prepared W
  failed : ℕ → Prepared W

module _ {W : Type 0} (toml : Toml W) where
  unfoldable pub from_toml_str : Text → Option Config
  unfolding from_table
  from_toml_str s = elim (toml.parse s) [ none ↦ none | some t ↦ some (from_table t) ]

  unfoldable pub load_file : Disk → Text → Config
  unfolding from_toml_str
  load_file disk path = elim (disk.read_to_string path) [
    | none ↦ default_config
    | some s ↦ elim (from_toml_str s) [ none ↦ default_config | some c ↦ c ]
  ]

  -- the loop over the fallbacks, and the defaults after it
  unfoldable pub load_fallbacks : Disk → List Text → Config
  unfolding load_file
  load_fallbacks disk [] = default_config
  load_fallbacks disk (p ∷ ps) = if disk.exists p then load_file disk p else load_fallbacks disk ps

  unfoldable pub load_from : Disk → Option Text → List Text → Config
  unfolding load_file load_fallbacks
  load_from disk none fallbacks = load_fallbacks disk fallbacks
  load_from disk (some path) fallbacks =
      if disk.exists path then load_file disk path else load_fallbacks disk fallbacks

  module _ ⦃f : Float W⦄ ⦃c : CaseFold⦄ where
    abbrev pub loaded_rules : Text → Loaded W → Prepared W
    loaded_rules s (loaded rules) = prepared rules s
    loaded_rules s (invalid problems) = failed usage

    unfoldable pub load_rules_and_text : Disk → Text → Prepared W
    unfolding load
    load_rules_and_text disk path = elim (disk.read_to_string path) [
      | none ↦ failed fatal
      | some s ↦ elim (toml.parse_rules s) [
        | none ↦ failed usage
        | some raws ↦ loaded_rules s (load raws)
      ]
    ]

pub record SensorFilter : Type 0 where
  pub include : List Text
  pub exclude : List Text

unfoldable pub sensor_filter : ⦃c : CaseFold⦄ → Config → SensorFilter
sensor_filter ⦃c⦄ config = record {
  include = map c.to_lowercase config.sensor_include;
  exclude = map c.to_lowercase config.sensor_exclude;
}

-- `SensorFilter::matches`
unfoldable pub lets_through : ⦃c : CaseFold⦄ → SensorFilter → Text → Bool
lets_through ⦃c⦄ filter sensor_name =
    let name_lower = c.to_lowercase sensor_name in
    if not (is_empty filter.include) && not (any (λ pat. contains name_lower pat) filter.include)
    then false
    else not (any (λ pat. contains name_lower pat) filter.exclude)
