-- ===== src/Examples/OfConfig.antt =====
-- config.rs at concrete inputs.
use sensorwatch.Prelude.{◌≡◌, ◌⊎◌, ◌↔◌, true, some, [], ◌∷◌}
use sensorwatch.Prelude.Int.{pos, negsuc}
use sensorwatch.Prelude.Text.{text}
use sensorwatch.Float.{Level}
use sensorwatch.Config.{
  string, integer, float, array, table, nil, item, no_entries, entry, Toml, Disk, Config, load_from,
  sensor_filter, lets_through,
}
use sensorwatch.Config.Sound.{IsValid, load_from-IsValid}
use sensorwatch.Config.Filter.{Mentions, lets_through_iff}
use sensorwatch.Examples.Data.{ascii_fold}

-- an interval and a retention that are refused, and a list with a blank and a number in it
abbrev toml : Toml Level
toml = record {
  parse = λ s. some (
      entry (text "general")
        (table (
          entry (text "interval_seconds") (integer (pos 0))
            (entry (text "retention_days") (integer (negsuc 2)) no_entries)))
        (entry (text "sensors")
          (table (
            entry (text "include")
              (array (item (string (text " GPU ")) (item float (item (string (text " ")) nil))))
              no_entries))
          no_entries));
  parse_rules = λ s. some [];
}

abbrev disk : Disk
disk = record { exists = λ p. true; read_to_string = λ p. some p }

load_from-IsValid_example :
    IsValid (load_from toml disk (some (text "a.toml")) (text "config.toml" ∷ []))
load_from-IsValid_example =
    load_from-IsValid toml disk (some (text "a.toml")) (text "config.toml" ∷ [])

abbrev gpu_only : Config
gpu_only = record {
  interval_seconds = pos 10;
  log_dir = text "logs";
  retention_days = pos 30;
  sensor_include = text "GPU" ∷ [];
  sensor_exclude = text "fan" ∷ [];
}

lets_through_iff_example : (lets_through (sensor_filter gpu_only) (text "My gpu") ≡ true) ↔ (
    ((gpu_only.sensor_include ≡ []) ⊎ Mentions gpu_only.sensor_include (text "My gpu"))
    × ¬ Mentions gpu_only.sensor_exclude (text "My gpu"))
lets_through_iff_example = lets_through_iff gpu_only (text "My gpu")
