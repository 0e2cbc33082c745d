-- ===== src/Export/Run.antt =====
-- export.rs: `run`, from the arguments to the written file. Paths are names in the log directory. `none` is
-- too little fuel for the reading of the files.
use sensorwatch.Prelude.{ℕ, Bool, Option, none, some, List, [], ◌∷◌, if◌then◌else◌, map}
use sensorwatch.Prelude.Int.{ℤ}
use sensorwatch.Prelude.Panic.{◌>>=◌}
use sensorwatch.Prelude.Text.{Text, text}
use sensorwatch.Float.{Float}
use sensorwatch.Source.{Timestamp, sampled}
use sensorwatch.Config.{Config, Toml, Disk, default_config, config_path_from, from_toml_str}
use sensorwatch.Watch.{fatal, usage}
use sensorwatch.Logger.{Calendar}
use sensorwatch.Replay.Parse.{Readers}
use sensorwatch.Replay.Ticks.{BufReader, drain, from_files, with_window}
use sensorwatch.Digest.When.{Zone, resolve_window, candidate_files}
use sensorwatch.Export.{
  Columns, Identities, Opened, Prepared, truncated, refused, prepare_output, export_rows,
}

pub record ExportArgs : Type 0 where
  pub config : Option Text
  pub log_dir : Option Text
  pub since : Option Text
  pub until : Option Text
  pub last : Text
  pub out : Text

-- what the run finds outside: the configuration, the clock, the zone, the files of a directory, and how
-- the calls on the output end
pub record Outside (T Z I W : Type 0) : Type 0 where
  pub toml : Toml W
  pub disk : Disk
  pub now : Timestamp
  pub zone : Zone T
  pub calendar : Calendar ℕ Z
  pub is_file : Text → Text → Bool
  pub file_open : Text → Text → Option BufReader
  pub readers : Readers W
  pub as_microsecond : Timestamp → ℤ
  pub identities : Identities I
  pub opened : Opened
  pub reopens : Bool
  pub out_identity : Option I
  pub truncates : Bool
  pub initializes : Bool
  pub io : List Bool

-- the exit code of an early return, or the rows and groups of the file
pub data Outcome (W : Type 0) : Type 0 where
  stopped : ℕ → Outcome W
  exported : ℕ → List (Columns W) → Outcome W

pub data Ready : Type 0 where
  ready : Config → Ready
  not_ready : ℕ → Ready

module _ {T Z I W : Type 0} ⦃f : Float W⦄ (o : Outside T Z I W) where
  abbrev pub parsed_config : Option Config → Ready
  parsed_config none = not_ready usage
  parsed_config (some config) = ready config

  abbrev pub read_config : Option Text → Ready
  read_config none = not_ready fatal
  read_config (some s) = parsed_config (from_toml_str o.toml s)

  abbrev pub config_at : Option Text → Ready
  config_at none = ready default_config
  config_at (some path) = read_config (o.disk.read_to_string path)

  -- `--log-dir` skips the configuration
  unfoldable pub config_of : ExportArgs → Ready
  unfolding config_path_from from_toml_str
  config_of args = elim args.log_dir [
    | some path ↦ ready default_config
    | none ↦ config_at (config_path_from o.disk args.config (text "config.toml" ∷ []))
  ]

  abbrev pub directory_of : Option Text → Config → Text
  directory_of none config = config.log_dir
  directory_of (some path) config = path

  abbrev pub written : Option (ℕ × List (Columns W)) → Outcome W
  written none = stopped fatal
  written (some (rows, groups)) = exported rows groups

  -- the pass over the files, after the output is prepared
  unfoldable pub export_files :
      ℕ → Text → List Text → Timestamp → Timestamp → Prepared → Option (Outcome W)
  unfolding drain from_files with_window export_rows
  export_files fuel log_dir files since until (refused code) = some (stopped code)
  export_files fuel log_dir files since until truncated =
      if o.initializes
      then (do
        (samples, source) ←
            drain o.readers (o.file_open log_dir) fuel (with_window (from_files files) since until)
        some (written (export_rows o.as_microsecond since until o.io (map sampled samples))))
      else some (stopped fatal)

  -- the selection of the files, before the output is opened, and the export
  unfoldable pub export_window :
      ℕ → ExportArgs → Config → Timestamp → Timestamp → Option (Outcome W)
  unfolding candidate_files prepare_output export_files
  export_window fuel args config since until =
      let log_dir = directory_of args.log_dir config in
      do
        files ← candidate_files o.zone o.calendar (o.is_file log_dir) since until
        export_files fuel log_dir files since until (
            prepare_output o.identities o.opened o.reopens o.out_identity o.truncates args.out
              files)

  abbrev pub resolved :
      ℕ → ExportArgs → Config → Option (Timestamp × Timestamp) → Option (Outcome W)
  resolved fuel args config none = some (stopped usage)
  resolved fuel args config (some (since, until)) = export_window fuel args config since until

  abbrev pub run_ready : ℕ → ExportArgs → Ready → Option (Outcome W)
  run_ready fuel args (not_ready code) = some (stopped code)
  run_ready fuel args (ready config) =
      resolved fuel args config (resolve_window o.zone args.until args.since args.last o.now)

  unfoldable pub run : ℕ → ExportArgs → Option (Outcome W)
  unfolding export_window config_of resolve_window
  run fuel args = run_ready fuel args (config_of args)
