-- ===== src/Report/Run.antt =====
-- report.rs: `run`, from the arguments to the digest. Paths are names in the log directory. Fuel is for the
-- reading of the files; `none` is too little of it, or a panic of the engine.
use sensorwatch.Prelude.{ℕ, Bool, Option, none, some, List, [], ◌∷◌, map, length}
use sensorwatch.Prelude.Int.{pos_part}
use sensorwatch.Prelude.Panic.{◌>>=◌}
use sensorwatch.Prelude.Text.{Text, text, CaseFold}
use sensorwatch.Float.{Float}
use sensorwatch.Labels.{TypeFilter, filter_label}
use sensorwatch.Source.{Timestamp, sampled}
use sensorwatch.Rules.{RuleSet}
use sensorwatch.Engine.Observe.{new}
use sensorwatch.Config.{
  Config, Toml, Disk, Prepared, prepared, failed, default_config, config_path_from, from_toml_str,
  load_rules_and_text,
}
use sensorwatch.Watch.{usage}
use sensorwatch.Logger.{Calendar}
use sensorwatch.Replay.Parse.{Readers}
use sensorwatch.Replay.Ticks.{BufReader, drain, from_files, with_window}
use sensorwatch.Digest.Aggregate.{new_aggregator}
use sensorwatch.Digest.When.{Zone, resolve_window, candidate_files}
use sensorwatch.Digest.Fit.{Digest, Fitted}
use sensorwatch.Digest.Emit.{emit}
use sensorwatch.Report.{Window, State, violation_cap, scan}

pub record ReportArgs : Type 0 where
  pub config : Option Text
  pub log_dir : Option Text
  pub since : Option Text
  pub until : Option Text
  pub last : Text
  pub matches : List Text
  pub type_filter : Option TypeFilter
  pub top : ℕ
  pub max_bytes : ℕ
  pub indent : ℕ

-- what the run finds outside: the configuration, the clock, the zone, and the files of a directory
pub record Outside (T Z W : Type 0) : Type 0 where
  pub toml : Toml W
  pub disk : Disk
  pub now : Timestamp
  pub zone : Zone T
  pub calendar : Calendar ℕ Z
  pub is_file : Text → Text → Bool
  pub file_open : Text → Text → Option BufReader
  pub readers : Readers W
  pub display : Timestamp → Text
  pub to_json : Digest W → ℕ → Text

-- the exit code of an early return, or what `emit` prints
pub data Outcome : Type 0 where
  stopped : ℕ → Outcome
  emitted : Fitted → Outcome

-- the rules and the configuration, or the exit code
pub data Ready (W : Type 0) : Type 0 where
  ready : RuleSet W → Config → Ready W
  not_ready : ℕ → Ready W

module _ {T Z W : Type 0} ⦃f : Float W⦄ ⦃c : CaseFold⦄ (o : Outside T Z W) where
  abbrev pub config_of_text : Option Config → Config
  config_of_text none = default_config
  config_of_text (some config) = config

  abbrev pub ready_of : Prepared W → Ready W
  ready_of (failed code) = not_ready code
  ready_of (prepared rules s) = ready rules (config_of_text (from_toml_str o.toml s))

  abbrev pub ready_at : Option Text → Ready W
  ready_at none = ready (record { rules = [] }) default_config
  ready_at (some path) = ready_of (load_rules_and_text o.toml o.disk path)

  abbrev pub directory_of : Option Text → Config → Text
  directory_of none config = config.log_dir
  directory_of (some path) config = path

  abbrev pub label_of_filter : Option TypeFilter → Option Text
  label_of_filter none = none
  label_of_filter (some t) = some (filter_label t)

  abbrev pub first_state : RuleSet W → Config → State W
  first_state rules config = record {
    engine = new rules;
    agg = new_aggregator (pos_part config.interval_seconds);
    transitions = [];
    violations_total = 0;
  }

  abbrev pub window_of : ReportArgs → Timestamp → Timestamp → Window
  window_of args since until = record {
    since = since;
    until = until;
    needles = map c.to_lowercase args.matches;
    type_filter = label_of_filter args.type_filter;
  }

  -- what is emitted after the scan, with the counts of the source
  unfoldable pub digest_of : ReportArgs → RuleSet W → Config → Window → ℕ → ℕ → State W → Fitted
  unfolding emit
  digest_of args rules config w opened_files skipped_lines s =
      emit o.to_json
        (record {
          since = o.display w.since;
          until = o.display w.until;
          log_dir = directory_of args.log_dir config;
          files_scanned = opened_files;
          interval_seconds = pos_part config.interval_seconds;
          skipped_lines = skipped_lines;
          rules_evaluated = length rules.rules;
          needles = w.needles;
          type_filter = w.type_filter;
          top = args.top;
          max_bytes = args.max_bytes;
          indent = args.indent;
        })
        s.agg s.transitions s.violations_total

  -- the scan of the window, and the digest of it
  unfoldable pub report_window :
      ℕ → ReportArgs → RuleSet W → Config → Timestamp → Timestamp → Option Outcome
  unfolding candidate_files drain from_files with_window new scan digest_of
  report_window fuel args rules config since until =
      let log_dir = directory_of args.log_dir config in
      let window = window_of args since until in
      do
        files ← candidate_files o.zone o.calendar (o.is_file log_dir) since until
        (samples, source) ←
            drain o.readers (o.file_open log_dir) fuel (with_window (from_files files) since until)
        s ← scan violation_cap window (first_state rules config) (map sampled samples)
        some (
            emitted (digest_of args rules config window source.opened_files source.skipped_lines s))

  abbrev pub resolved :
      ℕ → ReportArgs → RuleSet W → Config → Option (Timestamp × Timestamp) → Option Outcome
  resolved fuel args rules config none = some (stopped usage)
  resolved fuel args rules config (some (since, until)) =
      report_window fuel args rules config since until

  abbrev pub run_ready : ℕ → ReportArgs → Ready W → Option Outcome
  run_ready fuel args (not_ready code) = some (stopped code)
  run_ready fuel args (ready rules config) =
      resolved fuel args rules config (resolve_window o.zone args.until args.since args.last o.now)

  unfoldable pub run : ℕ → ReportArgs → Option Outcome
  unfolding report_window config_path_from load_rules_and_text from_toml_str resolve_window
  run fuel args =
      run_ready fuel args (ready_at (config_path_from o.disk args.config (text "config.toml" ∷ [])))
