-- ===== src/Examples/OfLogger.antt =====
-- logger.rs at concrete inputs, with days counted by numbers.
use mathlib.Core.Path.{subst}
use mathlib.Core.Option.{some-injective}
use sensorwatch.Prelude.{
  ℕ, ◌≡◌, ◌⊎◌, ◌↔◌, ◌-◌, ◌++◌, refl, true, false, none, some, List, [], ◌∷◌, inl, ltb, leb, ◌==◌,
  ==_iff, if◌then◌else◌, Option,
}
use sensorwatch.Prelude.Int.{pos, pos_part}
use sensorwatch.Prelude.Text.{Text, text}
use sensorwatch.Float.{Level, level}
use sensorwatch.Labels
use sensorwatch.Binding.{Reading, Result, ok, err, source_unavailable}
use sensorwatch.Config.{default_config}
use sensorwatch.Logger.{
  Calendar, LogWriter, Files, Io, Round, log_prefix, contents, cleanup_old_files, log_path,
  entries_of, run_loop,
}
use sensorwatch.Logger.Names.{IsCalendar}
use sensorwatch.Logger.Retention.{Deletes, cleanup_old_files_iff}
use sensorwatch.Logger.Contents.{or_empty}
use sensorwatch.Logger.Appends.{Succeeds, lines_on}
use sensorwatch.Logger.Loop.{Stopped, writes_of_all, run_loop-lines_on, run_loop-Stopped}
use sensorwatch.Watch.{success}
use sensorwatch.Examples.Data.{ascii_fold}

abbrev parse_day : Text → Option ℕ
parse_day (d ∷ []) = some d
parse_day _ = none

abbrev pub days : Calendar ℕ ℕ
days = record {
  display = λ d. d ∷ [];
  parse = parse_day;
  same_date = λ a b. a == b;
  before = λ a b. ltb a b;
  sub_days = λ d n. if leb (pos_part n) d then some (d - pos_part n) else none;
  date = λ z. z;
}

days-IsCalendar : IsCalendar days
days-IsCalendar = record { parse-display = λ d. refl; same_date_iff = ==_iff }

abbrev writer : LogWriter ℕ
writer = record {
  prefix = log_prefix;
  retention_days = pos 5;
  line_ending = text "\n";
  current_date = none;
  file = none;
}

abbrev works : Io
works = record { opens = true; scans = true; removes = λ n. true; written = none }

-- the files of the days 3 and 8
abbrev old_files : Files
old_files = (log_path days writer 3, text "x") ∷ (log_path days writer 8, text "y") ∷ []

cleanup_old_files_iff_example :
    ((contents (cleanup_old_files days writer 9 works old_files) (log_path days writer 3) ≡ none)
      ⊎ (contents (cleanup_old_files days writer 9 works old_files) (log_path days writer 3)
          ≡ some (text "x")))
    × ((contents (cleanup_old_files days writer 9 works old_files) (log_path days writer 3) ≡ none)
        ↔ Deletes days writer 9 works (log_path days writer 3))
unfolding contents log_path
cleanup_old_files_iff_example =
    cleanup_old_files_iff days writer 9 works old_files (log_path days writer 3) refl

abbrev hot_reading : Reading Level
hot_reading = record {
  source = text "HWiNFO";
  sensor = text "board";
  reading = text "CPU";
  unit = text "C";
  kind = Labels.ReadingType.temperature;
  value = level 95;
  minimum = level 95;
  maximum = level 95;
  average = level 95;
}

abbrev formatted : ℕ → List (Reading Level) → Text
formatted now entries = now ∷ []

abbrev round : Result (List (Reading Level)) → ℕ → Round ℕ Level
round sample now = record {
  stop_requested = false;
  sample = sample;
  clock = now;
  io = works;
  wait = false;
}

abbrev polls : List (Round ℕ Level)
polls =
    round (ok (hot_reading ∷ [])) 8
    ∷ round (err source_unavailable) 8
    ∷ round (ok (hot_reading ∷ [])) 9
    ∷ []

abbrev stop : Round ℕ Level
stop = record { stop_requested = true; sample = ok []; clock = 9; io = works; wait = false }

-- the day 9 is retained on the days 8 and 9
retained_on_8 : Succeeds days writer 9 (record { text = 8 ∷ []; now = 8; io = works })
retained_on_8 = (refl, refl, λ cutoff s. subst (λ c. ltb 9 c ≡ false) (some-injective _ _ s) refl)

retained_on_9 : Succeeds days writer 9 (record { text = 9 ∷ []; now = 9; io = works })
retained_on_9 = (refl, refl, λ cutoff s. subst (λ c. ltb 9 c ≡ false) (some-injective _ _ s) refl)

run_loop-lines_on_example :
    let (w, files, code) =
      run_loop days formatted default_config (polls ++ stop ∷ []) writer old_files in
    (code ≡ some success)
    × (or_empty (contents files (log_path days writer 9))
        ≡ or_empty (contents old_files (log_path days writer 9))
          ++ lines_on days (text "\n") 9 (writes_of_all days formatted default_config polls))
unfolding writes_of_all entries_of
run_loop-lines_on_example =
    run_loop-lines_on days formatted default_config days-IsCalendar 9 polls [] stop writer old_files
      ((refl, refl, λ e. cc), ((refl, refl, λ e. cc), ((refl, refl, λ e. cc), tt))) refl (λ n e. cc)
      (retained_on_8, (retained_on_9, tt))

run_loop-Stopped_example :
    Stopped days formatted default_config
      (run_loop days formatted default_config (polls ++ stop ∷ polls) writer old_files).2
    × (run_loop days formatted default_config (polls ++ stop ∷ polls) writer old_files
        ≡ run_loop days formatted default_config (polls ++ stop ∷ []) writer old_files)
run_loop-Stopped_example =
    run_loop-Stopped days formatted default_config polls polls stop writer old_files (inl refl)
