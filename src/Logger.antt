-- ===== src/Logger.antt =====
-- rust/sensorwatch-cli/src/logger.rs: the daily files and the sampling loop. The log directory is the
-- list of its files with their contents; paths are names in it. The dates of jiff and the rendering of
-- a record are parameters, and how the file system answers a call is part of its `Io`.
pub mod Names
pub mod Retention
pub mod Contents
pub mod Opens
pub mod Appends
pub mod Loop
use sensorwatch.Prelude.{
  ℕ, ◌-◌, ◌+◌, Bool, true, false, not, ◌&&◌, Option, none, some, List, [], ◌∷◌, ◌++◌, if◌then◌else◌,
  keep, take, is_empty, leb,
}
use sensorwatch.Prelude.Int.{ℤ, pos, ltb_ℤ}
use sensorwatch.Prelude.Order.{list_ord, nat_ord, same}
use sensorwatch.Prelude.Text.{Text, text, CaseFold, strip_prefix, strip_suffix}
use sensorwatch.Binding.{Reading, Error, Result, ok, err, unsupported_platform}
use sensorwatch.Config.{Config, sensor_filter, lets_through}
use sensorwatch.Watch.{fatal, success}

abbrev pub log_prefix : Text
log_prefix = text "sensors_"

abbrev pub event_prefix : Text
event_prefix = text "events_"

abbrev pub extension : Text
extension = text ".jsonl"

-- `jiff::civil::Date`, with `today - days` where `none` is an overflow, and the date of a `Zoned`
pub record Calendar (D Z : Type 0) : Type 0 where
  pub display : D → Text
  pub parse : Text → Option D
  pub same_date : D → D → Bool
  pub before : D → D → Bool
  pub sub_days : D → ℤ → Option D
  pub date : Z → D

abbrev pub Files : Type 0
Files = List (Text × Text)

unfoldable pub contents : Files → Text → Option Text
contents [] name = none
contents ((n, bytes) ∷ files) name = if same n name then some bytes else contents files name

-- `create(true)` and `append(true)`
unfoldable pub create : Files → Text → Files
create [] name = (name, []) ∷ []
create ((n, bytes) ∷ files) name =
    let rest = create files name in if same n name then (n, bytes) ∷ files else (n, bytes) ∷ rest

-- a write to a file that is open; what is written to a file that was deleted is lost
unfoldable pub append_to : Files → Text → Text → Files
append_to [] name more = []
append_to ((n, bytes) ∷ files) name more =
    let rest = append_to files name more in
    if same n name then (n, bytes ++ more) ∷ files else (n, bytes) ∷ rest

-- How the calls of one write end: `written` is `none` for a complete write, and otherwise how many bytes
-- were out when it failed.
pub record Io : Type 0 where
  pub opens : Bool
  pub scans : Bool
  pub removes : Text → Bool
  pub written : Option ℕ

-- The writer of one family of files; `file` is the name of the open file.
pub record LogWriter (D : Type 0) : Type 0 where
  pub prefix : Text
  pub retention_days : ℤ
  pub line_ending : Text
  pub current_date : Option D
  pub file : Option Text

abbrev pub without_suffix : Option Text → Option Text
without_suffix none = none
without_suffix (some rest) = strip_suffix rest extension

abbrev pub is_some : {A : Type 0} → Option A → Bool
is_some none = false
is_some (some a) = true

-- the bytes of a line that reach the file
abbrev pub reaching : Option ℕ → Text → Text
reaching none line = line
reaching (some n) line = take n line

-- `ensure_file` has opened a file where it succeeds, so the first clause stands for no run
abbrev pub write_line : Option Text → Text → Io → Files → Files
write_line none line io files = files
write_line (some name) line io files = append_to files name (reaching io.written line)

module _ {D Z : Type 0} (calendar : Calendar D Z) where
  unfoldable pub daily_file_path : Text → D → Text
  daily_file_path prefix date = prefix ++ (calendar.display date ++ extension)

  unfoldable pub log_path : LogWriter D → D → Text
  unfolding daily_file_path
  log_path w date = daily_file_path w.prefix date

  abbrev pub is_before : Option D → D → Bool
  is_before none cutoff = false
  is_before (some d) cutoff = calendar.before d cutoff

  abbrev pub parsed : Option Text → Option D
  parsed none = none
  parsed (some stem) = calendar.parse stem

  -- the tests on one directory entry
  unfoldable pub is_expired : LogWriter D → D → Text → Bool
  unfolding strip_prefix strip_suffix
  is_expired w cutoff name = is_before (parsed (without_suffix (strip_prefix name w.prefix))) cutoff

  -- the loop over the directory
  unfoldable pub prune : LogWriter D → D → Io → Files → Files
  unfolding is_expired
  prune w cutoff io files =
      keep (λ (name, bytes). not (is_expired w cutoff name && io.removes name)) files

  unfoldable pub cleanup_old_files : LogWriter D → D → Io → Files → Files
  unfolding prune
  cleanup_old_files w today io files =
      if not (ltb_ℤ (pos 0) w.retention_days)
      then files
      else elim (calendar.sub_days today w.retention_days) [
        | none ↦ files
        | some cutoff ↦ if io.scans then prune w cutoff io files else files
      ]

  -- `LogWriter::new` once the directory is there
  unfoldable pub new_writer : Text → ℤ → Text → Z → Io → Files → LogWriter D × Files
  unfolding cleanup_old_files
  new_writer prefix retention_days line_ending now io files =
      let w : LogWriter D = record {
        prefix = prefix;
        retention_days = retention_days;
        line_ending = line_ending;
        current_date = none;
        file = none;
      } in
      (w, cleanup_old_files w (calendar.date now) io files)

  abbrev pub is_today : Option D → D → Bool
  is_today none today = false
  is_today (some d) today = calendar.same_date d today

  -- the writer and the files, and whether a file is open
  unfoldable pub ensure_file : LogWriter D → Z → Io → Files → Bool × LogWriter D × Files
  unfolding log_path create cleanup_old_files
  ensure_file w now io files =
      let today = calendar.date now in
      let path = log_path w today in
      let closed = record w { file = none; current_date = some today } in
      let opened = record closed { file = some path } in
      if is_today w.current_date today && is_some w.file
      then (true, w, files)
      else if not io.opens
      then (false, closed, files)
      else if is_some w.current_date
      then (true, opened, cleanup_old_files opened today io (create files path))
      else (true, opened, create files path)

  unfoldable pub write_record : LogWriter D → Text → Z → Io → Files → Bool × LogWriter D × Files
  unfolding ensure_file append_to
  write_record w record_text now io files =
      let (is_open, w', files') = ensure_file w now io files in
      if is_open
      then (
        not (is_some io.written),
        w',
        write_line w'.file (record_text ++ w'.line_ending) io files',
      )
      else (false, w', files')

  -- a failure is only logged
  unfoldable pub write_raw : LogWriter D → Text → Z → Io → Files → LogWriter D × Files
  unfolding write_record
  write_raw w record_text now io files =
      let (done, w', files') = write_record w record_text now io files in (w', files')

  module _ {W : Type 0} (format_record : Z → List (Reading W) → Text) where
    unfoldable pub write : LogWriter D → List (Reading W) → Z → Io → Files → LogWriter D × Files
    unfolding write_record
    write w entries now io files =
        let (done, w', files') = write_record w (format_record now entries) now io files in
        (w', files')

-- What the environment answers in one round of the loop.
pub record Round (Z W : Type 0) : Type 0 where
  pub stop_requested : Bool
  pub sample : Result (List (Reading W))
  pub clock : Z
  pub io : Io
  pub wait : Bool  -- shutdown was requested during the interval

-- the writer and the files, and the exit code if the loop has ended
abbrev pub State : Type 0 → Type 0
State D = LogWriter D × Files × Option ℕ

-- the readings that the filter lets through, in order
unfoldable pub entries_of :
    {W : Type 0} ⦃c : CaseFold⦄ → Config → List (Reading W) → List (Reading W)
unfolding sensor_filter lets_through
entries_of config readings = keep (λ r. lets_through (sensor_filter config) r.sensor) readings

module _ {D Z W : Type 0} (calendar : Calendar D Z) (format_record : Z → List (Reading W) → Text)
    ⦃c : CaseFold⦄ (config : Config) where
  -- the arm of a successful poll
  unfoldable pub log_sample : LogWriter D → Files → List (Reading W) → Z → Io → LogWriter D × Files
  unfolding write entries_of
  log_sample w files readings now io =
      if is_empty (entries_of config readings)
      then (w, files)
      else write calendar format_record w (entries_of config readings) now io files

  -- One round up to the wait, and whether the loop goes on. An error that is not fatal is only logged,
  -- the first time.
  abbrev pub poll :
      Result (List (Reading W)) → Z → Io → LogWriter D → Files → Bool × LogWriter D × Files
  poll (ok readings) now io w files =
      let (w', files') = log_sample w files readings now io in (true, w', files')
  poll (err Error.unsupported_platform) now io w files = (false, w, files)
  poll (err _) now io w files = (true, w, files)

  unfoldable pub run_loop : List (Round Z W) → LogWriter D → Files → State D
  unfolding log_sample
  run_loop [] w files = (w, files, none)
  run_loop (r ∷ rs) w files =
      let (goes_on, w', files') = poll r.sample r.clock r.io w files in
      let rest = run_loop rs w' files' in
      if r.stop_requested
      then (w, files, some success)
      else if not goes_on
      then (w', files', some fatal)
      else if r.wait
      then (w', files', some success)
      else rest

-- What a wait sees each time it looks: the flag, and the time. The deadline is `none` where adding the
-- interval to the clock overflows.
pub record Look : Type 0 where
  pub flagged : Bool
  pub now : ℕ

-- `none` while the wait goes on; `checked_duration_since` fails only past the deadline
unfoldable pub wait_for_shutdown : Option ℕ → List Look → Option Bool
wait_for_shutdown deadline [] = none
wait_for_shutdown deadline (l ∷ ls) =
    let rest = wait_for_shutdown deadline ls in
    if l.flagged
    then some true
    else elim deadline [ none ↦ rest | some d ↦ if leb l.now d then rest else some false ]
