-- ===== src/Logger/Loop.antt =====
-- rust/sensorwatch-cli/src/logger.rs: how the sampling loop ends and what it has written.
use sensorwatch.Prelude.{
  ℕ, ◌≡◌, ◌≢◌, ◌⊎◌, refl, true, false, Option, some, List, [], ◌∷◌, ◌++◌, if◌then◌else◌, Bool-cases,
  inl, inr, All, is_empty,
}
use sensorwatch.Prelude.Text.{Text, CaseFold}
use sensorwatch.Binding.{Reading, Error, Result, ok, err}
use sensorwatch.Config.{Config}
use sensorwatch.Logger.{
  Calendar, LogWriter, Files, Io, Round, contents, log_path, write, write_raw, entries_of,
  log_sample, poll, run_loop,
}
use sensorwatch.Logger.Names.{IsCalendar}
use sensorwatch.Logger.Contents.{or_empty}
use sensorwatch.Logger.Opens.{IsReady}
use sensorwatch.Logger.Appends.{Write, write_all, lines_on, Succeeds, write_all-lines_on}
use sensorwatch.Watch.{fatal, success}

write_all-append :
    {D Z : Type 0} (calendar : Calendar D Z) (w : LogWriter D) (files : Files)
    (xs ys : List (Write Z))
    → write_all calendar w files (xs ++ ys)
      ≡ (let (w', files') = write_all calendar w files xs in write_all calendar w' files' ys)
unfolding write_all
write_all-append calendar w files [] ys = refl
write_all-append calendar w files (x ∷ xs) ys =
    let (w', files') = write_raw calendar w x.text x.now x.io files in
    write_all-append calendar w' files' xs ys

module _ {D Z W : Type 0} (calendar : Calendar D Z) (format_record : Z → List (Reading W) → Text)
    ⦃c : CaseFold⦄ (config : Config) where
  -- the record of a poll: its readings that the filter lets through, if there are any
  unfoldable pub writes_of : Result (List (Reading W)) → Z → Io → List (Write Z)
  writes_of (err e) now io = []
  writes_of (ok readings) now io =
      let entries = entries_of config readings in
      if is_empty entries
      then []
      else record { text = format_record now entries; now = now; io = io } ∷ []

  unfoldable pub writes_of_all : List (Round Z W) → List (Write Z)
  unfolding writes_of
  writes_of_all [] = []
  writes_of_all (r ∷ rs) = writes_of r.sample r.clock r.io ++ writes_of_all rs

  -- nothing in the round ends the loop
  abbrev pub Quiet : Round Z W → Type 0
  Quiet r =
      (r.stop_requested ≡ false) × (r.wait ≡ false) × (r.sample ≢ err Error.unsupported_platform)

  poll-writes_of :
      (s : Result (List (Reading W))) (now : Z) (io : Io) (w : LogWriter D) (files : Files)
      → s ≢ err Error.unsupported_platform
      → poll calendar format_record config s now io w files
        ≡ (let (w', files') = write_all calendar w files (writes_of s now io) in (true, w', files'))
  unfolding writes_of write_all log_sample write write_raw
  poll-writes_of (ok readings) now io w files h =
      elim (Bool-cases (is_empty (entries_of config readings))) [
        | inl e ↦ rw e refl
        | inr e ↦ rw e refl
      ]
  poll-writes_of (err Error.unsupported_platform) now io w files h = elim (h refl) [ ]
  poll-writes_of (err _) now io w files h = refl

  -- A loop that is not ended by a round has made the writes of its polls, and ends with 0 when it is asked
  -- to stop.
  run_loop-write_all :
      (before after : List (Round Z W)) (r : Round Z W) (w : LogWriter D) (files : Files)
      → All Quiet before
      → r.stop_requested ≡ true
      → run_loop calendar format_record config (before ++ r ∷ after) w files ≡ (
          let (w', files') = write_all calendar w files (writes_of_all before) in
          (w', files', some success))
  unfolding run_loop writes_of_all write_all
  run_loop-write_all [] after r w files h stop = rw stop refl
  run_loop-write_all (x ∷ before) after r w files ((s, v, n), h) stop =
      let xs = writes_of x.sample x.clock x.io in
      let (w', files') = write_all calendar w files xs in
      let ih = run_loop-write_all before after r w' files' h stop in
      rw
        (
          poll-writes_of x.sample x.clock x.io w files n,
          s,
          v,
          write_all-append calendar w files xs (writes_of_all before),
        )
        ih

  -- When the polls before a stop request go on, open their files and write them whole, and none of their
  -- days is past the retention of the day `d`, the loop ends with 0 and the file of that day holds what it
  -- held, followed by one whole line for each poll of that day with readings that the filter lets through.
  pub run_loop-lines_on :
      IsCalendar calendar
      → (d : D) (before after : List (Round Z W)) (r : Round Z W) (w : LogWriter D) (files : Files)
      → All Quiet before
      → r.stop_requested ≡ true
      → IsReady calendar d w files
      → All (Succeeds calendar w d) (writes_of_all before)
      → let (w', files', code) =
          run_loop calendar format_record config (before ++ r ∷ after) w files in
        (code ≡ some success)
        × (or_empty (contents files' (log_path calendar w d))
            ≡ or_empty (contents files (log_path calendar w d))
              ++ lines_on calendar w.line_ending d (writes_of_all before))
  run_loop-lines_on laws d before after r w files quiet stop ready succeed =
      rw (run_loop-write_all before after r w files quiet stop)
        (refl, write_all-lines_on calendar laws d w files (writes_of_all before) ready succeed)

  -- how a loop can end
  abbrev pub Stopped : Option ℕ → Type 0
  Stopped code = (code ≡ some success) ⊎ (code ≡ some fatal)

  -- Whatever the source and the files do, the loop ends by the round in which a stop is requested, before
  -- its poll or during its wait, with 0 or the fatal code, and no later round is looked at.
  pub run_loop-Stopped :
      (before after : List (Round Z W)) (r : Round Z W) (w : LogWriter D) (files : Files)
      → (r.stop_requested ≡ true) ⊎ (r.wait ≡ true)
      → Stopped (run_loop calendar format_record config (before ++ r ∷ after) w files).2
        × (run_loop calendar format_record config (before ++ r ∷ after) w files
            ≡ run_loop calendar format_record config (before ++ r ∷ []) w files)
  unfolding run_loop
  run_loop-Stopped [] after r w files (inl stop) = rw stop (inl refl, refl)
  run_loop-Stopped [] after r w files (inr waited) =
      let (goes_on, w', files') =
        poll calendar format_record config r.sample r.clock r.io w files in
      elim (Bool-cases r.stop_requested) [
        | inl s ↦ rw s (inl refl, refl)
        | inr s ↦ elim (Bool-cases goes_on) [
          | inl g ↦ rw (s, g, waited) (inl refl, refl)
          | inr g ↦ rw (s, g) (inr refl, refl)
        ]
      ]
  run_loop-Stopped (x ∷ before) after r w files h =
      let (goes_on, w', files') =
        poll calendar format_record config x.sample x.clock x.io w files in
      let ih = run_loop-Stopped before after r w' files' h in
      elim (Bool-cases x.stop_requested) [
        | inl s ↦ rw s (inl refl, refl)
        | inr s ↦ elim (Bool-cases goes_on) [
          | inr g ↦ rw (s, g) (inr refl, refl)
          | inl g ↦ elim (Bool-cases x.wait) [
            | inl v ↦ rw (s, g, v) (inl refl, refl)
            | inr v ↦ rw (s, g, v) ih
          ]
        ]
      ]
