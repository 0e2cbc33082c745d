-- ===== src/Report/Whole.antt =====
-- The report of a window, over the daily files whole.
use sensorwatch.Prelude.{
  ℕ, ◌≤◌, ◌<◌, ◌≡◌, ◌∙◌, sym, ap, refl, Option, none, some, List, [], ◌∷◌, All, Bool-cases, inl,
  inr, map, keep,
}
use sensorwatch.Prelude.Panic.{◌>>=◌}
use sensorwatch.Prelude.Text.{CaseFold}
use sensorwatch.Float.{Float}
use sensorwatch.Source.{Timestamp, Sample, sampled}
use sensorwatch.Rules.{RuleSet}
use sensorwatch.Rules.Sound.{IsValid}
use sensorwatch.Engine.Observe.{new}
use sensorwatch.Config.{Config}
use sensorwatch.Replay.Ticks.{ReplaySource, drain, from_files, out_of_window}
use sensorwatch.Replay.Window.{IsReaders}
use sensorwatch.Replay.Lockstep.{in_window}
use sensorwatch.Replay.Finishes.{cost}
use sensorwatch.Replay.Precheck.{with_window-keeps}
use sensorwatch.Digest.Candidates.{selected, candidate_files-existing}
use sensorwatch.Report.{Window, State, violation_cap, outside, scan_tick, scan}
use sensorwatch.Report.Returns.{scan-Returns}
use sensorwatch.Report.Run.{
  ReportArgs, Outside, emitted, directory_of, first_state, window_of, digest_of, report_window,
}

bind_cong {ℓ κ} :
    {A : Type ℓ} {B : Type κ} (m : Option A) (k l : A → Option B)
    → ((a : A) → k a ≡ l a)
    → (m >>= k) ≡ (m >>= l)
bind_cong none k l h = refl
bind_cong (some a) k l h = h a

module _ {W : Type 0} ⦃f : Float W⦄ ⦃c : CaseFold⦄ (cap : ℕ) (w : Window) where
  -- The scan passes over the samples outside its window.
  scan-keep :
      (s : State W) (xs : List (Sample W))
      → scan cap w s (map sampled xs)
        ≡ scan cap w s (map sampled (keep (in_window w.since w.until) xs))
  unfolding scan scan_tick out_of_window
  scan-keep s [] = refl
  scan-keep s (x ∷ xs) = elim (Bool-cases (outside w x.timestamp)) [
    | inl o ↦ rw o (scan-keep s xs)
    | inr o ↦
        let p = in_window w.since w.until in
        let kept : keep p (x ∷ xs) ≡ x ∷ keep p xs = rw o refl in
        bind_cong (scan_tick cap w s (sampled x)) (λ s'. scan cap w s' (map sampled xs))
          (λ s'. scan cap w s' (map sampled (keep p xs))) (λ s'. scan-keep s' xs)
        ∙ ap (λ ys. scan cap w s (map sampled ys)) (sym kept)
  ]

module _ {T Z W : Type 0} ⦃f : Float W⦄ ⦃c : CaseFold⦄ (o : Outside T Z W) where
  -- For readers under their laws, rules that passed validation, a window whose days are in order and
  -- within the calendar, and fuel for the bytes and files, a report ends with what emit makes of the
  -- scan of every sample of the daily files that exist from the day before the window to the day after
  -- it, a digest or the size of one that does not fit, up to the count of skipped lines: the precheck
  -- of the window changes neither the aggregates nor the transitions nor their number.
  pub report_window-whole :
      IsReaders o.readers
      → (fuel : ℕ) (args : ReportArgs) (rules : RuleSet W) (config : Config)
        (since until : Timestamp)
      → All IsValid rules.rules
      → o.zone.date_of since ≤ o.zone.date_of until
      → o.zone.date_of until ≤ o.zone.ceiling
      → let log_dir = directory_of o args.log_dir config in
        let source = from_files (selected o.zone o.calendar (o.is_file log_dir) since until) in
        let w = window_of o args since until in
        cost o.readers (o.file_open log_dir) source < fuel
        → (xs : List (Sample W)) × (end : ReplaySource) × (s : State W) × (skipped : ℕ) × (drain
              o.readers
              (o.file_open log_dir)
              fuel
              source
            ≡ some (xs, end))
          × (scan violation_cap w (first_state o rules config) (map sampled xs) ≡ some s)
          × (report_window o fuel args rules config since until
              ≡ some (emitted (digest_of o args rules config w end.opened_files skipped s)))
  unfolding report_window new
  report_window-whole laws fuel args rules config since until valid ordered inside enough =
      let log_dir = directory_of o args.log_dir config in
      let w = window_of o args since until in
      let start = first_state o rules config in
      let (xs, end, ys, end', e, g, kept, opened) =
        with_window-keeps o.readers laws (o.file_open log_dir) since until
          (selected o.zone o.calendar (o.is_file log_dir) since until) fuel enough in
      let (s, h) = scan-Returns violation_cap w start (map sampled xs) valid in
      let h' : scan violation_cap w start (map sampled ys) ≡ some s =
        scan-keep violation_cap w start ys
        ∙ ap (λ zs. scan violation_cap w start (map sampled zs)) (sym kept)
        ∙ sym (scan-keep violation_cap w start xs)
        ∙ h in
      let files =
        candidate_files-existing o.zone o.calendar (o.is_file log_dir) since until ordered inside in
      (xs, end, s, end'.skipped_lines, e, h, rw (report_window, files, g, h', opened) refl)
