-- ===== src/Export/Whole.antt =====
-- The export of a window, over the daily files whole.
use sensorwatch.Prelude.{
  ℕ, ◌≤◌, ◌<◌, ◌≡◌, ◌∙◌, sym, ap, refl, Bool, true, some, List, [], ◌∷◌, Bool-cases, Option-cases,
  inl, inr, map, keep,
}
use sensorwatch.Prelude.Int.{ℤ}
use sensorwatch.Float.{Float}
use sensorwatch.Source.{Timestamp, Sample, sampled}
use sensorwatch.Config.{Config}
use sensorwatch.Replay.Ticks.{ReplaySource, drain, from_files, out_of_window}
use sensorwatch.Replay.Window.{IsReaders}
use sensorwatch.Replay.Lockstep.{in_window}
use sensorwatch.Replay.Finishes.{cost}
use sensorwatch.Replay.Precheck.{with_window-keeps}
use sensorwatch.Digest.Candidates.{selected, candidate_files-existing}
use sensorwatch.Export.{ParquetSink, truncated, prepare_output, push_all, scan, export_rows}
use sensorwatch.Export.Run.{ExportArgs, Outside, directory_of, written, export_files, export_window}

module _ {W : Type 0} ⦃f : Float W⦄ (as_microsecond : Timestamp → ℤ) (since until : Timestamp) where
  -- The scan passes over the samples outside its window.
  scan-keep :
      (s : ParquetSink W) (xs : List (Sample W))
      → scan as_microsecond since until s (map sampled xs)
        ≡ scan as_microsecond since until s (map sampled (keep (in_window since until) xs))
  unfolding scan out_of_window
  scan-keep s [] = refl
  scan-keep s (x ∷ xs) = elim (Bool-cases (out_of_window since until x.timestamp)) [
    | inl e ↦ rw e (scan-keep s xs)
    | inr e ↦ elim (Option-cases (push_all s (as_microsecond x.timestamp) x.readings)) [
      | inl p ↦ rw (e, scan, p, e) refl
      | inr (s', p) ↦ rw (e, scan, p, e) (scan-keep s' xs)
    ]
  ]

  export_rows-keep :
      (io : List Bool) (xs : List (Sample W))
      → export_rows as_microsecond since until io (map sampled xs)
        ≡ export_rows as_microsecond since until io (map sampled (keep (in_window since until) xs))
  unfolding export_rows
  export_rows-keep io xs = rw (export_rows, scan-keep _ xs) refl

module _ {T Z I W : Type 0} ⦃f : Float W⦄ (o : Outside T Z I W) where
  -- For readers under their laws, a window whose days are in order and within the calendar, and fuel for
  -- the bytes and files, if the output may be truncated beside the files that are selected, and the writer
  -- starts, an export writes what exporting every sample of the daily files that exist from the day before
  -- the window to the day after it would: the precheck of the window loses no row.
  pub export_window-whole :
      IsReaders o.readers
      → (fuel : ℕ) (args : ExportArgs) (config : Config) (since until : Timestamp)
      → o.zone.date_of since ≤ o.zone.date_of until
      → o.zone.date_of until ≤ o.zone.ceiling
      → o.initializes ≡ true
      → let log_dir = directory_of o args.log_dir config in
        let files = selected o.zone o.calendar (o.is_file log_dir) since until in
        prepare_output o.identities o.opened o.reopens o.out_identity o.truncates args.out files
          ≡ truncated
        → cost o.readers (o.file_open log_dir) (from_files files) < fuel
        → (xs : List (Sample W)) × (end : ReplaySource) × (drain o.readers
              (o.file_open log_dir)
              fuel
              (from_files files)
            ≡ some (xs, end))
          × (export_window o fuel args config since until
              ≡ some (written o (export_rows o.as_microsecond since until o.io (map sampled xs))))
  unfolding export_window export_files
  export_window-whole laws fuel args config since until ordered inside starts prepares enough =
      let log_dir = directory_of o args.log_dir config in
      let files = selected o.zone o.calendar (o.is_file log_dir) since until in
      let (xs, end, ys, end', e, g, kept, opened) =
        with_window-keeps o.readers laws (o.file_open log_dir) since until files fuel enough in
      let exports = export_rows o.as_microsecond since until o.io in
      let same : exports (map sampled ys) ≡ exports (map sampled xs) =
        export_rows-keep o.as_microsecond since until o.io ys
        ∙ ap (λ zs. exports (map sampled zs)) (sym kept)
        ∙ sym (export_rows-keep o.as_microsecond since until o.io xs) in
      let chosen =
        candidate_files-existing o.zone o.calendar (o.is_file log_dir) since until ordered inside in
      (xs, end, e, rw (export_window, chosen, prepares, export_files, starts, g, same) refl)
