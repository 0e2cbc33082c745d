-- ===== src/Replay/Precheck.antt =====
-- replay.rs: `with_window` over a whole list of files.
use sensorwatch.Prelude.{ℕ, ◌<◌, ◌≡◌, refl, Option, some, List, keep}
use sensorwatch.Prelude.Text.{Text}
use sensorwatch.Float.{Float}
use sensorwatch.Source.{Timestamp, Sample}
use sensorwatch.Replay.Parse.{Readers}
use sensorwatch.Replay.Ticks.{BufReader, ReplaySource, drain, from_files, with_window}
use sensorwatch.Replay.Window.{IsReaders}
use sensorwatch.Replay.Lockstep.{in_window, Related, drain-Related}
use sensorwatch.Replay.Finishes.{cost, drain-Returns}

module _ {W : Type 0} ⦃f : Float W⦄ (readers : Readers W) (laws : IsReaders readers)
    (file_open : Text → Option BufReader) (since until : Timestamp) where
  -- Draining the files ends, with a window and without, if the fuel is more than their bytes and files, and
  -- a source with a window opens as many files and gives, of the samples in the window, the same in the
  -- same order: the precheck drops none of them.
  pub with_window-keeps :
      (paths : List Text) (fuel : ℕ)
      → cost readers file_open (from_files paths) < fuel
      → (xs : List (Sample W)) × (s : ReplaySource) × (ys : List (Sample W)) × (t : ReplaySource)
        × (drain readers file_open fuel (from_files paths) ≡ some (xs, s))
        × (drain readers file_open fuel (with_window (from_files paths) since until) ≡ some (ys, t))
        × (keep (in_window since until) xs ≡ keep (in_window since until) ys)
        × (s.opened_files ≡ t.opened_files)
  unfolding from_files with_window
  with_window-keeps paths fuel enough =
      let s = from_files paths in
      let t = with_window s since until in
      let ((xs, s'), e) = drain-Returns readers file_open fuel s enough in
      let ((ys, t'), g) = drain-Returns readers file_open fuel t enough in
      let h =
        drain-Related readers laws file_open since until fuel s t (refl, refl, refl, refl, tt) in
      let (k, o) : Related readers laws file_open since until (some (xs, s')) (some (ys, t')) =
        rw (e, g) at h in
      (xs, s', ys, t', e, g, k, o)
