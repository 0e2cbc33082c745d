-- ===== src/Watch/Follow.antt =====
-- watch.rs: `run_follow`. The sensor rows of a live source are handed to a writer of logger.rs, and are
-- left out here, as is a warning.
use sensorwatch.Prelude.{
  ℕ, Bool, true, false, Option, none, some, List, [], ◌∷◌, not, ◌&&◌, drop, ◌++◌, if◌then◌else◌,
}
use sensorwatch.Prelude.Panic.{◌>>=◌}
use sensorwatch.Prelude.Text.{CaseFold}
use sensorwatch.Float.{Float}
use sensorwatch.Engine.Observe.{Engine, Transition, observe}
use sensorwatch.Event.{Event, from_transition}
use sensorwatch.Watch.{
  Args, Round, World, Wait, shut_down, Ended, exited, running, success, fatal, interrupted,
  spool_if_configured, reserve,
}

abbrev pub written_next : List Bool → Bool
written_next [] = true
written_next (b ∷ bs) = b

module _ {W : Type 0} (args : Args) where
  -- `event_writer.write_raw`
  abbrev pub write_daily : World W → Event W → World W
  write_daily w event = record w {
    daily = if written_next w.daily_io then w.daily ++ (event ∷ []) else w.daily;
    daily_io = drop 1 w.daily_io;
  }

  -- the daily event file, then the spool
  abbrev pub write_numbered : World W → Transition W → ℕ → World W
  write_numbered w t seq =
      let event = from_transition t seq in spool_if_configured args (write_daily w event) event

  -- the events of one tick; the flag is a sequence number that could not be persisted
  unfoldable pub write_events : World W → List (Transition W) → World W × Bool
  unfolding reserve spool_if_configured
  write_events w [] = (w, false)
  write_events w (t ∷ ts) =
      let (w', seq) = reserve args w in
      elim seq [ none ↦ (w', true) | some n ↦ write_events (write_numbered w' t n) ts ]

  abbrev pub awaited : Wait → World W → Option (World W × Ended) → Option (World W × Ended)
  awaited shut_down w rest = some (w, exited interrupted)
  awaited _ w rest = rest

  module _ ⦃f : Float W⦄ ⦃c : CaseFold⦄ where
    -- the loop of `run_follow`; `none` is a panic of the engine
    unfoldable pub follow_loop : World W → Engine W → List (Round W) → Option (World W × Ended)
    unfolding write_events
    follow_loop w e [] = some (w, running)
    follow_loop w e (r ∷ rs) = if r.shutdown then some (w, exited interrupted) else elim r.tick [
      | none ↦ some (w, exited success)
      | some tick ↦ observe e tick >>= λ (e', out).
          let written = write_events w out in
          let rest = follow_loop written.0 e' rs in
          if written.1
          then some (written.0, exited fatal)
          else if args.live
          then awaited r.wait written.0 rest
          else rest
    ]

    -- whether the writer of the events can be made, and that of the sensor rows of a live source
    unfoldable pub run_follow :
        (event_writer sensor_writer : Bool)
        → World W
        → Engine W
        → List (Round W)
        → Option (World W × Ended)
    unfolding follow_loop
    run_follow event_writer sensor_writer w e rounds =
        if not event_writer
        then some (w, exited fatal)
        else if args.live && not sensor_writer
        then some (w, exited fatal)
        else follow_loop w e rounds
