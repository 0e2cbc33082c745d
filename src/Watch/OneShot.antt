-- ===== src/Watch/OneShot.antt =====
-- watch.rs: `run_one_shot`.
use sensorwatch.Prelude.{
  ℕ, ◌+◌, ◌<◌, ◌≡◌, refl, false, ◌&&◌, Option, none, some, List, [], ◌∷◌, ◌++◌, if◌then◌else◌,
  Bool-cases, inl, inr, lt→ltb,
}
use sensorwatch.Prelude.Panic.{◌>>=◌}
use sensorwatch.Prelude.Text.{CaseFold}
use sensorwatch.Prelude.Words.{u64_mod}
use sensorwatch.Float.{Float}
use sensorwatch.Source.{Tick}
use sensorwatch.Engine.Observe.{Engine, Transition, TransitionState, observe}
use sensorwatch.Event.{from_transition}
use sensorwatch.Event.Sequence.{next}
use sensorwatch.Watch.{
  Args, Round, World, Wait, elapsed, deadline_passed, shut_down, Ended, exited, running, success,
  fatal, event_fired, interrupted, spool_if_configured, reserve,
}

-- the transitions before the first one that fired are passed over
unfoldable pub first_fired : {W : Type 0} → List (Transition W) → Option (Transition W)
first_fired [] = none
first_fired (t ∷ ts) = elim t.state [
  | TransitionState.fired ↦ some t
  | TransitionState.cleared ↦ first_fired ts
]

module _ {W : Type 0} (args : Args) where
  -- the sequence number is persisted before the event is emitted
  abbrev pub emit_numbered : World W → Transition W → Option ℕ → World W × Ended
  emit_numbered w t none = (w, exited fatal)
  emit_numbered w t (some seq) =
      let event = from_transition t seq in
      let spooled = spool_if_configured args w event in
      (record spooled { printed = spooled.printed ++ (event ∷ []) }, exited event_fired)

  unfoldable pub fire : World W → Transition W → World W × Ended
  unfolding reserve spool_if_configured
  fire w t = let (w', seq) = reserve args w in emit_numbered w' t seq

  -- the end of a live round
  abbrev pub paced : Wait → Option (World W × Ended) → World W → Option (World W × Ended)
  paced elapsed rest w = rest
  paced deadline_passed rest w = some (w, exited success)
  paced shut_down rest w = some (w, exited interrupted)

  module _ ⦃f : Float W⦄ ⦃c : CaseFold⦄ where
    -- the loop of `run_one_shot`; `none` is a panic of the engine
    unfoldable pub run_one_shot : World W → Engine W → List (Round W) → Option (World W × Ended)
    unfolding fire first_fired
    run_one_shot w e [] = some (w, running)
    run_one_shot w e (r ∷ rs) =
        if r.shutdown
        then some (w, exited interrupted)
        else if args.live && r.timed_out
        then some (w, exited success)
        else elim r.tick [
          | none ↦ some (w, exited success)
          | some tick ↦ (do
            (e', out) ← observe e tick
            let rest = run_one_shot w e' rs
            elim (first_fired out) [
              | some t ↦ some (fire w t)
              | none ↦ if args.live then paced r.wait rest w else rest
            ])
        ]

-- the same invocation with `--replay`
abbrev pub replaying : Args → Args
replaying args = record args { live = false }

-- the rounds of a replay that is not interrupted
abbrev pub replayed : {W : Type 0} → List (Tick W) → List (Round W)
replayed [] = record { shutdown = false; timed_out = false; tick = none; wait = elapsed } ∷ []
replayed (t ∷ ts) =
    record { shutdown = false; timed_out = false; tick = some t; wait = elapsed } ∷ replayed ts

-- what a one-shot watch makes of the first transition that fired
abbrev pub outcome : {W : Type 0} → Args → World W → Option (Transition W) → World W × Ended
outcome args w none = (w, exited success)
outcome args w (some t) = fire args w t

module _ {W : Type 0} (args : Args) where
  -- Firing persists the next sequence number, prints the event under it and exits with 10.
  pub fire-prints :
      (w : World W) (t : Transition W)
      → w.store.last + 1 < u64_mod
      → w.io ≡ []
      → (w' : World W) × (fire args w t ≡ (w', exited event_fired))
        × (w'.printed ≡ w.printed ++ from_transition t (w.store.last + 1) ∷ [])
        × (w'.store.last ≡ w.store.last + 1)
  unfolding fire reserve spool_if_configured next
  fire-prints w t l e = elim (Bool-cases args.spooling) [
    | inl b ↦ rw (e, lt→ltb _ _ l, b) (_, refl, refl, refl)
    | inr b ↦ rw (e, lt→ltb _ _ l, b) (_, refl, refl, refl)
  ]
