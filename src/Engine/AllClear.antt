-- ===== src/Engine/AllClear.antt =====
-- rust/sensorwatch-cli/src/engine.rs: what closes an alert. Absent data never does.
use sensorwatch.Prelude.{◌≡◌, List, All, Any}
use sensorwatch.Prelude.SortedMap.{SortedMap}
use sensorwatch.Prelude.Text.{Text, CaseFold}
use sensorwatch.Float.{Float}
use sensorwatch.Source.{SampleReading, Tick}
use sensorwatch.Rules.{Rule}
use sensorwatch.Engine.Observe.{Engine, Transition, TransitionState}
use sensorwatch.Engine.Closing.{Closes, ClosedBy}

module _ {W : Type 0} ⦃f : Float W⦄ ⦃c : CaseFold⦄ (rule : Rule W) where
  abbrev Seen : List (SampleReading W) → Transition W → Type 0
  Seen rs t = t.state ≡ TransitionState.cleared → Any (Closes rule t) rs

  abbrev AllSeen : List (SampleReading W) → {S : Type 0} → S × List (Transition W) → Type 0
  AllSeen rs p = All (Seen rs) p.1

module _ {W : Type 0} ⦃f : Float W⦄ ⦃c : CaseFold⦄ where
  -- what a closed alert of the rule is closed by
  abbrev Explained : Tick W → Rule W → Transition W → Type 0
  Explained tick rule t = t.state ≡ TransitionState.cleared → ClosedBy tick t rule

  abbrev AllExplained : Tick W → Rule W → {S : Type 0} → S × List (Transition W) → Type 0
  AllExplained tick rule p = All (Explained tick rule) p.1

  -- the same of some rule of the engine
  abbrev pub ClosedIn : Tick W → List (Rule W) → Transition W → Type 0
  ClosedIn tick rules t = t.state ≡ TransitionState.cleared → Any (ClosedBy tick t) rules

  abbrev AllClosedIn : Tick W → List (Rule W) → {S : Type 0} → S × List (Transition W) → Type 0
  AllClosedIn tick rules p = All (ClosedIn tick rules) p.1
