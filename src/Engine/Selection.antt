-- ===== src/Engine/Selection.antt =====
-- Rules do not influence one another: dropping rules before a run, as `watch` does, is dropping their
-- transitions afterwards.
use sensorwatch.Prelude.{
  ℕ, ◌+◌, ◌≡◌, refl, Bool, true, false, some, List, [], ◌∷◌, ◌++◌, arith, All, keep, map,
  keep-append, Bool-cases, inl, inr, if◌then◌else◌,
}
use sensorwatch.Prelude.Panic.{>>=-eq-some}
use sensorwatch.Prelude.Words.{u64}
use sensorwatch.Prelude.Text.{Text, CaseFold}
use sensorwatch.Float.{Float}
use sensorwatch.Source.{Tick}
use sensorwatch.Rules.{Rule, RuleSet, Severity, retain}
use sensorwatch.Engine.Origin.{IsOf, step-IsOf}
use mathlib.Core.Option.{some-injective}
use sensorwatch.Engine.Observe.{
  RuleState, Engine, Transition, step, step_all, observe, run, new, default_state,
}

-- A selection of rules by name and severity, and of transitions by what they carry over from the rule.
module _ {W : Type 0} (q : Text → Severity → Bool) where
  abbrev pub selects : Rule W → Bool
  selects r = q r.name r.severity

  abbrev pub selects_transition : Transition W → Bool
  selects_transition t = q t.rule t.severity

  -- the states of the selected rules
  abbrev keep_states : List (Rule W) → List (RuleState W) → List (RuleState W)
  keep_states [] sts = sts
  keep_states (r ∷ rs) [] = []
  keep_states (r ∷ rs) (st ∷ sts) =
      let rest = keep_states rs sts in if selects r then st ∷ rest else rest

  keep-IsOf-true :
      (rule : Rule W) (out : List (Transition W))
      → All (IsOf rule) out
      → selects rule ≡ true
      → keep selects_transition out ≡ out
  keep-IsOf-true rule [] h e = refl
  keep-IsOf-true rule (t ∷ out) (h, hs) e =
      ground (arith, h.by_name, h.by_severity, keep-IsOf-true rule out hs e)

  keep-IsOf-false :
      (rule : Rule W) (out : List (Transition W))
      → All (IsOf rule) out
      → selects rule ≡ false
      → keep selects_transition out ≡ []
  keep-IsOf-false rule [] h e = refl
  keep-IsOf-false rule (t ∷ out) (h, hs) e =
      ground (arith, h.by_name, h.by_severity, keep-IsOf-false rule out hs e)

  module _ ⦃f : Float W⦄ ⦃c : CaseFold⦄ where
    step_all-nil :
        (tick : ℕ) (t : Tick W) (rules : List (Rule W)) → step_all tick t rules [] ≡ some ([], [])
    unfolding step_all
    step_all-nil tick t [] = refl
    step_all-nil tick t (r ∷ rs) = refl

    keep_states-nil : (rules : List (Rule W)) → keep_states rules [] ≡ []
    keep_states-nil [] = refl
    keep_states-nil (r ∷ rs) = refl

    keep_one :
        (tick : ℕ) (t : Tick W) (r : Rule W) (rs : List (Rule W)) (st st' : RuleState W)
        (sts sts' : List (RuleState W)) (out outs : List (Transition W))
        → step tick t r st ≡ some (st', out)
        → All (IsOf r) out
        → step_all tick t (keep selects rs) (keep_states rs sts)
          ≡ some (keep_states rs sts', keep selects_transition outs)
        → step_all tick t (keep selects (r ∷ rs)) (keep_states (r ∷ rs) (st ∷ sts))
          ≡ some (keep_states (r ∷ rs) (st' ∷ sts'), keep selects_transition (out ++ outs))
    unfolding step_all
    keep_one tick t r rs st st' sts sts' out outs e own ih = elim (Bool-cases (selects r)) [
      | inl y ↦ rw (keep-append selects_transition out outs, keep-IsOf-true r out own y, y, e, ih)
      | inr n ↦ rw (keep-append selects_transition out outs, keep-IsOf-false r out own n, n, ih)
    ]

    -- one tick for the selected rules
    step_all-keep :
        (tick : ℕ) (t : Tick W) (rules : List (Rule W)) (sts : List (RuleState W))
        (p : List (RuleState W) × List (Transition W))
        → step_all tick t rules sts ≡ some p
        → step_all tick t (keep selects rules) (keep_states rules sts)
          ≡ some (keep_states rules p.0, keep selects_transition p.1)
    unfolding step_all
    step_all-keep tick t [] sts p h = ground arith
    step_all-keep tick t (r ∷ rs) [] p h =
        rw (← some-injective _ _ h) (step_all-nil tick t (keep selects (r ∷ rs)))
    step_all-keep tick t (r ∷ rs) (st ∷ sts) p h =
        let (p1, e1, h1) = >>=-eq-some (step tick t r st) _ h in
        let (p2, e2, h2) = >>=-eq-some (step_all tick t rs sts) _ h1 in
        rw (← some-injective _ _ h2) (
          keep_one tick t r rs st p1.0 sts p2.0 p1.1 p2.1 e1 (step-IsOf r tick t st p1 e1)
            (step_all-keep tick t rs sts p2 e2))

    -- the engine that has the selected rules alone
    abbrev narrowed : Engine W → Engine W
    narrowed e = record {
      rules = keep selects e.rules;
      states = keep_states e.rules e.states;
      tick_index = e.tick_index;
    }

    observe-keep :
        (e : Engine W) (t : Tick W) (p : Engine W × List (Transition W))
        → observe e t ≡ some p
        → observe (narrowed e) t ≡ some (narrowed p.0, keep selects_transition p.1)
    unfolding observe
    observe-keep e t p h =
        let (p1, e1, h1) = >>=-eq-some (step_all (u64 (e.tick_index + 1)) t e.rules e.states) _ h in
        rw
          (step_all-keep (u64 (e.tick_index + 1)) t e.rules e.states p1 e1, ← some-injective _ _ h1)

    run-keep :
        (e : Engine W) (ts : List (Tick W)) (p : Engine W × List (Transition W))
        → run e ts ≡ some p
        → run (narrowed e) ts ≡ some (narrowed p.0, keep selects_transition p.1)
    unfolding run
    run-keep e [] p h = rw (← some-injective _ _ h)
    run-keep e (t ∷ ts) p h =
        let (p1, e1, h1) = >>=-eq-some (observe e t) _ h in
        let (p2, e2, h2) = >>=-eq-some (run p1.0 ts) _ h1 in
        rw (
          observe-keep e t p1 e1,
          run-keep p1.0 ts p2 e2,
          ← some-injective _ _ h2,
          keep-append selects_transition p1.1 p2.1,
        )

    keep_states-default :
        (rules : List (Rule W))
        → keep_states rules (map (λ _. default_state) rules)
          ≡ map (λ _. default_state) (keep selects rules)
    keep_states-default [] = refl
    keep_states-default (r ∷ rs) = ground (arith, keep_states-default rs)

    -- Selecting rules by name and severity before a run, as `watch` does, gives the transitions of the
    -- whole rule set that the selection lets through, in the same order: rules do not influence one
    -- another.
    pub run-retain :
        (s : RuleSet W) (ts : List (Tick W)) {e : Engine W} {out : List (Transition W)}
        → run (new s) ts ≡ some (e, out)
        → (e' : Engine W) × (run (new (retain selects s)) ts
            ≡ some (e', keep selects_transition out))
    unfolding new retain
    run-retain s ts {e} {out} h =
        (narrowed e, rw (← keep_states-default s.rules) (run-keep (new s) ts (e, out) h))
