-- ===== src/Engine/Gate.antt =====
-- engine.rs: `Gate`, the debounce and hysteresis state machine that every rule kind shares.
use sensorwatch.Prelude.{ℕ, ◌+◌, Bool, true, false, Option, none, some, ◌==◌, if◌then◌else◌}
use sensorwatch.Prelude.Words.{u32}

pub record Gate : Type 0 where
  pub fired : Bool
  pub streak : ℕ  -- u32
  pub total : ℕ  -- u32

abbrev pub default_gate : Gate
default_gate = record { fired = false; streak = 0; total = 0 }

pub data Verdict : Type 0 where
  violates recovers holds : Verdict

pub data GateEvent : Type 0 where
  fired : GateEvent
  cleared : ℕ → GateEvent

-- `Gate::apply`
unfoldable pub apply : Gate → Verdict → ℕ → Gate × Option GateEvent
apply g violates for_samples =
    if g.fired
    then (record g { total = u32 (g.total + 1) }, none)
    else let streak = u32 (g.streak + 1) in
      if streak == for_samples
      then (record { fired = true; streak = streak; total = streak }, some fired)
      else (record g { streak = streak }, none)
apply g recovers for_samples =
    if g.fired then (default_gate, some (cleared g.total)) else (record g { streak = 0 }, none)
apply g holds for_samples = (g, none)

-- `Gate::unevaluable`
unfoldable pub unevaluable : Gate → Gate
unevaluable g = if g.fired then g else record g { streak = 0 }
