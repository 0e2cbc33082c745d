-- ===== src/Event.antt =====
-- rust/sensorwatch-cli/src/event.rs: the event record, the persisted sequence counter and the names of
-- spool files.
pub mod Sequence
pub mod Restart
pub mod Slug
use sensorwatch.Prelude.{ℕ, ◌++◌, ◌∷◌, [], Option, none, some}
use sensorwatch.Prelude.Text.{Text}
use sensorwatch.Prelude.Decimal.{print}
use sensorwatch.Rules.{RuleKind, Severity}
use sensorwatch.Engine.Observe.{Transition, TransitionState}

-- `SCHEMA_VERSION`
abbrev pub schema_version : ℕ
schema_version = 1

pub record Event (W : Type 0) : Type 0 where
  pub version : ℕ
  pub seq : ℕ  -- u64
  pub id : Text
  pub rule : Text
  pub kind : RuleKind
  pub severity : Severity
  pub state : TransitionState
  pub timestamp : Text
  pub sensor : Option Text
  pub reading : Option Text
  pub value : Option W
  pub unit : Option Text
  pub threshold : Option W
  pub samples_in_violation : ℕ

-- `Event::from_transition`
unfoldable pub from_transition : {W : Type 0} → Transition W → ℕ → Event W
from_transition t seq = record {
  version = schema_version;
  seq = seq;
  id = t.rule ++ (b'-' ∷ print seq);
  rule = t.rule;
  kind = t.kind;
  severity = t.severity;
  state = t.state;
  timestamp = t.raw_timestamp;
  sensor = t.sensor;
  reading = t.reading;
  value = t.value;
  unit = t.unit;
  threshold = t.threshold;
  samples_in_violation = t.samples_in_violation;
}
