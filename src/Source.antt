-- ===== src/Source.antt =====
-- rust/sensorwatch-cli/src/source.rs: samples and ticks. A jiff `Timestamp` is its number of
-- nanoseconds since the epoch, and a `kind` is one of the labels of `Labels`.
pub mod Live
use sensorwatch.Prelude.{List}
use sensorwatch.Prelude.Int.{ℤ}
use sensorwatch.Prelude.Text.{Text}

abbrev pub Timestamp : Type 0
Timestamp = ℤ

pub record SampleReading (W : Type 0) : Type 0 where
  pub sensor : Text
  pub reading : Text
  pub kind : Text
  pub value : W
  pub min : W
  pub max : W
  pub avg : W
  pub unit : Text

pub record Sample (W : Type 0) : Type 0 where
  pub timestamp : Timestamp
  pub raw_timestamp : Text
  pub readings : List (SampleReading W)

pub data Tick (W : Type 0) : Type 0 where
  sampled : Sample W → Tick W
  unavailable : Timestamp → Text → Tick W
