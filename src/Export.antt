-- ===== src/Export.antt =====
-- rust/sensorwatch-cli/src/export.rs: the columnar sink, the scan of the window, and the guard of the
-- output file. The Parquet writer is the list of the row groups it was given, and `io` tells how its next
-- calls end: they succeed when it is used up.
pub mod Groups
pub mod Flushes
pub mod Rows
pub mod Completes
pub mod Guard
pub mod Run
pub mod Whole
use sensorwatch.Prelude.{
  ℕ, ◌+◌, Bool, true, false, not, ◌&&◌, ◌||◌, Option, none, some, List, [], ◌∷◌, ◌++◌,
  if◌then◌else◌, leb, is_empty, length,
}
use sensorwatch.Prelude.Int.{ℤ, ltb_ℤ}
use sensorwatch.Prelude.Words.{u64}
use sensorwatch.Prelude.Order.{list_ord, nat_ord, same}
use sensorwatch.Prelude.Text.{Text}
use sensorwatch.Float.{Float}
use sensorwatch.Source.{Timestamp, SampleReading, Sample, Tick, sampled, unavailable}
use sensorwatch.Watch.{fatal, usage}

abbrev pub rows_per_row_group : ℕ
rows_per_row_group = 100_000

-- The six columns of a row group. The values that are present stand densely in `values`, and
-- `value_defs` has a level for each row: 1 for present, 0 for NULL.
pub record Columns (W : Type 0) : Type 0 where
  pub timestamps : List ℤ
  pub sensors : List Text
  pub readings : List Text
  pub types : List Text
  pub values : List W
  pub value_defs : List ℕ
  pub units : List Text

pub record ParquetSink (W : Type 0) : Type 0 where
  pub groups : List (Columns W)
  pub io : List Bool
  pub rows_per_group : ℕ
  pub buffer : Columns W
  pub rows_written : ℕ

abbrev pub no_columns : {W : Type 0} → Columns W
no_columns = record {
  timestamps = [];
  sensors = [];
  readings = [];
  types = [];
  values = [];
  value_defs = [];
  units = [];
}

-- `with_rows_per_group`
unfoldable pub with_rows_per_group : {W : Type 0} → List Bool → ℕ → ParquetSink W
with_rows_per_group io n = record {
  groups = [];
  io = io;
  rows_per_group = n;
  buffer = no_columns;
  rows_written = 0;
}

abbrev pub next_io : List Bool → Bool
next_io [] = true
next_io (b ∷ bs) = b

abbrev pub rest_io : List Bool → List Bool
rest_io [] = []
rest_io (b ∷ bs) = bs

module _ {W : Type 0} where
  -- `none` is an error of the writer
  unfoldable pub flush_row_group : ParquetSink W → Option (ParquetSink W)
  flush_row_group s =
      if is_empty s.buffer.value_defs
      then some s
      else if next_io s.io
      then some record s {
        groups = s.groups ++ (s.buffer ∷ []);
        io = rest_io s.io;
        rows_written = u64 (s.rows_written + length s.buffer.value_defs);
        buffer = no_columns;
      }
      else none

  -- the rows written, and what the file holds
  unfoldable pub close : ParquetSink W → Option (ℕ × List (Columns W))
  unfolding flush_row_group
  close s = elim (flush_row_group s) [
    | none ↦ none
    | some s' ↦ if next_io s'.io then some (s'.rows_written, s'.groups) else none
  ]

  module _ ⦃f : Float W⦄ where
    unfoldable pub buffered : Columns W → ℤ → SampleReading W → Columns W
    buffered b timestamp_micros r =
        let present = f.is_finite r.value in
        record {
          timestamps = b.timestamps ++ (timestamp_micros ∷ []);
          sensors = b.sensors ++ (r.sensor ∷ []);
          readings = b.readings ++ (r.reading ∷ []);
          types = b.types ++ (r.kind ∷ []);
          values = if present then b.values ++ (r.value ∷ []) else b.values;
          value_defs = b.value_defs ++ ((if present then 1 else 0) ∷ []);
          units = b.units ++ (r.unit ∷ []);
        }

    unfoldable pub push : ParquetSink W → ℤ → SampleReading W → Option (ParquetSink W)
    unfolding buffered flush_row_group
    push s timestamp_micros r =
        let s' : ParquetSink W = record s { buffer = buffered s.buffer timestamp_micros r } in
        if leb s'.rows_per_group (length s'.buffer.value_defs) then flush_row_group s' else some s'

    -- the readings of a sample
    unfoldable pub push_all : ParquetSink W → ℤ → List (SampleReading W) → Option (ParquetSink W)
    unfolding push
    push_all s micros [] = some s
    push_all s micros (r ∷ rs) = elim (push s micros r) [
      | none ↦ none
      | some s' ↦ push_all s' micros rs
    ]

    -- the scan of `run`; `as_microsecond` is jiff's
    module _ (as_microsecond : Timestamp → ℤ) (since until : Timestamp) where
      abbrev pub in_window : Sample W → Bool
      in_window sample = not (ltb_ℤ sample.timestamp since || ltb_ℤ until sample.timestamp)

      unfoldable pub scan : ParquetSink W → List (Tick W) → Option (ParquetSink W)
      unfolding push_all
      scan s [] = some s
      scan s (unavailable t raw ∷ ticks) = scan s ticks
      scan s (sampled sample ∷ ticks) =
          if in_window sample
          then (elim (push_all s (as_microsecond sample.timestamp) sample.readings) [
            | none ↦ none
            | some s' ↦ scan s' ticks
          ])
          else scan s ticks

      -- the scan and the footer
      unfoldable pub export_rows : List Bool → List (Tick W) → Option (ℕ × List (Columns W))
      unfolding with_rows_per_group scan close
      export_rows io ticks = elim (scan (with_rows_per_group io rows_per_row_group) ticks) [
        | none ↦ none
        | some s ↦ close s
      ]

-- What the file system tells of paths: `canonicalize`, and the identity of the file at a path, which
-- `same_file` compares.
pub record Identities (I : Type 0) : Type 0 where
  pub canonicalize : Text → Option Text
  pub identity : Text → Option I
  pub same_identity : I → I → Bool

pub data Judged : Type 0 where
  distinct alias unverified : Judged

-- how the attempts to open the output end
pub data Opened : Type 0 where
  created already_exists failed : Opened

pub data Prepared : Type 0 where
  truncated : Prepared
  refused : ℕ → Prepared

module _ {I : Type 0} (fs : Identities I) where
  abbrev pub same_path : Option Text → Option Text → Bool
  same_path (some a) (some b) = same a b
  same_path _ _ = false

  -- the loop over the inputs, for an output whose identity is known
  unfoldable pub check_inputs : Option Text → I → List Text → Judged
  check_inputs out_canonical out_handle [] = distinct
  check_inputs out_canonical out_handle (input ∷ inputs) =
      let rest = check_inputs out_canonical out_handle inputs in
      if same_path out_canonical (fs.canonicalize input) then alias else elim (fs.identity input) [
        | none ↦ unverified
        | some input_handle ↦ if fs.same_identity out_handle input_handle then alias else rest
      ]

  -- `out` is the identity of the handle that was opened
  unfoldable pub aliases_selected_input : Option I → Text → List Text → Judged
  unfolding check_inputs
  aliases_selected_input none out_path inputs = unverified
  aliases_selected_input (some out_handle) out_path inputs =
      check_inputs (fs.canonicalize out_path) out_handle inputs

  abbrev pub after_guard : Judged → Bool → Prepared
  after_guard distinct truncates = if truncates then truncated else refused fatal
  after_guard alias truncates = refused usage
  after_guard unverified truncates = refused fatal

  -- `run` from opening the output to truncating it: the exclusive creation, the second attempt, the
  -- identity of the handle, and whether `set_len` succeeds
  unfoldable pub prepare_output : Opened → Bool → Option I → Bool → Text → List Text → Prepared
  unfolding aliases_selected_input
  prepare_output created reopens out truncates out_path inputs =
      if truncates then truncated else refused fatal
  prepare_output already_exists reopens out truncates out_path inputs =
      if reopens
      then after_guard (aliases_selected_input out out_path inputs) truncates
      else refused fatal
  prepare_output failed reopens out truncates out_path inputs = refused fatal
