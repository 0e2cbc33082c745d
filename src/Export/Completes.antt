-- ===== src/Export/Completes.antt =====
-- rust/sensorwatch-cli/src/export.rs: an export whose writes succeed completes.
use sensorwatch.Prelude.{
  ℕ, ◌+◌, ◌++◌, ap, ◌≡◌, refl, true, Option, some, List, [], ◌∷◌, leb, Bool-cases, inl, inr, length,
  is_empty,
}
use sensorwatch.Prelude.Int.{ℤ}
use sensorwatch.Prelude.Words.{u64}
use sensorwatch.Float.{Float}
use sensorwatch.Source.{Timestamp, SampleReading, Tick, sampled, unavailable}
use sensorwatch.Export.{
  Columns, ParquetSink, with_rows_per_group, no_columns, rest_io, next_io, flush_row_group, close,
  buffered, push, push_all, in_window, scan, export_rows, rows_per_row_group,
}
use sensorwatch.Export.Flushes.{Written}
use sensorwatch.Export.Rows.{rows_of_window, export_rows-Written}

-- The call succeeds, and leaves a writer whose calls succeed.
abbrev GoesOn : {W : Type 0} → Option (ParquetSink W) → Type 0
GoesOn {W} o = (s : ParquetSink W) × (o ≡ some s) × (s.io ≡ [])

module _ {W : Type 0} where
  flush_row_group-GoesOn : (s : ParquetSink W) → s.io ≡ [] → GoesOn (flush_row_group s)
  unfolding flush_row_group
  flush_row_group-GoesOn s i = elim (Bool-cases (is_empty s.buffer.value_defs)) [
    | inl e ↦ (s, rw e refl, i)
    | inr e ↦
        let t : ParquetSink W = record s {
          groups = s.groups ++ (s.buffer ∷ []);
          io = rest_io s.io;
          rows_written = u64 (s.rows_written + length s.buffer.value_defs);
          buffer = no_columns;
        } in
        let go : next_io s.io ≡ true = ap next_io i in (t, rw (e, go) refl, ap rest_io i)
  ]

  close-some : (s : ParquetSink W) → s.io ≡ [] → (out : ℕ × List (Columns W)) × (close s ≡ some out)
  unfolding close
  close-some s i =
      let (s', e, i') = flush_row_group-GoesOn s i in
      ((s'.rows_written, s'.groups), rw (close, e, i') refl)

  module _ ⦃f : Float W⦄ where
    push-GoesOn :
        (s : ParquetSink W) (micros : ℤ) (r : SampleReading W)
        → s.io ≡ []
        → GoesOn (push s micros r)
    unfolding push
    push-GoesOn s micros r i =
        let t : ParquetSink W = record s { buffer = buffered s.buffer micros r } in
        elim (Bool-cases (leb t.rows_per_group (length t.buffer.value_defs))) [
          | inl e ↦ let (s', p, i') = flush_row_group-GoesOn t i in (s', rw (push, e) p, i')
          | inr e ↦ (t, rw (push, e) refl, i)
        ]

    push_all-GoesOn :
        (s : ParquetSink W) (micros : ℤ) (rs : List (SampleReading W))
        → s.io ≡ []
        → GoesOn (push_all s micros rs)
    unfolding push_all
    push_all-GoesOn s micros [] i = (s, refl, i)
    push_all-GoesOn s micros (r ∷ rs) i =
        let (t, e, j) = push-GoesOn s micros r i in
        let (u, e', k) = push_all-GoesOn t micros rs j in (u, rw (push_all, e) e', k)

    module _ (as_microsecond : Timestamp → ℤ) (since until : Timestamp) where
      scan-GoesOn :
          (s : ParquetSink W) (ticks : List (Tick W))
          → s.io ≡ []
          → GoesOn (scan as_microsecond since until s ticks)
      unfolding scan
      scan-GoesOn s [] i = (s, refl, i)
      scan-GoesOn s (unavailable t raw ∷ ticks) i = scan-GoesOn s ticks i
      scan-GoesOn s (sampled sample ∷ ticks) i =
          elim (Bool-cases (in_window as_microsecond since until sample)) [
            | inl q ↦
                let (t, e, j) =
                  push_all-GoesOn s (as_microsecond sample.timestamp) sample.readings i in
                let (u, e', k) = scan-GoesOn t ticks j in (u, rw (scan, q, e) e', k)
            | inr q ↦ rw (scan, q) (scan-GoesOn s ticks i)
          ]

      -- If the writes succeed, the export completes, and the file holds, in row groups of at most 100,000
      -- rows, exactly one row for each reading of each sample of the window, in order, NULL where the value
      -- is not finite; the count that is reported is their number modulo 2^64.
      pub export_rows-completes :
          (ticks : List (Tick W))
          → (out : ℕ × List (Columns W)) × (export_rows as_microsecond since until [] ticks
              ≡ some out)
            × Written rows_per_row_group out (rows_of_window as_microsecond since until ticks)
      unfolding export_rows with_rows_per_group
      export_rows-completes ticks =
          let (s, e, i) = scan-GoesOn (with_rows_per_group [] rows_per_row_group) ticks refl in
          let (out, c) = close-some s i in
          let whole : export_rows as_microsecond since until [] ticks ≡ some out =
            rw (export_rows, e) c in
          (out, whole, export_rows-Written as_microsecond since until [] ticks whole)
