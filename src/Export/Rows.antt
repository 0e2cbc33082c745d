-- ===== src/Export/Rows.antt =====
-- rust/sensorwatch-cli/src/export.rs: the file holds the rows of the window.
use mathlib.Core.Path.{subst}
use mathlib.Core.Option.{some-injective}
use mathlib.Core.List.{append_assoc, append-nil}
use sensorwatch.Prelude.{
  ℕ, ◌+◌, ◌≤◌, ◌<◌, ◌≡◌, ◌∙◌, ap, ap₂, sym, refl, Bool, false, some, List, [], ◌∷◌, ◌++◌,
  if◌then◌else◌, leb, Bool-cases, Option-cases, inl, inr, arith, map, length, length-append,
  is_empty, All,
}
use sensorwatch.Prelude.Int.{ℤ}
use sensorwatch.Prelude.Words.{u64}
use sensorwatch.Float.{Float}
use sensorwatch.Source.{Timestamp, SampleReading, Tick, sampled, unavailable}
use sensorwatch.Export.{
  Columns, ParquetSink, with_rows_per_group, next_io, flush_row_group, close, buffered, push,
  push_all, in_window, scan, export_rows, rows_per_row_group,
}
use sensorwatch.Export.Groups.{
  Row, row_of, columns_of, rows_of, rows_of-columns_of, buffered-row_of,
}
use sensorwatch.Export.Flushes.{
  concat, Holds, Written, Flushed, value_defs_length, nothing_pending, flush_row_group-Flushed,
}

module _ {W : Type 0} ⦃f : Float W⦄ where
  push-Holds :
      (s s' : ParquetSink W) (micros : ℤ) (r : SampleReading W) (rows : List (Row W))
      → 0 < s.rows_per_group
      → push s micros r ≡ some s'
      → Holds s.rows_per_group s rows
      → Holds s'.rows_per_group s' (rows ++ (row_of micros r ∷ []))
        × (s'.rows_per_group ≡ s.rows_per_group)
  unfolding push
  push-Holds s s' micros r rows pos_ e (full, pending, g, b, c, a, l, n) =
      let row = row_of micros r in
      let t : ParquetSink W = record s { buffer = buffered s.buffer micros r } in
      let b' : t.buffer ≡ columns_of (pending ++ (row ∷ [])) =
        ap (λ x. buffered x micros r) b ∙ buffered-row_of pending micros r in
      let size : length t.buffer.value_defs ≡ length pending + 1 =
        value_defs_length t (pending ++ (row ∷ [])) b' ∙ length-append pending (row ∷ []) in
      let all : concat full ++ (pending ++ (row ∷ [])) ≡ rows ++ (row ∷ []) =
        sym (append_assoc (concat full) pending (row ∷ [])) ∙ ap (λ x. x ++ (row ∷ [])) c in
      elim (Bool-cases (leb s.rows_per_group (length t.buffer.value_defs))) [
        | inl q ↦
            let u : flush_row_group t ≡ some s' = rw (push, q) at e in
            let (h, k) = flush_row_group-Flushed t s' (rows ++ (row ∷ [])) pos_ u (
              full,
              pending ++ (row ∷ []),
              g,
              b',
              all,
              a,
              omega (arith, l, length-append pending (row ∷ [])),
              n,
            ) in
            (h.0, k)
        | inr q ↦
            let u : some t ≡ some s' = rw (push, q) at e in
            let q' : leb s.rows_per_group (length pending + 1) ≡ false =
              ap (leb s.rows_per_group) (sym size) ∙ q in
            let room : length pending + 1 < s.rows_per_group = ground arith in
            subst
              (λ x.
                Holds x.rows_per_group x (rows ++ (row ∷ []))
                × (x.rows_per_group ≡ s.rows_per_group))
              (some-injective _ _ u)
              (
                (
                  full,
                  pending ++ (row ∷ []),
                  g,
                  b',
                  all,
                  a,
                  omega (arith, room, length-append pending (row ∷ [])),
                  n,
                ),
                refl,
              )
      ]

  -- the rows of a sample
  abbrev pub rows_of_readings : ℤ → List (SampleReading W) → List (Row W)
  rows_of_readings micros rs = map (row_of micros) rs

  push_all-Holds :
      (s s' : ParquetSink W) (micros : ℤ) (rs : List (SampleReading W)) (rows : List (Row W))
      → 0 < s.rows_per_group
      → push_all s micros rs ≡ some s'
      → Holds s.rows_per_group s rows
      → Holds s'.rows_per_group s' (rows ++ rows_of_readings micros rs)
        × (s'.rows_per_group ≡ s.rows_per_group)
  unfolding push_all
  push_all-Holds s s' micros [] rows pos_ e h =
      subst (λ t. Holds t.rows_per_group t (rows ++ []) × (t.rows_per_group ≡ s.rows_per_group))
        (some-injective _ _ e) (rw (append-nil rows) h, refl)
  push_all-Holds s s' micros (r ∷ rs) rows pos_ e h = elim (Option-cases (push s micros r)) [
    | inl n ↦ let x = rw (push_all, n) at e in cc
    | inr (t, p) ↦
        let x : push_all t micros rs ≡ some s' = rw (push_all, p) at e in
        let (h', k) = push-Holds s t micros r rows pos_ p h in
        let (h'', k') =
          push_all-Holds t s' micros rs (rows ++ (row_of micros r ∷ [])) (rw k pos_) x h' in
        (rw (← append_assoc rows (row_of micros r ∷ []) (rows_of_readings micros rs)) h'', k' ∙ k)
  ]

  module _ (as_microsecond : Timestamp → ℤ) (since until : Timestamp) where
    -- one row for each reading of each sample of the window
    unfoldable pub rows_of_window : List (Tick W) → List (Row W)
    rows_of_window [] = []
    rows_of_window (unavailable t raw ∷ ticks) = rows_of_window ticks
    rows_of_window (sampled sample ∷ ticks) =
        (if in_window as_microsecond since until sample
          then rows_of_readings (as_microsecond sample.timestamp) sample.readings
          else [])
        ++ rows_of_window ticks

    scan-Holds :
        (s s' : ParquetSink W) (ticks : List (Tick W)) (rows : List (Row W))
        → 0 < s.rows_per_group
        → scan as_microsecond since until s ticks ≡ some s'
        → Holds s.rows_per_group s rows
        → Holds s'.rows_per_group s' (rows ++ rows_of_window ticks)
          × (s'.rows_per_group ≡ s.rows_per_group)
    unfolding scan rows_of_window
    scan-Holds s s' [] rows pos_ e h =
        subst (λ t. Holds t.rows_per_group t (rows ++ []) × (t.rows_per_group ≡ s.rows_per_group))
          (some-injective _ _ e) (rw (append-nil rows) h, refl)
    scan-Holds s s' (unavailable t raw ∷ ticks) rows pos_ e h = scan-Holds s s' ticks rows pos_ e h
    scan-Holds s s' (sampled sample ∷ ticks) rows pos_ e h =
        let micros = as_microsecond sample.timestamp in
        elim (Bool-cases (in_window as_microsecond since until sample)) [
          | inr q ↦ rw q (scan-Holds s s' ticks rows pos_ (rw (scan, q) at e) h)
          | inl q ↦ elim (Option-cases (push_all s micros sample.readings)) [
            | inl n ↦ let x = rw (scan, q, n) at e in cc
            | inr (t, p) ↦
                let x : scan as_microsecond since until t ticks ≡ some s' = rw (scan, q, p) at e in
                let new = rows_of_readings micros sample.readings in
                let (h', k) = push_all-Holds s t micros sample.readings rows pos_ p h in
                let (h'', k') = scan-Holds t s' ticks (rows ++ new) (rw k pos_) x h' in
                rw (q, ← append_assoc rows new (rows_of_window ticks)) (h'', k' ∙ k)
          ]
        ]

    rows_of_groups :
        (full : List (List (Row W))) → concat (map rows_of (map columns_of full)) ≡ concat full
    rows_of_groups [] = refl
    rows_of_groups (g ∷ full) = ap₂ (λ x y. x ++ y) (rows_of-columns_of g) (rows_of_groups full)

    sizes_of_groups :
        (n : ℕ) (full : List (List (Row W)))
        → All (λ (g : List (Row W)). length g ≤ n) full
        → All (λ (g : Columns W). length (rows_of g) ≤ n) (map columns_of full)
    sizes_of_groups n [] a = tt
    sizes_of_groups n (g ∷ full) (a, as_) =
        (rw (rows_of-columns_of g) a, sizes_of_groups n full as_)

    Flushed→Written :
        (s : ParquetSink W) (rows : List (Row W))
        → Flushed s rows
        → Written s.rows_per_group (s.rows_written, s.groups) rows
    Flushed→Written s rows ((full, pending, g, b, c, a, l, n), e) =
        let p = nothing_pending s pending b (ap (λ (x : Columns W). is_empty x.value_defs) e) in
        let all : concat full ≡ rows =
          sym (append-nil (concat full)) ∙ ap (λ x. concat full ++ x) (sym p) ∙ c in
        rw g (
          rows_of_groups full ∙ all,
          sizes_of_groups s.rows_per_group full a,
          n ∙ ap (λ x. u64 (length x)) all,
        )

    close-Written :
        (s : ParquetSink W) (rows : List (Row W)) {out : ℕ × List (Columns W)}
        → 0 < s.rows_per_group
        → close s ≡ some out
        → Holds s.rows_per_group s rows
        → Written s.rows_per_group out rows
    unfolding close
    close-Written s rows {out} pos_ e (full, pending, g, b, c, a, l, n) =
        elim (Option-cases (flush_row_group s)) [
          | inl q ↦ let x = rw (close, q) at e in cc
          | inr (s', q) ↦ elim (Bool-cases (next_io s'.io)) [
            | inr i ↦ let x = rw (close, q, i) at e in cc
            | inl i ↦
                let x = rw (close, q, i) at e in
                let (h, k) =
                  flush_row_group-Flushed s s' rows pos_ q
                    (full, pending, g, b, c, a, omega (arith, l), n) in
                subst (λ o. Written s.rows_per_group o rows) (some-injective _ _ x)
                  (subst (λ m. Written m (s'.rows_written, s'.groups) rows) k
                    (Flushed→Written s' rows h))
          ]
        ]

    -- A completed export holds, in row groups of at most 100,000 rows, exactly one row for each reading of
    -- each sample of the window, in order, NULL where the value is not finite, and reports their number.
    pub export_rows-Written :
        (io : List Bool) (ticks : List (Tick W)) {out : ℕ × List (Columns W)}
        → export_rows as_microsecond since until io ticks ≡ some out
        → Written rows_per_row_group out (rows_of_window ticks)
    unfolding export_rows with_rows_per_group
    export_rows-Written io ticks {out} e =
        let new : ParquetSink W = with_rows_per_group io rows_per_row_group in
        elim (Option-cases (scan as_microsecond since until new ticks)) [
          | inl q ↦ let x = rw (export_rows, q) at e in cc
          | inr (s, q) ↦
              let x : close s ≡ some out = rw (export_rows, q) at e in
              let (h, k) =
                scan-Holds new s ticks [] (omega arith) q
                  ([], [], refl, refl, refl, tt, omega arith, refl) in
              subst (λ m. Written m out (rows_of_window ticks)) k
                (close-Written s (rows_of_window ticks) (rw k (omega arith)) x h)
        ]
