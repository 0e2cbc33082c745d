-- ===== src/Export/Flushes.antt =====
-- rust/sensorwatch-cli/src/export.rs: the rows that the sink and the file hold, and what a flush does.
use mathlib.Core.Path.{subst}
use mathlib.Core.Option.{some-injective}
use mathlib.Core.List.{append_assoc, append-nil, map-append}
use sensorwatch.Prelude.{
  ℕ, ◌+◌, ◌≤◌, ◌<◌, ◌≡◌, ◌∙◌, ap, ap₂, sym, refl, true, false, some, List, [], ◌∷◌, ◌++◌,
  Bool-cases, inl, inr, arith, map, length, length-append, length-map, is_empty, All, All-append,
}
use sensorwatch.Prelude.Words.{u64}
use sensorwatch.Export.{Columns, ParquetSink, no_columns, next_io, rest_io, flush_row_group}
use sensorwatch.Export.Groups.{Row, columns_of, rows_of}

abbrev pub concat : {A : Type 0} → List (List A) → List A
concat [] = []
concat (xs ∷ xss) = xs ++ concat xss

pub concat-snoc :
    {A : Type 0} (xss : List (List A)) (xs : List A) → concat (xss ++ (xs ∷ [])) ≡ concat xss ++ xs
concat-snoc [] xs = append-nil xs
concat-snoc (ys ∷ xss) xs = ap (λ zs. ys ++ zs) (concat-snoc xss xs) ∙ sym (append_assoc ys _ xs)

pub u64_add : (a b : ℕ) → u64 (u64 a + b) ≡ u64 (a + b)
u64_add a b = omega arith

module _ {W : Type 0} where
  -- The row groups of the file and the buffer, of less than `limit` rows, hold the rows that were pushed,
  -- in order.
  abbrev pub Holds : ℕ → ParquetSink W → List (Row W) → Type 0
  Holds limit s rows =
      (full : List (List (Row W))) × (pending : List (Row W)) × (s.groups ≡ map columns_of full)
      × (s.buffer ≡ columns_of pending)
      × (concat full ++ pending ≡ rows)
      × All (λ (g : List (Row W)). length g ≤ s.rows_per_group) full
      × (length pending < limit)
      × (s.rows_written ≡ u64 (length (concat full)))

  -- the same, with an empty buffer
  abbrev pub Written : ℕ → ℕ × List (Columns W) → List (Row W) → Type 0
  Written n (count, groups) rows =
      (concat (map rows_of groups) ≡ rows)
      × All (λ (g : Columns W). length (rows_of g) ≤ n) groups
      × (count ≡ u64 (length rows))

  -- A flush leaves an empty buffer.
  abbrev pub Flushed : ParquetSink W → List (Row W) → Type 0
  Flushed s rows = Holds s.rows_per_group s rows × (s.buffer ≡ no_columns)

  pub value_defs_length :
      (s : ParquetSink W) (pending : List (Row W))
      → s.buffer ≡ columns_of pending
      → length s.buffer.value_defs ≡ length pending
  value_defs_length s pending b =
      ap (λ (c : Columns W). length c.value_defs) b ∙ length-map _ pending

  pub nothing_pending :
      (s : ParquetSink W) (pending : List (Row W))
      → s.buffer ≡ columns_of pending
      → is_empty s.buffer.value_defs ≡ true
      → pending ≡ []
  nothing_pending s [] b e = refl
  nothing_pending s (x ∷ xs) b e =
      let f : is_empty s.buffer.value_defs ≡ false =
        ap (λ (c : Columns W). is_empty c.value_defs) b in
      cc

  appended-Flushed :
      (s : ParquetSink W) (rows : List (Row W))
      → 0 < s.rows_per_group
      → Holds (s.rows_per_group + 1) s rows
      → Flushed
          (record s {
            groups = s.groups ++ (s.buffer ∷ []);
            io = rest_io s.io;
            rows_written = u64 (s.rows_written + length s.buffer.value_defs);
            buffer = no_columns;
          })
          rows
  appended-Flushed s rows pos_ (full, pending, g, b, c, a, l, n) =
      let one : List (List (Row W)) = pending ∷ [] in
      (
        (
          full ++ one,
          [],
          rw (g, b) (sym (map-append columns_of full one)),
          refl,
          append-nil (concat (full ++ one)) ∙ concat-snoc full pending ∙ c,
          All-append (λ (r : List (Row W)). length r ≤ s.rows_per_group) full one a
              (omega (arith, l), tt),
          pos_,
          ap u64 (ap₂ (λ x y. x + y) n (value_defs_length s pending b))
              ∙ u64_add (length (concat full)) (length pending)
              ∙ ap u64 (
                  sym (length-append (concat full) pending)
                  ∙ ap length (sym (concat-snoc full pending))),
        ),
        refl,
      )

  pub flush_row_group-Flushed :
      (s s' : ParquetSink W) (rows : List (Row W))
      → 0 < s.rows_per_group
      → flush_row_group s ≡ some s'
      → Holds (s.rows_per_group + 1) s rows
      → Flushed s' rows × (s'.rows_per_group ≡ s.rows_per_group)
  unfolding flush_row_group
  flush_row_group-Flushed s s' rows pos_ e h =
      let (full, pending, g, b, c, a, l, n) = h in
      elim (Bool-cases (is_empty s.buffer.value_defs)) [
        | inl q ↦
            let p = nothing_pending s pending b q in
            let r = rw (flush_row_group, q) at e in
            subst (λ t. Flushed t rows × (t.rows_per_group ≡ s.rows_per_group))
              (some-injective _ _ r)
              (((full, pending, g, b, c, a, rw p pos_, n), b ∙ ap columns_of p), refl)
        | inr q ↦ elim (Bool-cases (next_io s.io)) [
          | inl i ↦
              let r = rw (flush_row_group, q, i) at e in
              subst (λ t. Flushed t rows × (t.rows_per_group ≡ s.rows_per_group))
                (some-injective _ _ r) (appended-Flushed s rows pos_ h, refl)
          | inr i ↦ let r = rw (flush_row_group, q, i) at e in cc
        ]
      ]
