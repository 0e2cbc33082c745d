-- ===== src/Digest/Emit.antt =====
-- digest.rs: `emit`, which assembles, filters, ranks and fits the digest.
use sensorwatch.Prelude.{
  ℕ, zero, suc, ◌+◌, ◌≤◌, ◌≡◌, refl, sym, ap, ◌∙◌, max, Bool, true, false, Option, List, [], ◌∷◌,
  arith, if◌then◌else◌, keep, length, take, map, Bool-cases, inl, inr,
}
use sensorwatch.Prelude.Text.{Text, CaseFold}
use sensorwatch.Float.{Float}
use sensorwatch.Engine.Observe.{Transition}
use sensorwatch.Event.{Event, from_transition}
use sensorwatch.Digest.Aggregate.{SeriesAgg, Aggregator, Key, min_opt, max_opt, mean, delta}
use sensorwatch.Digest.Rows.{
  ReadingRow, row_passes, violation_passes, rank_rows, insert_row, cmp_rows, is_gt,
}
use sensorwatch.Digest.Fit.{Assembled, Digest, Fitted, fit}

-- `Emit`, with the instants as jiff prints them
pub record Emit : Type 0 where
  pub since : Text
  pub until : Text
  pub log_dir : Text
  pub files_scanned : ℕ
  pub interval_seconds : ℕ
  pub skipped_lines : ℕ
  pub rules_evaluated : ℕ
  pub needles : List Text
  pub type_filter : Option Text
  pub top : ℕ
  pub max_bytes : ℕ
  pub indent : ℕ

none_long : {A : Type 0} (xs : List A) → length xs ≤ 0 → xs ≡ []
none_long [] l = refl
none_long (x ∷ xs) l = absurd (omega arith)

module _ {W : Type 0} ⦃f : Float W⦄ ⦃c : CaseFold⦄ where
  unfoldable pub row_of : Key × SeriesAgg W → ReadingRow W
  row_of ((sensor, reading), s) = record {
    sensor = sensor;
    reading = reading;
    kind = s.kind;
    unit = s.unit;
    samples = s.samples;
    non_finite = s.non_finite;
    first = s.first;
    last = s.last;
    min = min_opt s;
    max = max_opt s;
    avg = mean s;
    delta = delta s;
    in_violation = s.in_violation;
  }

  abbrev pub shown : Emit → Key × SeriesAgg W → Bool
  shown cfg ((sensor, reading), s) = row_passes sensor reading s.kind cfg.needles cfg.type_filter

  abbrev pub flagged : ReadingRow W → Bool
  flagged r = r.in_violation

  -- `rows.truncate(forced.max(top))` of the ranked rows
  unfoldable pub top_rows : ℕ → List (ReadingRow W) → List (ReadingRow W)
  unfolding rank_rows
  top_rows top rows =
      let ranked = rank_rows rows in take (max (length (keep flagged ranked)) top) ranked

  -- the transitions that pass, numbered by their position from 1
  unfoldable pub numbered : (Transition W → Bool) → ℕ → List (Transition W) → List (Event W)
  numbered p i [] = []
  numbered p i (t ∷ ts) =
      let rest = numbered p (i + 1) ts in if p t then from_transition t (i + 1) ∷ rest else rest

  unfoldable pub assemble : Emit → Aggregator W → List (Transition W) → ℕ → Assembled W
  unfolding top_rows numbered row_of
  assemble cfg agg transitions violations_total =
      let rows = map row_of (keep (shown cfg) agg.series) in
      record {
        facts = record {
          since = cfg.since;
          until = cfg.until;
          log_dir = cfg.log_dir;
          files_scanned = cfg.files_scanned;
          interval_seconds = cfg.interval_seconds;
          samples = agg.samples;
          skipped_lines = cfg.skipped_lines;
          first_sample = agg.first_sample;
          last_sample = agg.last_sample;
          series_total = length agg.series;
          rules_evaluated = cfg.rules_evaluated;
          readings_total = length rows;
          gaps_total = agg.gaps_total;
          violations_total = violations_total;
        };
        rows = top_rows cfg.top rows;
        gaps = agg.gaps;
        violations =
            numbered (λ t. violation_passes t cfg.needles cfg.type_filter agg) 0 transitions;
      }

  -- What `emit` prints, with exit code 0, or the size in its message, with exit code 2.
  unfoldable pub emit :
      (Digest W → ℕ → Text) → Emit → Aggregator W → List (Transition W) → ℕ → Fitted
  unfolding fit assemble
  emit to_json cfg agg transitions violations_total =
      fit to_json (assemble cfg agg transitions violations_total) cfg.max_bytes cfg.indent

  -- rows with a flag before the rows without
  abbrev FlaggedFirst : List (ReadingRow W) → Type 0
  FlaggedFirst [] = Unit {0}
  FlaggedFirst (r ∷ rs) = (r.in_violation ≡ false → keep flagged rs ≡ []) × FlaggedFirst rs

  above_flagged :
      (r x : ReadingRow W)
      → is_gt (cmp_rows r x) ≡ true
      → x.in_violation ≡ false
      → r.in_violation ≡ false
  unfolding cmp_rows
  above_flagged r x g e = elim (Bool-cases r.in_violation) [
    | inl t ↦ absurd (ground arith)
    | inr t ↦ t
  ]

  below_flagged :
      (r x : ReadingRow W)
      → is_gt (cmp_rows r x) ≡ false
      → r.in_violation ≡ false
      → x.in_violation ≡ false
  unfolding cmp_rows
  below_flagged r x g e = elim (Bool-cases x.in_violation) [
    | inl t ↦ absurd (ground arith)
    | inr t ↦ t
  ]

  keep-insert :
      (r : ReadingRow W) (rs : List (ReadingRow W))
      → r.in_violation ≡ false
      → keep flagged (insert_row r rs) ≡ keep flagged rs
  unfolding insert_row
  keep-insert r [] e = rw e
  keep-insert r (x ∷ xs) e = elim (Bool-cases (is_gt (cmp_rows r x))) [
    | inl g ↦ rw g (ground (arith, keep-insert r xs e))
    | inr g ↦ rw g (ground arith)
  ]

  insert-FlaggedFirst :
      (r : ReadingRow W) (rs : List (ReadingRow W))
      → FlaggedFirst rs
      → FlaggedFirst (insert_row r rs)
  unfolding insert_row
  insert-FlaggedFirst r [] h = (λ e. refl, tt)
  insert-FlaggedFirst r (x ∷ xs) h = elim (Bool-cases (is_gt (cmp_rows r x))) [
    | inl g ↦
        rw g (λ e. keep-insert r xs (above_flagged r x g e) ∙ h.0 e, insert-FlaggedFirst r xs h.1)
    | inr g ↦ rw g (λ e. ground (arith, below_flagged r x g e, h.0), h)
  ]

  rank_rows-FlaggedFirst : (rs : List (ReadingRow W)) → FlaggedFirst (rank_rows rs)
  unfolding rank_rows
  rank_rows-FlaggedFirst [] = tt
  rank_rows-FlaggedFirst (r ∷ rs) = insert-FlaggedFirst r (rank_rows rs) (rank_rows-FlaggedFirst rs)

  keep-take :
      (n : ℕ) (rs : List (ReadingRow W))
      → FlaggedFirst rs
      → length (keep flagged rs) ≤ n
      → keep flagged (take n rs) ≡ keep flagged rs
  keep-take zero rs h l = sym (none_long (keep flagged rs) l)
  keep-take (suc n) [] h l = refl
  keep-take (suc n) (r ∷ rs) h l = elim (Bool-cases r.in_violation) [
    | inl e ↦ ground (arith, keep-take n rs h.1)
    | inr e ↦ ground (arith, keep-take n rs h.1, h.0, ap length (h.0 e))
  ]

  -- `--top` never drops a row in violation: the rows that are kept hold all of them, in ranked order.
  pub top_rows-keeps :
      (top : ℕ) (rows : List (ReadingRow W))
      → keep flagged (top_rows top rows) ≡ keep flagged (rank_rows rows)
  unfolding top_rows
  top_rows-keeps top rows = keep-take _ (rank_rows rows) (rank_rows-FlaggedFirst rows) (omega arith)
