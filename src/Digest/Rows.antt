-- ===== src/Digest/Rows.antt =====
-- digest.rs: the reading rows, their ranking, and the display filters.
use Prim.Native.Nat.{Ordering}
use sensorwatch.Prelude.{
  ℕ, Bool, true, false, ◌&&◌, ◌||◌, Option, none, some, List, [], ◌∷◌, if◌then◌else◌, any, is_empty,
}
use sensorwatch.Prelude.Order.{Ord, list_ord, nat_ord, pair_ord, same, then_cmp}
use sensorwatch.Prelude.Text.{Text, CaseFold, contains}
use sensorwatch.Float.{Float}
use sensorwatch.Rules.{is_none_or}
use sensorwatch.Engine.Observe.{Transition}
use sensorwatch.Digest.Aggregate.{Aggregator, series_kind}

pub record ReadingRow (W : Type 0) : Type 0 where
  pub sensor : Text
  pub reading : Text
  pub kind : Text
  pub unit : Text
  pub samples : ℕ
  pub non_finite : ℕ
  pub first : Option W
  pub last : Option W
  pub min : Option W
  pub max : Option W
  pub avg : Option W
  pub delta : Option W
  pub in_violation : Bool

-- `bool::cmp` with its arguments exchanged
abbrev pub cmp_flagged_first : Bool → Bool → Ordering
cmp_flagged_first true false = Ordering.lt
cmp_flagged_first false true = Ordering.gt
cmp_flagged_first _ _ = Ordering.eq

abbrev pub is_gt : Ordering → Bool
is_gt Ordering.gt = true
is_gt _ = false

module _ {W : Type 0} ⦃f : Float W⦄ where
  abbrev pub movement : Option W → Option W → W
  movement (some first) (some last) =
      let d = f.maximum (f.maximum (f.abs first) (f.abs last)) f.one in
      f.abs (f.sub (f.div last d) (f.div first d))
  movement _ _ = f.nought

  -- `ReadingRow::score`
  unfoldable pub score : ReadingRow W → W
  score r = movement r.first r.last

  -- `b.partial_cmp(&a).unwrap_or(Equal)`
  unfoldable pub cmp_higher_first : W → W → Ordering
  cmp_higher_first a b =
      if f.lt b a then Ordering.lt else if f.gt b a then Ordering.gt else Ordering.eq

  unfoldable pub cmp_rows : ReadingRow W → ReadingRow W → Ordering
  unfolding score cmp_higher_first
  cmp_rows a b =
      let names : Ord (Text × Text) = pair_ord in
      then_cmp (cmp_flagged_first a.in_violation b.in_violation) (
        then_cmp (cmp_higher_first (score a) (score b))
          (names.cmp (a.sensor, a.reading) (b.sensor, b.reading)))

  -- The stable sort of `slice::sort_by`: an element goes before the first that it is not above.
  unfoldable pub insert_row : ReadingRow W → List (ReadingRow W) → List (ReadingRow W)
  unfolding cmp_rows
  insert_row r [] = r ∷ []
  insert_row r (x ∷ xs) =
      let rest = insert_row r xs in if is_gt (cmp_rows r x) then x ∷ rest else r ∷ x ∷ xs

  unfoldable pub rank_rows : List (ReadingRow W) → List (ReadingRow W)
  unfolding insert_row
  rank_rows [] = []
  rank_rows (r ∷ rs) = insert_row r (rank_rows rs)

module _ ⦃c : CaseFold⦄ where
  -- The needles come in lower case.
  unfoldable pub row_passes : Text → Text → Text → List Text → Option Text → Bool
  unfolding contains
  row_passes sensor reading kind needles type_filter =
      (is_empty needles
        || any (λ n. contains (c.to_lowercase sensor) n || contains (c.to_lowercase reading) n)
            needles)
      && is_none_or type_filter (λ label. same label kind)

  abbrev pub is_some_and {ℓ} : {A : Type ℓ} → Option A → (A → Bool) → Bool
  is_some_and none p = false
  is_some_and (some a) p = p a

  abbrev pub kind_passes :
      {W : Type 0} ⦃f : Float W⦄ → Aggregator W → Option Text → Option Text → Text → Bool
  kind_passes agg (some s) (some r) label =
      is_some_and (series_kind agg s r) (λ kind. same kind label)
  kind_passes agg _ _ label = false

  unfoldable pub violation_passes :
      {W : Type 0} ⦃f : Float W⦄ → Transition W → List Text → Option Text → Aggregator W → Bool
  unfolding contains
  violation_passes t needles type_filter agg =
      (is_empty needles
        || any
            (λ n.
              is_some_and t.sensor (λ s. contains (c.to_lowercase s) n)
              || is_some_and t.reading (λ r. contains (c.to_lowercase r) n))
            needles)
      && is_none_or type_filter (λ label. kind_passes agg t.sensor t.reading label)
