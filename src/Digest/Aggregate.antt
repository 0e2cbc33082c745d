-- ===== src/Digest/Aggregate.antt =====
-- digest.rs: `SeriesAgg` and `Aggregator`, the single streaming pass over the samples of a window.
use sensorwatch.Prelude.{
  ℕ, ◌+◌, ◌*◌, ◌/◌, Bool, true, false, Option, none, some, List, [], ◌∷◌, ltb, ◌==◌, if◌then◌else◌,
}
use sensorwatch.Prelude.Int.{ℤ, pos, negsuc, ◌-ℤ◌}
use sensorwatch.Prelude.Order.{list_ord, nat_ord, pair_ord}
use sensorwatch.Prelude.SortedMap.{SortedMap, get, put}
use sensorwatch.Prelude.Panic.{map_some}
use sensorwatch.Prelude.Words.{u64}
use sensorwatch.Prelude.Text.{Text}
use sensorwatch.Float.{Float}
use sensorwatch.Source.{Timestamp, SampleReading, Sample}
use sensorwatch.Digest.Duration.{i64_max}
use sensorwatch.Digest.Gaps.{Gap, max_gaps, push_retained}

pub record SeriesAgg (W : Type 0) : Type 0 where
  pub kind : Text
  pub unit : Text
  pub samples : ℕ  -- u64
  pub non_finite : ℕ  -- u64
  pub finite : ℕ  -- u64
  pub sum : W
  pub min : W
  pub max : W
  pub first : Option W
  pub last : Option W
  pub in_violation : Bool
  pub last_seen_sample : ℕ  -- u64

abbrev pub Key : Type 0
Key = Text × Text

pub record Aggregator (W : Type 0) : Type 0 where
  pub interval_seconds : ℕ  -- i64, at least 1 by the configuration
  pub samples : ℕ  -- u64
  pub sample_index : ℕ  -- u64
  pub first_sample : Option Text
  pub last_sample : Option Text
  pub previous : Option (Timestamp × Text)  -- prev_ts and prev_raw, which are set together
  pub series : SortedMap Key (SeriesAgg W)
  pub gaps : List Gap
  pub gaps_total : ℕ  -- u64

abbrev pub is_none {ℓ} : {A : Type ℓ} → Option A → Bool
is_none none = true
is_none (some a) = false

abbrev pub or_some {ℓ} : {A : Type ℓ} → Option A → A → Option A
or_some none b = some b
or_some (some a) b = some a

-- a pause in nanoseconds, in whole seconds, and saturated
abbrev pub gap_seconds : ℕ → ℕ
gap_seconds delta = let s = delta / 1_000_000_000 in if ltb i64_max s then i64_max else s

-- `GAP_INTERVAL_MULTIPLIER` intervals, in nanoseconds
abbrev pub gap_threshold : ℕ → ℕ
gap_threshold interval_seconds = interval_seconds * 3 * 1_000_000_000

module _ {W : Type 0} ⦃f : Float W⦄ where
  unfoldable pub new_series : Text → SeriesAgg W
  new_series kind = record {
    kind = kind;
    unit = [];
    samples = 0;
    non_finite = 0;
    finite = 0;
    sum = f.nought;
    min = f.infinity;
    max = f.neg_infinity;
    first = none;
    last = none;
    in_violation = false;
    last_seen_sample = 0;
  }

  -- `SeriesAgg::observe`
  unfoldable pub observe_value : SeriesAgg W → W → Text → SeriesAgg W
  observe_value s value unit =
      let counted = record s { samples = u64 (s.samples + 1); unit = unit } in
      if f.is_finite value
      then record counted {
        finite = u64 (s.finite + 1);
        sum = f.add s.sum value;
        min = if f.lt value s.min then value else s.min;
        max = if f.gt value s.max then value else s.max;
        first = or_some s.first value;
        last = some value;
      }
      else record counted { non_finite = u64 (s.non_finite + 1) }

  unfoldable pub min_opt : SeriesAgg W → Option W
  min_opt s = if ltb 0 s.finite then some s.min else none

  unfoldable pub max_opt : SeriesAgg W → Option W
  max_opt s = if ltb 0 s.finite then some s.max else none

  unfoldable pub mean : SeriesAgg W → Option W
  mean s = if ltb 0 s.finite then some (f.div s.sum (f.of_ℕ s.finite)) else none

  delta_of : Option W → Option W → Option W
  delta_of (some first) (some last) = some (f.sub last first)
  delta_of _ _ = none

  unfoldable pub delta : SeriesAgg W → Option W
  unfolding delta_of
  delta s = delta_of s.first s.last

  -- `Aggregator::new`
  unfoldable pub new_aggregator : ℕ → Aggregator W
  new_aggregator interval_seconds = record {
    interval_seconds = interval_seconds;
    samples = 0;
    sample_index = 0;
    first_sample = none;
    last_sample = none;
    previous = none;
    series = [];
    gaps = [];
    gaps_total = 0;
  }

  unfoldable pub push_gap : Aggregator W → Gap → Aggregator W
  unfolding push_retained
  push_gap a gap = record a {
    gaps_total = u64 (a.gaps_total + 1);
    gaps = push_retained max_gaps a.gaps gap;
  }

  -- the nanoseconds since the latest sample in order, if the clock went forward
  detect_gap : Aggregator W → Sample W → Timestamp × Text → ℤ → Aggregator W
  unfolding push_gap
  detect_gap a sample (prev, raw) (pos delta) =
      let moved = record a { previous = some (sample.timestamp, sample.raw_timestamp) } in
      if ltb 0 delta
      then (if ltb (gap_threshold a.interval_seconds) delta
          then push_gap moved
              (record { from = raw; to = sample.raw_timestamp; seconds = gap_seconds delta })
          else moved)
      else a
  detect_gap a sample prev (negsuc n) = a

  after_previous : Aggregator W → Sample W → Option (Timestamp × Text) → Aggregator W
  unfolding detect_gap ◌-ℤ◌
  after_previous a sample none = record a {
    previous = some (sample.timestamp, sample.raw_timestamp);
  }
  after_previous a sample (some prev) = detect_gap a sample prev (sample.timestamp -ℤ prev.0)

  -- the gap detection of `observe`
  unfoldable pub track_gap : Aggregator W → Sample W → Aggregator W
  unfolding after_previous
  track_gap a sample = after_previous a sample a.previous

  abbrev pub or_new : Text → Option (SeriesAgg W) → SeriesAgg W
  or_new kind none = new_series kind
  or_new kind (some s) = s

  unfoldable pub fold_reading :
      ℕ → SortedMap Key (SeriesAgg W) → SampleReading W → SortedMap Key (SeriesAgg W)
  unfolding new_series observe_value
  fold_reading sample_index m r =
      let key : Key = (r.sensor, r.reading) in
      let s = or_new r.kind (get key m) in
      if s.last_seen_sample == sample_index
      then put key s m
      else put key (observe_value (record s { last_seen_sample = sample_index }) r.value r.unit) m

  -- the readings of a sample, in order
  unfoldable pub fold_readings :
      ℕ → SortedMap Key (SeriesAgg W) → List (SampleReading W) → SortedMap Key (SeriesAgg W)
  unfolding fold_reading
  fold_readings sample_index m [] = m
  fold_readings sample_index m (r ∷ rs) =
      fold_readings sample_index (fold_reading sample_index m r) rs

  -- `Aggregator::observe`
  unfoldable pub aggregate : Aggregator W → Sample W → Aggregator W
  unfolding track_gap fold_readings
  aggregate a sample =
      let counted = record a {
        samples = u64 (a.samples + 1);
        sample_index = u64 (a.sample_index + 1);
        first_sample = or_some a.first_sample sample.raw_timestamp;
        last_sample = some sample.raw_timestamp;
      } in
      let tracked = track_gap counted sample in
      record tracked { series = fold_readings counted.sample_index a.series sample.readings }

  unfoldable pub mark_in_violation : Aggregator W → Text → Text → Aggregator W
  mark_in_violation a sensor reading = elim (get (sensor, reading) a.series) [
    | none ↦ a
    | some s ↦ record a {
      series = put (sensor, reading) (record s { in_violation = true }) a.series;
    }
  ]

  unfoldable pub series_kind : Aggregator W → Text → Text → Option Text
  series_kind a sensor reading =
      map_some (λ (s : SeriesAgg W). s.kind) (get (sensor, reading) a.series)
