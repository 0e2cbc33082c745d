-- ===== src/Export/Groups.antt =====
-- rust/sensorwatch-cli/src/export.rs: a row group as the encoding of its rows.
use mathlib.Core.List.{append-nil, map-append}
use sensorwatch.Prelude.{
  ℕ, ◌≡◌, ap, refl, Option, none, some, List, [], ◌∷◌, ◌++◌, if◌then◌else◌, ◌==◌, Bool-cases, inl,
  inr, map,
}
use sensorwatch.Prelude.Int.{ℤ}
use sensorwatch.Prelude.Text.{Text}
use sensorwatch.Float.{Float}
use sensorwatch.Source.{SampleReading}
use sensorwatch.Export.{Columns, buffered}

-- one row of the table
pub record Row (W : Type 0) : Type 0 where
  pub timestamp : ℤ
  pub sensor : Text
  pub reading : Text
  pub type_ : Text
  pub value : Option W
  pub unit : Text

-- the row of a reading, whose value is NULL if it is not finite
abbrev pub row_of : {W : Type 0} ⦃f : Float W⦄ → ℤ → SampleReading W → Row W
row_of ⦃f⦄ micros r = record {
  timestamp = micros;
  sensor = r.sensor;
  reading = r.reading;
  type_ = r.kind;
  value = if f.is_finite r.value then some r.value else none;
  unit = r.unit;
}

module _ {W : Type 0} where
  abbrev pub level_of : Option W → ℕ
  level_of none = 0
  level_of (some v) = 1

  abbrev pub present : List (Option W) → List W
  present [] = []
  present (none ∷ os) = present os
  present (some v ∷ os) = v ∷ present os

  -- the columns that encode some rows
  abbrev pub columns_of : List (Row W) → Columns W
  columns_of rows = record {
    timestamps = map (λ (r : Row W). r.timestamp) rows;
    sensors = map (λ (r : Row W). r.sensor) rows;
    readings = map (λ (r : Row W). r.reading) rows;
    types = map (λ (r : Row W). r.type_) rows;
    values = present (map (λ (r : Row W). r.value) rows);
    value_defs = map (λ (r : Row W). level_of r.value) rows;
    units = map (λ (r : Row W). r.unit) rows;
  }

  -- How a reader of the file puts the rows together: a level of 1 takes the next value.
  unfoldable pub decode :
      List ℤ → List Text → List Text → List Text → List W → List ℕ → List Text → List (Row W)
  decode (t ∷ ts) (s ∷ ss) (r ∷ rs) (k ∷ ks) vs (d ∷ ds) (u ∷ us) =
      let null : Row W = record {
        timestamp = t;
        sensor = s;
        reading = r;
        type_ = k;
        value = none;
        unit = u;
      } in
      let skipped = decode ts ss rs ks vs ds us in
      if d == 0 then null ∷ skipped else elim vs [
        | [] ↦ []
        | ◌∷◌ v vs' ↦ record null { value = some v } ∷ decode ts ss rs ks vs' ds us
      ]
  decode _ _ _ _ _ _ _ = []

  abbrev pub rows_of : Columns W → List (Row W)
  rows_of c = decode c.timestamps c.sensors c.readings c.types c.values c.value_defs c.units

  rows_of-cons :
      (r : Row W) (v : Option W) (rows : List (Row W))
      → rows_of (columns_of rows) ≡ rows
      → rows_of (columns_of (record r { value = v } ∷ rows)) ≡ record r { value = v } ∷ rows
  unfolding decode
  rows_of-cons r none rows h = ap (λ rs. record r { value = none } ∷ rs) h
  rows_of-cons r (some v) rows h = ap (λ rs. record r { value = some v } ∷ rs) h

  -- Decoding gives back the rows that were encoded.
  pub rows_of-columns_of : (rows : List (Row W)) → rows_of (columns_of rows) ≡ rows
  unfolding decode
  rows_of-columns_of [] = refl
  rows_of-columns_of (r ∷ rows) = rows_of-cons r r.value rows (rows_of-columns_of rows)

  present-append : (xs ys : List (Option W)) → present (xs ++ ys) ≡ present xs ++ present ys
  present-append [] ys = refl
  present-append (none ∷ xs) ys = present-append xs ys
  present-append (some v ∷ xs) ys = ap (λ vs. v ∷ vs) (present-append xs ys)

  -- Buffering a reading encodes its row after the others.
  pub buffered-row_of :
      ⦃f : Float W⦄ (rows : List (Row W)) (micros : ℤ) (r : SampleReading W)
      → buffered (columns_of rows) micros r ≡ columns_of (rows ++ (row_of micros r ∷ []))
  unfolding buffered
  buffered-row_of ⦃f⦄ rows micros r =
      let x = row_of micros r in
      rw
        (
          map-append (λ (y : Row W). y.timestamp) rows (x ∷ []),
          map-append (λ (y : Row W). y.sensor) rows (x ∷ []),
          map-append (λ (y : Row W). y.reading) rows (x ∷ []),
          map-append (λ (y : Row W). y.type_) rows (x ∷ []),
          map-append (λ (y : Row W). y.value) rows (x ∷ []),
          map-append (λ (y : Row W). level_of y.value) rows (x ∷ []),
          map-append (λ (y : Row W). y.unit) rows (x ∷ []),
          present-append (map (λ (y : Row W). y.value) rows),
        )
        (elim (Bool-cases (f.is_finite r.value)) [
          | inl e ↦ rw e refl
          | inr e ↦ rw (e, append-nil (present (map (λ (y : Row W). y.value) rows))) refl
        ])
