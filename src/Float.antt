-- ===== src/Float.antt =====
-- What the program does with an `f64`. The numbers are abstract: the operations are a record, an
-- instance argument of the model, and the laws of IEEE 754 that a theorem uses are a second record.
use sensorwatch.Prelude.{
  ℕ, ◌+◌, ◌-◌, ◌/◌, ◌≡◌, refl, ◌⊎◌, Bool, true, false, not, arith, ltb, leb, if◌then◌else◌,
}

pub record Float (W : Type 0) : Type 0 where
  pub lt : W → W → Bool
  pub le : W → W → Bool
  pub gt : W → W → Bool
  pub ge : W → W → Bool
  pub is_nan : W → Bool
  pub is_finite : W → Bool
  pub nan : W
  pub infinity : W
  pub neg_infinity : W
  pub nought : W
  pub one : W
  pub add : W → W → W
  pub sub : W → W → W
  pub div : W → W → W
  pub abs : W → W
  pub maximum : W → W → W
  pub of_ℕ : ℕ → W
  pub to_bits : W → ℕ

-- Comparisons with NaN are false, and the other values are in a total order between the infinities.
pub record IsFloat (W : Type 0) ⦃f : Float W⦄ : Type 0 where
  pub gt-eq-lt : (x y : W) → f.gt x y ≡ f.lt y x
  pub ge-eq-le : (x y : W) → f.ge x y ≡ f.le y x
  pub lt_nan : (x y : W) → (f.is_nan x ≡ true) ⊎ (f.is_nan y ≡ true) → f.lt x y ≡ false
  pub le_nan : (x y : W) → (f.is_nan x ≡ true) ⊎ (f.is_nan y ≡ true) → f.le x y ≡ false
  pub le-eq-not-lt : (x y : W) → f.is_nan x ≡ false → f.is_nan y ≡ false → f.le x y ≡ not (f.lt y x)
  pub le_trans : (x y z : W) → f.le x y ≡ true → f.le y z ≡ true → f.le x z ≡ true
  pub lt_le : (x y : W) → f.lt x y ≡ true → f.le x y ≡ true
  pub nan_nan : f.is_nan f.nan ≡ true
  pub finite_nan : (x : W) → f.is_finite x ≡ true → f.is_nan x ≡ false
  pub finite-lt-infinity : (x : W) → f.is_finite x ≡ true → f.lt x f.infinity ≡ true
  pub neg_infinity-lt-finite : (x : W) → f.is_finite x ≡ true → f.lt f.neg_infinity x ≡ true

-- The laws can be met: whole non-negative readings with NaN and the infinities. A difference below
-- zero is -∞ here.
pub data Level : Type 0 where
  not_a_number low high : Level
  level : ℕ → Level

abbrev pub rank_lt : Level → Level → Bool
rank_lt low high = true
rank_lt low (level n) = true
rank_lt (level n) high = true
rank_lt (level n) (level m) = ltb n m
rank_lt _ _ = false

abbrev pub rank_le : Level → Level → Bool
rank_le low low = true
rank_le low high = true
rank_le low (level n) = true
rank_le high high = true
rank_le (level n) high = true
rank_le (level n) (level m) = leb n m
rank_le _ _ = false

abbrev pub is_level : Level → Bool
is_level (level n) = true
is_level _ = false

abbrev pub is_nan_level : Level → Bool
is_nan_level not_a_number = true
is_nan_level _ = false

abbrev pub minus : Level → Level → Level
minus (level n) (level m) = if leb m n then level (n - m) else low
minus _ _ = not_a_number

abbrev pub plus : Level → Level → Level
plus (level n) (level m) = level (n + m)
plus _ _ = not_a_number

abbrev pub over : Level → Level → Level
over (level n) (level m) = level (n / m)
over _ _ = not_a_number

abbrev pub larger : Level → Level → Level
larger a b = if rank_lt a b then b else a

abbrev pub bits : Level → ℕ
bits not_a_number = 0
bits low = 1
bits high = 2
bits (level n) = 3 + n

instance abbrev pub level_float : Float Level
level_float = record {
  lt = rank_lt;
  le = rank_le;
  gt = λ a b. rank_lt b a;
  ge = λ a b. rank_le b a;
  is_nan = is_nan_level;
  is_finite = is_level;
  nan = not_a_number;
  infinity = high;
  neg_infinity = low;
  nought = level 0;
  one = level 1;
  add = plus;
  sub = minus;
  div = over;
  abs = λ a. a;
  maximum = larger;
  of_ℕ = level;
  to_bits = bits;
}

pub Level-IsFloat : IsFloat Level
Level-IsFloat = record {
  gt-eq-lt = λ x y. refl;
  ge-eq-le = λ x y. refl;
  lt_nan = λ x y h. ground arith;
  le_nan = λ x y h. ground arith;
  le-eq-not-lt = λ x y h k. ground arith;
  le_trans = λ x y z h k. ground arith;
  lt_le = λ x y h. ground arith;
  nan_nan = refl;
  finite_nan = λ x h. ground arith;
  finite-lt-infinity = λ x h. ground arith;
  neg_infinity-lt-finite = λ x h. ground arith;
}
