-- ===== src/Digest/Gaps.antt =====
-- digest.rs: `push_gap`, which keeps the largest gaps in chronological order.
use sensorwatch.Prelude.{ℕ, zero, suc, ◌+◌, List, [], ◌∷◌, ◌++◌, ltb, if◌then◌else◌, length}
use sensorwatch.Prelude.Text.{Text}

-- `seconds` is positive whenever a gap is made, so it is a number here.
pub record Gap : Type 0 where
  pub from : Text
  pub to : Text
  pub seconds : ℕ

-- `MAX_GAPS`
abbrev pub max_gaps : ℕ
max_gaps = 1024

-- `gaps[i].seconds` for an index in range
unfoldable pub seconds_at : List Gap → ℕ → ℕ
seconds_at [] i = 0
seconds_at (g ∷ gs) zero = g.seconds
seconds_at (g ∷ gs) (suc i) = seconds_at gs i

-- the loop for the first index of the smallest gap: `i` is the index of the next element of `rest`
unfoldable pub min_index : List Gap → ℕ → ℕ → List Gap → ℕ
unfolding seconds_at
min_index gaps best i [] = best
min_index gaps best i (g ∷ rest) =
    min_index gaps (if ltb g.seconds (seconds_at gaps best) then i else best) (i + 1) rest

-- `Vec::remove`
unfoldable pub remove : ℕ → List Gap → List Gap
remove i [] = []
remove zero (g ∷ gs) = gs
remove (suc i) (g ∷ gs) = g ∷ remove i gs

-- the retained gaps after one more; the cap is a parameter, for the code `max_gaps`
unfoldable pub push_retained : ℕ → List Gap → Gap → List Gap
unfolding min_index remove
push_retained cap gaps gap =
    if ltb (length gaps) cap
    then gaps ++ (gap ∷ [])
    else let smallest = min_index gaps 0 0 gaps in
      if ltb (seconds_at gaps smallest) gap.seconds
      then remove smallest gaps ++ (gap ∷ [])
      else gaps
