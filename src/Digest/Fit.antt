-- ===== src/Digest/Fit.antt =====
-- digest.rs: `Assembled`, `render_at` and `fit`, which drop detail until the digest is short enough.
use sensorwatch.Prelude.{
  ℕ, zero, suc, ◌+◌, ◌-◌, ◌/◌, min, Bool, Option, List, [], ◌∷◌, leb, ltb, ◌==◌, if◌then◌else◌,
  length, take, drop,
}
use sensorwatch.Prelude.Text.{Text}
use sensorwatch.Event.{Event}
use sensorwatch.Digest.Gaps.{Gap, seconds_at}
use sensorwatch.Digest.Rows.{ReadingRow}

pub record Facts : Type 0 where
  pub since : Text
  pub until : Text
  pub log_dir : Text
  pub files_scanned : ℕ
  pub interval_seconds : ℕ
  pub samples : ℕ
  pub skipped_lines : ℕ
  pub first_sample : Option Text
  pub last_sample : Option Text
  pub series_total : ℕ
  pub rules_evaluated : ℕ
  pub readings_total : ℕ
  pub gaps_total : ℕ
  pub violations_total : ℕ

-- `Assembled`: the fixed facts, and what the fitter can drop from
pub record Assembled (W : Type 0) : Type 0 where
  pub facts : Facts
  pub rows : List (ReadingRow W)
  pub gaps : List Gap
  pub violations : List (Event W)

pub record Meta : Type 0 where
  pub facts : Facts
  pub readings_shown : ℕ
  pub violations_shown : ℕ
  pub gaps_shown : ℕ

pub record Digest (W : Type 0) : Type 0 where
  pub schema_version : ℕ
  pub head : Meta
  pub violations : List (Event W)
  pub gaps : List Gap
  pub readings : List (ReadingRow W)

-- `Assembled::meta_with`
unfoldable pub meta_with : {W : Type 0} → Assembled W → ℕ → ℕ → ℕ → Meta
meta_with a readings_shown violations_shown gaps_shown = record {
  facts = a.facts;
  readings_shown = readings_shown;
  violations_shown = violations_shown;
  gaps_shown = gaps_shown;
}

-- the indices from `i`, `n` of them
abbrev pub indices : ℕ → ℕ → List ℕ
indices i zero = []
indices i (suc n) = i ∷ indices (i + 1) n

-- `order.sort_by_key(|&i| (gaps[i].seconds, i))`, by insertion
unfoldable pub comes_later : List Gap → ℕ → ℕ → Bool
comes_later gaps i j =
    if seconds_at gaps i == seconds_at gaps j
    then ltb j i
    else ltb (seconds_at gaps j) (seconds_at gaps i)

unfoldable pub insert_index : List Gap → ℕ → List ℕ → List ℕ
unfolding comes_later
insert_index gaps i [] = i ∷ []
insert_index gaps i (j ∷ js) =
    let rest = insert_index gaps i js in if comes_later gaps i j then j ∷ rest else i ∷ j ∷ js

unfoldable pub drop_order : List Gap → List ℕ → List ℕ
unfolding insert_index
drop_order gaps [] = []
drop_order gaps (i ∷ is) = insert_index gaps i (drop_order gaps is)

-- `gap_drop_rank[i]`: the position of `i` in the order
unfoldable pub position : ℕ → List ℕ → ℕ
position i [] = 0
position i (j ∷ js) = let rest = position i js in if i == j then 0 else suc rest

-- the gaps from index `i` on whose rank is at or beyond the drop count
unfoldable pub surviving : (ℕ → ℕ) → ℕ → ℕ → List Gap → List Gap
surviving rank d i [] = []
surviving rank d i (g ∷ gs) =
    let rest = surviving rank d (i + 1) gs in if leb d (rank i) then g ∷ rest else rest

module _ {W : Type 0} (to_json : Digest W → ℕ → Text) where
  -- `Assembled::render_at`; `to_json` is the serializer of `render.rs`, on bytes
  unfoldable pub render_at : Assembled W → (ℕ → ℕ) → ℕ → ℕ → Text
  unfolding surviving meta_with
  render_at a gap_drop_rank k indent =
      let d_rows = min k (length a.rows) in
      let rem = k - d_rows in
      let d_gaps = min rem (length a.gaps) in
      let d_violations = min (rem - d_gaps) (length a.violations) in
      let rows = take (length a.rows - d_rows) a.rows in
      let violations = drop d_violations a.violations in
      let gaps = surviving gap_drop_rank d_gaps 0 a.gaps in
      to_json
        (record {
          schema_version = 1;
          head = meta_with a (length rows) (length violations) (length gaps);
          violations = violations;
          gaps = gaps;
          readings = rows;
        })
        indent

-- the loop of the binary search; `hi - lo` steps of fuel are enough
unfoldable pub narrow : (ℕ → Text) → ℕ → ℕ → ℕ → ℕ → Text → Text
narrow render max_bytes zero lo hi best = best
narrow render max_bytes (suc fuel) lo hi best =
    let mid = lo + (hi - lo) / 2 in
    let candidate = render mid in
    let left = narrow render max_bytes fuel lo mid candidate in
    let right = narrow render max_bytes fuel (mid + 1) hi best in
    if ltb lo hi then (if leb (length candidate) max_bytes then left else right) else best

-- the digest, or the size of the smallest one, which does not fit
pub data Fitted : Type 0 where
  fitting : Text → Fitted
  overflowing : ℕ → Fitted

-- `Assembled::fit` after its set-up, on the rendering of each drop count
unfoldable pub fit_renders : (ℕ → Text) → ℕ → ℕ → Fitted
unfolding narrow
fit_renders render max_drops max_bytes =
    let full = render 0 in
    let minimal = if max_drops == 0 then full else render max_drops in
    if leb (length full) max_bytes
    then fitting full
    else if ltb max_bytes (length minimal)
    then overflowing (length minimal)
    else fitting (narrow render max_bytes max_drops 1 max_drops minimal)

-- `Assembled::fit`
unfoldable pub fit : {W : Type 0} → (Digest W → ℕ → Text) → Assembled W → ℕ → ℕ → Fitted
unfolding drop_order position render_at fit_renders
fit to_json a max_bytes indent =
    let order = drop_order a.gaps (indices 0 (length a.gaps)) in
    let max_drops = length a.rows + length a.gaps + length a.violations in
    fit_renders (λ k. render_at to_json a (λ i. position i order) k indent) max_drops max_bytes
