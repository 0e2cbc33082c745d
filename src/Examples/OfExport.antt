-- ===== src/Examples/OfExport.antt =====
-- export.rs at concrete inputs.
use sensorwatch.Prelude.{ℕ, ◌≡◌, ◌⊎◌, refl, true, some, List, [], ◌∷◌, All, ◌==◌, if◌then◌else◌}
use sensorwatch.Prelude.Int.{pos}
use sensorwatch.Prelude.Order.{list_ord, nat_ord, same}
use sensorwatch.Prelude.Text.{text}
use sensorwatch.Float.{Level, level_float}
use sensorwatch.Export.{
  Columns, Identities, created, already_exists, export_rows, rows_per_row_group, prepare_output,
  aliases_selected_input, check_inputs,
}
use sensorwatch.Export.Flushes.{Written}
use sensorwatch.Export.Rows.{rows_of_window}
use sensorwatch.Export.Completes.{export_rows-completes}
use sensorwatch.Export.Guard.{IsDistinct, prepare_output-truncated}
use sensorwatch.Examples.Data.{ticks}

export_rows-completes_example :
    (out : ℕ × List (Columns Level)) × (export_rows (λ t. t) (pos 2) (pos 4) [] ticks ≡ some out)
    × Written rows_per_row_group out (rows_of_window (λ t. t) (pos 2) (pos 4) ticks)
export_rows-completes_example = export_rows-completes (λ t. t) (pos 2) (pos 4) ticks

-- two files, and an output that stands at neither path
abbrev pub fs : Identities ℕ
fs = record {
  canonicalize = some;
  identity = λ p. some (if same p (text "b") then 2 else 1);
  same_identity = λ a b. a == b;
}

prepare_output-truncated_example :
    (already_exists ≡ created)
    ⊎ ((i : ℕ) × (some 5 ≡ some i) × All (IsDistinct fs i (text "o")) (text "a" ∷ text "b" ∷ []))
unfolding prepare_output aliases_selected_input check_inputs
prepare_output-truncated_example =
    prepare_output-truncated fs already_exists true (some 5) true (text "o")
      (text "a" ∷ text "b" ∷ []) refl
