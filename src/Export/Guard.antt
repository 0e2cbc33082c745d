-- ===== src/Export/Guard.antt =====
-- rust/sensorwatch-cli/src/export.rs: what is truncated is no input.
use sensorwatch.Prelude.{
  ◌≡◌, ◌⊎◌, refl, Bool, true, false, Option, none, some, List, [], ◌∷◌, Bool-cases, Option-cases,
  inl, inr, All,
}
use sensorwatch.Prelude.Text.{Text}
use sensorwatch.Export.{
  Identities, Judged, distinct, alias, unverified, Opened, created, already_exists, failed,
  truncated, check_inputs, aliases_selected_input, same_path, after_guard, prepare_output,
}

module _ {I : Type 0} (fs : Identities I) where
  -- The input is known to be another file than the one that was opened: its identity is known and not
  -- that of the handle, and it is not at the same canonical path.
  abbrev pub IsDistinct : I → Text → Text → Type 0
  IsDistinct out out_path input =
      ((i : I) × (fs.identity input ≡ some i) × (fs.same_identity out i ≡ false))
      × (same_path fs (fs.canonicalize out_path) (fs.canonicalize input) ≡ false)

  check_inputs-distinct :
      (out_path : Text) (out : I) (inputs : List Text)
      → check_inputs fs (fs.canonicalize out_path) out inputs ≡ distinct
      → All (IsDistinct out out_path) inputs
  unfolding check_inputs
  check_inputs-distinct out_path out [] h = tt
  check_inputs-distinct out_path out (input ∷ inputs) h =
      elim (Bool-cases (same_path fs (fs.canonicalize out_path) (fs.canonicalize input))) [
        | inl p ↦ let x = rw (check_inputs, p) at h in cc
        | inr p ↦ elim (Option-cases (fs.identity input)) [
          | inl q ↦ let x = rw (check_inputs, p, q) at h in cc
          | inr (i, q) ↦ elim (Bool-cases (fs.same_identity out i)) [
            | inl s ↦ let x = rw (check_inputs, p, q, s) at h in cc
            | inr s ↦
                let x = rw (check_inputs, p, q, s) at h in
                (((i, q, s), p), check_inputs-distinct out_path out inputs x)
          ]
        ]
      ]

  aliases_selected_input-distinct :
      (out : Option I) (out_path : Text) (inputs : List Text)
      → aliases_selected_input fs out out_path inputs ≡ distinct
      → (i : I) × (out ≡ some i) × All (IsDistinct i out_path) inputs
  unfolding aliases_selected_input
  aliases_selected_input-distinct none out_path inputs h = cc
  aliases_selected_input-distinct (some i) out_path inputs h =
      (i, refl, check_inputs-distinct out_path i inputs h)

  after_guard-truncated :
      (j : Judged) (truncates : Bool) → after_guard fs j truncates ≡ truncated → j ≡ distinct
  after_guard-truncated distinct truncates h = refl
  after_guard-truncated alias truncates h = cc
  after_guard-truncated unverified truncates h = cc

  -- An output is truncated only if it was created by the run, or if its identity and that of every selected
  -- input are known and differ, and no input is at its canonical path.
  pub prepare_output-truncated :
      (o : Opened) (reopens : Bool) (out : Option I) (truncates : Bool) (out_path : Text)
      (inputs : List Text)
      → prepare_output fs o reopens out truncates out_path inputs ≡ truncated
      → (o ≡ created) ⊎ ((i : I) × (out ≡ some i) × All (IsDistinct i out_path) inputs)
  unfolding prepare_output
  prepare_output-truncated created reopens out truncates out_path inputs h = inl refl
  prepare_output-truncated already_exists true out truncates out_path inputs h = inr (
      aliases_selected_input-distinct out out_path inputs
        (after_guard-truncated (aliases_selected_input fs out out_path inputs) truncates h))
  prepare_output-truncated already_exists false out truncates out_path inputs h = cc
  prepare_output-truncated failed reopens out truncates out_path inputs h = cc
