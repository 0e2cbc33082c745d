-- ===== src/Digest/Candidates.antt =====
-- digest.rs: which files a window selects.
use sensorwatch.Prelude.{
  ℕ, zero, suc, ◌+◌, ◌-◌, ◌≤◌, ◌<◌, ◌≡◌, ◌∙◌, ap₂, refl, Bool, true, false, some, List, [], ◌∷◌,
  leb, ◌==◌, Bool-cases, inl, inr, arith, keep, map, min,
}
use sensorwatch.Prelude.Text.{Text}
use sensorwatch.Source.{Timestamp}
use sensorwatch.Logger.{Calendar, daily_file_path, log_prefix}
use sensorwatch.Digest.When.{Zone, or_else, tomorrow, yesterday, files_from, candidate_files}

-- the days from a date on, that date and as many more as given
abbrev pub days_from : ℕ → ℕ → List ℕ
days_from date zero = date ∷ []
days_from date (suc n) = date ∷ days_from (date + 1) n

-- the daily files of some days that exist
abbrev pub existing : {Z : Type 0} → Calendar ℕ Z → (Text → Bool) → List ℕ → List Text
existing calendar is_file days = keep is_file (map (daily_file_path calendar log_prefix) days)

-- the daily files that a window selects
abbrev pub selected :
    {T Z : Type 0} → Zone T → Calendar ℕ Z → (Text → Bool) → Timestamp → Timestamp → List Text
selected zone calendar is_file since until =
    let first = zone.date_of since - 1 in
    let last = min (zone.date_of until + 1) zone.ceiling in
    existing calendar is_file (days_from first (last - first))

module _ {T Z : Type 0} (zone : Zone T) (calendar : Calendar ℕ Z) (is_file : Text → Bool) where
  or_else-yesterday : (d : ℕ) → or_else (yesterday zone d) d ≡ d - 1
  unfolding yesterday
  or_else-yesterday d = elim (Bool-cases (d == 0)) [
    | inl e ↦ rw e (ground arith)
    | inr e ↦ rw e refl
  ]

  or_else-tomorrow :
      (d : ℕ) → d ≤ zone.ceiling → or_else (tomorrow zone d) d ≡ min (d + 1) zone.ceiling
  unfolding tomorrow
  or_else-tomorrow d h = elim (Bool-cases (leb zone.ceiling d)) [
    | inl e ↦ rw e (ground arith)
    | inr e ↦ rw e (ground arith)
  ]

  files_from-existing :
      (n fuel date last : ℕ)
      → last ≡ date + n
      → n < fuel
      → last ≤ zone.ceiling
      → files_from zone calendar is_file fuel date last
        ≡ some (existing calendar is_file (days_from date n))
  unfolding files_from
  files_from-existing n zero date last e l c = elim l [ ]
  files_from-existing zero (suc fuel) date last e l c =
      let done : leb last date ≡ true = ground arith in rw (files_from, done) refl
  files_from-existing (suc n) (suc fuel) date last e l c =
      let going : leb last date ≡ false = ground arith in
      let inside : leb zone.ceiling date ≡ false = ground arith in
      let ih = files_from-existing n fuel (date + 1) last (omega (arith, e)) (omega (arith, l)) c in
      rw (files_from, going, tomorrow, inside, ih) refl

  -- A window selects, in ascending order, exactly the daily files that exist of the days from the day
  -- before the one it starts on to the day after the one it ends on, as far as the calendar goes.
  pub candidate_files-existing :
      (since until : Timestamp)
      → zone.date_of since ≤ zone.date_of until
      → zone.date_of until ≤ zone.ceiling
      → let first = zone.date_of since - 1 in
        let last = min (zone.date_of until + 1) zone.ceiling in
        candidate_files zone calendar is_file since until
        ≡ some (existing calendar is_file (days_from first (last - first)))
  unfolding candidate_files
  candidate_files-existing since until ordered inside =
      let s = zone.date_of since in
      let u = zone.date_of until in
      let last = min (u + 1) zone.ceiling in
      ap₂ (λ a b. files_from zone calendar is_file (suc (b - a)) a b) (or_else-yesterday s)
        (or_else-tomorrow u inside)
      ∙ files_from-existing (last - (s - 1)) (suc (last - (s - 1))) (s - 1) last
          (omega (arith, ordered, inside)) (omega arith) (omega arith)
