-- ===== src/Examples/OfWhen.antt =====
-- The files of a window, with days counted by numbers and a day of ten instants.
use sensorwatch.Prelude.{ℕ, ◌↔◌, ◌/◌, ◌-◌, ◌≡◌, true, none, some, arith, ◌*◌, false, refl}
use sensorwatch.Prelude.Int.{pos, pos_part}
use sensorwatch.Prelude.Text.{text, is_ascii_digit, to_ascii_lowercase}
use sensorwatch.Prelude.Decimal.{digits_value}
use sensorwatch.Prelude.Int.{ltb_ℤ}
use sensorwatch.Digest.When.{Zone, candidate_files, resolve_window, parse_when, tomorrow}
use sensorwatch.Digest.Duration.{parse_duration_secs}
use sensorwatch.Digest.Resolved.{EndsAt, StartsAt, resolve_window_iff}
use sensorwatch.Digest.Candidates.{days_from, existing, candidate_files-existing}
use sensorwatch.Examples.OfLogger.{days}

abbrev pub zone : Zone ℕ
zone = record {
  parse_timestamp = λ s. none;
  parse_date_time = λ s. none;
  date_time_to_zoned = λ t. none;
  parse_date = λ s. some 3;
  date_to_zoned = λ d. some (pos (d * 10));
  date_of = λ t. pos_part t / 10;
  ceiling = 1_000;
  sub_nanos = λ t n. some (pos (pos_part t - n));
  sub_secs = λ t n. some (pos (pos_part t - n));
}

candidate_files-existing_example :
    candidate_files zone days (λ p. true) (pos 35) (pos 52)
    ≡ some (existing days (λ p. true) (days_from 2 4))
candidate_files-existing_example =
    candidate_files-existing zone days (λ p. true) (pos 35) (pos 52) (omega arith) (omega arith)

-- the last nine instants up to the end of a day
resolve_window_iff_example :
    (resolve_window zone (some (text "2026-01-04")) none (text "9s") (pos 52)
      ≡ some (pos 30, pos 39))
    ↔ (EndsAt zone (some (text "2026-01-04")) (pos 52) (pos 39)
        × StartsAt zone none (text "9s") (pos 39) (pos 30)
        × (ltb_ℤ (pos 39) (pos 30) ≡ false))
resolve_window_iff_example =
    resolve_window_iff zone (some (text "2026-01-04")) none (text "9s") (pos 52) (pos 30) (pos 39)

resolve_window_run :
    resolve_window zone (some (text "2026-01-04")) none (text "9s") (pos 52) ≡ some (pos 30, pos 39)
unfolding resolve_window parse_when parse_duration_secs tomorrow is_ascii_digit to_ascii_lowercase
    digits_value
resolve_window_run = refl
