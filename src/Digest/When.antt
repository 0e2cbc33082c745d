-- ===== src/Digest/When.antt =====
-- digest.rs: `parse_when` and `candidate_files`, and the resolution of a window that report.rs and
-- export.rs share. The parsers, the time zone and the arithmetic of jiff are a parameter; a civil date is
-- its number of days since the first one.
use sensorwatch.Prelude.{
  ℕ, zero, suc, ◌+◌, ◌-◌, Bool, true, false, ◌||◌, Option, none, some, List, [], ◌∷◌, leb, ◌==◌,
  if◌then◌else◌, any,
}
use sensorwatch.Prelude.Panic.{◌>>=◌}
use sensorwatch.Prelude.Int.{ltb_ℤ}
use sensorwatch.Prelude.Text.{Text}
use sensorwatch.Source.{Timestamp}
use sensorwatch.Logger.{Calendar, daily_file_path, log_prefix}
use sensorwatch.Digest.Duration.{Parsed, ok, err, parse_duration_secs}

-- Where a result is an `Option`, `none` is an error. `ceiling` is the last date.
pub record Zone (T : Type 0) : Type 0 where
  pub parse_timestamp : Text → Option Timestamp
  pub parse_date_time : Text → Option T
  pub date_time_to_zoned : T → Option Timestamp
  pub parse_date : Text → Option ℕ
  pub date_to_zoned : ℕ → Option Timestamp
  pub date_of : Timestamp → ℕ
  pub ceiling : ℕ
  pub sub_nanos : Timestamp → ℕ → Option Timestamp
  pub sub_secs : Timestamp → ℕ → Option Timestamp

pub data DayEdge : Type 0 where
  start end : DayEdge

abbrev pub or_else : {A : Type 0} → Option A → A → A
or_else none a = a
or_else (some b) a = b

module _ {T : Type 0} (zone : Zone T) where
  unfoldable pub tomorrow : ℕ → Option ℕ
  tomorrow d = if leb zone.ceiling d then none else some (d + 1)

  unfoldable pub yesterday : ℕ → Option ℕ
  yesterday d = if d == 0 then none else some (d - 1)

  abbrev pub edge_of_day : DayEdge → ℕ → Option Timestamp
  edge_of_day start date = zone.date_to_zoned date
  edge_of_day end date = do
    next ← tomorrow date
    midnight ← zone.date_to_zoned next
    zone.sub_nanos midnight 1

  abbrev pub local_time : Bool → Text → DayEdge → Option Timestamp
  local_time true s edge = zone.parse_date_time s >>= zone.date_time_to_zoned
  local_time false s edge = zone.parse_date s >>= edge_of_day edge

  unfoldable pub parse_when : Text → DayEdge → Option Timestamp
  unfolding tomorrow
  parse_when s edge = elim (zone.parse_timestamp s) [
    | some ts ↦ some ts
    | none ↦ local_time (any (λ b. b == b'T' || b == b't' || b == b' ') s) s edge
  ]

  abbrev pub before_until : Parsed ℕ → Timestamp → Option Timestamp
  before_until (err e) until = none
  before_until (ok secs) until = zone.sub_secs until secs

  abbrev pub until_of : Option Text → Timestamp → Option Timestamp
  until_of none now = some now
  until_of (some when) now = parse_when when end

  abbrev pub since_of : Option Text → Text → Timestamp → Option Timestamp
  since_of none last until = before_until (parse_duration_secs last) until
  since_of (some when) last until = parse_when when start

  -- `--until`, `--since` and `--last`; `none` is the usage error
  unfoldable pub resolve_window :
      Option Text → Option Text → Text → Timestamp → Option (Timestamp × Timestamp)
  unfolding parse_when parse_duration_secs
  resolve_window until_arg since_arg last now = do
    until ← until_of until_arg now
    since ← since_of since_arg last until
    if ltb_ℤ until since then none else some (since, until)

  module _ {Z : Type 0} (calendar : Calendar ℕ Z) (is_file : Text → Bool) where
    abbrev pub with_file : ℕ → List Text → List Text
    with_file date rest =
        let path = daily_file_path calendar log_prefix date in
        if is_file path then path ∷ rest else rest

    -- The loop, with fuel; `none` is too little of it. The end of the calendar ends it too.
    unfoldable pub files_from : ℕ → ℕ → ℕ → Option (List Text)
    unfolding daily_file_path tomorrow
    files_from zero date last = none
    files_from (suc fuel) date last =
        let rest : Option (List Text) = elim (tomorrow date) [
          | none ↦ some []
          | some next ↦ files_from fuel next last
        ] in
        if leb last date then some (with_file date []) else rest >>= λ fs. some (with_file date fs)

    unfoldable pub candidate_files : Timestamp → Timestamp → Option (List Text)
    unfolding files_from tomorrow yesterday
    candidate_files since until =
        let start = zone.date_of since in
        let end = zone.date_of until in
        let first = or_else (yesterday start) start in
        let last = or_else (tomorrow end) end in files_from (suc (last - first)) first last
