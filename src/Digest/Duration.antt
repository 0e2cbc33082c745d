-- ===== src/Digest/Duration.antt =====
-- digest.rs: `parse_duration_secs`. An `i64` that cannot be negative is a number up to `i64_max`, and
-- a usage message is the constructor of its cause.
use sensorwatch.Prelude.{
  ℕ, ◌+◌, ◌*◌, Bool, true, false, not, Option, none, some, [], ◌∷◌, ◌++◌, leb, ◌==◌, if◌then◌else◌,
  all, is_empty,
}
use sensorwatch.Prelude.Text.{Text, is_ascii_digit, to_ascii_lowercase}
use sensorwatch.Prelude.Decimal.{digits_value}

abbrev pub i64_max : ℕ
i64_max = 9_223_372_036_854_775_807

pub data DurationError : Type 0 where
  empty too_large no_number number_too_large overflows trailing_digits invalid not_positive :
      DurationError
  unknown_unit : ℕ → DurationError

pub data Parsed {ℓ} (A : Type ℓ) : Type ℓ where
  ok : A → Parsed A
  err : DurationError → Parsed A

infixl 5 ◌>>=◌
abbrev pub ◌>>=◌ {ℓ κ} : {A : Type ℓ} {B : Type κ} → Parsed A → (A → Parsed B) → Parsed B
ok a >>= f = f a
err e >>= f = err e

-- `Option::ok_or`, after a checked operation on `i64`
abbrev pub within : ℕ → DurationError → Parsed ℕ
within n e = if leb n i64_max then ok n else err e

unfoldable pub unit_secs : ℕ → Option ℕ
unit_secs c =
    if c == b'd'
    then some 86_400
    else if c == b'h'
    then some 3_600
    else if c == b'm'
    then some 60
    else if c == b's'
    then some 1
    else none

abbrev pub known_unit : ℕ → Option ℕ → Parsed ℕ
known_unit c none = err (unknown_unit c)
known_unit c (some u) = ok u

unfoldable pub positive : ℕ → Parsed ℕ
positive secs = if leb secs 0 then err not_positive else ok secs

-- one unit letter: the total after its segment
unfoldable pub segment : ℕ → Text → ℕ → Parsed ℕ
unfolding unit_secs
segment total digits ch = do
  let lower = to_ascii_lowercase ch
  unit ← known_unit lower (unit_secs lower)
  count ←
      (if is_empty digits then err no_number else within (digits_value 0 digits) number_too_large)
  amount ← within (count * unit) overflows
  within (total + amount) overflows

-- the loop over the characters
unfoldable pub scan : ℕ → Text → Bool → Text → Parsed ℕ
unfolding segment positive
scan total digits saw_segment [] =
    if not (is_empty digits)
    then err trailing_digits
    else if not saw_segment
    then err invalid
    else positive total
scan total digits saw_segment (ch ∷ s) = elim (is_ascii_digit ch) [
  | true ↦ scan total (digits ++ (ch ∷ [])) saw_segment s
  | false ↦ (do total' ← segment total digits ch; scan total' [] true s)
]

unfoldable pub parse_duration_secs : Text → Parsed ℕ
unfolding scan
parse_duration_secs s =
    if is_empty s
    then err empty
    else if all is_ascii_digit s
    then (do secs ← within (digits_value 0 s) too_large; positive secs)
    else scan 0 [] false s
