-- ===== src/Digest/RoundTrip.antt =====
-- What `parse_duration_secs` accepts and returns.
use sensorwatch.Prelude.{
  ℕ, ◌+◌, ◌*◌, ◌≤◌, ◌<◌, ◌≡◌, refl, ap, ◌∙◌, ◌≢◌, Bool, true, false, List, [], ◌∷◌, ◌++◌, arith,
  all, is_empty, Bool-cases, inl, inr,
}
use mathlib.Core.List.{append-nil, append_assoc}
use sensorwatch.Prelude.Text.{Text, is_ascii_digit, to_ascii_lowercase}
use sensorwatch.Prelude.Decimal.{
  digits_value, print, IsDigits, digits_value-print, print-IsDigits, print-ne-nil, is_empty_of_ne,
  all_digits,
}
use sensorwatch.Digest.Duration.{
  i64_max, Parsed, ok, err, ◌>>=◌, positive, segment, scan, parse_duration_secs,
}

>>=-eq-ok {ℓ κ} :
    {A : Type ℓ} {B : Type κ} (m : Parsed A) (k : A → Parsed B) {b : B}
    → (m >>= k) ≡ ok b
    → (a : A) × (m ≡ ok a) × (k a ≡ ok b)
>>=-eq-ok (ok a) k h = (a, refl, h)
>>=-eq-ok (err e) k h = cc

scan-digit :
    (total : ℕ) (digits : Text) (saw : Bool) (ch : ℕ) (s : Text)
    → is_ascii_digit ch ≡ true
    → scan total digits saw (ch ∷ s) ≡ scan total (digits ++ (ch ∷ [])) saw s
unfolding scan
scan-digit total digits saw ch s e = rw (e, scan)

scan-unit :
    (total : ℕ) (digits : Text) (saw : Bool) (ch : ℕ) (s : Text)
    → is_ascii_digit ch ≡ false
    → scan total digits saw (ch ∷ s) ≡ (segment total digits ch >>= λ t. scan t [] true s)
unfolding scan
scan-unit total digits saw ch s e = rw (e, scan)

segment-le :
    (total : ℕ) (digits : Text) (ch : ℕ) {n : ℕ} → segment total digits ch ≡ ok n → n ≤ i64_max
unfolding segment
segment-le total digits ch h = ground arith

scan_range :
    (total : ℕ) (digits : Text) (saw : Bool) (s : Text) {n : ℕ}
    → total ≤ i64_max
    → scan total digits saw s ≡ ok n
    → (1 ≤ n) × (n ≤ i64_max)
scan_range total digits saw [] t h = unfold scan in ground arith
scan_range total digits saw (ch ∷ s) {n} t h = elim (Bool-cases (is_ascii_digit ch)) [
  | inl e ↦
      scan_range total (digits ++ (ch ∷ [])) saw s t (rw (scan-digit total digits saw ch s e) at h)
  | inr e ↦
      let (total', e1, e2) =
        >>=-eq-ok (segment total digits ch) _ (rw (scan-unit total digits saw ch s e) at h) in
      scan_range total' [] true s (segment-le total digits ch e1) e2
]

-- A parsed duration is a positive `i64` number of seconds.
pub parse_range : (s : Text) {n : ℕ} → parse_duration_secs s ≡ ok n → (1 ≤ n) × (n ≤ i64_max)
unfolding parse_duration_secs positive
parse_range s {n} h = ground (arith, scan_range 0 [] false s {n = n})

-- a written duration: counts with their unit letters
pub data TimeUnit : Type 0 where
  days hours minutes seconds : TimeUnit

abbrev pub letter : TimeUnit → ℕ
letter days = b'd'
letter hours = b'h'
letter minutes = b'm'
letter seconds = b's'

abbrev pub secs_of : TimeUnit → ℕ
secs_of days = 86_400
secs_of hours = 3_600
secs_of minutes = 60
secs_of seconds = 1

abbrev pub total_secs : List (ℕ × TimeUnit) → ℕ
total_secs [] = 0
total_secs ((n, u) ∷ rest) = n * secs_of u + total_secs rest

unfoldable pub written : List (ℕ × TimeUnit) → Text
written [] = []
written ((n, u) ∷ rest) = print n ++ (letter u ∷ written rest)

scan-digits :
    (total : ℕ) (digits ds : Text) (saw : Bool) (s : Text)
    → IsDigits ds
    → scan total digits saw (ds ++ s) ≡ scan total (digits ++ ds) saw s
scan-digits total digits [] saw s h = rw append-nil
scan-digits total digits (d ∷ ds) saw s (h, hs) = rw (
  scan-digit total digits saw d (ds ++ s) h,
  scan-digits total (digits ++ (d ∷ [])) ds saw s hs,
  append_assoc,
)

letter_unit : (u : TimeUnit) → is_ascii_digit (letter u) ≡ false
unfolding is_ascii_digit
letter_unit u = ground arith

segment_step :
    (total n : ℕ) (ds : Text) (u : TimeUnit)
    → ds ≢ []
    → digits_value 0 ds ≡ n
    → total + n * secs_of u ≤ i64_max
    → segment total ds (letter u) ≡ ok (total + n * secs_of u)
unfolding segment to_ascii_lowercase
segment_step total n [] u ne v h = absurd (ne refl)
segment_step total n (d ∷ ds) days ne v h = rw v (ground arith)
segment_step total n (d ∷ ds) hours ne v h = rw v (ground arith)
segment_step total n (d ∷ ds) minutes ne v h = rw v (ground arith)
segment_step total n (d ∷ ds) seconds ne v h = rw v (ground arith)

scan-segment :
    (total : ℕ) (saw : Bool) (n : ℕ) (u : TimeUnit) (s : Text)
    → total + n * secs_of u ≤ i64_max
    → scan total [] saw (print n ++ (letter u ∷ s)) ≡ scan (total + n * secs_of u) [] true s
scan-segment total saw n u s h = rw (
  scan-digits total [] (print n) saw (letter u ∷ s) (print-IsDigits n),
  scan-unit total (print n) saw (letter u) s (letter_unit u),
  segment_step total n (print n) u (print-ne-nil n) (digits_value-print n) h,
)

scan-end : (total : ℕ) → 0 < total → scan total [] true [] ≡ ok total
unfolding scan
scan-end total l = ground arith

scan-written :
    (total : ℕ) (saw : Bool) (n : ℕ) (u : TimeUnit) (rest : List (ℕ × TimeUnit))
    → 0 < total + total_secs ((n, u) ∷ rest)
    → total + total_secs ((n, u) ∷ rest) ≤ i64_max
    → scan total [] saw (written ((n, u) ∷ rest)) ≡ ok (total + total_secs ((n, u) ∷ rest))
unfolding written
scan-written total saw n u [] l h =
    scan-segment total saw n u [] (omega arith)
    ∙ scan-end (total + n * secs_of u) (omega arith)
    ∙ ap ok (omega arith)
scan-written total saw n u ((m, v) ∷ rest) l h =
    scan-segment total saw n u (written ((m, v) ∷ rest)) (omega arith)
    ∙ scan-written (total + n * secs_of u) true m v rest (omega arith) (omega arith)
    ∙ ap ok (omega arith)

not_empty : (ds : Text) (ch : ℕ) (s : Text) → is_empty (ds ++ (ch ∷ s)) ≡ false
not_empty [] ch s = refl
not_empty (d ∷ ds) ch s = refl

mixed :
    (ds : Text) (ch : ℕ) (s : Text)
    → is_ascii_digit ch ≡ false
    → all is_ascii_digit (ds ++ (ch ∷ s)) ≡ false
mixed [] ch s e = rw e
mixed (d ∷ ds) ch s e = ground (arith, mixed ds ch s e)

-- A duration written as counts with units, such as `1d12h`, is read as its sum in seconds, if that is
-- positive and an `i64`.
pub parse-written :
    (n : ℕ) (u : TimeUnit) (rest : List (ℕ × TimeUnit))
    → 0 < total_secs ((n, u) ∷ rest)
    → total_secs ((n, u) ∷ rest) ≤ i64_max
    → parse_duration_secs (written ((n, u) ∷ rest)) ≡ ok (total_secs ((n, u) ∷ rest))
unfolding parse_duration_secs written
parse-written n u rest l h =
    rw
      (
        not_empty (print n) (letter u) (written rest),
        mixed (print n) (letter u) (written rest) (letter_unit u),
      )
      (scan-written 0 false n u rest (omega arith) (omega arith) ∙ ap ok (omega arith))

-- A bare number is read as that many seconds, if it is positive and an `i64`.
pub parse-print : (n : ℕ) → 0 < n → n ≤ i64_max → parse_duration_secs (print n) ≡ ok n
unfolding parse_duration_secs positive
parse-print n l h =
    rw
      (
        is_empty_of_ne (print n) (print-ne-nil n),
        all_digits (print n) (print-IsDigits n),
        digits_value-print n,
      )
      (ground arith)
