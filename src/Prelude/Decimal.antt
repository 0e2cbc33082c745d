-- ===== src/Prelude/Decimal.antt =====
-- Decimal numbers: `{n}` of a formatter, and `str::parse` of an unsigned text of digits.
use Prim.Native.Nat.{ℕ, zero, suc, ◌+◌, ◌-◌, ◌*◌, ◌/◌, ◌%◌, ◌≤◌, ◌<◌}
use mathlib.Core.Path.{◌≡◌, refl}
use mathlib.Core.Bool.{true, false}
use mathlib.Core.List.{[], ◌∷◌, ◌++◌}
use mathlib.Core.Logic.{◌≢◌, inl, inr}
use native.Mathlib.Omega.{arith}
use sensorwatch.Prelude.Tests.{Bool-cases, ltb, if◌then◌else◌}
use sensorwatch.Prelude.Lists.{length, All, All-append, is_empty, all}
use sensorwatch.Prelude.Text.{Text, is_ascii_digit}

-- the value of a text of digits, read from the left
unfoldable pub digits_value : ℕ → Text → ℕ
digits_value acc [] = acc
digits_value acc (c ∷ cs) = digits_value (acc * 10 + (c - b'0')) cs

print_fuel : ℕ → ℕ → Text
print_fuel zero n = []
print_fuel (suc f) n =
    let front = print_fuel f (n / 10) in
    if ltb n 10 then (b'0' + n) ∷ [] else front ++ ((b'0' + n % 10) ∷ [])

unfoldable pub print : ℕ → Text
unfolding print_fuel
print n = print_fuel (suc n) n

digits_value-append :
    (acc : ℕ) (xs : Text) (c : ℕ)
    → digits_value acc (xs ++ (c ∷ [])) ≡ digits_value acc xs * 10 + (c - b'0')
unfolding digits_value
digits_value-append acc [] c = refl
digits_value-append acc (x ∷ xs) c = digits_value-append (acc * 10 + (x - b'0')) xs c

abbrev pub IsDigits : Text → Type 0
IsDigits s = All (λ c. is_ascii_digit c ≡ true) s

print_fuel_value : (f n : ℕ) → n < f → digits_value 0 (print_fuel f n) ≡ n
unfolding print_fuel digits_value
print_fuel_value zero n h = elim h [ ]
print_fuel_value (suc f) n h = elim (Bool-cases (ltb n 10)) [
  | inl e ↦ rw e (omega arith)
  | inr e ↦
      let big : 10 ≤ n = ground arith in
      rw
        (
          e,
          digits_value-append 0 (print_fuel f (n / 10)) (b'0' + n % 10),
          print_fuel_value f (n / 10) (omega arith),
        )
        (omega arith)
]

print_fuel-IsDigits : (f n : ℕ) → IsDigits (print_fuel f n)
unfolding print_fuel is_ascii_digit
print_fuel-IsDigits zero n = tt
print_fuel-IsDigits (suc f) n = elim (Bool-cases (ltb n 10)) [
  | inl e ↦ rw e (ground arith, tt)
  | inr e ↦ rw e (
      All-append (λ c. is_ascii_digit c ≡ true) (print_fuel f (n / 10)) ((b'0' + n % 10) ∷ [])
        (print_fuel-IsDigits f (n / 10)) (ground arith, tt))
]

snoc-ne-nil : (xs : Text) (c : ℕ) → xs ++ (c ∷ []) ≢ []
snoc-ne-nil [] c h = cc
snoc-ne-nil (x ∷ xs) c h = cc

-- Printing a number and reading the digits back gives the number.
pub digits_value-print : (n : ℕ) → digits_value 0 (print n) ≡ n
unfolding print
digits_value-print n = print_fuel_value (suc n) n (omega arith)

pub print-IsDigits : (n : ℕ) → IsDigits (print n)
unfolding print
print-IsDigits n = print_fuel-IsDigits (suc n) n

pub print-ne-nil : (n : ℕ) → print n ≢ []
unfolding print print_fuel
print-ne-nil n = elim (Bool-cases (ltb n 10)) [
  | inl e ↦ rw e (λ h. cc)
  | inr e ↦ rw e (snoc-ne-nil _ _)
]

pub is_empty_of_ne : (s : Text) → s ≢ [] → is_empty s ≡ false
is_empty_of_ne [] h = absurd (h refl)
is_empty_of_ne (c ∷ s) h = refl

pub all_digits : (s : Text) → IsDigits s → all is_ascii_digit s ≡ true
all_digits [] h = refl
all_digits (c ∷ s) (h, hs) = rw (h, all_digits s hs)

-- the powers of ten
unfoldable pub tens : ℕ → ℕ
tens zero = 1
tens (suc w) = 10 * tens w

length-snoc : (xs : Text) (c : ℕ) → length (xs ++ (c ∷ [])) ≡ length xs + 1
length-snoc [] c = refl
length-snoc (x ∷ xs) c = omega (arith, length-snoc xs c)

length-print_fuel : (f n w : ℕ) → n < tens (suc w) → length (print_fuel f n) ≤ suc w
unfolding print_fuel tens
length-print_fuel zero n w h = omega arith
length-print_fuel (suc f) n zero h =
    let e : ltb n 10 ≡ true = ground (arith, h) in rw e (omega arith)
length-print_fuel (suc f) n (suc w) h = elim (Bool-cases (ltb n 10)) [
  | inl e ↦ rw e (omega arith)
  | inr e ↦
      let ih = length-print_fuel f (n / 10) w (omega (arith, h)) in
      rw (e, length-snoc (print_fuel f (n / 10)) (b'0' + n % 10)) (omega (arith, ih))
]

-- A number below 10 ^ w is printed in at most w digits, for a positive w.
pub length-print : (n w : ℕ) → n < tens (suc w) → length (print n) ≤ suc w
unfolding print
length-print n w h = length-print_fuel (suc n) n w h
