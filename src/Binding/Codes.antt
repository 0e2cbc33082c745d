-- ===== src/Binding/Codes.antt =====
-- rust/sensorwatch/src/lib.rs: the round trip of the error codes.
use sensorwatch.Prelude.{◌≡◌, ◌⊎◌, refl, inl, inr, arith, Option-cases, none, some}
use sensorwatch.Prelude.Int.{ℤ, pos, negsuc}
use sensorwatch.Binding.{Error, ok, err, from_code, code, check, sw_ok}

-- An error carries the code that it was made from.
code-from_code : (c : ℤ) (e : Error) → from_code c ≡ some e → code e ≡ c
unfolding from_code code
code-from_code (pos n) e h = ground arith
code-from_code (negsuc n) e h = ground arith

from_code-none : (c : ℤ) → from_code c ≡ none → c ≡ sw_ok
unfolding from_code
from_code-none (pos n) h = ground arith
from_code-none (negsuc n) h = ground arith

-- Success is the code 0 alone, and every other code becomes an error that carries it back.
pub check-code :
    (c : ℤ) → ((check c ≡ ok tt) × (c ≡ sw_ok)) ⊎ ((e : Error) × (check c ≡ err e) × (code e ≡ c))
unfolding check
check-code c = elim (Option-cases (from_code c)) [
  | inl n ↦ inl (rw (check, n) refl, from_code-none c n)
  | inr (e, h) ↦ inr (e, rw (check, h) refl, code-from_code c e h)
]
