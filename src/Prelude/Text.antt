-- ===== src/Prelude/Text.antt =====
-- `String` and `&str` as the list of their code points, with what the program uses of the standard
-- library's methods on them.
use Prim.Native.Nat.{ℕ, ◌+◌}
use Prim.Native.Char.{code}
use Prim.Native.String.{String}
use mathlib.Core.Bool.{Bool, true, false, ◌&&◌, ◌||◌}
use mathlib.Core.List.{List, [], ◌∷◌, map, reverse}
use mathlib.Core.Option.{Option, none, some}
use sensorwatch.Prelude.Lists.{is_empty}
use sensorwatch.Prelude.Tests.{leb, ◌==◌, if◌then◌else◌}
use sensorwatch.Prelude.Order.{list_ord, nat_ord, same}

abbrev pub Text : Type 0
Text = List ℕ

-- a literal
abbrev pub text : String → Text
text String.[] = []
text (String.◌∷◌ c s) = code c ∷ text s

-- `str::starts_with`
unfoldable pub starts_with : Text → Text → Bool
starts_with s [] = true
starts_with [] (p ∷ ps) = false
starts_with (c ∷ s) (p ∷ ps) = c == p && starts_with s ps

-- `str::contains`
unfoldable pub contains : Text → Text → Bool
unfolding starts_with
contains [] pat = starts_with [] pat
contains (c ∷ s) pat = starts_with (c ∷ s) pat || contains s pat

-- `char::is_whitespace`: the code points with the property White_Space
unfoldable pub is_whitespace : ℕ → Bool
is_whitespace c =
    (leb 0x9 c && leb c 0xd)
    || c == 0x20
    || c == 0x85
    || c == 0xa0
    || c == 0x1680
    || (leb 0x2000 c && leb c 0x200a)
    || c == 0x2028
    || c == 0x2029
    || c == 0x202f
    || c == 0x205f
    || c == 0x3000

unfoldable pub trim_start : Text → Text
unfolding is_whitespace
trim_start [] = []
trim_start (c ∷ s) = if is_whitespace c then trim_start s else c ∷ s

-- `str::trim`
unfoldable pub trim : Text → Text
unfolding trim_start
trim s = reverse (trim_start (reverse (trim_start s)))

-- `char::to_ascii_lowercase`, `u8::is_ascii_digit`
unfoldable pub to_ascii_lowercase : ℕ → ℕ
to_ascii_lowercase c = if leb b'A' c && leb c b'Z' then c + 32 else c

unfoldable pub is_ascii_digit : ℕ → Bool
is_ascii_digit c = leb b'0' c && leb c b'9'

-- `str::eq_ignore_ascii_case`
unfoldable pub eq_ignore_ascii_case : Text → Text → Bool
unfolding to_ascii_lowercase
eq_ignore_ascii_case a b = same (map to_ascii_lowercase a) (map to_ascii_lowercase b)

-- `str::strip_prefix` and `strip_suffix`
unfoldable pub strip_prefix : Text → Text → Option Text
strip_prefix s [] = some s
strip_prefix [] (p ∷ ps) = none
strip_prefix (c ∷ s) (p ∷ ps) = if same c p then strip_prefix s ps else none

unfoldable pub strip_suffix : Text → Text → Option Text
strip_suffix [] suffix = if is_empty suffix then some [] else none
strip_suffix (c ∷ s) suffix =
    let rest = strip_suffix s suffix in
    if same (c ∷ s) suffix
    then some []
    else elim rest [ none ↦ none | some front ↦ some (c ∷ front) ]

-- `str::to_lowercase` goes by the tables of the Unicode standard: it is a parameter.
pub record CaseFold : Type 0 where
  pub to_lowercase : Text → Text
