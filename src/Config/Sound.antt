-- ===== src/Config/Sound.antt =====
-- config.rs: what any load of the configuration guarantees.
use mathlib.Core.List as List
use mathlib.Core.List.{reverse}
use sensorwatch.Prelude.{
  ℕ, ◌≡◌, refl, false, Option, none, some, List, [], ◌∷◌, ◌++◌, inl, inr, Bool-cases, Option-cases,
  arith, All, is_empty,
}
use sensorwatch.Prelude.Int.{ℤ, pos, ◌≤ℤ◌}
use sensorwatch.Prelude.Text.{Text, trim, text, trim_start, is_whitespace}
use sensorwatch.Config.{
  Value, Items, Table, Toml, Disk, Config, nil, item, integer, array, default_config, as_str,
  as_int, clean_items, clean_str_list, section, get_in, from_table, from_toml_str, load_file,
  load_fallbacks, load_from,
}

-- The front is not white space.
abbrev IsTight : Text → Type 0
IsTight [] = Unit
IsTight (c ∷ s) = is_whitespace c ≡ false

trim_start-IsTight : (s : Text) → IsTight (trim_start s)
unfolding trim_start
trim_start-IsTight [] = tt
trim_start-IsTight (c ∷ s) = elim (Bool-cases (is_whitespace c)) [
  | inl e ↦ rw e (trim_start-IsTight s)
  | inr e ↦ rw e e
]

trim_start_fixed : (s : Text) → IsTight s → trim_start s ≡ s
unfolding trim_start
trim_start_fixed [] h = refl
trim_start_fixed (c ∷ s) h = rw h refl

-- a text in front of a character that stays
trim_start-append :
    (s : Text) (c : ℕ)
    → is_whitespace c ≡ false
    → trim_start (s ++ (c ∷ [])) ≡ trim_start s ++ (c ∷ [])
unfolding trim_start
trim_start-append [] c h = rw h refl
trim_start-append (d ∷ s) c h = elim (Bool-cases (is_whitespace d)) [
  | inl e ↦ rw e (trim_start-append s c h)
  | inr e ↦ rw e refl
]

-- Trimming the back leaves a tight front.
trim_end-IsTight : (s : Text) → IsTight s → IsTight (reverse (trim_start (reverse s)))
unfolding trim_start
trim_end-IsTight [] h = tt
trim_end-IsTight (c ∷ s) h =
    rw
      (
        List.reverse-cons c s,
        trim_start-append (reverse s) c h,
        List.reverse-append (trim_start (reverse s)) (c ∷ []),
      )
      h

-- A trimmed text has nothing left to trim.
trim-trim : (s : Text) → trim (trim s) ≡ trim s
unfolding trim
trim-trim s =
    let t = trim_start s in
    let u = trim_start (reverse t) in
    rw
      (
        trim_start_fixed (reverse u) (trim_end-IsTight t (trim_start-IsTight s)),
        List.reverse-reverse u,
        trim_start_fixed u (trim_start-IsTight (reverse t)),
      )
      refl

-- a pattern that is trimmed and not empty
abbrev pub IsPattern : Text → Type 0
IsPattern p = (is_empty p ≡ false) × (trim p ≡ p)

clean_items-IsPattern : (vs : Items) → All IsPattern (clean_items vs)
unfolding clean_items
clean_items-IsPattern nil = tt
clean_items-IsPattern (item v vs) = elim (Option-cases (as_str v)) [
  | inl e ↦ rw e (clean_items-IsPattern vs)
  | inr (s, e) ↦ elim (Bool-cases (is_empty (trim s))) [
    | inl b ↦ rw (e, b) (clean_items-IsPattern vs)
    | inr b ↦ rw (e, b) ((b, trim-trim s), clean_items-IsPattern vs)
  ]
]

clean_str_list-IsPattern : (o : Option Value) → All IsPattern (clean_str_list o)
unfolding clean_str_list
clean_str_list-IsPattern (some (array vs)) = clean_items-IsPattern vs
clean_str_list-IsPattern _ = tt

as_int-le :
    (o : Option Value) (default minimum : ℤ)
    → minimum ≤ℤ default
    → minimum ≤ℤ as_int o default minimum
unfolding as_int
as_int-le (some (integer i)) default minimum h = ground arith
as_int-le _ default minimum h = h

-- a polling interval of at least a second, a retention that is not negative, and clean patterns
abbrev pub IsValid : Config → Type 0
IsValid c =
    (pos 1 ≤ℤ c.interval_seconds)
    × (pos 0 ≤ℤ c.retention_days)
    × All IsPattern c.sensor_include
    × All IsPattern c.sensor_exclude

default_config-IsValid : IsValid default_config
default_config-IsValid = (omega arith, omega arith, tt, tt)

from_table-IsValid : (t : Table) → IsValid (from_table t)
unfolding from_table
from_table-IsValid t =
    let general = section t (text "general") in
    let sensors = section t (text "sensors") in
    (
      as_int-le (get_in general (text "interval_seconds")) (pos 10) (pos 1) (omega arith),
      as_int-le (get_in general (text "retention_days")) (pos 30) (pos 0) (omega arith),
      clean_str_list-IsPattern (get_in sensors (text "include")),
      clean_str_list-IsPattern (get_in sensors (text "exclude")),
    )

module _ {W : Type 0} (toml : Toml W) (disk : Disk) where
  load_file-IsValid : (path : Text) → IsValid (load_file toml disk path)
  unfolding load_file from_toml_str
  load_file-IsValid path = elim (Option-cases (disk.read_to_string path)) [
    | inl e ↦ rw (load_file, e) default_config-IsValid
    | inr (s, e) ↦ elim (Option-cases (toml.parse s)) [
      | inl p ↦ rw (load_file, e, from_toml_str, p) default_config-IsValid
      | inr (t, p) ↦ rw (load_file, e, from_toml_str, p) (from_table-IsValid t)
    ]
  ]

  load_fallbacks-IsValid : (ps : List Text) → IsValid (load_fallbacks toml disk ps)
  unfolding load_fallbacks
  load_fallbacks-IsValid [] = default_config-IsValid
  load_fallbacks-IsValid (p ∷ ps) = elim (Bool-cases (disk.exists p)) [
    | inl e ↦ rw (load_fallbacks, e) (load_file-IsValid p)
    | inr e ↦ rw (load_fallbacks, e) (load_fallbacks-IsValid ps)
  ]

  -- Whatever the files hold and whichever of them exist, the configuration that is loaded has an
  -- interval of at least 1, a retention of at least 0, and patterns that are trimmed and not empty.
  pub load_from-IsValid :
      (explicit : Option Text) (fallbacks : List Text)
      → IsValid (load_from toml disk explicit fallbacks)
  unfolding load_from
  load_from-IsValid none fallbacks = load_fallbacks-IsValid fallbacks
  load_from-IsValid (some path) fallbacks = elim (Bool-cases (disk.exists path)) [
    | inl e ↦ rw (load_from, e) (load_file-IsValid path)
    | inr e ↦ rw (load_from, e) (load_fallbacks-IsValid fallbacks)
  ]
