-- ===== src/Event/Slug.antt =====
-- event.rs: `slug` and `spool_file_name`.
use sensorwatch.Prelude.{
  ℕ, zero, suc, ◌-◌, ◌≤◌, ◌≡◌, refl, Bool, true, ◌||◌, ◌&&◌, [], ◌∷◌, ◌++◌, arith, leb, ◌==◌,
  if◌then◌else◌, length, take, is_empty, All, map, length-take, Bool-cases, inl, inr,
}
use sensorwatch.Prelude.Text.{Text, text, to_ascii_lowercase}
use sensorwatch.Prelude.Decimal.{print}

-- 'a'..='z' | '0'..='9' | '.' | '_' | '-'
unfoldable pub is_safe : ℕ → Bool
is_safe c =
    (leb b'a' c && leb c b'z') || (leb b'0' c && leb c b'9') || c == b'.' || c == b'_' || c == b'-'

unfoldable pub slug_char : ℕ → ℕ
unfolding is_safe to_ascii_lowercase
slug_char c = let l = to_ascii_lowercase c in if is_safe l then l else b'-'

unfoldable pub slug : Text → Text
unfolding slug_char
slug rule = let s = take 50 (map slug_char rule) in if is_empty s then text "rule" else s

abbrev pub zeros : ℕ → Text
zeros zero = []
zeros (suc n) = b'0' ∷ zeros n

-- `{seq:010}-{slug}.json`
unfoldable pub spool_file_name : ℕ → Text → Text
unfolding slug
spool_file_name seq rule =
    let p = print seq in zeros (10 - length p) ++ p ++ (b'-' ∷ slug rule ++ text ".json")

slug_char_safe : (c : ℕ) → is_safe (slug_char c) ≡ true
unfolding slug_char
slug_char_safe c = elim (Bool-cases (is_safe (to_ascii_lowercase c))) [
  | inl e ↦ rw (e, e)
  | inr e ↦ rw e (unfold is_safe in refl)
]

slug_char_same : (c : ℕ) → is_safe c ≡ true → slug_char c ≡ c
unfolding slug_char is_safe to_ascii_lowercase
slug_char_same c e = ground arith

abbrev pub IsSafe : Text → Type 0
IsSafe s = All (λ c. is_safe c ≡ true) s

take-IsSafe : (n : ℕ) (s : Text) → IsSafe (take n (map slug_char s))
take-IsSafe zero s = tt
take-IsSafe (suc n) [] = tt
take-IsSafe (suc n) (c ∷ s) = (slug_char_safe c, take-IsSafe n s)

map_same : (s : Text) → IsSafe s → map slug_char s ≡ s
map_same [] h = refl
map_same (c ∷ s) (h, hs) = rw (slug_char_same c h, map_same s hs)

take_all : (n : ℕ) (s : Text) → length s ≤ n → take n s ≡ s
take_all zero [] h = refl
take_all zero (c ∷ s) h = absurd (omega arith)
take_all (suc n) [] h = refl
take_all (suc n) (c ∷ s) h = rw (take_all n s (omega arith))

pub record IsSlug (s : Text) : Type 0 where
  pub safe : IsSafe s
  pub long : 1 ≤ length s
  pub short : length s ≤ 50

-- The slug of any rule name is 1 to 50 characters of `[a-z0-9._-]`.
pub slug-IsSlug : (rule : Text) → IsSlug (slug rule)
unfolding slug
slug-IsSlug [] = record {
  safe = unfold is_safe in (refl, (refl, (refl, (refl, tt))));
  long = omega arith;
  short = omega arith;
}
slug-IsSlug (c ∷ rule) = record {
  safe = take-IsSafe 50 (c ∷ rule);
  long = omega arith;
  short = omega (arith, length-take 49 (map slug_char rule));
}

-- A text that is a slug already is its own slug.
pub slug_fixed : (s : Text) → IsSlug s → slug s ≡ s
unfolding slug
slug_fixed [] h = ground (arith, h.long)
slug_fixed (c ∷ s) h =
    rw (slug_char_same c h.safe.0, map_same s h.safe.1, take_all 49 s (omega (arith, h.short)))
