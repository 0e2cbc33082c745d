-- ===== src/Logger/Names.antt =====
-- rust/sensorwatch-cli/src/logger.rs: the names of the daily files and what is read back from them.
use mathlib.Core.Option.{some-injective}
use sensorwatch.Prelude.{
  ℕ, ◌≡◌, ◌∙◌, ◌↔◌, ap, sym, refl, true, false, Option, none, some, [], ◌∷◌, ◌++◌, Bool-cases,
  Option-cases, inl, inr, arith, length, length-append,
}
use sensorwatch.Prelude.Order.{list_ord, nat_ord, same, same_iff, same_refl}
use sensorwatch.Prelude.Text.{Text, strip_prefix, strip_suffix}
use sensorwatch.Logger.{
  Calendar, LogWriter, extension, is_expired, is_before, parsed, without_suffix, daily_file_path,
}

-- What is used of jiff: a date is read back from its text, and dates are compared by what they are.
pub record IsCalendar {D Z : Type 0} (calendar : Calendar D Z) : Type 0 where
  pub parse-display : (d : D) → calendar.parse (calendar.display d) ≡ some d
  pub same_date_iff : (a b : D) → (calendar.same_date a b ≡ true) ↔ (a ≡ b)

strip_prefix-append : (p s : Text) → strip_prefix (p ++ s) p ≡ some s
unfolding strip_prefix
strip_prefix-append [] [] = refl
strip_prefix-append [] (c ∷ s) = refl
strip_prefix-append (c ∷ p) s = rw (same_refl c) (strip_prefix-append p s)

pub strip_prefix-eq-some : (s p t : Text) → strip_prefix s p ≡ some t → s ≡ p ++ t
unfolding strip_prefix
strip_prefix-eq-some [] [] t h = some-injective _ _ h
strip_prefix-eq-some (c ∷ s) [] t h = some-injective _ _ h
strip_prefix-eq-some [] (d ∷ p) t h = cc
strip_prefix-eq-some (c ∷ s) (d ∷ p) t h = elim (Bool-cases (same c d)) [
  | inl e ↦ rw ((same_iff c d).0 e, strip_prefix-eq-some s p t (ground arith)) refl
  | inr e ↦ ground arith
]

longer-same : (c : ℕ) (s suffix : Text) → same (c ∷ (s ++ suffix)) suffix ≡ false
longer-same c s suffix = elim (Bool-cases (same (c ∷ (s ++ suffix)) suffix)) [
  | inl e ↦
      let lengths = ap length ((same_iff (c ∷ (s ++ suffix)) suffix).0 e) in
      let no : ⊥ = omega (arith, lengths, length-append s suffix) in elim no [ ]
  | inr e ↦ e
]

strip_suffix-append : (s suffix : Text) → strip_suffix (s ++ suffix) suffix ≡ some s
unfolding strip_suffix
strip_suffix-append [] [] = refl
strip_suffix-append [] (c ∷ suffix) = rw (same_refl (c ∷ suffix)) refl
strip_suffix-append (c ∷ s) suffix = rw (longer-same c s suffix, strip_suffix-append s suffix) refl

strip_suffix-eq-some : (s suffix t : Text) → strip_suffix s suffix ≡ some t → s ≡ t ++ suffix
unfolding strip_suffix
strip_suffix-eq-some [] [] t h = ground arith
strip_suffix-eq-some [] (d ∷ suffix) t h = cc
strip_suffix-eq-some (c ∷ s) suffix t h = elim (Bool-cases (same (c ∷ s) suffix)) [
  | inl e ↦ ground (arith, same_iff (c ∷ s) suffix)
  | inr e ↦ elim (Option-cases (strip_suffix s suffix)) [
    | inl n ↦ ground arith
    | inr (front, q) ↦
        let g : some (c ∷ front) ≡ some t = rw (e, q) at h in
        ap (λ x. c ∷ x) (strip_suffix-eq-some s suffix front q)
        ∙ ap (λ x. x ++ suffix) (some-injective _ _ g)
  ]
]

module _ {D Z : Type 0} (calendar : Calendar D Z) where
  -- a name of the writer's own pattern, whose middle parses as a date before the cutoff
  abbrev pub Expired : LogWriter D → D → Text → Type 0
  Expired w cutoff name =
      (stem : Text) × (d : D) × (name ≡ w.prefix ++ (stem ++ extension))
      × (calendar.parse stem ≡ some d)
      × (calendar.before d cutoff ≡ true)

  is_before→some :
      (o : Option D) (cutoff : D)
      → is_before calendar o cutoff ≡ true
      → (d : D) × (o ≡ some d) × (calendar.before d cutoff ≡ true)
  is_before→some none cutoff h = cc
  is_before→some (some d) cutoff h = (d, refl, h)

  parsed→some :
      (o : Option Text) {d : D}
      → parsed calendar o ≡ some d
      → (stem : Text) × (o ≡ some stem) × (calendar.parse stem ≡ some d)
  parsed→some none h = cc
  parsed→some (some stem) h = (stem, refl, h)

  without_suffix→some :
      (o : Option Text) {stem : Text}
      → without_suffix o ≡ some stem
      → (rest : Text) × (o ≡ some rest) × (rest ≡ stem ++ extension)
  without_suffix→some none h = cc
  without_suffix→some (some rest) {stem} h =
      (rest, refl, strip_suffix-eq-some rest extension stem h)

  is_expired→Expired :
      (w : LogWriter D) (cutoff : D) (name : Text)
      → is_expired calendar w cutoff name ≡ true
      → Expired w cutoff name
  unfolding is_expired
  is_expired→Expired w cutoff name h =
      let (d, p, b) = is_before→some _ cutoff h in
      let (stem, q, e) = parsed→some _ p in
      let (rest, r, s) = without_suffix→some _ q in
      (stem, d, strip_prefix-eq-some name w.prefix rest r ∙ ap (λ x. w.prefix ++ x) s, e, b)

  -- the tests of the code on a name of that form
  pub is_expired-named :
      (w : LogWriter D) (cutoff : D) (stem : Text)
      → is_expired calendar w cutoff (w.prefix ++ (stem ++ extension))
        ≡ is_before calendar (calendar.parse stem) cutoff
  unfolding is_expired
  is_expired-named w cutoff stem =
      rw (strip_prefix-append w.prefix (stem ++ extension), strip_suffix-append stem extension) refl

  -- A file is taken for expired exactly when its name says so.
  pub is_expired_iff :
      (w : LogWriter D) (cutoff : D) (name : Text)
      → (is_expired calendar w cutoff name ≡ true) ↔ Expired w cutoff name
  is_expired_iff w cutoff name = (
    is_expired→Expired w cutoff name,
    λ (stem, d, n, e, b). rw (n, is_expired-named w cutoff stem, e) b,
  )

  -- The daily file of a date expires with the date.
  pub is_expired-daily_file_path :
      IsCalendar calendar
      → (w : LogWriter D) (cutoff d : D)
      → is_expired calendar w cutoff (daily_file_path calendar w.prefix d)
        ≡ calendar.before d cutoff
  unfolding daily_file_path
  is_expired-daily_file_path laws w cutoff d =
      is_expired-named w cutoff (calendar.display d)
      ∙ ap (λ o. is_before calendar o cutoff) (laws.parse-display d)

  -- the date that is read back from a name
  abbrev date_in : Text → Text → Option D
  date_in prefix name = parsed calendar (without_suffix (strip_prefix name prefix))

  date_in-daily_file_path :
      IsCalendar calendar
      → (prefix : Text) (d : D) → date_in prefix (daily_file_path calendar prefix d) ≡ some d
  unfolding daily_file_path
  date_in-daily_file_path laws prefix d =
      rw
        (
          strip_prefix-append prefix (calendar.display d ++ extension),
          strip_suffix-append (calendar.display d) extension,
        )
        (laws.parse-display d)

  -- Different dates have different files.
  pub daily_file_path-injective :
      IsCalendar calendar
      → (prefix : Text) (a b : D)
      → daily_file_path calendar prefix a ≡ daily_file_path calendar prefix b
      → a ≡ b
  daily_file_path-injective laws prefix a b h = some-injective _ _ (
      sym (date_in-daily_file_path laws prefix a)
      ∙ ap (date_in prefix) h
      ∙ date_in-daily_file_path laws prefix b)
