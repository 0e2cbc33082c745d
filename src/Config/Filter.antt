-- ===== src/Config/Filter.antt =====
-- config.rs: what a configured filter lets through.
use sensorwatch.Prelude.{
  ◌≡◌, ◌⊎◌, ◌↔◌, refl, Bool, true, false, not, ◌&&◌, List, [], ◌∷◌, ◌++◌, inl, inr, Bool-cases,
  arith, ◌==◌, is_empty, any, map, if◌then◌else◌, ==_iff,
}
use sensorwatch.Prelude.Text.{Text, CaseFold, contains, starts_with}
use sensorwatch.Config.{Config, sensor_filter, lets_through}

-- the pattern stands somewhere in the text
abbrev pub Within : Text → Text → Type 0
Within pat s = (before after : Text) × (s ≡ before ++ pat ++ after)

starts_with→append : (s p : Text) → starts_with s p ≡ true → (after : Text) × (s ≡ p ++ after)
unfolding starts_with
starts_with→append s [] h = (s, refl)
starts_with→append [] (c ∷ p) h = cc
starts_with→append (d ∷ s) (c ∷ p) h = elim (Bool-cases (d == c)) [
  | inl e ↦
      let (after, q) = starts_with→append s p (ground arith) in
      (after, rw ((==_iff d c).0 e, q) refl)
  | inr e ↦ ground arith
]

append→starts_with : (p after : Text) → starts_with (p ++ after) p ≡ true
unfolding starts_with
append→starts_with [] after = ground arith
append→starts_with (c ∷ p) after = ground (arith, append→starts_with p after)

pub contains→Within : (s pat : Text) → contains s pat ≡ true → Within pat s
unfolding contains
contains→Within [] pat h = let (after, q) = starts_with→append [] pat h in ([], after, q)
contains→Within (c ∷ s) pat h = elim (Bool-cases (starts_with (c ∷ s) pat)) [
  | inl e ↦ let (after, q) = starts_with→append (c ∷ s) pat e in ([], after, q)
  | inr e ↦
      let (before, after, q) = contains→Within s pat (ground arith) in
      (c ∷ before, after, rw q refl)
]

starts_with→contains : (s pat : Text) → starts_with s pat ≡ true → contains s pat ≡ true
unfolding contains
starts_with→contains [] pat h = h
starts_with→contains (c ∷ s) pat h = rw h refl

append→contains : (before pat after : Text) → contains (before ++ pat ++ after) pat ≡ true
unfolding contains
append→contains [] pat after = starts_with→contains _ pat (append→starts_with pat after)
append→contains (c ∷ before) pat after = ground (arith, append→contains before pat after)

-- a pattern of the list stands in the name, whatever the case of either
abbrev pub Mentions : ⦃c : CaseFold⦄ → List Text → Text → Type 0
Mentions ⦃c⦄ [] name = ⊥
Mentions ⦃c⦄ (p ∷ ps) name = Within (c.to_lowercase p) (c.to_lowercase name) ⊎ Mentions ps name

-- the code's test, on the answers to its three questions
verdict_iff :
    (none_given included excluded : Bool)
    → ((if not none_given && not included then false else not excluded) ≡ true)
      ↔ (((none_given ≡ true) ⊎ (included ≡ true)) × (excluded ≡ false))
verdict_iff none_given included excluded = ground arith

module _ ⦃c : CaseFold⦄ where
  any→Mentions :
      (ps : List Text) (name : Text)
      → any (λ pat. contains (c.to_lowercase name) pat) (map c.to_lowercase ps) ≡ true
      → Mentions ps name
  any→Mentions [] name h = cc
  any→Mentions (p ∷ ps) name h =
      elim (Bool-cases (contains (c.to_lowercase name) (c.to_lowercase p))) [
        | inl e ↦ inl (contains→Within _ _ e)
        | inr e ↦ inr (any→Mentions ps name (ground arith))
      ]

  Mentions→any :
      (ps : List Text) (name : Text)
      → Mentions ps name
      → any (λ pat. contains (c.to_lowercase name) pat) (map c.to_lowercase ps) ≡ true
  Mentions→any [] name m = elim m [ ]
  Mentions→any (p ∷ ps) name (inl (before, after, e)) =
      let h : contains (c.to_lowercase name) (c.to_lowercase p) ≡ true =
        rw e (append→contains before (c.to_lowercase p) after) in
      rw h refl
  Mentions→any (p ∷ ps) name (inr m) = ground (arith, Mentions→any ps name m)

  -- A list of patterns is as empty as its lowercased copy.
  is_empty→nil : (ps : List Text) → is_empty (map c.to_lowercase ps) ≡ true → ps ≡ []
  is_empty→nil [] h = refl
  is_empty→nil (p ∷ ps) h = cc

  -- The filter lets a sensor through exactly when its name, in lower case, contains some include
  -- pattern, or there are none, and contains no exclude pattern, where the patterns are lowercased too.
  pub lets_through_iff :
      (config : Config) (name : Text)
      → (lets_through (sensor_filter config) name ≡ true) ↔ (
          ((config.sensor_include ≡ []) ⊎ Mentions config.sensor_include name)
          × ¬ Mentions config.sensor_exclude name)
  unfolding lets_through sensor_filter
  lets_through_iff config name =
      let inc = config.sensor_include in
      let exc = config.sensor_exclude in
      let (out, back) =
        verdict_iff (is_empty (map c.to_lowercase inc))
          (any (λ pat. contains (c.to_lowercase name) pat) (map c.to_lowercase inc))
          (any (λ pat. contains (c.to_lowercase name) pat) (map c.to_lowercase exc)) in
      (
        λ h.
            let (i, e) = out h in
            (
              elim i [ inl n ↦ inl (is_empty→nil inc n) | inr a ↦ inr (any→Mentions inc name a) ],
              λ m. let y = Mentions→any exc name m in cc,
            ),
        λ (i, e). back (
          elim i [ inl n ↦ inl (rw n refl) | inr m ↦ inr (Mentions→any inc name m) ],
          elim (Bool-cases
              (any (λ pat. contains (c.to_lowercase name) pat) (map c.to_lowercase exc))) [
                | inl y ↦ elim (e (any→Mentions exc name y)) [ ]
                | inr n ↦ n
              ],
        ),
      )
