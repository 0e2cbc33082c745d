-- ===== src/Watch/Filters.antt =====
-- What `apply_filters` lets through.
use sensorwatch.Prelude.{
  All, Any, ◌≢◌, ◌≡◌, refl, sym, ap, ◌∙◌, ◌↔◌, Bool, true, false, ◌&&◌, ◌||◌, Option, none, some,
  List, [], ◌∷◌, arith, if◌then◌else◌, leb, keep, any, is_empty, List-cases, Bool-cases, inl, inr,
}
use sensorwatch.Prelude.Order.{list_ord, nat_ord, same, same_iff}
use sensorwatch.Prelude.Text.{Text}
use sensorwatch.Rules.{Rule, RuleSet, Severity, rank, retain, has_no_rules}
use sensorwatch.Watch.{
  Args, MinSeverity, severity_of, left, rejected, usage, all_known, by_severity, not_empty,
  apply_filters,
}

-- `--min-severity` on a severity, case by case
unfoldable pub severe_enough : Option MinSeverity → Severity → Bool
severe_enough none s = true
severe_enough (some MinSeverity.info) s = true
severe_enough (some MinSeverity.warning) Severity.info = false
severe_enough (some MinSeverity.warning) s = true
severe_enough (some MinSeverity.critical) Severity.critical = true
severe_enough (some MinSeverity.critical) s = false

severe_enough-rank :
    (m : MinSeverity) (s : Severity)
    → leb (rank (severity_of m)) (rank s) ≡ severe_enough (some m) s
unfolding rank severity_of severe_enough
severe_enough-rank MinSeverity.info s = ground arith
severe_enough-rank MinSeverity.warning Severity.info = refl
severe_enough-rank MinSeverity.warning Severity.warning = refl
severe_enough-rank MinSeverity.warning Severity.critical = refl
severe_enough-rank MinSeverity.critical Severity.info = refl
severe_enough-rank MinSeverity.critical Severity.warning = refl
severe_enough-rank MinSeverity.critical Severity.critical = refl

-- the selection that the filters describe
unfoldable pub selected : Args → Text → Severity → Bool
selected args name severity =
    (is_empty args.rules || any (λ n. same n name) args.rules)
    && severe_enough args.min_severity severity

keep_all {ℓ} : {A : Type ℓ} (xs : List A) → keep (λ _. true) xs ≡ xs
keep_all [] = refl
keep_all (x ∷ xs) = ap (λ ys. x ∷ ys) (keep_all xs)

keep_same {ℓ} :
    {A : Type ℓ} (p q : A → Bool) → ((x : A) → p x ≡ q x) → (xs : List A) → keep p xs ≡ keep q xs
keep_same p q h [] = refl
keep_same p q h (x ∷ xs) = rw (h x, keep_same p q h xs) refl

keep-and_true {ℓ} :
    {A : Type ℓ} (p : A → Bool) (xs : List A) → keep p xs ≡ keep (λ x. p x && true) xs
keep-and_true p [] = refl
keep-and_true p (x ∷ xs) = ground (arith, keep-and_true p xs)

keep-keep {ℓ} :
    {A : Type ℓ} (p q : A → Bool) (xs : List A) → keep p (keep q xs) ≡ keep (λ x. q x && p x) xs
keep-keep p q [] = refl
keep-keep p q (x ∷ xs) = ground (arith, keep-keep p q xs)

module _ {W : Type 0} where
  -- the set that the two filters leave, before the test for an empty one
  abbrev chosen : List Text → Option MinSeverity → RuleSet W → RuleSet W
  chosen [] m s = by_severity m s
  chosen (n ∷ ns) m s = by_severity m (retain (λ r. any (λ k. same k r.name) (n ∷ ns)) s)

  abbrev passes : List Text → Option MinSeverity → Rule W → Bool
  passes names m r =
      (is_empty names || any (λ n. same n r.name) names) && severe_enough m r.severity

  by_severity-keep :
      (m : MinSeverity) (s : RuleSet W)
      → by_severity (some m) s ≡ retain (λ r. severe_enough (some m) r.severity) s
  unfolding retain
  by_severity-keep m s =
      ap (λ rs. record { rules = rs })
        (keep_same _ _ (λ r. severe_enough-rank m r.severity) s.rules)

  chosen-retain :
      (names : List Text) (m : Option MinSeverity) (s : RuleSet W)
      → chosen names m s ≡ retain (passes names m) s
  unfolding retain severe_enough
  chosen-retain [] none s = ap (λ rs. record { rules = rs }) (sym (keep_all s.rules))
  chosen-retain [] (some m) s = by_severity-keep m s
  chosen-retain (n ∷ ns) none s = ap (λ rs. record { rules = rs }) (keep-and_true _ s.rules)
  chosen-retain (n ∷ ns) (some m) s =
      by_severity-keep m (retain (λ r. any (λ k. same k r.name) (n ∷ ns)) s)
      ∙ ap (λ rs. record { rules = rs }) (keep-keep _ _ s.rules)

  apply_filters-chosen :
      (args : Args) (s : RuleSet W)
      → apply_filters s args ≡ (
          if all_known s.rules args.rules
          then not_empty (chosen args.rules args.min_severity s)
          else rejected usage)
  unfolding apply_filters all_known
  apply_filters-chosen args s = elim (List-cases args.rules) [
    | inl e ↦ rw e refl
    | inr (n, ns, e) ↦ rw e refl
  ]

  not_empty_iff :
      (s s' : RuleSet W) → (not_empty s ≡ left s') ↔ ((s ≡ s') × (has_no_rules s' ≡ false))
  not_empty_iff s s' = elim (Bool-cases (has_no_rules s)) [
    | inl e ↦
        let stop : not_empty s ≡ rejected usage = rw e refl in (λ h. absurd cc, λ (p, q). absurd cc)
    | inr e ↦
        let go : not_empty s ≡ left s = rw e refl in
        (λ h. let p : s ≡ s' = cc in (p, cc), λ (p, q). cc)
  ]

  -- the name is that of a rule
  abbrev pub Names : List (Rule W) → Text → Type 0
  Names rules n = Any (λ (r : Rule W). r.name ≡ n) rules

  any-Names :
      (rules : List (Rule W)) (n : Text)
      → (any (λ (r : Rule W). same r.name n) rules ≡ true) ↔ Names rules n
  any-Names [] n = (λ h. absurd cc, λ h. absurd h)
  any-Names (r ∷ rules) n =
      let (to, from) = any-Names rules n in
      let (name_to, name_from) = same_iff r.name n in
      elim (Bool-cases (same r.name n)) [
        | inl e ↦ (λ h. inl (name_to e), λ h. rw e refl)
        | inr e ↦ (
          λ h. inr (to (rw e at h)),
          λ h. rw e (elim h [ inl p ↦ absurd (let q = name_from p in cc) | inr k ↦ from k ]),
        )
      ]

  all_known-Names :
      (rules : List (Rule W)) (ns : List Text) → (all_known rules ns ≡ true) ↔ All (Names rules) ns
  unfolding all_known
  all_known-Names rules [] = (λ h. tt, λ h. refl)
  all_known-Names rules (n ∷ ns) =
      let (to, from) = all_known-Names rules ns in
      let (name_to, name_from) = any-Names rules n in
      elim (Bool-cases (any (λ (r : Rule W). same r.name n) rules)) [
        | inl e ↦
            (λ h. (name_to e, to (rw (all_known, e) at h)), λ (_, k). rw (all_known, e) (from k))
        | inr e ↦ (
          λ h. let x = rw (all_known, e) at h in absurd cc,
          λ (k, _). let x = name_from k in absurd cc,
        )
      ]

  has_no_rules_iff : (s : RuleSet W) → (has_no_rules s ≡ false) ↔ (s.rules ≢ [])
  unfolding has_no_rules
  has_no_rules_iff s = elim (List-cases s.rules) [
    | inl e ↦ (λ h. let x : true ≡ false = rw e at h in absurd cc, λ n. absurd (n e))
    | inr (r, rs, e) ↦ (λ h x. cc, λ n. rw e refl)
  ]

  -- The filters leave a rule set exactly when every name of `--rule` is the name of a rule, and the set
  -- holds, in order, the rules whose name is asked for, or any where no name is, and that are as severe as
  -- `--min-severity` says, and is not empty.
  pub apply_filters_iff :
      (args : Args) (s s' : RuleSet W)
      → (apply_filters s args ≡ left s') ↔ (
          All (Names s.rules) args.rules
          × (s'.rules ≡ keep (λ (r : Rule W). selected args r.name r.severity) s.rules)
          × (s'.rules ≢ []))
  unfolding selected retain
  apply_filters_iff args s s' =
      let same_set = chosen-retain args.rules args.min_severity s in
      let (to, from) = not_empty_iff (chosen args.rules args.min_severity s) s' in
      let (known, unknown) = all_known-Names s.rules args.rules in
      let (some_left, none_left) = has_no_rules_iff s' in
      elim (Bool-cases (all_known s.rules args.rules)) [
        | inl e ↦
            let go : apply_filters s args ≡ not_empty (chosen args.rules args.min_severity s) =
              apply_filters-chosen args s ∙ rw e refl in
            (
              λ h.
                  let (p, q) = to (sym go ∙ h) in
                  (known e, ap (λ (x : RuleSet W). x.rules) (sym p ∙ same_set), some_left q),
              λ (_, p, q).
                  go ∙ from (same_set ∙ ap (λ rs. record { rules = rs }) (sym p), none_left q),
            )
        | inr e ↦
            let stop : apply_filters s args ≡ rejected usage =
              apply_filters-chosen args s ∙ rw e refl in
            (λ h. absurd cc, λ (k, _, _). let x = unknown k in absurd cc)
      ]
