-- ===== src/Rules/Names.antt =====
-- What `load` makes of a list of entries: every rule is valid, and no two have one name.
use sensorwatch.Prelude.{
  ℕ, ◌+◌, ◌≡◌, ◌≢◌, refl, inl, inr, false, Option, none, some, List, [], ◌∷◌, ◌++◌, arith,
  List-cases, Bool-cases, append-eq-nil, any, All,
}
use sensorwatch.Prelude.Order.{same, same_iff, list_ord, nat_ord}
use sensorwatch.Prelude.Text.{Text, CaseFold}
use sensorwatch.Float.{Float}
use sensorwatch.Rules.{RuleKind, Rule, RuleSet}
use sensorwatch.Rules.Problem.{Label, Problem}
use sensorwatch.Rules.Validate.{
  RawRule, Validated, ok, err, kind_problems, validate, trimmed, label_of, finish, validate_kind,
}
use sensorwatch.Rules.Load.{loaded, duplicates, collect, validate_all, decide, load}
use sensorwatch.Rules.Sound.{IsValid, validate-IsValid}

-- No two rules of the list have one name.
abbrev pub DistinctNames : {W : Type 0} → List (Rule W) → Type 0
DistinctNames [] = Unit {0}
DistinctNames (r ∷ rs) = All (λ q. r.name ≢ q.name) rs × DistinctNames rs

module _ {W : Type 0} where
  unseen :
      (r : Rule W) (seen : List (Rule W))
      → any (λ q. same q.name r.name) seen ≡ false
      → All (λ q. q.name ≢ r.name) seen
  unseen r [] h = tt
  unseen r (q ∷ seen) h =
      (λ e. ground (arith, same_iff q.name r.name), unseen r seen (ground arith))

  All-tail :
      (r : Rule W) (rs seen : List (Rule W))
      → All (λ q. q.name ≢ r.name) seen
      → All (λ q. All (λ p. q.name ≢ p.name) rs) seen
      → All (λ q. All (λ p. q.name ≢ p.name) (r ∷ rs)) seen
  All-tail r rs [] h k = tt
  All-tail r rs (q ∷ seen) h k = ((h.0, k.0), All-tail r rs seen h.1 k.1)

  distinct_of_no_duplicates :
      (seen rules : List (Rule W))
      → duplicates seen rules ≡ []
      → All (λ q. All (λ p. q.name ≢ p.name) rules) seen × DistinctNames rules
  unfolding duplicates
  distinct_of_no_duplicates seen [] h = (nothing seen, tt)
    where
      nothing : (l : List (Rule W)) → All (λ (q : Rule W). Unit {0}) l
      nothing [] = tt
      nothing (q ∷ l) = (tt, nothing l)
  distinct_of_no_duplicates seen (r ∷ rs) h =
      elim (Bool-cases (any (λ q. same q.name r.name) seen)) [
        | inl e ↦ ground arith
        | inr e ↦
            let (later, distinct) = distinct_of_no_duplicates (r ∷ seen) rs (ground arith) in
            (All-tail r rs seen (unseen r seen e) later.1, (later.0, distinct))
      ]

module _ {W : Type 0} ⦃f : Float W⦄ ⦃c : CaseFold⦄ where
  -- entries and rules, one to one and in order
  abbrev pub Accepted : ℕ → List (RawRule W) → List (Rule W) → Type 0
  Accepted index [] [] = Unit {0}
  Accepted index [] (r ∷ rs) = ⊥
  Accepted index (raw ∷ raws) [] = ⊥
  Accepted index (raw ∷ raws) (r ∷ rs) = (validate raw index ≡ ok r) × Accepted (index + 1) raws rs

  validate_kind-ne-err :
      (raw : RawRule W) (name : Text) (label : Label) (k : Option RuleKind) (es : List (Problem W))
      → validate_kind raw name label es k ≢ err []
  unfolding validate_kind finish
  validate_kind-ne-err raw name label none [] h = ground arith
  validate_kind-ne-err raw name label none (e ∷ es) h = ground arith
  validate_kind-ne-err raw name label (some kind) es h =
      ground (arith, List-cases (es ++ kind_problems kind raw label))

  validate-ne-err : (raw : RawRule W) (index : ℕ) → validate raw index ≢ err []
  unfolding validate
  validate-ne-err raw index =
      validate_kind-ne-err raw (trimmed raw.name) (label_of (trimmed raw.name) index) raw.kind _

  collect_step :
      (index : ℕ) (raw : RawRule W) (raws : List (RawRule W)) (v : Validated W)
      → validate raw index ≡ v
      → ((validate_all (index + 1) raws).1 ≡ []
          → Accepted (index + 1) raws (validate_all (index + 1) raws).0)
      → (collect v (validate_all (index + 1) raws)).1 ≡ []
      → Accepted index (raw ∷ raws) (collect v (validate_all (index + 1) raws)).0
  collect_step index raw raws (ok r) e ih k = (e, ih k)
  collect_step index raw raws (err []) e ih k = absurd (validate-ne-err raw index e)
  collect_step index raw raws (err (p ∷ ps)) e ih k = cc

  collected :
      (index : ℕ) (raws : List (RawRule W))
      → (validate_all index raws).1 ≡ []
      → Accepted index raws (validate_all index raws).0
  unfolding validate_all
  collected index [] h = tt
  collected index (raw ∷ raws) h =
      collect_step index raw raws (validate raw index) refl (collected (index + 1) raws) h

  Accepted-IsValid :
      (index : ℕ) (raws : List (RawRule W)) (rules : List (Rule W))
      → Accepted index raws rules
      → All IsValid rules
  Accepted-IsValid index [] [] h = tt
  Accepted-IsValid index [] (r ∷ rs) h = absurd h
  Accepted-IsValid index (raw ∷ raws) [] h = absurd h
  Accepted-IsValid index (raw ∷ raws) (r ∷ rs) (h, hs) =
      (validate-IsValid raw index h, Accepted-IsValid (index + 1) raws rs hs)

  decide-eq-loaded :
      (rules : List (Rule W)) (errors : List (Problem W)) {s : RuleSet W}
      → decide rules errors ≡ loaded s
      → (errors ≡ []) × (rules ≡ s.rules)
  unfolding decide
  decide-eq-loaded rules [] h = (refl, ground arith)
  decide-eq-loaded rules (p ∷ ps) h = ground arith

  -- A rule set that loads has one valid rule for each entry, in order, and no name twice.
  pub load-eq-loaded :
      (raws : List (RawRule W)) {s : RuleSet W}
      → load raws ≡ loaded s
      → Accepted 0 raws s.rules × All IsValid s.rules × DistinctNames s.rules
  unfolding load
  load-eq-loaded raws {s} h =
      let (rules, errors) = validate_all 0 raws in
      let (clean, same) = decide-eq-loaded rules (errors ++ duplicates [] rules) h in
      let (valid, unique) = append-eq-nil errors (duplicates [] rules) clean in
      let accepted : Accepted 0 raws s.rules = rw same at (collected 0 raws valid) in
      (
        accepted,
        Accepted-IsValid 0 raws s.rules accepted,
        rw same at (distinct_of_no_duplicates [] rules unique).1,
      )
