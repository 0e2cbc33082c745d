-- ===== src/Report/Scan.antt =====
-- What the scan of `report` evaluates and retains.
use sensorwatch.Prelude.{
  ℕ, zero, suc, ◌-◌, ◌≤◌, ◌<◌, ◌≡◌, refl, sym, ap, ◌∙◌, Bool, false, some, List, [], ◌∷◌, ◌++◌,
  arith, ◌==◌, length, drop, keep, not, Bool-cases, inl, inr, length-append, length-drop,
}
use mathlib.Core.List.{append-nil, append_assoc}
use mathlib.Core.Option.{some-injective}
use sensorwatch.Prelude.Panic.{>>=-eq-some}
use sensorwatch.Prelude.Text.{CaseFold}
use sensorwatch.Float.{Float}
use sensorwatch.Source.{Sample, Tick, sampled, unavailable}
use sensorwatch.Engine.Observe.{Engine, Transition, observe, run}
use sensorwatch.Digest.Aggregate.{Aggregator, aggregate}
use sensorwatch.Report.{
  Window, State, retain_latest, take_transition, take_transitions, outside, scan_tick, scan,
}

-- the newest `cap` of a list, oldest first
abbrev pub latest {ℓ} : {A : Type ℓ} → ℕ → List A → List A
latest cap xs = drop (length xs - cap) xs

drop-append {ℓ} :
    {A : Type ℓ} (n : ℕ) (xs ys : List A) → n ≤ length xs → drop n (xs ++ ys) ≡ drop n xs ++ ys
drop-append zero xs ys l = refl
drop-append (suc n) [] ys l = absurd (omega arith)
drop-append (suc n) (x ∷ xs) ys l = drop-append n xs ys (omega arith)

drop-drop {ℓ} : {A : Type ℓ} (n : ℕ) (xs : List A) → drop 1 (drop n xs) ≡ drop (suc n) xs
drop-drop zero [] = refl
drop-drop zero (x ∷ xs) = refl
drop-drop (suc n) [] = refl
drop-drop (suc n) (x ∷ xs) = drop-drop n xs

module _ {W : Type 0} where
  -- Pushing one more transition onto the newest `cap` of a history gives the newest `cap` of the
  -- longer history.
  retain_latest-latest :
      (cap : ℕ) (h : List (Transition W)) (t : Transition W)
      → 1 ≤ cap
      → retain_latest cap (latest cap h) t ≡ latest cap (h ++ t ∷ [])
  unfolding retain_latest
  retain_latest-latest cap h t l = elim (Bool-cases (length (latest cap h) == cap)) [
    | inl e ↦
        let full : cap ≤ length h = ground (arith, length-drop (length h - cap) h) in
        let longer : length (h ++ t ∷ []) - cap ≡ suc (length h - cap) =
          omega (arith, length-append h (t ∷ [])) in
        rw (e, longer, drop-append (suc (length h - cap)) h (t ∷ []) (omega arith))
          (ap (λ x. x ++ t ∷ []) (drop-drop (length h - cap) h))
    | inr e ↦
        let room : length h < cap = ground (arith, length-drop (length h - cap) h) in
        let short : length h - cap ≡ 0 = omega arith in
        let still : length (h ++ t ∷ []) - cap ≡ 0 = omega (arith, length-append h (t ∷ [])) in
        rw (e, short, still) refl
  ]

module _ {W : Type 0} ⦃f : Float W⦄ ⦃c : CaseFold⦄ (cap : ℕ) (w : Window) where
  -- the ticks that the scan evaluates
  abbrev pub in_window : Tick W → Bool
  in_window (unavailable ts raw) = false
  in_window (sampled sample) = not (outside w sample.timestamp)

  abbrev pub fold_samples : Aggregator W → List (Tick W) → Aggregator W
  fold_samples agg [] = agg
  fold_samples agg (unavailable ts raw ∷ ts') = fold_samples agg ts'
  fold_samples agg (sampled s ∷ ts') = fold_samples (aggregate agg s) ts'

  take_transitions-latest :
      (s : State W) (h out : List (Transition W))
      → 1 ≤ cap
      → s.transitions ≡ latest cap h
      → ((take_transitions cap w s out).transitions ≡ latest cap (h ++ out))
        × ((take_transitions cap w s out).engine ≡ s.engine)
  unfolding take_transitions take_transition
  take_transitions-latest s h [] l e = (rw (append-nil h) e, refl)
  take_transitions-latest s h (t ∷ out) l e =
      let ih =
        take_transitions-latest (take_transition cap w s t) (h ++ t ∷ []) out l
          (rw e (retain_latest-latest cap h t l)) in
      (ih.0 ∙ ap (latest cap) (append_assoc h (t ∷ []) out), ih.1)

  -- one sample of the window
  scan_tick-observe :
      (s : State W) (sample : Sample W) {s' : State W}
      → outside w sample.timestamp ≡ false
      → scan_tick cap w s (sampled sample) ≡ some s'
      → (p : Engine W × List (Transition W)) × (observe s.engine (sampled sample) ≡ some p)
        × (take_transitions cap w (record s { engine = p.0; agg = aggregate s.agg sample }) p.1
            ≡ s')
  unfolding scan_tick
  scan_tick-observe s sample o r =
      let (p, e1, e2) = >>=-eq-some (observe s.engine (sampled sample)) _ (rw o at r) in
      (p, e1, some-injective _ _ e2)

  -- If the scan does not panic, it runs the rules over exactly the samples of the window, in order, and
  -- keeps the newest `cap` of all their transitions.
  pub scan-run :
      (s : State W) (h : List (Transition W)) (ts : List (Tick W)) {s' : State W}
      → 1 ≤ cap
      → s.transitions ≡ latest cap h
      → scan cap w s ts ≡ some s'
      → (out : List (Transition W)) × (run s.engine (keep in_window ts) ≡ some (s'.engine, out))
        × (s'.transitions ≡ latest cap (h ++ out))
  unfolding scan run scan_tick
  scan-run s h [] l e r =
      let p = some-injective _ _ r in
      (
        [],
        ap (λ (x : State W). some (x.engine, [])) p,
        sym (ap (λ (x : State W). x.transitions) p) ∙ e ∙ ap (latest cap) (sym (append-nil h)),
      )
  scan-run s h (unavailable ts raw ∷ rest) l e r = scan-run s h rest l e r
  scan-run s h (sampled sample ∷ rest) {s'} l e r = elim (Bool-cases (outside w sample.timestamp)) [
    | inl o ↦ let (out, e1, e2) = scan-run s h rest l e (rw o at r) in (out, rw o e1, e2)
    | inr o ↦
        let (s1, r1, r2) = >>=-eq-some (scan_tick cap w s (sampled sample)) _ r in
        let (p, e1, e2) = scan_tick-observe s sample o r1 in
        let start : State W = record s { engine = p.0; agg = aggregate s.agg sample } in
        let (k1, k2) = take_transitions-latest start h p.1 l e in
        let (out, q1, q2) = scan-run s1 (h ++ p.1) rest l (rw (← e2) k1) r2 in
        let q : run p.0 (keep in_window rest) ≡ some (s'.engine, out) = rw (← e2, k2) at q1 in
        (p.1 ++ out, rw (o, e1, q) refl, q2 ∙ ap (latest cap) (append_assoc h p.1 out))
  ]
