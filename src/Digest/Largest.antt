-- ===== src/Digest/Largest.antt =====
-- No gap that was dropped is longer than one that is retained.
use sensorwatch.Prelude.{
  ℕ, ◌≤◌, ◌<◌, refl, inl, inr, List, [], ◌∷◌, ◌++◌, arith, ltb, length, All, Bool-cases, lt→ltb,
}
use sensorwatch.Digest.Gaps.{Gap, seconds_at, min_index, remove, push_retained}
use sensorwatch.Digest.Retained.{
  In-append_left, In-append_self, Settled, Settled-replaced, AtLeast-weaken, smallest, retain_all,
}

room_old :
    (cap : ℕ) (gaps : List Gap) (x g : Gap)
    → length gaps < cap
    → Settled cap gaps g
    → Settled cap (gaps ++ (x ∷ [])) g
room_old cap gaps x g l (inl m) = inl (In-append_left g gaps (x ∷ []) m)
room_old cap gaps x g l (inr (f, a)) = absurd (omega arith)

-- One more gap leaves every earlier one settled, and settles the new one.
push_retained-Settled :
    (cap : ℕ) (gaps : List Gap) (x : Gap)
    → 0 < cap
    → ((g : Gap) → Settled cap gaps g → Settled cap (push_retained cap gaps x) g)
      × Settled cap (push_retained cap gaps x) x
unfolding push_retained
push_retained-Settled cap [] x c =
    rw (lt→ltb 0 cap c) (λ g h. room_old cap [] x g c h, inl (inl refl))
push_retained-Settled cap (k ∷ ks) x c = elim (Bool-cases (ltb (length (k ∷ ks)) cap)) [
  | inl e ↦
      rw e (λ g h. room_old cap (k ∷ ks) x g (ground arith) h, inl (In-append_self x (k ∷ ks)))
  | inr e ↦
      let full : cap ≤ length (k ∷ ks) = ground arith in
      let i = min_index (k ∷ ks) 0 0 (k ∷ ks) in
      elim (Bool-cases (ltb (seconds_at (k ∷ ks) i) x.seconds)) [
        | inl e' ↦
            rw (e, e')
              (
                λ g h. Settled-replaced cap x k ks full g (ground arith) h,
                inl (In-append_self x (remove i (k ∷ ks))),
              )
        | inr e' ↦
            rw (e, e')
              (
                λ g h. h,
                inr (
                  full,
                  AtLeast-weaken x.seconds (seconds_at (k ∷ ks) i) (k ∷ ks) (ground arith)
                      (smallest k ks).1,
                ),
              )
      ]
]

-- Every gap that was found is retained, unless as many gaps as the cap allows are, all of them at
-- least as long.
pub retain_all-Settled :
    (cap : ℕ) (gs : List Gap) → 0 < cap → All (Settled cap (retain_all cap [] gs)) gs
unfolding retain_all
retain_all-Settled cap gs c = (later [] gs).1
  where
    later :
        (kept gs : List Gap)
        → ((g : Gap) → Settled cap kept g → Settled cap (retain_all cap kept gs) g)
          × All (Settled cap (retain_all cap kept gs)) gs
    later kept [] = (λ g h. h, tt)
    later kept (x ∷ gs) =
        let (old, new) = push_retained-Settled cap kept x c in
        let (old', new') = later (push_retained cap kept x) gs in
        (λ g h. old' g (old g h), (old' x new, new'))
