-- ===== src/Digest/Retained.antt =====
-- The gaps that are retained are the largest of those found.
use mathlib.Core.Path.{subst}
use mathlib.Core.List.{append-nil, append_assoc, Sublist, sublist-cons_self, sublist-append_left}
use mathlib.Core.List.Sublist
use sensorwatch.Prelude.{
  ℕ, zero, suc, ◌+◌, ◌≤◌, ◌<◌, ◌≡◌, refl, sym, ap, ◌∙◌, ◌⊎◌, inl, inr, List, [], ◌∷◌, ◌++◌, arith,
  ltb, length, length-append, All, All-append, All-map_weaken, Bool-cases, min,
}
use sensorwatch.Digest.Gaps.{Gap, seconds_at, min_index, remove, push_retained}

-- a lower bound for the pauses of a list
abbrev pub AtLeast : ℕ → List Gap → Type 0
AtLeast n gs = All (λ (g : Gap). n ≤ g.seconds) gs

seconds_at_middle :
    (done : List Gap) (g : Gap) (rest : List Gap)
    → seconds_at (done ++ (g ∷ rest)) (length done) ≡ g.seconds
unfolding seconds_at
seconds_at_middle [] g rest = refl
seconds_at_middle (d ∷ done) g rest = seconds_at_middle done g rest

pub AtLeast-weaken : (n m : ℕ) (gs : List Gap) → n ≤ m → AtLeast m gs → AtLeast n gs
AtLeast-weaken n m gs h =
    All-map_weaken (λ (g : Gap). m ≤ g.seconds) (λ (g : Gap). n ≤ g.seconds) (λ g k. omega arith) gs

-- the loop keeps the index of a smallest gap among those that it has passed
min_index_lem :
    (gaps done rest : List Gap) (best : ℕ)
    → gaps ≡ done ++ rest
    → best < length gaps
    → AtLeast (seconds_at gaps best) done
    → let i = min_index gaps best (length done) rest in
      (i < length gaps) × AtLeast (seconds_at gaps i) gaps
unfolding min_index
min_index_lem gaps done [] best e h a =
    (h, subst (AtLeast (seconds_at gaps best)) (sym (e ∙ append-nil done)) a)
min_index_lem gaps done (g ∷ rest) best e h a =
    let here : seconds_at gaps (length done) ≡ g.seconds = rw e (seconds_at_middle done g rest) in
    let inside : length done < length gaps =
      omega (arith, ap length e, length-append done (g ∷ rest)) in
    let next = done ++ (g ∷ []) in
    let split : gaps ≡ next ++ rest = e ∙ sym (append_assoc done (g ∷ []) rest) in
    let go = λ (b : ℕ) (hb : b < length gaps) (ab : AtLeast (seconds_at gaps b) next).
      rw (length-append done (g ∷ [])) at (min_index_lem gaps next rest b split hb ab) in
    elim (Bool-cases (ltb g.seconds (seconds_at gaps best))) [
      | inl less ↦ rw less (
          go (length done) inside (
            All-append (λ (x : Gap). seconds_at gaps (length done) ≤ x.seconds) done (g ∷ [])
              (AtLeast-weaken (seconds_at gaps (length done)) (seconds_at gaps best) done
                (ground arith) a)
              (omega arith, tt)))
      | inr more ↦ rw more (
          go best h (
            All-append (λ (x : Gap). seconds_at gaps best ≤ x.seconds) done (g ∷ []) a
              (ground arith, tt)))
    ]

pub smallest :
    (g : Gap) (gs : List Gap)
    → let gaps = g ∷ gs in
      let i = min_index gaps 0 0 gaps in (i < length gaps) × AtLeast (seconds_at gaps i) gaps
smallest g gs = min_index_lem (g ∷ gs) [] (g ∷ gs) 0 refl (omega arith) tt

length-remove : (i : ℕ) (gs : List Gap) → i < length gs → length (remove i gs) + 1 ≡ length gs
unfolding remove
length-remove i [] h = elim h [ ]
length-remove zero (g ∷ gs) h = omega arith
length-remove (suc i) (g ∷ gs) h = omega (arith, length-remove i gs)

pub length-push_retained :
    (cap : ℕ) (gaps : List Gap) (gap : Gap)
    → 0 < cap
    → length gaps ≤ cap
    → length (push_retained cap gaps gap) ≡ min cap (length gaps + 1)
unfolding push_retained
length-push_retained cap [] gap c h = ground arith
length-push_retained cap (g ∷ gs) gap c h =
    let room = length-append (g ∷ gs) (gap ∷ []) in
    let i = min_index (g ∷ gs) 0 0 (g ∷ gs) in
    ground (
      arith,
      room,
      length-append (remove i (g ∷ gs)) (gap ∷ []),
      length-remove i (g ∷ gs) (smallest g gs).0,
    )

-- the retained gaps after a list of them
unfoldable pub retain_all : ℕ → List Gap → List Gap → List Gap
unfolding push_retained
retain_all cap kept [] = kept
retain_all cap kept (g ∷ gs) = retain_all cap (push_retained cap kept g) gs

remove-sublist : (i : ℕ) (gs : List Gap) → Sublist (remove i gs) gs
unfolding remove
remove-sublist i [] = Sublist.refl []
remove-sublist zero (g ∷ gs) = sublist-cons_self g gs
remove-sublist (suc i) (g ∷ gs) = Sublist.cons-cons g (remove-sublist i gs)

push_retained-sublist :
    (cap : ℕ) (gaps : List Gap) (gap : Gap)
    → Sublist (push_retained cap gaps gap) (gaps ++ (gap ∷ []))
unfolding push_retained
push_retained-sublist cap gaps gap = elim (Bool-cases (ltb (length gaps) cap)) [
  | inl e ↦ rw e (Sublist.refl _)
  | inr e ↦
      let i = min_index gaps 0 0 gaps in
      elim (Bool-cases (ltb (seconds_at gaps i) gap.seconds)) [
        | inl e' ↦ rw (e, e') (Sublist.append (remove-sublist i gaps) (Sublist.refl (gap ∷ [])))
        | inr e' ↦ rw (e, e') (sublist-append_left gaps (gap ∷ []))
      ]
]

-- The retained gaps stand in the order in which they were found.
pub retain_all-sublist :
    (cap : ℕ) (kept gs : List Gap) → Sublist (retain_all cap kept gs) (kept ++ gs)
unfolding retain_all
retain_all-sublist cap kept [] = rw (append-nil kept) (Sublist.refl kept)
retain_all-sublist cap kept (g ∷ gs) =
    Sublist.trans (retain_all-sublist cap (push_retained cap kept g) gs) (
      rw (← append_assoc kept (g ∷ []) gs)
        (Sublist.append (push_retained-sublist cap kept g) (Sublist.refl gs)))

abbrev pub In : Gap → List Gap → Type 0
In g [] = ⊥
In g (x ∷ xs) = (g ≡ x) ⊎ In g xs

pub In-append_left : (g : Gap) (xs ys : List Gap) → In g xs → In g (xs ++ ys)
In-append_left g [] ys h = absurd h
In-append_left g (x ∷ xs) ys (inl e) = inl e
In-append_left g (x ∷ xs) ys (inr m) = inr (In-append_left g xs ys m)

pub In-append_self : (g : Gap) (xs : List Gap) → In g (xs ++ (g ∷ []))
In-append_self g [] = inl refl
In-append_self g (x ∷ xs) = inr (In-append_self g xs)

In-remove :
    (g : Gap) (i : ℕ) (gs : List Gap) → In g gs → In g (remove i gs) ⊎ (g.seconds ≡ seconds_at gs i)
unfolding remove seconds_at
In-remove g i [] h = absurd h
In-remove g zero (x ∷ gs) (inl e) = inr (ap (λ (y : Gap). y.seconds) e)
In-remove g zero (x ∷ gs) (inr m) = inl m
In-remove g (suc i) (x ∷ gs) (inl e) = inl (inl e)
In-remove g (suc i) (x ∷ gs) (inr m) = elim (In-remove g i gs m) [
  | inl k ↦ inl (inr k)
  | inr k ↦ inr k
]

AtLeast-remove : (n i : ℕ) (gs : List Gap) → AtLeast n gs → AtLeast n (remove i gs)
unfolding remove
AtLeast-remove n i [] h = tt
AtLeast-remove n zero (g ∷ gs) h = h.1
AtLeast-remove n (suc i) (g ∷ gs) h = (h.0, AtLeast-remove n i gs h.1)

AtLeast-seconds_at : (n i : ℕ) (gs : List Gap) → i < length gs → AtLeast n gs → n ≤ seconds_at gs i
unfolding seconds_at
AtLeast-seconds_at n i [] l h = elim l [ ]
AtLeast-seconds_at n zero (g ∷ gs) l h = h.0
AtLeast-seconds_at n (suc i) (g ∷ gs) l h = AtLeast-seconds_at n i gs (omega arith) h.1

-- The gap is retained, or the list is full of gaps that are no shorter.
abbrev pub Settled : ℕ → List Gap → Gap → Type 0
Settled cap kept g = In g kept ⊎ ((cap ≤ length kept) × AtLeast g.seconds kept)

module _ (cap : ℕ) (x k : Gap) (ks : List Gap) (full : cap ≤ length (k ∷ ks)) where
  abbrev pub kept : List Gap
  kept = k ∷ ks

  abbrev pub least : ℕ
  least = min_index kept 0 0 kept

  abbrev pub replaced : List Gap
  replaced = remove least kept ++ (x ∷ [])

  replaced_full : cap ≤ length replaced
  replaced_full = omega (
    arith,
    length-append (remove least kept) (x ∷ []),
    length-remove least kept (smallest k ks).0,
  )

  replaced_least :
      (n : ℕ) → n ≤ seconds_at kept least → seconds_at kept least < x.seconds → AtLeast n replaced
  replaced_least n h l =
      All-append (λ (y : Gap). n ≤ y.seconds) (remove least kept) (x ∷ [])
        (AtLeast-weaken n (seconds_at kept least) (remove least kept) h
          (AtLeast-remove (seconds_at kept least) least kept (smallest k ks).1))
        (omega arith, tt)

  pub Settled-replaced :
      (g : Gap) → seconds_at kept least < x.seconds → Settled cap kept g → Settled cap replaced g
  Settled-replaced g l (inl m) = elim (In-remove g least kept m) [
    | inl m' ↦ inl (In-append_left g (remove least kept) (x ∷ []) m')
    | inr e ↦ inr (replaced_full, replaced_least g.seconds (omega arith) l)
  ]
  Settled-replaced g l (inr (_, a)) = inr (
    replaced_full,
    replaced_least g.seconds (AtLeast-seconds_at g.seconds least kept (smallest k ks).0 a) l,
  )
