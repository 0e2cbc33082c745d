-- ===== src/Digest/Shrink.antt =====
-- `fit` as a whole: dropping more never makes the digest longer, for a renderer that does not print
-- more for less.
use sensorwatch.Prelude.{
  ℕ, zero, suc, ◌+◌, ◌≤◌, ◌<◌, ◌≡◌, refl, ◌↔◌, true, List, [], ◌∷◌, arith, leb, length, take, drop,
  Bool-cases, inl, inr,
}
use mathlib.Core.List.{Sublistᴰ}
use sensorwatch.Prelude.Text.{Text}
use sensorwatch.Event.{Event}
use sensorwatch.Digest.Gaps.{Gap}
use sensorwatch.Digest.Rows.{ReadingRow}
use sensorwatch.Digest.Fit.{
  Assembled, Digest, meta_with, surviving, render_at, drop_order, position, indices, fitting,
  overflowing, fit,
}
use sensorwatch.Digest.Search.{Shrinks, Smallest, fit_renders-Smallest, fit_renders-overflows}

module _ {ℓ} {A : Type ℓ} where
  sublist_self : (xs : List A) → Sublistᴰ xs xs
  sublist_self [] = Sublistᴰ.slnil
  sublist_self (x ∷ xs) = Sublistᴰ.cons-cons refl (sublist_self xs)

  sublist_nil : (xs : List A) → Sublistᴰ [] xs
  sublist_nil [] = Sublistᴰ.slnil
  sublist_nil (x ∷ xs) = Sublistᴰ.cons (sublist_nil xs)

  take-Sublist : (m n : ℕ) (xs : List A) → m ≤ n → Sublistᴰ (take m xs) (take n xs)
  take-Sublist zero n xs l = sublist_nil (take n xs)
  take-Sublist (suc m) zero xs l = absurd (omega arith)
  take-Sublist (suc m) (suc n) [] l = Sublistᴰ.slnil
  take-Sublist (suc m) (suc n) (x ∷ xs) l =
      Sublistᴰ.cons-cons refl (take-Sublist m n xs (omega arith))

  drop_sublist : (n : ℕ) (xs : List A) → Sublistᴰ (drop n xs) xs
  drop_sublist zero xs = sublist_self xs
  drop_sublist (suc n) [] = Sublistᴰ.slnil
  drop_sublist (suc n) (x ∷ xs) = Sublistᴰ.cons (drop_sublist n xs)

  drop-Sublist : (m n : ℕ) (xs : List A) → m ≤ n → Sublistᴰ (drop n xs) (drop m xs)
  drop-Sublist zero n xs l = drop_sublist n xs
  drop-Sublist (suc m) zero xs l = absurd (omega arith)
  drop-Sublist (suc m) (suc n) [] l = Sublistᴰ.slnil
  drop-Sublist (suc m) (suc n) (x ∷ xs) l = drop-Sublist m n xs (omega arith)

surviving-Sublist :
    (rank : ℕ → ℕ) (d e i : ℕ) (gs : List Gap)
    → d ≤ e
    → Sublistᴰ (surviving rank e i gs) (surviving rank d i gs)
unfolding surviving
surviving-Sublist rank d e i [] l = Sublistᴰ.slnil
surviving-Sublist rank d e i (g ∷ gs) l = elim (Bool-cases (leb e (rank i))) [
  | inl a ↦
      let b : leb d (rank i) ≡ true = ground arith in
      rw (a, b) (Sublistᴰ.cons-cons refl (surviving-Sublist rank d e (i + 1) gs l))
  | inr a ↦ elim (Bool-cases (leb d (rank i))) [
    | inl b ↦ rw (a, b) (Sublistᴰ.cons (surviving-Sublist rank d e (i + 1) gs l))
    | inr b ↦ rw (a, b) (surviving-Sublist rank d e (i + 1) gs l)
  ]
]

module _ {W : Type 0} where
  -- the digest of given rows, violations and gaps
  abbrev pub digest_of : Assembled W → List (ReadingRow W) → List (Event W) → List Gap → Digest W
  digest_of a rows violations gaps = record {
    schema_version = 1;
    head = meta_with a (length rows) (length violations) (length gaps);
    violations = violations;
    gaps = gaps;
    readings = rows;
  }

  -- A renderer whose output does not grow when rows, violations or gaps are left out.
  abbrev pub PrintsLess : (Digest W → ℕ → Text) → Type 0
  PrintsLess to_json =
      (a : Assembled W) (indent : ℕ) (rows rows' : List (ReadingRow W)) (vs vs' : List (Event W))
      (gs gs' : List Gap)
      → Sublistᴰ rows' rows
      → Sublistᴰ vs' vs
      → Sublistᴰ gs' gs
      → length (to_json (digest_of a rows' vs' gs') indent)
        ≤ length (to_json (digest_of a rows vs gs) indent)

  module _ (to_json : Digest W → ℕ → Text) (law : PrintsLess to_json) (a : Assembled W) where
    render_at-Shrinks :
        (rank : ℕ → ℕ) (indent n : ℕ) → Shrinks (λ k. render_at to_json a rank k indent) n
    unfolding render_at
    render_at-Shrinks rank indent n j k l _ =
        law a indent _ _ _ _ _ _ (take-Sublist _ _ a.rows (omega arith))
          (drop-Sublist _ _ a.violations (omega arith))
          (surviving-Sublist rank _ _ 0 a.gaps (omega arith))

    -- the rendering after `k` drops, and how many there can be
    abbrev pub rendering : ℕ → ℕ → Text
    rendering indent k =
        render_at to_json a (λ i. position i (drop_order a.gaps (indices 0 (length a.gaps)))) k
          indent

    abbrev pub droppable : ℕ
    droppable = length a.rows + length a.gaps + length a.violations

    -- If the renderer does not print more for less, the digest that `fit` returns is at most `max_bytes`
    -- long and is the rendering of the smallest number of drops that fits.
    pub fit-Smallest :
        (max_bytes indent : ℕ) {out : Text}
        → fit to_json a max_bytes indent ≡ fitting out
        → (k : ℕ) × Smallest (rendering indent) max_bytes droppable out k
    unfolding fit
    fit-Smallest max_bytes indent e =
        fit_renders-Smallest (rendering indent) max_bytes droppable
          (render_at-Shrinks _ indent droppable) e

    -- If the renderer does not print more for less, `fit` fails exactly when the digest overflows with
    -- everything dropped, and then with its length.
    pub fit-overflows :
        (max_bytes indent m : ℕ)
        → (fit to_json a max_bytes indent ≡ overflowing m)
          ↔ ((length (rendering indent droppable) ≡ m) × (max_bytes < m))
    unfolding fit
    fit-overflows max_bytes indent m =
        fit_renders-overflows (rendering indent) max_bytes droppable
          (render_at-Shrinks _ indent droppable) m

-- The length of a part of a list is at most that of the list.
pub length_sublist {ℓ} : {A : Type ℓ} (xs ys : List A) → Sublistᴰ xs ys → length xs ≤ length ys
length_sublist _ _ Sublistᴰ.slnil = omega arith
length_sublist xs _ (Sublistᴰ.cons {l₂ = ys} s) = omega (arith, length_sublist xs ys s)
length_sublist _ _ (Sublistᴰ.cons-cons {l₁ = xs} {l₂ = ys} e s) =
    omega (arith, length_sublist xs ys s)
