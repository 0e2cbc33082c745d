-- ===== src/Digest/Search.antt =====
-- What the binary search of `fit` finds.
use sensorwatch.Prelude.{
  ℕ, zero, suc, ◌+◌, ◌-◌, ◌/◌, ◌≤◌, ◌<◌, ◌≡◌, sym, ap, ◌↔◌, inl, inr, arith, leb, ltb, ◌==◌, length,
  Bool-cases, ltb→lt, leb→le,
}
use sensorwatch.Prelude.Text.{Text}
use sensorwatch.Digest.Fit.{fitting, overflowing, narrow, fit_renders}

-- Renderings get no longer as more is dropped.
abbrev pub Shrinks : (ℕ → Text) → ℕ → Type 0
Shrinks render n = (j k : ℕ) → j ≤ k → k ≤ n → length (render k) ≤ length (render j)

-- `k` is the smallest drop count whose rendering fits.
pub record Smallest (render : ℕ → Text) (max_bytes n : ℕ) (out : Text) (k : ℕ) : Type 0 where
  pub rendered : out ≡ render k
  pub within : k ≤ n
  pub fits : length out ≤ max_bytes
  pub least : (j : ℕ) → j < k → max_bytes < length (render j)

module _ (render : ℕ → Text) (max_bytes n : ℕ) (shrinks : Shrinks render n) where
  narrow-Smallest :
      (fuel lo hi : ℕ) {out : Text}
      → hi ≤ lo + fuel
      → lo ≤ hi
      → hi ≤ n
      → length (render hi) ≤ max_bytes
      → ((j : ℕ) → j < lo → max_bytes < length (render j))
      → narrow render max_bytes fuel lo hi (render hi) ≡ out
      → (k : ℕ) × Smallest render max_bytes n out k
  unfolding narrow
  narrow-Smallest zero lo hi {out} f l h ok low eq =
      let same_out : render hi ≡ out = eq in
      (
        hi,
        record {
          rendered = sym same_out;
          within = h;
          fits = rw (← same_out) ok;
          least = λ j b. low j (omega arith);
        },
      )
  narrow-Smallest (suc fuel) lo hi {out} f l h ok low eq =
      let mid : ℕ = lo + (hi - lo) / 2 in
      elim (Bool-cases (ltb lo hi)) [
        | inr e ↦
            let same_out : render hi ≡ out = rw (narrow, e) at eq in
            (
              hi,
              record {
                rendered = sym same_out;
                within = h;
                fits = rw (← same_out) ok;
                least = λ j b. low j (ground arith);
              },
            )
        | inl e ↦
            let less : lo < hi = ltb→lt lo hi e in
            elim (Bool-cases (leb (length (render mid)) max_bytes)) [
              | inl e' ↦
                  narrow-Smallest fuel lo mid (omega arith) (omega arith) (omega arith)
                    (leb→le _ _ e') low (rw (narrow, e, e') at eq)
              | inr e' ↦
                  narrow-Smallest fuel (mid + 1) hi (omega arith) (omega arith) h ok
                    (λ j b. ground (arith, shrinks j mid (omega arith) (omega arith)))
                    (rw (narrow, e, e') at eq)
            ]
      ]

  -- If the renderings get no longer as more is dropped, the digest that `fit_renders` returns is at most
  -- `max_bytes` long and is the rendering of the smallest drop count that fits.
  pub fit_renders-Smallest :
      {out : Text}
      → fit_renders render n max_bytes ≡ fitting out
      → (k : ℕ) × Smallest render max_bytes n out k
  unfolding fit_renders
  fit_renders-Smallest {out} e = elim (Bool-cases (leb (length (render 0)) max_bytes)) [
    | inl a ↦
        let same_out : render 0 ≡ out = ground arith in
        (
          0,
          record {
            rendered = sym same_out;
            within = omega arith;
            fits = rw (← same_out) (leb→le _ _ a);
            least = λ j b. absurd (omega arith);
          },
        )
    | inr a ↦ elim (Bool-cases (n == 0)) [
      | inl z ↦ absurd (ground arith)
      | inr z ↦ elim (Bool-cases (ltb max_bytes (length (render n)))) [
        | inl b ↦ absurd (ground arith)
        | inr b ↦
            narrow-Smallest n 1 n (omega arith) (ground arith) (omega arith) (ground arith)
              (λ j c. let first : j ≡ 0 = omega arith in rw first (ground arith)) (ground arith)
      ]
    ]
  ]

  -- `fit_renders` fails exactly when the digest overflows with everything dropped, and then with its length.
  pub fit_renders-overflows :
      (m : ℕ)
      → (fit_renders render n max_bytes ≡ overflowing m)
        ↔ ((length (render n) ≡ m) × (max_bytes < m))
  unfolding fit_renders
  fit_renders-overflows m = elim (Bool-cases (n == 0)) [
    | inl z ↦
        let same_length : length (render n) ≡ length (render 0) =
          ap (λ k. length (render k)) (ground arith) in
        (λ e. ground (arith, same_length), λ (l, b). ground (arith, same_length))
    | inr z ↦ (λ e. ground arith, λ (l, b). ground (arith, shrinks 0 n (omega arith) (omega arith)))
  ]
