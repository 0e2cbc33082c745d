-- ===== src/Prelude/Order.antt =====
-- Total orders, Rust's `Ord`: numbers, lists compared lexicographically (a `String`, whose byte order
-- is the order of its code points) and pairs.
use Prim.Native.Nat.{ℕ, compare, Ordering}
use mathlib.Core.Path.{◌≡◌, refl}
use mathlib.Core.Bool.{Bool, true, false}
use mathlib.Core.Logic.{◌↔◌}
use mathlib.Core.List.{List, [], ◌∷◌}
use native.Mathlib.Omega.{arith}

abbrev pub flip : Ordering → Ordering
flip Ordering.lt = Ordering.gt
flip Ordering.eq = Ordering.eq
flip Ordering.gt = Ordering.lt

-- `Ordering::then`
abbrev pub then_cmp : Ordering → Ordering → Ordering
then_cmp Ordering.lt o = Ordering.lt
then_cmp Ordering.eq o = o
then_cmp Ordering.gt o = Ordering.gt

pub record Ord {ℓ} (A : Type ℓ) : Type ℓ where
  pub cmp : A → A → Ordering
  pub eq_of_cmp : (a b : A) → cmp a b ≡ Ordering.eq → a ≡ b
  pub cmp_refl : (a : A) → cmp a a ≡ Ordering.eq
  pub cmp_flip : (a b : A) → cmp b a ≡ flip (cmp a b)
  pub lt_trans : (a b c : A) → cmp a b ≡ Ordering.lt → cmp b c ≡ Ordering.lt → cmp a c ≡ Ordering.lt

abbrev pub is_eq : Ordering → Bool
is_eq Ordering.eq = true
is_eq _ = false

-- `==` of a type with an order
abbrev pub same {ℓ} : {A : Type ℓ} ⦃o : Ord A⦄ → A → A → Bool
same ⦃o⦄ a b = is_eq (o.cmp a b)

pub same_iff {ℓ} : {A : Type ℓ} ⦃o : Ord A⦄ (a b : A) → (same a b ≡ true) ↔ (a ≡ b)
same_iff ⦃o⦄ a b = (λ h. o.eq_of_cmp a b (ground arith), λ e. rw (e, o.cmp_refl b))

pub same_refl {ℓ} : {A : Type ℓ} ⦃o : Ord A⦄ (a : A) → same a a ≡ true
same_refl ⦃o⦄ a = rw (o.cmp_refl a)

pub compare_eq : (a b : ℕ) → compare a b ≡ Ordering.eq → a ≡ b
compare_eq a b h = ground arith

pub compare_refl : (a : ℕ) → compare a a ≡ Ordering.eq
compare_refl a = ground arith

pub compare-flip : (a b : ℕ) → compare b a ≡ flip (compare a b)
compare-flip a b = ground arith

pub compare_trans :
    (a b c : ℕ) → compare a b ≡ Ordering.lt → compare b c ≡ Ordering.lt → compare a c ≡ Ordering.lt
compare_trans a b c h k = ground arith

instance abbrev pub nat_ord : Ord ℕ
nat_ord = record {
  cmp = compare;
  eq_of_cmp = compare_eq;
  cmp_refl = compare_refl;
  cmp_flip = compare-flip;
  lt_trans = compare_trans;
}

module _ {ℓ} {A : Type ℓ} ⦃o : Ord A⦄ where
  abbrev pub cmp_list : List A → List A → Ordering
  cmp_list [] [] = Ordering.eq
  cmp_list [] (y ∷ ys) = Ordering.lt
  cmp_list (x ∷ xs) [] = Ordering.gt
  cmp_list (x ∷ xs) (y ∷ ys) = then_cmp (o.cmp x y) (cmp_list xs ys)

  pub cmp_list_eq : (a b : List A) → cmp_list a b ≡ Ordering.eq → a ≡ b
  cmp_list_eq [] [] h = refl
  cmp_list_eq [] (y ∷ ys) h = cc
  cmp_list_eq (x ∷ xs) [] h = cc
  cmp_list_eq (x ∷ xs) (y ∷ ys) h = ground (arith, o.eq_of_cmp x y, cmp_list_eq xs ys)

  pub cmp_list_refl : (a : List A) → cmp_list a a ≡ Ordering.eq
  cmp_list_refl [] = refl
  cmp_list_refl (x ∷ xs) = rw (o.cmp_refl x) (cmp_list_refl xs)

  pub cmp_list-flip : (a b : List A) → cmp_list b a ≡ flip (cmp_list a b)
  cmp_list-flip [] [] = refl
  cmp_list-flip [] (y ∷ ys) = refl
  cmp_list-flip (x ∷ xs) [] = refl
  cmp_list-flip (x ∷ xs) (y ∷ ys) = ground (arith, o.cmp_flip x y, cmp_list-flip xs ys)

  pub cmp_list_trans :
      (a b c : List A)
      → cmp_list a b ≡ Ordering.lt
      → cmp_list b c ≡ Ordering.lt
      → cmp_list a c ≡ Ordering.lt
  cmp_list_trans [] [] c h k = cc
  cmp_list_trans [] (y ∷ ys) [] h k = cc
  cmp_list_trans [] (y ∷ ys) (z ∷ zs) h k = refl
  cmp_list_trans (x ∷ xs) [] c h k = cc
  cmp_list_trans (x ∷ xs) (y ∷ ys) [] h k = cc
  cmp_list_trans (x ∷ xs) (y ∷ ys) (z ∷ zs) h k = ground (
    arith,
    o.lt_trans x y z,
    o.eq_of_cmp x y,
    o.eq_of_cmp y z,
    o.cmp_refl y,
    cmp_list_trans xs ys zs,
  )

  instance abbrev pub list_ord : Ord (List A)
  list_ord = record {
    cmp = cmp_list;
    eq_of_cmp = cmp_list_eq;
    cmp_refl = cmp_list_refl;
    cmp_flip = cmp_list-flip;
    lt_trans = cmp_list_trans;
  }

module _ {ℓ} {A B : Type ℓ} ⦃oa : Ord A⦄ ⦃ob : Ord B⦄ where
  abbrev pub cmp_pair : A × B → A × B → Ordering
  cmp_pair p q = then_cmp (oa.cmp p.0 q.0) (ob.cmp p.1 q.1)

  pub cmp_pair_eq : (p q : A × B) → cmp_pair p q ≡ Ordering.eq → p ≡ q
  cmp_pair_eq (a, b) (c, d) h = ground (arith, oa.eq_of_cmp a c, ob.eq_of_cmp b d)

  pub cmp_pair_refl : (p : A × B) → cmp_pair p p ≡ Ordering.eq
  cmp_pair_refl (a, b) = rw (oa.cmp_refl a) (ob.cmp_refl b)

  pub cmp_pair-flip : (p q : A × B) → cmp_pair q p ≡ flip (cmp_pair p q)
  cmp_pair-flip (a, b) (c, d) = ground (arith, oa.cmp_flip a c, ob.cmp_flip b d)

  pub cmp_pair_trans :
      (p q r : A × B)
      → cmp_pair p q ≡ Ordering.lt
      → cmp_pair q r ≡ Ordering.lt
      → cmp_pair p r ≡ Ordering.lt
  cmp_pair_trans (a, b) (c, d) (e, f) h k = ground (
    arith,
    oa.lt_trans a c e,
    oa.eq_of_cmp a c,
    oa.eq_of_cmp c e,
    oa.cmp_refl c,
    ob.lt_trans b d f,
  )

  instance abbrev pub pair_ord : Ord (A × B)
  pair_ord = record {
    cmp = cmp_pair;
    eq_of_cmp = cmp_pair_eq;
    cmp_refl = cmp_pair_refl;
    cmp_flip = cmp_pair-flip;
    lt_trans = cmp_pair_trans;
  }
