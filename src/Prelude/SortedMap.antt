-- ===== src/Prelude/SortedMap.antt =====
-- `BTreeMap`: an association list in key order. `get` and `put` are its lookup and insertion, and
-- `Ascends` is the order in which it is iterated.
use Prim.Native.Nat.{Ordering}
use mathlib.Core.Path.{◌≡◌, refl}
use mathlib.Core.Option.{Option, none, some}
use mathlib.Core.List.{List, [], ◌∷◌}
use native.Mathlib.Omega.{arith}
use sensorwatch.Prelude.Tests.{if◌then◌else◌}
use sensorwatch.Prelude.Order.{Ord, same, same_iff}

abbrev pub SortedMap {ℓ κ} : Type ℓ → Type κ → Type (ℓ ⊔ κ)
SortedMap K V = List (K × V)

module _ {ℓ κ} {K : Type ℓ} {V : Type κ} ⦃o : Ord K⦄ where
  unfoldable pub get : K → SortedMap K V → Option V
  get k [] = none
  get k ((j, v) ∷ m) = if same j k then some v else get k m

  abbrev place : Ordering → K → V → K → V → SortedMap K V → SortedMap K V → SortedMap K V
  place Ordering.lt k v j w m rest = (k, v) ∷ (j, w) ∷ m
  place Ordering.eq k v j w m rest = (k, v) ∷ m
  place Ordering.gt k v j w m rest = (j, w) ∷ rest

  unfoldable pub put : K → V → SortedMap K V → SortedMap K V
  put k v [] = (k, v) ∷ []
  put k v ((j, w) ∷ m) = place (o.cmp k j) k v j w m (put k v m)

  pub get-put :
      (j k : K) (v : V) (m : SortedMap K V)
      → get j (put k v m) ≡ (if same k j then some v else get j m)
  unfolding get put
  get-put j k v [] = refl
  get-put j k v ((i, w) ∷ m) = ground (
    arith,
    get-put j k v m,
    same_iff i j,
    same_iff k j,
    o.cmp_refl j,
    o.eq_of_cmp k i,
    o.eq_of_cmp i j,
    o.eq_of_cmp k j,
    o.cmp_flip k j,
  )

  -- every key of the map comes after `k`
  abbrev pub Below : K → SortedMap K V → Type 0
  Below k [] = Unit {0}
  Below k ((j, w) ∷ m) = (o.cmp k j ≡ Ordering.lt) × Below k m

  abbrev pub Ascends : SortedMap K V → Type 0
  Ascends [] = Unit {0}
  Ascends ((k, v) ∷ m) = Below k m × Ascends m

  Below-trans : (i j : K) (m : SortedMap K V) → o.cmp i j ≡ Ordering.lt → Below j m → Below i m
  Below-trans i j [] h b = tt
  Below-trans i j ((k, v) ∷ m) h (b, bs) = (o.lt_trans i j k h b, Below-trans i j m h bs)

  Below-of_eq : (k j : K) (m : SortedMap K V) → Below j m → k ≡ j → Below k m
  Below-of_eq k j m b e = rw e b

  Below-put :
      (j k : K) (v : V) (m : SortedMap K V)
      → o.cmp j k ≡ Ordering.lt
      → Below j m
      → Below j (put k v m)
  unfolding put
  Below-put j k v [] h b = (h, tt)
  Below-put j k v ((i, w) ∷ m) h (b, bs) = ground (arith, Below-put j k v m h bs)

  -- Insertion keeps the order.
  pub Ascends-put : (k : K) (v : V) (m : SortedMap K V) → Ascends m → Ascends (put k v m)
  unfolding put
  Ascends-put k v [] h = (tt, tt)
  Ascends-put k v ((j, w) ∷ m) (b, h) = ground (
    arith,
    Ascends-put k v m h,
    Below-put j k v m,
    o.cmp_flip k j,
    Below-trans k j m,
    o.eq_of_cmp k j,
    Below-of_eq k j m b,
  )
