-- ===== src/Prelude/Panic.antt =====
-- Code that can panic returns an `Option`, and `none` is the panic.
use mathlib.Core.Bool.{Bool, true, false}
use mathlib.Core.Option.{Option, none, some, some-injective}
use mathlib.Core.Path.{◌≡◌, refl, subst}
use sensorwatch.Prelude.Tests.{if◌then◌else◌}

infixl 5 ◌>>=◌
abbrev pub ◌>>=◌ {ℓ κ} : {A : Type ℓ} {B : Type κ} → Option A → (A → Option B) → Option B
none >>= f = none
some a >>= f = f a

abbrev pub map_some {ℓ κ} : {A : Type ℓ} {B : Type κ} → (A → B) → Option A → Option B
map_some f none = none
map_some f (some a) = some (f a)

-- What a run that did not panic did.
pub >>=-eq-some {ℓ κ} :
    {A : Type ℓ} {B : Type κ} (m : Option A) (f : A → Option B) {b : B}
    → (m >>= f) ≡ some b
    → (a : A) × (m ≡ some a) × (f a ≡ some b)
>>=-eq-some none f h = cc
>>=-eq-some (some a) f h = (a, refl, h)

pub bind_some {ℓ κ} :
    {A : Type ℓ} {B : Type κ} (m : Option A) (k : A → Option B) {a : A} {b : Option B}
    → m ≡ some a
    → k a ≡ b
    → (m >>= k) ≡ b
bind_some m k e h = rw e h

-- The code returns.
abbrev pub Returns {ℓ} : {A : Type ℓ} → Option A → Type ℓ
Returns {A} o = (a : A) × (o ≡ some a)

pub Returns-bind {ℓ κ} :
    {A : Type ℓ} {B : Type κ} (m : Option A) (k : A → Option B)
    → Returns m
    → ((a : A) → Returns (k a))
    → Returns (m >>= k)
Returns-bind m k (a, e) h = rw e (h a)

pub Returns-if {ℓ} :
    {A : Type ℓ} (b : Bool) (m n : Option A) → Returns m → Returns n → Returns (if b then m else n)
Returns-if true m n h k = h
Returns-if false m n h k = k

-- What the code returns, if it does, satisfies `P`.
abbrev pub Yields {ℓ κ} : {A : Type ℓ} → (A → Type κ) → Option A → Type (ℓ ⊔ κ)
Yields {A} P o = (a : A) → o ≡ some a → P a

pub Yields-some {ℓ κ} : {A : Type ℓ} (P : A → Type κ) (a : A) → P a → Yields P (some a)
Yields-some P a h b e = subst P (some-injective _ _ e) h

pub Yields-bind {ℓ κ μ} :
    {A : Type ℓ} {B : Type κ} (Q : A → Type μ) (P : B → Type μ) (m : Option A) (k : A → Option B)
    → Yields Q m
    → ((a : A) → Q a → Yields P (k a))
    → Yields P (m >>= k)
Yields-bind Q P m k h g b e = let (a, ea, eb) = >>=-eq-some m k e in g a (h a ea) b eb

pub Yields-if {ℓ κ} :
    {A : Type ℓ} (P : A → Type κ) (b : Bool) (m n : Option A)
    → Yields P m
    → Yields P n
    → Yields P (if b then m else n)
Yields-if P true m n h k = h
Yields-if P false m n h k = k
