-- ===== src/Logger/Contents.antt =====
-- rust/sensorwatch-cli/src/logger.rs: what a file holds after files are created and appended to.
use mathlib.Core.Path.{subst}
use sensorwatch.Prelude.{
  ◌≡◌, ◌∙◌, ap, refl, false, Option, none, some, [], ◌∷◌, ◌++◌, Bool-cases, inl, inr, arith,
}
use sensorwatch.Prelude.Panic.{map_some}
use sensorwatch.Prelude.Order.{list_ord, nat_ord, same, same_iff, same_refl}
use sensorwatch.Prelude.Text.{Text}
use sensorwatch.Logger.{Files, contents, create, append_to}

abbrev pub or_empty : Option Text → Text
or_empty none = []
or_empty (some bytes) = bytes

pub contents-create_same :
    (files : Files) (name : Text)
    → contents (create files name) name ≡ some (or_empty (contents files name))
unfolding contents create
contents-create_same [] name = rw (same_refl name) refl
contents-create_same ((n, bytes) ∷ files) name = elim (Bool-cases (same n name)) [
  | inl e ↦ rw (e, e) refl
  | inr e ↦ rw (e, e) (contents-create_same files name)
]

pub contents-create_other :
    (files : Files) (name m : Text)
    → same name m ≡ false
    → contents (create files name) m ≡ contents files m
unfolding contents create
contents-create_other [] name m h = rw h refl
contents-create_other ((n, bytes) ∷ files) name m h =
    ground (arith, contents-create_other files name m h)

pub contents-append_to_same :
    (files : Files) (name more : Text)
    → contents (append_to files name more) name ≡ map_some (λ b. b ++ more) (contents files name)
unfolding contents append_to
contents-append_to_same [] name more = refl
contents-append_to_same ((n, bytes) ∷ files) name more = elim (Bool-cases (same n name)) [
  | inl e ↦ rw (e, e) refl
  | inr e ↦ rw (e, e) (contents-append_to_same files name more)
]

pub contents-append_to_other :
    (files : Files) (name more m : Text)
    → same name m ≡ false
    → contents (append_to files name more) m ≡ contents files m
unfolding contents append_to
contents-append_to_other [] name more m h = refl
contents-append_to_other ((n, bytes) ∷ files) name more m h = elim (Bool-cases (same n name)) [
  | inl e ↦
      let p : same n m ≡ false = ap (λ x. same x m) ((same_iff n name).0 e) ∙ h in rw (e, p) refl
  | inr e ↦ elim (Bool-cases (same n m)) [
    | inl g ↦ rw (e, g) refl
    | inr g ↦ rw (e, g) (contents-append_to_other files name more m h)
  ]
]

-- Creating a file changes no contents.
pub create-keeps :
    (files : Files) (name m : Text)
    → or_empty (contents (create files name) m) ≡ or_empty (contents files m)
create-keeps files name m = elim (Bool-cases (same name m)) [
  | inl e ↦
      subst (λ k. or_empty (contents (create files name) k) ≡ or_empty (contents files k))
        ((same_iff name m).0 e) (ap or_empty (contents-create_same files name))
  | inr e ↦ ap or_empty (contents-create_other files name m e)
]
