-- ===== src/Prelude/Sets.antt =====
-- Lists of keys used as sets and as maps: equality of texts, `includes`, and no key twice.
use mathlib.Core.Path.{◌≡◌, refl}
use mathlib.Core.Logic.{inl, inr}
use mathlib.Core.Bool.{Bool, true, false, ◌&&◌, ◌||◌}
use mathlib.Core.List.{List, [], ◌∷◌}
use native.Mathlib.Omega.{arith}
use icpc_controller.Prelude.Tests.{◌==◌, Bool-cases}
use icpc_controller.Prelude.Text.{Text}

-- `===` on texts.
unfoldable pub text_eq : Text → Text → Bool
text_eq [] [] = true
text_eq (x ∷ xs) (y ∷ ys) = (x == y) && text_eq xs ys
text_eq xs ys = false

pub text_eq→eq : (s t : Text) → text_eq s t ≡ true → s ≡ t
unfolding text_eq
text_eq→eq [] [] h = refl
text_eq→eq [] (y ∷ ys) h = cc
text_eq→eq (x ∷ xs) [] h = cc
text_eq→eq (x ∷ xs) (y ∷ ys) h = ground (arith, text_eq→eq xs ys)

pub text_eq_refl : (s : Text) → text_eq s s ≡ true
unfolding text_eq
text_eq_refl [] = refl
text_eq_refl (x ∷ xs) = ground (arith, text_eq_refl xs)

pub text_eq-sym : (s t : Text) → text_eq s t ≡ text_eq t s
text_eq-sym s t = elim (Bool-cases (text_eq s t)) [
  | inl eq ↦ let e = text_eq→eq s t eq in rw e refl
  | inr ne ↦ elim (Bool-cases (text_eq t s)) [
    | inl eq ↦ let e = text_eq→eq t s eq in rw e refl
    | inr en ↦ cc
  ]
]

-- `list.includes(key)`.
unfoldable pub includes : Text → List Text → Bool
includes k [] = false
includes k (x ∷ xs) = text_eq k x || includes k xs

-- No key stands twice.
abbrev pub Nodup : List Text → Type 0
Nodup [] = Unit
Nodup (x ∷ xs) = (includes x xs ≡ false) × Nodup xs
