-- ===== src/Prelude/Maps.antt =====
-- Objects with number keys: association lists whose keys stand once.
use Prim.Native.Nat.{ℕ}
use mathlib.Core.Path.{◌≡◌, refl, ap, ◌∙◌, subst}
use mathlib.Core.List.{List, [], ◌∷◌}
use mathlib.Core.Logic.{inl, inr}
use mathlib.Core.Option.{Option, none, some}
use native.Mathlib.Omega.{arith}
use icpc_controller.Prelude.Tests.{◌==◌, if◌then◌else◌, Bool-cases}
use icpc_controller.Prelude.Lists.{All}

module _ {A : Type 0} where
  -- object[key]; none is undefined.
  abbrev pub lookup : ℕ → List (ℕ × A) → Option A
  lookup k [] = none
  lookup k (p ∷ m) = let rest = lookup k m in if k == p.0 then some p.1 else rest

  -- object[key] = value
  unfoldable pub set : ℕ → A → List (ℕ × A) → List (ℕ × A)
  set k v [] = (k, v) ∷ []
  set k v (p ∷ m) = let rest = set k v m in if k == p.0 then (k, v) ∷ m else p ∷ rest

  pub lookup-set :
      (j k : ℕ) (v : A) (m : List (ℕ × A))
      → lookup j (set k v m) ≡ (if j == k then some v else lookup j m)
  unfolding set
  lookup-set j k v [] = refl
  lookup-set j k v (p ∷ m) = let rest = lookup-set j k v m in ground arith

  abbrev pub Distinct : List (ℕ × A) → Type 0
  Distinct [] = Unit
  Distinct (p ∷ m) = (lookup p.0 m ≡ none) × Distinct m

  pub set-Distinct : (k : ℕ) (v : A) (m : List (ℕ × A)) → Distinct m → Distinct (set k v m)
  unfolding set
  set-Distinct k v [] h = (refl, tt)
  set-Distinct k v (p ∷ m) h = elim (Bool-cases (k == p.0)) [
    | inl same ↦ let e : k ≡ p.0 = ground arith in rw same (ground arith, h.1)
    | inr other ↦ rw other (ground (arith, lookup-set p.0 k v m), set-Distinct k v m h.1)
  ]

  pub set-All :
      (P : ℕ × A → Type 0) (k : ℕ) (v : A) (m : List (ℕ × A))
      → P (k, v)
      → All P m
      → All P (set k v m)
  unfolding set
  set-All P k v [] new h = (new, tt)
  set-All P k v (p ∷ m) new h = elim (Bool-cases (k == p.0)) [
    | inl same ↦ rw same (new, h.1)
    | inr other ↦ rw other (h.0, set-All P k v m new h.1)
  ]

  pub lookup-All :
      (P : ℕ × A → Type 0) (k : ℕ) (m : List (ℕ × A)) (v : A)
      → All P m
      → lookup k m ≡ some v
      → P (k, v)
  lookup-All P k [] v h e = cc
  lookup-All P k (p ∷ m) v h e = elim (Bool-cases (k == p.0)) [
    | inl same ↦
        let key : p.0 ≡ k = ground arith in
        let value : p.1 ≡ v = ground arith in
        subst P (ap (λ x. (x, p.1)) key ∙ ap (λ x. (k, x)) value) h.0
    | inr other ↦ lookup-All P k m v h.1 (ground arith)
  ]
