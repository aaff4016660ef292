-- ===== src/Prelude/Sorting.antt =====
-- Stable sorting with the greatest key first, and the front of a sorted list.
use Prim.Native.Nat.{ℕ, zero, suc, ◌<◌, ◌≤◌}
use mathlib.Core.Path.{◌≡◌, refl, ap, ◌∙◌}
use mathlib.Core.Bool.{Bool}
use mathlib.Core.List.{List, [], ◌∷◌, ◌++◌}
use mathlib.Core.Logic.{inl, inr}
use native.Mathlib.Omega.{arith}
use icpc_controller.Prelude.Tests.{if◌then◌else◌, Bool-cases}
use icpc_controller.Prelude.Lists.{length, All, All-imp, count_if}
use icpc_controller.Prelude.Int.{ℤ, leb_ℤ, ◌≤ℤ◌, leb_ℤ→le}

module _ {A : Type 0} (key : A → ℤ) where
  -- An element stays before those with the same key that stand behind it.
  unfoldable pub insert_latest : A → List A → List A
  insert_latest x [] = x ∷ []
  insert_latest x (y ∷ ys) =
      let rest = insert_latest x ys in if leb_ℤ (key y) (key x) then x ∷ y ∷ ys else y ∷ rest

  unfoldable pub sort_latest : List A → List A
  sort_latest [] = []
  sort_latest (x ∷ xs) = insert_latest x (sort_latest xs)

  abbrev pub IsDescending : List A → Type 0
  IsDescending [] = Unit
  IsDescending (x ∷ xs) = All (λ y. key y ≤ℤ key x) xs × IsDescending xs

  insert_latest-All :
      (P : A → Type 0) (x : A) (xs : List A) → P x → All P xs → All P (insert_latest x xs)
  unfolding insert_latest
  insert_latest-All P x [] h k = (h, tt)
  insert_latest-All P x (y ∷ ys) h k = elim (Bool-cases (leb_ℤ (key y) (key x))) [
    | inl le ↦ rw le (h, k)
    | inr gt ↦ rw gt (k.0, insert_latest-All P x ys h k.1)
  ]

  insert_latest-IsDescending :
      (x : A) (xs : List A) → IsDescending xs → IsDescending (insert_latest x xs)
  unfolding insert_latest
  insert_latest-IsDescending x [] h = (tt, tt)
  insert_latest-IsDescending x (y ∷ ys) h = elim (Bool-cases (leb_ℤ (key y) (key x))) [
    | inl le ↦
        let below = leb_ℤ→le (key y) (key x) le in
        rw le ((below, All-imp (λ z k. omega arith) ys h.0), h)
    | inr gt ↦
        let above : key x ≤ℤ key y = ground arith in
        rw gt (
          insert_latest-All (λ z. key z ≤ℤ key y) x ys above h.0,
          insert_latest-IsDescending x ys h.1,
        )
  ]

  pub sort_latest-IsDescending : (xs : List A) → IsDescending (sort_latest xs)
  unfolding sort_latest
  sort_latest-IsDescending [] = tt
  sort_latest-IsDescending (x ∷ xs) =
      insert_latest-IsDescending x (sort_latest xs) (sort_latest-IsDescending xs)

  insert_latest-count_if :
      (p : A → Bool) (x : A) (xs : List A) → count_if p (insert_latest x xs) ≡ count_if p (x ∷ xs)
  unfolding insert_latest
  insert_latest-count_if p x [] = refl
  insert_latest-count_if p x (y ∷ ys) = let rest = insert_latest-count_if p x ys in ground arith

  pub sort_latest-count_if :
      (p : A → Bool) (xs : List A) → count_if p (sort_latest xs) ≡ count_if p xs
  unfolding sort_latest
  sort_latest-count_if p [] = refl
  sort_latest-count_if p (x ∷ xs) =
      insert_latest-count_if p x (sort_latest xs)
      ∙ (let rest = sort_latest-count_if p xs in ground arith)

module _ {A : Type 0} where
  -- list.slice(0, n) and list.slice(n)
  unfoldable pub front : ℕ → List A → List A
  front zero xs = []
  front (suc n) [] = []
  front (suc n) (x ∷ xs) = x ∷ front n xs

  unfoldable pub behind : ℕ → List A → List A
  behind zero xs = xs
  behind (suc n) [] = []
  behind (suc n) (x ∷ xs) = behind n xs

  pub front-behind : (n : ℕ) (xs : List A) → front n xs ++ behind n xs ≡ xs
  unfolding front behind
  front-behind zero xs = refl
  front-behind (suc n) [] = refl
  front-behind (suc n) (x ∷ xs) = ap (λ l. x ∷ l) (front-behind n xs)

  pub length-front : (n : ℕ) (xs : List A) → length (front n xs) ≤ n
  unfolding front
  length-front zero xs = omega arith
  length-front (suc n) [] = omega arith
  length-front (suc n) (x ∷ xs) = let rest = length-front n xs in omega arith

  pub behind-short : (n : ℕ) (xs : List A) → length (front n xs) < n → behind n xs ≡ []
  unfolding front behind
  behind-short zero xs h = absurd (omega arith)
  behind-short (suc n) [] h = refl
  behind-short (suc n) (x ∷ xs) h = behind-short n xs (omega arith)

All-split : {A : Type 0} (P : A → Type 0) (xs ys : List A) → All P (xs ++ ys) → All P xs × All P ys
All-split P [] ys h = (tt, h)
All-split P (x ∷ xs) ys h = let (near, far) = All-split P xs ys h.1 in ((h.0, near), far)

-- Of two parts of a descending list, the first is descending and not below the second.
pub IsDescending-split :
    {A : Type 0} (key : A → ℤ) (xs ys : List A)
    → IsDescending key (xs ++ ys)
    → IsDescending key xs × All (λ x. All (λ y. key y ≤ℤ key x) ys) xs
IsDescending-split key [] ys h = (tt, tt)
IsDescending-split key (x ∷ xs) ys h =
    let (front, above) = IsDescending-split key xs ys h.1 in
    let (near, far) = All-split (λ y. key y ≤ℤ key x) xs ys h.0 in ((near, front), (far, above))
