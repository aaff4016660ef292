-- ===== src/Admin/Asked.antt =====
-- Requests that wait for their answers, by the room that each went to and the number that it is
-- for: pages of the administrators ask for what belongs to a number and show the answer that comes
-- last (frontend/src/pages/devices.tsx, frontend/src/components/snapshots.tsx).
use icpc_controller.Prelude.{
  ℕ, Bool, true, false, List, [], ◌∷◌, ◌++◌, ◌≡◌, ◌==◌, ◌&&◌, refl, sym, ap, ◌∙◌, subst, arith, any,
  if◌then◌else◌, All, inl, inr, Bool-cases, ==_iff,
}
use icpc_controller.Prelude.Text.{Text}
use icpc_controller.Prelude.Sets.{text_eq, text_eq→eq}

abbrev pub same_request : Text × ℕ → Text × ℕ → Bool
same_request a b = text_eq a.0 b.0 && (a.1 == b.1)

-- The list without the first request for a number of a room, which is answered or fails.
unfoldable pub answered : Text × ℕ → List (Text × ℕ) → List (Text × ℕ)
answered id [] = []
answered id (x ∷ xs) = let rest = answered id xs in if same_request id x then xs else x ∷ rest

abbrev pub is_asked : Text × ℕ → List (Text × ℕ) → Bool
is_asked id asks = any (λ x. same_request id x) asks

same_request→eq : (a b : Text × ℕ) → same_request a b ≡ true → a ≡ b
same_request→eq (r, i) (q, j) h = elim (Bool-cases (text_eq r q)) [
  | inl same ↦
      let number : i ≡ j = ground (arith, ==_iff i j) in
      ap (λ x. (x, i)) (text_eq→eq r q same) ∙ ap (λ n. (q, n)) number
  | inr other ↦ absurd (ground arith)
]

-- What holds of all that is asked for holds of one of it.
pub is_asked-All :
    (P : Text × ℕ → Type 0) (id : Text × ℕ) (asks : List (Text × ℕ))
    → All P asks
    → is_asked id asks ≡ true
    → P id
is_asked-All P id [] h e = cc
is_asked-All P id (x ∷ xs) h e = elim (Bool-cases (same_request id x)) [
  | inl same ↦ subst P (sym (same_request→eq id x same)) h.0
  | inr other ↦ is_asked-All P id xs h.1 (ground arith)
]

pub answered-All :
    (P : Text × ℕ → Type 0) (id : Text × ℕ) (asks : List (Text × ℕ))
    → All P asks
    → All P (answered id asks)
unfolding answered
answered-All P id [] h = tt
answered-All P id (x ∷ xs) h = elim (Bool-cases (same_request id x)) [
  | inl same ↦ rw same h.1
  | inr other ↦ rw other (h.0, answered-All P id xs h.1)
]

-- The last of the requests, and `d` where there are none.
abbrev pub last_or : Text × ℕ → List (Text × ℕ) → Text × ℕ
last_or d [] = d
last_or d (x ∷ xs) = last_or x xs

abbrev pub is_first : Text × ℕ → List (Text × ℕ) → Bool
is_first id [] = false
is_first id (x ∷ xs) = same_request id x

pub last_or-append : (d id : Text × ℕ) (xs : List (Text × ℕ)) → last_or d (xs ++ id ∷ []) ≡ id
last_or-append d id [] = refl
last_or-append d id (x ∷ xs) = last_or-append x id xs

module _ {A : Type 0} (IsOf : Text × ℕ → A → Type 0) where
  -- What the page ends up with, once all is answered, is what belongs to `d`.
  abbrev pub IsDue : List (Text × ℕ) → A → Text × ℕ → Type 0
  IsDue [] shown d = IsOf d shown
  IsDue (x ∷ xs) shown d = last_or x xs ≡ d

  pub IsDue-append :
      (asks : List (Text × ℕ)) (shown : A) (id d : Text × ℕ)
      → id ≡ d
      → IsDue (asks ++ id ∷ []) shown d
  IsDue-append [] shown id d e = e
  IsDue-append (x ∷ xs) shown id d e = last_or-append x id xs ∙ e

  pub IsDue-answered :
      (asks : List (Text × ℕ)) (old shown : A) (id d : Text × ℕ)
      → is_first id asks ≡ true
      → IsOf id shown
      → IsDue asks old d
      → IsDue (answered id asks) shown d
  unfolding answered
  IsDue-answered [] old shown id d k o h = absurd (ground arith)
  IsDue-answered (x ∷ []) old shown id d k o h =
      let e = same_request→eq id x k ∙ h in rw k (subst (λ n. IsOf n shown) e o)
  IsDue-answered (x ∷ y ∷ xs) old shown id d k o h = rw k h
