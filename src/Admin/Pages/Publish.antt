-- ===== src/Admin/Pages/Publish.antt =====
-- The selection of a page and the requests that publish pages
-- (frontend/src/pages/broadcast.tsx).
use icpc_controller.Prelude.{
  ℕ, Bool, true, false, Option, none, some, List, [], ◌∷◌, ◌++◌, ◌≡◌, refl, subst, ap, inl, inr,
  arith, ◌==◌, any, Bool-cases,
}
use icpc_controller.Prelude.Text.{Text}
use icpc_controller.Admin.Pages.{first_id, keep_page, strip_slash, local_push}

-- What `load` may select.
pub data IsSelected (keep : Option ℕ) (pages : List ℕ) : Option ℕ → Type 0 where
  nothing : pages ≡ [] → IsSelected keep pages none
  kept :
      {id : ℕ} → keep ≡ some id → any (λ p. p == id) pages ≡ true → IsSelected keep pages (some id)
  first_of :
      {id : ℕ} {rest : List ℕ}
      → pages ≡ id ∷ rest
      → ((k : ℕ) → keep ≡ some k → any (λ p. p == k) pages ≡ false)
      → IsSelected keep pages (some id)

first_id-IsSelected :
    (keep : Option ℕ) (pages : List ℕ)
    → ((k : ℕ) → keep ≡ some k → any (λ p. p == k) pages ≡ false)
    → IsSelected keep pages (first_id pages)
first_id-IsSelected keep [] h = IsSelected.nothing refl
first_id-IsSelected keep (p ∷ ps) h = IsSelected.first_of refl h

-- Loading keeps the selected page where it is still in the list, takes the first one where it is
-- not, and selects none only where there is no page.
pub keep_page-IsSelected :
    (keep : Option ℕ) (pages : List ℕ) → IsSelected keep pages (keep_page keep pages)
unfolding keep_page
keep_page-IsSelected none pages = first_id-IsSelected none pages (λ k e. cc)
keep_page-IsSelected (some id) pages = elim (Bool-cases (any (λ p. p == id) pages)) [
  | inl there ↦ rw there (IsSelected.kept refl there)
  | inr gone ↦ rw gone (
      first_id-IsSelected (some id) pages (λ k e.
        let same : id ≡ k = ground arith in subst (λ x. any (λ p. p == x) pages ≡ false) same gone))
]

strip_slash-snoc : (cs : Text) → strip_slash (cs ++ 47 ∷ []) ≡ cs
unfolding strip_slash
strip_slash-snoc [] = refl
strip_slash-snoc (c ∷ []) = refl
strip_slash-snoc (c ∷ d ∷ cs) = ap (λ l. c ∷ l) (strip_slash-snoc (d ∷ cs))

-- A slash at the end of the address makes no difference to a push: where taking one off the
-- address leaves it as it is, the address with a slash is pushed as the one without.
pub local_push-slash :
    (start : Bool) (mode : Text) (c : ℕ) (cs : Text)
    → strip_slash (c ∷ cs) ≡ c ∷ cs
    → local_push start mode ((c ∷ cs) ++ 47 ∷ []) ≡ local_push start mode (c ∷ cs)
unfolding local_push
local_push-slash false mode c cs h = refl
local_push-slash true mode c cs h = rw (strip_slash-snoc (c ∷ cs), h) refl
