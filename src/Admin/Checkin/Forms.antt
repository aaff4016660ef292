-- ===== src/Admin/Checkin/Forms.antt =====
-- The requests of the page of check-ins (frontend/src/pages/checkin.tsx).
use icpc_controller.Prelude.{
  ℕ, Bool, true, false, not, ◌&&◌, Option, [], ◌∷◌, ◌≡◌, refl, inl, inr, arith, if◌then◌else◌,
  is_empty, All, All-snoc, Bool-cases, Option-cases,
}
use icpc_controller.Prelude.Text.{Text}
use icpc_controller.Admin.Commands.{is_space, trim, trim_start, trim_end}
use icpc_controller.Admin.Checkin.{
  Action, Request, Page, open_form, submit_form, open_swap, submit_swap, reset_all, row_action,
  Step, opened, named, numbered, submitted, form_closed, swap_opened, swap_typed, swapped,
  swap_closed, acted, all_reset, Reach, start, further,
}

-- A text with something other than white space at both ends.
abbrev pub begins : Text → Bool
begins [] = false
begins (c ∷ cs) = not (is_space c)

abbrev pub ends : Text → Bool
ends [] = false
ends (c ∷ cs) = let rest = ends cs in if is_empty cs then not (is_space c) else rest

-- A request for a check-in has a name and a number, trimmed and not empty; an action without a
-- form is none that needs one.
abbrev pub is_proper : Request → Bool
is_proper (Request.post_checkin id name num) = begins name && ends name && begins num && ends num
is_proper (Request.post_swap from to) = true
is_proper (Request.post_action Action.check_in id) = false
is_proper (Request.post_action Action.swap id) = false
is_proper (Request.post_action Action.check_out id) = true
is_proper (Request.post_action Action.restore id) = true
is_proper (Request.post_action Action.reset id) = true
is_proper Request.post_reset_all = true

trim_end-ends : (t : Text) → is_empty (trim_end t) ≡ false → ends (trim_end t) ≡ true
unfolding trim_end
trim_end-ends [] h = cc
trim_end-ends (c ∷ cs) h = elim (Bool-cases (is_empty (trim_end cs))) [
  | inl last ↦ ground arith
  | inr more ↦ let rest = trim_end-ends cs more in ground arith
]

trim_start-begins : (t : Text) → is_empty (trim_start t) ≡ false → begins (trim_start t) ≡ true
unfolding trim_start
trim_start-begins [] h = cc
trim_start-begins (c ∷ cs) h = ground (arith, trim_start-begins cs)

trim_end-begins :
    (t : Text) → is_empty (trim_end t) ≡ false → begins t ≡ true → begins (trim_end t) ≡ true
unfolding trim_end
trim_end-begins [] h k = cc
trim_end-begins (c ∷ cs) h k = ground arith

trim_end-start : (t : Text) → is_empty (trim_end t) ≡ false → is_empty t ≡ false
unfolding trim_end
trim_end-start [] h = cc
trim_end-start (c ∷ cs) h = refl

-- A trimmed text that is not empty has no white space at its ends.
pub trim_lem :
    (t : Text) → is_empty (trim t) ≡ false → (begins (trim t) ≡ true) × (ends (trim t) ≡ true)
trim_lem t h =
    let start = trim_start-begins t (trim_end-start (trim_start t) h) in
    (trim_end-begins (trim_start t) h start, trim_end-ends (trim_start t) h)

abbrev pub AllProper : Page → Type 0
AllProper s = All (λ r. is_proper r ≡ true) s.requests

submit_form-AllProper : (id : ℕ) (s : Page) → AllProper s → AllProper (submit_form id s)
unfolding submit_form
submit_form-AllProper id s h = elim (Bool-cases (is_empty (trim s.name))) [
  | inl blank ↦ rw blank h
  | inr name ↦ elim (Bool-cases (is_empty (trim s.num))) [
    | inl blank ↦ rw (name, blank) h
    | inr num ↦
        let (n, m) = trim_lem s.name name in
        let (k, l) = trim_lem s.num num in
        rw (name, num) (All-snoc (λ r. is_proper r ≡ true) _ s.requests (rw (n, m, k, l) refl) h)
  ]
]

submit_swap-AllProper :
    (number : Text → Option ℕ) (id : ℕ) (s : Page)
    → AllProper s
    → AllProper (submit_swap number id s)
unfolding submit_swap
submit_swap-AllProper number id s h = elim (Option-cases (number s.swap_to)) [
  | inl nothing ↦ rw (submit_swap, nothing) h
  | inr found ↦ rw (submit_swap, found.1) (All-snoc (λ r. is_proper r ≡ true) _ s.requests refl h)
]

row_action-AllProper :
    (a : Action) (confirmed : Bool) (id : ℕ) (s : Page)
    → AllProper s
    → AllProper (row_action a confirmed id s)
unfolding row_action
row_action-AllProper Action.check_out true id s h =
    All-snoc (λ r. is_proper r ≡ true) _ s.requests refl h
row_action-AllProper Action.check_out false id s h = h
row_action-AllProper Action.restore c id s h =
    All-snoc (λ r. is_proper r ≡ true) _ s.requests refl h
row_action-AllProper Action.reset c id s h = All-snoc (λ r. is_proper r ≡ true) _ s.requests refl h
row_action-AllProper Action.check_in c id s h = h
row_action-AllProper Action.swap c id s h = h

step-AllProper :
    {number : Text → Option ℕ} {s t : Page} → Step number s t → AllProper s → AllProper t
unfolding open_form open_swap reset_all
step-AllProper (opened d k) h = h
step-AllProper (named text) h = h
step-AllProper (numbered text) h = h
step-AllProper {number} {s} (submitted {id} e) h = submit_form-AllProper id s h
step-AllProper form_closed h = h
step-AllProper (swap_opened d) h = h
step-AllProper (swap_typed text) h = h
step-AllProper {number} {s} (swapped {id} e) h = submit_swap-AllProper number id s h
step-AllProper swap_closed h = h
step-AllProper {number} {s} (acted a confirmed d k) h =
    row_action-AllProper a confirmed d.assigned_id s h
step-AllProper {number} {s} (all_reset true) h =
    All-snoc (λ r. is_proper r ≡ true) _ s.requests refl h
step-AllProper (all_reset false) h = h

-- Over every run of the page, each check-in that it requests has a name and a number without
-- white space at their ends, neither of them empty.
pub Reach-AllProper : {number : Text → Option ℕ} {s : Page} → Reach number s → AllProper s
Reach-AllProper start = tt
Reach-AllProper (further r step) = step-AllProper step (Reach-AllProper r)
