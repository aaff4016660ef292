-- ===== src/Admin/Search/Parts.antt =====
-- What a search finds (frontend/src/pages/devices.tsx, frontend/src/components/fleet.tsx,
-- targets.tsx).
use icpc_controller.Prelude.{
  true, [], ◌∷◌, ◌++◌, ◌≡◌, ◌↔◌, inl, inr, refl, ap, sym, subst, arith, ◌||◌, is_empty, Bool-cases,
  ==_iff,
}
use icpc_controller.Prelude.Text.{Text}
use icpc_controller.Admin.Commands.{trim}
use icpc_controller.Admin.Search.{begins_with, has_part, finds}

-- Where a text is part of another one.
pub record Part (part text : Text) : Type 0 where
  pub before : Text
  pub after : Text
  pub cut : text ≡ before ++ (part ++ after)

begins_with-after :
    (part text : Text) → begins_with part text ≡ true → (after : Text) × (text ≡ part ++ after)
begins_with-after [] text h = (text, refl)
begins_with-after (c ∷ cs) [] h = cc
begins_with-after (c ∷ cs) (d ∷ ds) h =
    let (after, e) = begins_with-after cs ds (ground arith) in (after, ground (arith, ==_iff c d))

begins_with-append : (part after : Text) → begins_with part (part ++ after) ≡ true
begins_with-append [] after = refl
begins_with-append (c ∷ cs) after = let rest = begins_with-append cs after in ground arith

has_part-Part : (part text : Text) → has_part part text ≡ true → Part part text
unfolding has_part
has_part-Part part [] h =
    let (after, e) = begins_with-after part [] h in record { before = []; after = after; cut = e }
has_part-Part part (c ∷ cs) h = elim (Bool-cases (begins_with part (c ∷ cs))) [
  | inl here ↦
      let (after, e) = begins_with-after part (c ∷ cs) here in
      record { before = []; after = after; cut = e }
  | inr later ↦
      let found = has_part-Part part cs (ground arith) in
      record { before = c ∷ found.before; after = found.after; cut = ap (λ t. c ∷ t) found.cut }
]

has_part-append : (part before after : Text) → has_part part (before ++ (part ++ after)) ≡ true
unfolding has_part
has_part-append [] [] [] = refl
has_part-append [] [] (c ∷ cs) = refl
has_part-append (c ∷ cs) [] after = rw (begins_with-append (c ∷ cs) after) refl
has_part-append part (c ∷ cs) after = let rest = has_part-append part cs after in ground arith

Part-has_part : (part text : Text) → Part part text → has_part part text ≡ true
Part-has_part part text h =
    subst (λ t. has_part part t ≡ true) (sym h.cut) (has_part-append part h.before h.after)

found_iff : (q text : Text) → ((is_empty q || has_part q text) ≡ true) ↔ Part q text
found_iff [] text = (λ h. record { before = []; after = text; cut = refl }, λ h. refl)
found_iff (c ∷ cs) text = (has_part-Part (c ∷ cs) text, Part-has_part (c ∷ cs) text)

-- A row is found exactly if the query, trimmed and in small letters, is a part of its text in small
-- letters.
pub finds_iff :
    (lower : Text → Text) (query text : Text)
    → (finds lower query text ≡ true) ↔ Part (lower (trim query)) (lower text)
unfolding finds
finds_iff lower query text = found_iff (lower (trim query)) (lower text)
