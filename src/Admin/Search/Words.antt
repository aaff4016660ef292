-- ===== src/Admin/Search/Words.antt =====
-- A search without a blank finds the words of a text (frontend/src/pages/devices.tsx, frontend/src/
-- components/fleet.tsx, targets.tsx).
use icpc_controller.Prelude.{
  true, ◌≡◌, ◌≢◌, ◌⊎◌, ◌↔◌, List, [], ◌∷◌, ◌++◌, inl, inr, refl, sym, ap, ◌∙◌, subst, arith, All,
  map, append_assoc,
}
use icpc_controller.Prelude.Text.{Text}
use icpc_controller.Admin.Search.{join_texts, finds}
use icpc_controller.Admin.Commands.{trim}
use icpc_controller.Admin.Search.Parts.{Part, finds_iff}

-- The text is a part of one of the texts.
abbrev pub SomePart : Text → List Text → Type 0
SomePart part [] = ⊥
SomePart part (t ∷ ts) = Part part t ⊎ SomePart part ts

abbrev pub HasNoBlank : Text → Type 0
HasNoBlank text = All (λ c. c ≢ 32) text

-- A beginning without a blank ends before the first blank.
begins-word :
    (q after a b : Text) → HasNoBlank q → a ++ 32 ∷ b ≡ q ++ after → (rest : Text) × (a ≡ q ++ rest)
begins-word [] after a b n e = (a, refl)
begins-word (c ∷ cs) after [] b n e = absurd (n.0 (ground arith))
begins-word (c ∷ cs) after (x ∷ a) b n e =
    let tail : a ++ 32 ∷ b ≡ cs ++ after = ground arith in
    let (rest, same) = begins-word cs after a b n.1 tail in
    let head : x ≡ c = ground arith in (rest, ap (λ y. y ∷ a) head ∙ ap (λ t. c ∷ t) same)

cut-word :
    (before q after a b : Text)
    → HasNoBlank q
    → a ++ 32 ∷ b ≡ before ++ (q ++ after)
    → Part q a ⊎ Part q b
cut-word [] q after a b n e =
    let (rest, same) = begins-word q after a b n e in
    inl (record { before = []; after = rest; cut = same })
cut-word (y ∷ before) q after [] b n e =
    inr (record { before = before; after = after; cut = ground arith })
cut-word (y ∷ before) q after (x ∷ a) b n e =
    let tail : a ++ 32 ∷ b ≡ before ++ (q ++ after) = ground arith in
    elim (cut-word before q after a b n tail) [
      | inl p ↦ inl (record { before = x ∷ p.before; after = p.after; cut = ap (λ t. x ∷ t) p.cut })
      | inr p ↦ inr p
    ]

Part-word : (q a b : Text) → Part q a → Part q (a ++ 32 ∷ b)
Part-word q a b p = record {
  before = p.before;
  after = p.after ++ 32 ∷ b;
  cut =
      ap (λ t. t ++ 32 ∷ b) p.cut
      ∙ (append_assoc p.before (q ++ p.after) (32 ∷ b)
          ∙ ap (λ t. p.before ++ t) (append_assoc q p.after (32 ∷ b)));
}

Part-later : (q a b : Text) → Part q b → Part q (a ++ 32 ∷ b)
Part-later q a b p = record {
  before = a ++ 32 ∷ p.before;
  after = p.after;
  cut = ap (λ t. a ++ 32 ∷ t) p.cut ∙ sym (append_assoc a (32 ∷ p.before) (q ++ p.after));
}

-- What is found in joined texts is found in one of them, for a query without a blank, where small
-- letters are made word by word.
join_texts-SomePart :
    (lower : Text → Text) (q t : Text) (ts : List Text)
    → ((a b : Text) → lower (a ++ 32 ∷ b) ≡ lower a ++ 32 ∷ lower b)
    → HasNoBlank q
    → Part q (lower (join_texts (t ∷ ts))) ↔ SomePart q (map lower (t ∷ ts))
join_texts-SomePart lower q t [] words n =
    (λ p. inl p, λ p. elim p [ inl first ↦ first | inr none ↦ absurd none ])
join_texts-SomePart lower q t (u ∷ ts) words n =
    let rest = join_texts-SomePart lower q u ts words n in
    let e = words t (join_texts (u ∷ ts)) in
    (
      λ p.
          elim (cut-word p.before q p.after (lower t) (lower (join_texts (u ∷ ts))) n
            (sym e ∙ p.cut)) [ inl first ↦ inl first | inr later ↦ inr (rest.0 later) ],
      λ p. subst (Part q) (sym e) (elim p [
        | inl first ↦ Part-word q (lower t) (lower (join_texts (u ∷ ts))) first
        | inr later ↦ Part-later q (lower t) (lower (join_texts (u ∷ ts))) (rest.1 later)
      ]),
    )

pub finds-SomePart :
    (lower : Text → Text) (query t : Text) (ts : List Text)
    → ((a b : Text) → lower (a ++ 32 ∷ b) ≡ lower a ++ 32 ∷ lower b)
    → HasNoBlank (lower (trim query))
    → (finds lower query (join_texts (t ∷ ts)) ≡ true)
      ↔ SomePart (lower (trim query)) (map lower (t ∷ ts))
finds-SomePart lower query t ts words n =
    let (to, from) = finds_iff lower query (join_texts (t ∷ ts)) in
    let (part, whole) = join_texts-SomePart lower (lower (trim query)) t ts words n in
    (λ h. part (to h), λ p. from (whole p))
