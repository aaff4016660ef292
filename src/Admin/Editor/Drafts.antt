-- ===== src/Admin/Editor/Drafts.antt =====
-- Which item the inspector edits, and what it sends (frontend/src/pages/broadcast.tsx).
use icpc_controller.Prelude.{
  ℕ, true, not, ◌||◌, Option, none, some, List, [], ◌∷◌, ◌++◌, map, ◌≡◌, refl, sym, ap, ◌∙◌, inl,
  inr, arith, ◌==◌, Bool-cases,
}
use icpc_controller.Admin.Stage.{
  Floats, Look, Box, Item, StagePage, is_page, with_box, with_item, commit_box,
}
use icpc_controller.Admin.Editor.{
  find, Editor, is_item, item_in, item_of, id_of, same_id, draw, on_load, switch_mode, select_page,
  select_item, commit, with_look, edit, saved, save, Step, loaded, cleaned, on_clean, mode_picked,
  page_picked, item_picked, committed, edited, sent, Reach, opened, further,
}

module _ (F : Floats) where
  -- The draft is one of the item that is selected, and there is none where none is selected.
  pub record IsDrawn (s : Editor F) : Type 0 where
    pub drawn : s.seen ≡ id_of F (item_of F s)
    pub drafted : id_of F s.draft ≡ id_of F (item_of F s)

  abbrev IsSeen : Editor F → Type 0
  IsSeen s = id_of F s.draft ≡ s.seen

  same_id→eq : (a b : Option ℕ) → same_id F a b ≡ true → a ≡ b
  same_id→eq none none h = refl
  same_id→eq none (some b) h = cc
  same_id→eq (some a) none h = cc
  same_id→eq (some a) (some b) h = ground arith

  draw-IsDrawn : (s : Editor F) → IsSeen s → IsDrawn (draw F s)
  unfolding draw
  draw-IsDrawn s h = elim (Bool-cases (same_id F (id_of F (item_of F s)) s.seen)) [
    | inl same ↦
        let e = same_id→eq _ _ same in rw same (record { drawn = sym e; drafted = h ∙ sym e })
    | inr other ↦ rw other (record { drawn = refl; drafted = refl })
  ]

  with_look-id : (look : Look) (d : Option (Item F)) → id_of F (with_look F look d) ≡ id_of F d
  with_look-id look none = refl
  with_look-id look (some d) = refl

  IsDrawn-IsSeen : {s : Editor F} → IsDrawn s → IsSeen s
  IsDrawn-IsSeen h = h.drafted ∙ sym h.drawn

  step-IsDrawn : {s t : Editor F} → Step F s t → IsDrawn s → IsDrawn t
  unfolding on_load on_clean switch_mode select_page select_item commit edit save
  step-IsDrawn (loaded keep list) h = draw-IsDrawn _ (IsDrawn-IsSeen h)
  step-IsDrawn cleaned h = record { drawn = h.drawn; drafted = h.drafted }
  step-IsDrawn {s} (mode_picked mode confirmed) h = elim (Bool-cases (not s.dirty || confirmed)) [
    | inl goes ↦ rw goes (draw-IsDrawn _ (IsDrawn-IsSeen h))
    | inr stays ↦ rw stays h
  ]
  step-IsDrawn (page_picked id) h = draw-IsDrawn _ (IsDrawn-IsSeen h)
  step-IsDrawn (item_picked id) h = draw-IsDrawn _ (IsDrawn-IsSeen h)
  step-IsDrawn (committed id box) h = draw-IsDrawn _ (IsDrawn-IsSeen h)
  step-IsDrawn {s} (edited look) h = record {
    drawn = h.drawn;
    drafted = with_look-id look s.draft ∙ h.drafted;
  }
  step-IsDrawn {s} sent h = elim (Bool-cases s.dirty) [
    | inl dirty ↦ simp dirty (record { drawn = h.drawn; drafted = h.drafted })
    | inr clean ↦ simp clean h
  ]

  -- Over every run of the editor, the inspector edits the item that is selected, and nothing where
  -- none is.
  pub Reach-IsDrawn : {s : Editor F} → Reach F s → IsDrawn s
  unfolding find
  Reach-IsDrawn (opened mode) = record { drawn = refl; drafted = refl }
  Reach-IsDrawn (further r step) = step-IsDrawn step (Reach-IsDrawn r)

  find-with_box :
      (i : Option ℕ) (id : ℕ) (box : Box F) (items : List (Item F))
      → id_of F (find (is_item F i) (map (with_box F id box) items))
        ≡ id_of F (find (is_item F i) items)
  unfolding find
  find-with_box i id box [] = refl
  find-with_box none id box (it ∷ items) = find-with_box none id box items
  find-with_box (some n) id box (it ∷ items) =
      let rest = find-with_box (some n) id box items in ground arith

  is_page-with_item :
      (p : Option ℕ) (id : ℕ) (box : Box F) (page : StagePage F)
      → is_page F p (with_item F p id box page) ≡ is_page F p page
  is_page-with_item none id box page = refl
  is_page-with_item (some n) id box page = elim (Bool-cases (page.id == n)) [
    | inl here ↦ simp here refl
    | inr there ↦ simp there refl
  ]

  find-with_item :
      (p i : Option ℕ) (id : ℕ) (box : Box F) (pages : List (StagePage F))
      → id_of F (item_in F i (find (is_page F p) (map (with_item F p id box) pages)))
        ≡ id_of F (item_in F i (find (is_page F p) pages))
  unfolding find
  find-with_item p i id box [] = refl
  find-with_item p i id box (page ∷ pages) =
      let same = is_page-with_item p id box page in
      elim (Bool-cases (is_page F p page)) [
        | inl here ↦ rw (same, here) (find-with_box i id box page.items)
        | inr there ↦ rw (same, there) (find-with_item p i id box pages)
      ]

  same_id_refl : (a : Option ℕ) → same_id F a a ≡ true
  same_id_refl none = refl
  same_id_refl (some n) = ground arith

  commit-draft :
      (id : ℕ) (box : Box F) (s : Editor F)
      → IsDrawn s
      → ((commit F id box s).draft ≡ s.draft) × ((commit F id box s).saves ≡ s.saves)
  unfolding commit draw commit_box
  commit-draft id box s h =
      let same : same_id F
            (id_of F (
              item_in F s.item_id
                (find (is_page F s.page_id) (map (with_item F s.page_id id box) s.pages))))
            s.seen
          ≡ true =
        ap (λ i. same_id F i s.seen)
          (find-with_item s.page_id s.item_id id box s.pages ∙ sym h.drawn)
        ∙ same_id_refl s.seen in
      rw same (refl, refl)

  -- A draft keeps the place that its item had when it was selected: after the item has been moved
  -- by a gesture, saving a change of the inspector sends the place from before.
  pub save-commit :
      {s : Editor F} (item : Item F) (look : Look) (box : Box F)
      → Reach F s
      → s.draft ≡ some item
      → (save F (edit F look (commit F item.id box s))).saves
        ≡ s.saves ++ record item { look = look } ∷ []
  unfolding save edit
  save-commit {s} item look box r e =
      let (draft, saves) = commit-draft item.id box s (Reach-IsDrawn r) in
      ap (λ d. (commit F item.id box s).saves ++ saved F (with_look F look d)) (draft ∙ e)
      ∙ ap (λ l. l ++ record item { look = look } ∷ []) saves
