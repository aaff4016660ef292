-- ===== src/Admin/Stage/Bounds.antt =====
-- Where a gesture leaves an item (frontend/src/pages/broadcast.tsx).
use icpc_controller.Prelude.{
  Bool, true, false, ◌||◌, ◌⊎◌, [], ◌∷◌, ◌≡◌, refl, subst, inl, inr, arith, Bool-cases,
}
use icpc_controller.Admin.Stage.{
  Floats, max, min, clamp, Box, Drag, moved_box, drag, on_move, on_up, Step, pointer_moved,
  pointer_up, After, here, later,
}

module _ (F : Floats) where
  open F use {
    R, nan, zero, four, ninety_six, is_nan, le, le_refl, le_total, nan-is_nan, zero-is_nan,
    four-is_nan, ninety_six-is_nan, zero-le-ninety_six,
  }

  max-above : (a b : R) → (is_nan (max F a b) ≡ true) ⊎ (le a (max F a b) ≡ true)
  unfolding max
  max-above a b = elim (Bool-cases (is_nan a)) [
    | inl bad ↦ inl (rw bad nan-is_nan)
    | inr good ↦ elim (Bool-cases (is_nan b)) [
      | inl bad ↦ inl (rw (good, bad) nan-is_nan)
      | inr fine ↦ elim (Bool-cases (le a b)) [
        | inl below ↦ inr (rw (good, fine, below) below)
        | inr above ↦ inr (rw (good, fine, above) (le_refl a good))
      ]
    ]
  ]

  max-cases :
      (a b : R)
      → (is_nan (max F a b) ≡ true) ⊎ (max F a b ≡ a) ⊎ ((max F a b ≡ b) × (le a b ≡ true))
  unfolding max
  max-cases a b = elim (Bool-cases (is_nan a || is_nan b)) [
    | inl bad ↦ inl (rw bad nan-is_nan)
    | inr good ↦ elim (Bool-cases (le a b)) [
      | inl below ↦ inr (inr (rw (good, below) (refl, refl)))
      | inr above ↦ inr (inl (rw (good, above) refl))
    ]
  ]

  min-below : (a b : R) → (is_nan (min F a b) ≡ true) ⊎ (le (min F a b) a ≡ true)
  unfolding min
  min-below a b = elim (Bool-cases (is_nan a)) [
    | inl bad ↦ inl (rw bad nan-is_nan)
    | inr good ↦ elim (Bool-cases (is_nan b)) [
      | inl bad ↦ inl (rw (good, bad) nan-is_nan)
      | inr fine ↦ elim (Bool-cases (le a b)) [
        | inl below ↦ inr (rw (good, fine, below) (le_refl a good))
        | inr above ↦ inr (rw (good, fine, above) (le_total a b good fine above))
      ]
    ]
  ]

  -- A result between the bounds, or no number.
  clamp-between :
      (value : R)
      → (is_nan (clamp F value) ≡ true)
        ⊎ ((le zero (clamp F value) ≡ true) × (le (clamp F value) ninety_six ≡ true))
  unfolding clamp
  clamp-between value =
      let rounded = F.div (F.round (F.mul value F.hundred)) F.hundred in
      let inner = min F ninety_six rounded in
      elim (max-cases zero inner) [
        | inl bad ↦ inl bad
        | inr good ↦ elim good [
          | inl lowest ↦ inr (rw lowest (le_refl zero zero-is_nan, zero-le-ninety_six))
          | inr same ↦ elim (min-below ninety_six rounded) [
            | inl bad ↦ inl (rw same.0 bad)
            | inr below ↦ inr (rw same.0 (same.1, below))
          ]
        ]
      ]

  abbrev pub IsBetween : R → R → R → Type 0
  IsBetween lo hi a = (is_nan a ≡ true) ⊎ ((le lo a ≡ true) × (le a hi ≡ true))

  abbrev pub IsAbove : R → R → Type 0
  IsAbove lo a = (is_nan a ≡ true) ⊎ (le lo a ≡ true)

  -- What a gesture makes of the box that it starts from: resizing leaves the place and keeps both
  -- sides from 4 on, moving leaves the sides and keeps the place from 0 to 96.
  pub data IsPlaced (start : Box F) : Bool → Box F → Type 0 where
    untouched : {resize : Bool} → IsPlaced start resize start
    resized :
        {box : Box F}
        → box.pos_x ≡ start.pos_x
        → box.pos_y ≡ start.pos_y
        → IsAbove four box.width
        → IsAbove four box.height
        → IsPlaced start true box
    moved :
        {box : Box F}
        → box.width ≡ start.width
        → box.height ≡ start.height
        → IsBetween zero ninety_six box.pos_x
        → IsBetween zero ninety_six box.pos_y
        → IsPlaced start false box

  moved_box-IsPlaced : (s : Drag F) (x y : R) → IsPlaced s.start s.resize (moved_box F s x y)
  unfolding moved_box
  moved_box-IsPlaced s x y = elim (Bool-cases s.resize) [
    | inl sizes ↦ rw sizes (IsPlaced.resized refl refl (max-above four _) (max-above four _))
    | inr moves ↦ rw moves (IsPlaced.moved refl refl (clamp-between _) (clamp-between _))
  ]

  moved_box-placed :
      {start : Box F} {resize : Bool} (s : Drag F) (x y : R)
      → s.start ≡ start
      → s.resize ≡ resize
      → IsPlaced start resize (moved_box F s x y)
  moved_box-placed {start} s x y same_start same_resize =
      subst (λ r. IsPlaced start r (moved_box F s x y)) same_resize
        (subst (λ b. IsPlaced b s.resize (moved_box F s x y)) same_start (moved_box-IsPlaced s x y))

  -- While the listeners are there nothing is committed; afterwards exactly the last box is.
  pub record IsDragged (start : Box F) (resize : Bool) (s : Drag F) : Type 0 where
    pub same_start : s.start ≡ start
    pub same_resize : s.resize ≡ resize
    pub placed : IsPlaced start resize s.latest
    pub pending : s.listening ≡ true → s.commits ≡ []
    pub committed : s.listening ≡ false → s.commits ≡ s.latest ∷ []

  step-IsDragged :
      {start : Box F} {resize : Bool} {s t : Drag F}
      → Step F s t
      → IsDragged start resize s
      → IsDragged start resize t
  unfolding on_move on_up
  step-IsDragged {start} {resize} {s} (pointer_moved x y on) h = record {
    same_start = h.same_start;
    same_resize = h.same_resize;
    placed = moved_box-placed s x y h.same_start h.same_resize;
    pending = h.pending;
    committed = λ off. absurd (ground arith);
  }
  step-IsDragged {start} {resize} {s} (pointer_up x y on) h = record {
    same_start = h.same_start;
    same_resize = h.same_resize;
    placed = moved_box-placed s x y h.same_start h.same_resize;
    pending = λ c. cc;
    committed = λ off. let none_yet = h.pending on in rw none_yet refl;
  }

  -- Whatever the pointer does in a gesture, resizing keeps the place of the box and moving keeps
  -- its sides; what changes is a side from 4 on or a place from 0 to 96, or not a number; while
  -- the pointer is down nothing is committed, and afterwards exactly the box that is shown is,
  -- once.
  pub drag-IsDragged :
      (x y stage_width stage_height : R) (resize : Bool) (box : Box F) {s : Drag F}
      → After F (drag F x y stage_width stage_height resize box) s
      → IsDragged box resize s
  unfolding drag
  drag-IsDragged x y stage_width stage_height resize box here = record {
    same_start = refl;
    same_resize = refl;
    placed = IsPlaced.untouched;
    pending = λ c. refl;
    committed = λ c. cc;
  }
  drag-IsDragged x y stage_width stage_height resize box (later r step) =
      step-IsDragged step (drag-IsDragged x y stage_width stage_height resize box r)
