-- ===== src/Admin/Tests/Editing.antt =====
-- Runs of the models of the stage and the editor (frontend/src/pages/broadcast.tsx) on concrete
-- input.
use icpc_controller.Prelude.{
  ℕ, ◌+◌, ◌-◌, ◌*◌, ◌/◌, Bool, true, false, Option, none, some, [], ◌∷◌, ◌++◌, ◌≡◌, refl, arith,
  leb,
}
use icpc_controller.Prelude.Text.{codes}
use icpc_controller.Admin.Pages.{keep_page}
use icpc_controller.Admin.Stage.{
  Floats, Look, Box, Item, StagePage, Drag, drag, on_move, on_up, here, later, pointer_moved,
  pointer_up,
}
use icpc_controller.Admin.Stage.Bounds.{IsDragged, drag-IsDragged}
use icpc_controller.Admin.Editor.{
  Editor, on_load, select_item, commit, edit, save, first_editor, Reach, opened, further, loaded,
  item_picked, find, draw,
}
use icpc_controller.Admin.Editor.Drafts.{IsDrawn, Reach-IsDrawn, save-commit}

-- Whole numbers from 0 on, with one that is no number.
abbrev not_number : Option ℕ → Bool
not_number none = true
not_number (some a) = false

abbrev at_most : Option ℕ → Option ℕ → Bool
at_most none b = false
at_most (some a) none = false
at_most (some a) (some b) = leb a b

abbrev lift : (ℕ → ℕ → ℕ) → Option ℕ → Option ℕ → Option ℕ
lift op none b = none
lift op (some a) none = none
lift op (some a) (some b) = some (op a b)

at_most_refl : (a : Option ℕ) → not_number a ≡ false → at_most a a ≡ true
at_most_refl none h = cc
at_most_refl (some a) h = ground arith

at_most_total :
    (a b : Option ℕ)
    → not_number a ≡ false
    → not_number b ≡ false
    → at_most a b ≡ false
    → at_most b a ≡ true
at_most_total none b h k l = cc
at_most_total (some a) none h k l = cc
at_most_total (some a) (some b) h k l = ground arith

abbrev numbers : Floats
numbers = record {
  R = Option ℕ;
  nan = none;
  zero = some 0;
  four = some 4;
  ninety_six = some 96;
  hundred = some 100;
  is_nan = not_number;
  le = at_most;
  add = lift (λ a b. a + b);
  sub = lift (λ a b. a - b);
  mul = lift (λ a b. a * b);
  div = lift (λ a b. a / b);
  round = λ a. a;
  le_refl = at_most_refl;
  le_total = at_most_total;
  nan-is_nan = refl;
  zero-is_nan = refl;
  four-is_nan = refl;
  ninety_six-is_nan = refl;
  zero-le-ninety_six = refl;
}

abbrev box : Box numbers
box = record { pos_x = some 10; pos_y = some 20; width = some 30; height = some 5 }

abbrev gesture : Drag numbers
gesture = drag numbers (some 100) (some 100) (some 800) (some 450) false box

drag-IsDragged_example :
    IsDragged numbers box false
      (on_up numbers (some 2000) (some 109) (on_move numbers (some 180) (some 145) gesture))
unfolding drag on_move on_up
drag-IsDragged_example =
    drag-IsDragged numbers (some 100) (some 100) (some 800) (some 450) false box (
      later (later here (pointer_moved (some 180) (some 145) refl))
        (pointer_up (some 2000) (some 109) refl))

abbrev look : Look
look = record {
  content = codes "A";
  font_size = codes "4";
  font_color = codes "#fff";
  text_align = codes "center";
  font_weight = codes "500";
}

abbrev item : Item numbers
item = record { id = 3; box = box; look = look }

abbrev page : StagePage numbers
page = record { id = 5; items = item ∷ [] }

abbrev editing : Editor numbers
editing =
    select_item numbers (some 3)
      (on_load numbers none (page ∷ []) (first_editor numbers (codes "before")))

editing-Reach : Reach numbers editing
editing-Reach =
    further (further (opened (codes "before")) (loaded none (page ∷ []))) (item_picked (some 3))

Reach-IsDrawn_example : IsDrawn numbers editing
Reach-IsDrawn_example = Reach-IsDrawn numbers editing-Reach

editing-draft : editing.draft ≡ some item
unfolding on_load select_item draw find keep_page
editing-draft = refl

abbrev elsewhere : Box numbers
elsewhere = record box { pos_x = some 50 }

abbrev renamed : Look
renamed = record look { content = codes "B" }

save-commit_example :
    (save numbers (edit numbers renamed (commit numbers 3 elsewhere editing))).saves
    ≡ editing.saves ++ record item { look = renamed } ∷ []
save-commit_example = save-commit numbers item renamed elsewhere editing-Reach editing-draft
