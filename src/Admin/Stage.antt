-- ===== src/Admin/Stage.antt =====
-- Moving and resizing an item of a broadcast page with the pointer (`CanvasItem`, `clamp` and the
-- commit of `Stage` in frontend/src/pages/broadcast.tsx).
pub mod Bounds
use icpc_controller.Prelude.{
  ℕ, Bool, true, false, not, ◌&&◌, ◌||◌, Option, none, some, List, [], ◌∷◌, ◌++◌, map, ◌≡◌, ◌==◌,
  if◌then◌else◌,
}
use icpc_controller.Prelude.Text.{Text}

-- JavaScript's numbers, as far as they are used: the operations, the order (`le` is false where
-- one side is not a number), and what IEEE 754 says of them.
pub record Floats : Type 1 where
  pub R : Type 0
  pub nan : R
  pub zero : R
  pub four : R
  pub ninety_six : R
  pub hundred : R
  pub is_nan : R → Bool
  pub le : R → R → Bool
  pub add : R → R → R
  pub sub : R → R → R
  pub mul : R → R → R
  pub div : R → R → R
  pub round : R → R
  pub le_refl : (a : R) → is_nan a ≡ false → le a a ≡ true
  pub le_total : (a b : R) → is_nan a ≡ false → is_nan b ≡ false → le a b ≡ false → le b a ≡ true
  pub nan-is_nan : is_nan nan ≡ true
  pub zero-is_nan : is_nan zero ≡ false
  pub four-is_nan : is_nan four ≡ false
  pub ninety_six-is_nan : is_nan ninety_six ≡ false
  pub zero-le-ninety_six : le zero ninety_six ≡ true

-- What the inspector edits of an item.
pub record Look : Type 0 where
  pub content : Text
  pub font_size : Text
  pub font_color : Text
  pub text_align : Text
  pub font_weight : Text

module _ (F : Floats) where
  open F use {R, nan, zero, four, ninety_six, hundred, is_nan, le, add, sub, mul, div, round}

  -- Math.max(a, b) and Math.min(a, b)
  unfoldable pub max : R → R → R
  max a b = if is_nan a || is_nan b then nan else if le a b then b else a

  unfoldable pub min : R → R → R
  min a b = if is_nan a || is_nan b then nan else if le a b then a else b

  unfoldable pub clamp : R → R
  clamp value = max zero (min ninety_six (div (round (mul value hundred)) hundred))

  pub record Box : Type 0 where
    pub pos_x : R
    pub pos_y : R
    pub width : R
    pub height : R

  -- A gesture: where the pointer went down, the box and the size of the stage at that time, the
  -- box that is shown, whether the listeners are there, and what was committed.
  pub record Drag : Type 0 where
    pub x : R
    pub y : R
    pub stage_width : R
    pub stage_height : R
    pub resize : Bool
    pub start : Box
    pub latest : Box
    pub listening : Bool
    pub commits : List Box

  -- (client - start) / size * 100
  abbrev pub shift : R → R → R → R
  shift client from size = mul (div (sub client from) size) hundred

  unfoldable pub moved_box : Drag → R → R → Box
  moved_box s client_x client_y =
      let dx = shift client_x s.x s.stage_width in
      let dy = shift client_y s.y s.stage_height in
      if s.resize
      then record {
        pos_x = s.start.pos_x;
        pos_y = s.start.pos_y;
        width = max four (add s.start.width dx);
        height = max four (add s.start.height dy);
      }
      else record {
        pos_x = clamp (add s.start.pos_x dx);
        pos_y = clamp (add s.start.pos_y dy);
        width = s.start.width;
        height = s.start.height;
      }

  -- `drag`, once the stage has its bounds.
  unfoldable pub drag : R → R → R → R → Bool → Box → Drag
  drag x y stage_width stage_height resize box = record {
    x = x;
    y = y;
    stage_width = stage_width;
    stage_height = stage_height;
    resize = resize;
    start = box;
    latest = box;
    listening = true;
    commits = [];
  }

  unfoldable pub on_move : R → R → Drag → Drag
  on_move x y s = record s { latest = moved_box s x y }

  unfoldable pub on_up : R → R → Drag → Drag
  on_up x y s = record s {
    latest = moved_box s x y;
    listening = false;
    commits = s.commits ++ moved_box s x y ∷ [];
  }

  pub data Step (s : Drag) : Drag → Type 0 where
    pointer_moved : (x y : R) → s.listening ≡ true → Step s (on_move x y s)
    pointer_up : (x y : R) → s.listening ≡ true → Step s (on_up x y s)

  pub data After (s : Drag) : Drag → Type 0 where
    here : After s s
    later : {t u : Drag} → After s t → Step t u → After s u

  -- An item of the page, and the pages after the commit of a box for one of their items.
  pub record Item : Type 0 where
    pub id : ℕ
    pub box : Box
    pub look : Look

  pub record StagePage : Type 0 where
    pub id : ℕ
    pub items : List Item

  abbrev pub with_box : ℕ → Box → Item → Item
  with_box id box it = if it.id == id then record it { box = box } else it

  abbrev pub is_page : Option ℕ → StagePage → Bool
  is_page none entry = false
  is_page (some p) entry = entry.id == p

  abbrev pub with_item : Option ℕ → ℕ → Box → StagePage → StagePage
  with_item page id box entry =
      if is_page page entry
      then record entry { items = map (with_box id box) entry.items }
      else entry

  unfoldable pub commit_box : Option ℕ → ℕ → Box → List StagePage → List StagePage
  commit_box page id box pages = map (with_item page id box) pages
