-- ===== src/Admin/Editor.antt =====
-- The page and the item that are edited (`Broadcast` and `Inspector` of frontend/src/pages/
-- broadcast.tsx).
pub mod Drafts
use icpc_controller.Prelude.{
  ℕ, Bool, true, false, not, ◌&&◌, ◌||◌, Option, none, some, List, [], ◌∷◌, ◌++◌, map, ◌≡◌, ◌==◌,
  if◌then◌else◌,
}
use icpc_controller.Prelude.Text.{Text}
use icpc_controller.Admin.Pages.{keep_page}
use icpc_controller.Admin.Stage.{Floats, Look, Box, Item, StagePage, is_page, commit_box}

-- list.find(test)
unfoldable pub find : {A : Type 0} → (A → Bool) → List A → Option A
find test [] = none
find test (x ∷ xs) = let rest = find test xs in if test x then some x else rest

module _ (F : Floats) where
  -- The state of the page; `draft` and `seen` are the inspector's state and what its effect
  -- depended on when it last ran, and `saves` the items that were sent.
  pub record Editor : Type 0 where
    pub mode : Text
    pub pages : List (StagePage F)
    pub page_id : Option ℕ
    pub item_id : Option ℕ
    pub dirty : Bool
    pub draft : Option (Item F)
    pub seen : Option ℕ
    pub saves : List (Item F)

  abbrev pub is_item : Option ℕ → Item F → Bool
  is_item none entry = false
  is_item (some id) entry = entry.id == id

  -- pages.find(...) || null
  abbrev pub page_of : Editor → Option (StagePage F)
  page_of s = find (is_page F s.page_id) s.pages

  -- page?.items?.find(...) || null
  abbrev pub item_in : Option ℕ → Option (StagePage F) → Option (Item F)
  item_in id none = none
  item_in id (some page) = find (is_item id) page.items

  abbrev pub item_of : Editor → Option (Item F)
  item_of s = item_in s.item_id (page_of s)

  -- item?.id
  abbrev pub id_of : Option (Item F) → Option ℕ
  id_of none = none
  id_of (some item) = some item.id

  abbrev pub same_id : Option ℕ → Option ℕ → Bool
  same_id none none = true
  same_id none (some b) = false
  same_id (some a) none = false
  same_id (some a) (some b) = a == b

  -- The inspector's effect, behind each rendering.
  unfoldable pub draw : Editor → Editor
  draw s =
      if same_id (id_of (item_of s)) s.seen
      then s
      else record s { draft = item_of s; seen = id_of (item_of s) }

  -- `load`, from the answer with the pages on.
  unfoldable pub on_load : Option ℕ → List (StagePage F) → Editor → Editor
  on_load keep list s =
      draw (record s { pages = list; page_id = keep_page keep (map (λ page. page.id) list) })

  -- setDirty(false): the last answer of `load`, and that of a save or of the deletion of an item.
  unfoldable pub on_clean : Editor → Editor
  on_clean s = record s { dirty = false }

  -- The button of a mode, with the user's answer where changes are not saved.
  unfoldable pub switch_mode : Text → Bool → Editor → Editor
  switch_mode mode confirmed s =
      if not s.dirty || confirmed
      then draw (record s { dirty = false; item_id = none; mode = mode })
      else s

  unfoldable pub select_page : ℕ → Editor → Editor
  select_page id s = draw (record s { page_id = some id; item_id = none })

  unfoldable pub select_item : Option ℕ → Editor → Editor
  select_item id s = draw (record s { item_id = id })

  -- The commit of a gesture, once its request is answered.
  unfoldable pub commit : ℕ → Box F → Editor → Editor
  commit id box s = draw (record s { pages = commit_box F s.page_id id box s.pages })

  abbrev pub with_look : Look → Option (Item F) → Option (Item F)
  with_look look none = none
  with_look look (some item) = some (record item { look = look })

  -- A field of the inspector.
  unfoldable pub edit : Look → Editor → Editor
  edit look s = record s { draft = with_look look s.draft; dirty = true }

  -- The button that saves the draft, up to its request; it is disabled unless something is dirty.
  abbrev pub saved : Option (Item F) → List (Item F)
  saved none = []
  saved (some item) = item ∷ []

  unfoldable pub save : Editor → Editor
  save s = if s.dirty then record s { saves = s.saves ++ saved s.draft } else s

  pub data Step (s : Editor) : Editor → Type 0 where
    loaded : (keep : Option ℕ) (list : List (StagePage F)) → Step s (on_load keep list s)
    cleaned : Step s (on_clean s)
    mode_picked : (mode : Text) (confirmed : Bool) → Step s (switch_mode mode confirmed s)
    page_picked : (id : ℕ) → Step s (select_page id s)
    item_picked : (id : Option ℕ) → Step s (select_item id s)
    committed : (id : ℕ) (box : Box F) → Step s (commit id box s)
    edited : (look : Look) → Step s (edit look s)
    sent : Step s (save s)

  abbrev pub first_editor : Text → Editor
  first_editor mode = record {
    mode = mode;
    pages = [];
    page_id = none;
    item_id = none;
    dirty = false;
    draft = none;
    seen = none;
    saves = [];
  }

  pub data Reach : Editor → Type 0 where
    opened : (mode : Text) → Reach (first_editor mode)
    further : {s t : Editor} → Reach s → Step s t → Reach t
