-- ===== src/Display/Page.antt =====
-- A page of the broadcast, as the server sends it, and its view on the screen (the first half of
-- `renderCurrentPage` of internal/server/web/broadcast/display.js).
use text.Mathlib.Text.{◌==◌}
use icpc_controller.Prelude.{String, Bool, Option, none, some, List, [], ◌∷◌, if◌then◌else◌}
use icpc_controller.Prelude.Int.{ℤ}
use icpc_controller.Display.Host.{Host}
use icpc_controller.Display.Item.{Item, Element, render_item}

-- `duration_ms` is none where the field is missing; missing items are the empty list.
pub record Page : Type 0 where
  pub duration_ms : Option ℤ
  pub bg_color : String
  pub items : List Item

pub record View : Type 0 where
  pub background : String
  pub elements : List Element

infixl 5 ◌>>=◌
abbrev pub ◌>>=◌ {ℓ κ} : {A : Type ℓ} {B : Type κ} → Option A → (A → Option B) → Option B
none >>= k = none
some a >>= k = k a

-- `page.items.forEach` with `renderItem`; none where an item throws.
unfoldable pub render_items : Host → Bool → List Item → Option (List Element)
render_items host font_loaded [] = some []
render_items host font_loaded (it ∷ items) = do
  el ← render_item host font_loaded it
  els ← render_items host font_loaded items
  some (el ∷ els)

unfoldable pub view_of : Host → Bool → Page → Option View
view_of host font_loaded page = do
  els ← render_items host font_loaded page.items
  some (record {
    background = if page.bg_color == "" then "#000" else page.bg_color;
    elements = els;
  })
