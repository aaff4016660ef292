-- ===== src/Display/Font.antt =====
-- Loading the font of the broadcast (`loadFont` of internal/server/web/broadcast/display.js): a
-- request for the configuration, a request for the list of fonts, and what their answers change.
pub mod Laws
use text.Mathlib.Text.{◌==◌ as str_eq}
use icpc_controller.Prelude.{
  ℕ, ◌+◌, String, Bool, true, false, Option, none, some, List, [], ◌∷◌, ◌++◌, map, ◌==◌,
  if◌then◌else◌,
}
use icpc_controller.Display.Item.{Element, Family, Style}
use icpc_controller.Display.Page.{View}
use icpc_controller.Display.State.{
  Request, get_config, get_fonts, PageNode, FontStyle, Fonts, Display,
}

-- One entry of the list of fonts.
pub record FontFile : Type 0 where
  pub filename : String
  pub format : String

abbrev pub send : Request → Display → Display
send r s = record s { requests = s.requests ++ r ∷ [] }

unfoldable pub load_font : Display → Display
load_font s = send get_config s

-- `el.style.fontFamily = …` for every ".broadcast-item" on the screen.
unfoldable pub set_family : Family → List Element → List Element
set_family family [] = []
set_family family (el ∷ els) =
    record el { style = record (el.style) { font_family = family } } ∷ set_family family els

abbrev pub restyle_node : Family → PageNode → PageNode
restyle_node family n = record n {
  view = record (n.view) { elements = set_family family n.view.elements };
}

unfoldable pub restyle : Family → Display → Display
restyle family s = record s {
  container = record (s.container) { nodes = map (restyle_node family) s.nodes };
}

-- `document.getElementById('broadcast-font-style')`
unfoldable pub existing_style : List FontStyle → Option ℕ
existing_style [] = none
existing_style (f ∷ fs) = some f.node

unfoldable pub remove_style : Option ℕ → List FontStyle → List FontStyle
remove_style none fs = fs
remove_style (some k) [] = []
remove_style (some k) (f ∷ fs) =
    let rest = remove_style (some k) fs in if f.node == k then rest else f ∷ rest

-- `activeFont === font`, where it may still be `null`.
abbrev pub is_active : String → Option String → Bool
is_active font none = false
is_active font (some f) = str_eq f font

-- The answer with the configuration; `font` is `cfg.active_font || ''`, none a failed request.
unfoldable pub on_config : Option String → Display → Display
unfolding existing_style remove_style restyle
on_config none s = s
on_config (some font) s =
    if is_active font s.active_font
    then s
    else if str_eq font ""
    then restyle Family.inherited (record s {
      fonts = record (s.fonts) {
        active_font = some font;
        font_loaded = false;
        font_styles = remove_style (existing_style s.font_styles) s.font_styles;
      };
    })
    else send (get_fonts font (existing_style s.font_styles))
        (record s { fonts = record (s.fonts) { active_font = some font } })

-- `fonts.filter(…)[0]`
unfoldable pub find_font : String → List FontFile → Option FontFile
find_font font [] = none
find_font font (f ∷ fs) =
    let rest = find_font font fs in if str_eq f.filename font then some f else rest

unfoldable pub css_format : String → String
css_format format = if str_eq format "ttf" then "truetype" else format

-- The style element that was found is filled and moved to the end of the head; without one a new
-- element is put there.
unfoldable pub put_style : Option ℕ → FontFile → Fonts → Fonts
unfolding remove_style css_format
put_style none f fs = record fs {
  font_loaded = true;
  font_styles =
      fs.font_styles
      ++ record { node = fs.next_style; filename = f.filename; format = css_format f.format } ∷ [];
  next_style = fs.next_style + 1;
}
put_style (some k) f fs = record fs {
  font_loaded = true;
  font_styles =
      remove_style (some k) fs.font_styles
      ++ record { node = k; filename = f.filename; format = css_format f.format } ∷ [];
}

-- The answer with the fonts, for the request `get_fonts font existing`; none is a failed request.
unfoldable pub on_fonts : String → Option ℕ → Option (List FontFile) → Display → Display
unfolding find_font put_style restyle
on_fonts font existing none s = s
on_fonts font existing (some files) s =
    if is_active font s.active_font
    then elim (find_font font files) [
      | none ↦ s
      | some f ↦ restyle Family.broadcast_font (record s { fonts = put_style existing f s.fonts })
    ]
    else s
