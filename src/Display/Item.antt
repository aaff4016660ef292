-- ===== src/Display/Item.antt =====
-- `renderItem`, `renderScrollingNotice` and `scaleFont` of
-- internal/server/web/broadcast/display.js: the element that shows an item of a page.
-- A number that is only put into a style stands as the text that JavaScript prints for it, and a
-- style that is not set is the empty text.
pub mod Laws
use text.Mathlib.Text.{◌==◌}
use icpc_controller.Prelude.{String, Bool, Option, none, some, List, [], ◌∷◌, ◌++◌, if◌then◌else◌}
use icpc_controller.Prelude.Text.{Text, codes}
use icpc_controller.Display.Host.{Host, Extra, malformed, null_value, value}

-- An item as the server sends it.
pub record Item : Type 0 where
  pub item_type : String
  pub content : Text
  pub pos_x : Text
  pub pos_y : Text
  pub width : Text
  pub height : Text
  pub font_size : Text
  pub font_color : String
  pub font_weight : String
  pub text_align : String
  pub bg_color : String
  pub border_radius : String
  pub animation : String
  pub z_index : Text
  pub extra_json : String

pub data Family : Type 0 where
  inherited broadcast_font monospace : Family

pub record Style : Type 0 where
  pub position : String
  pub left : Text
  pub top : Text
  pub width : Text
  pub height : Text
  pub font_size : Text
  pub color : String
  pub font_weight : String
  pub background_color : String
  pub border_radius : String
  pub z_index : Text
  pub font_family : Family
  pub animation : String
  pub display : String
  pub align_items : String
  pub justify_content : String
  pub text_align : String
  pub white_space : String
  pub line_height : String
  pub overflow : String

-- The span of a scrolling notice, with the speed that its animation is computed from.
pub record Span : Type 0 where
  pub text : Text
  pub font_size : Text
  pub color : String
  pub font_weight : String
  pub speed : Text

-- What the element contains: nothing, an image of the full size of the element, or the span.
pub data Child : Type 0 where
  childless : Child
  img : Text → Child
  span : Span → Child

pub record Element : Type 0 where
  pub classes : List String
  pub style : Style
  pub text : Text
  pub child : Child

unfoldable pub scale_font : Host → Text → Text
scale_font host [] = []
scale_font host (c ∷ cs) = elim (host.parse_float (c ∷ cs)) [
  | none ↦ c ∷ cs
  | some v ↦ v ++ codes "vh"
]

-- `alignMap[text_align] || 'center'`
unfoldable pub justify : String → String
justify align =
    if align == "left"
    then "flex-start"
    else if align == "center"
    then "center"
    else if align == "right"
    then "flex-end"
    else "center"

animation_of : String → String
animation_of name =
    if name == "fadeIn"
    then "fadeIn 0.5s ease"
    else if name == "slideUp"
    then "slideUp 0.5s ease"
    else if name == "pulse"
    then "pulse 2s ease infinite"
    else ""

percent : Text → Text
percent v = v ++ codes "%"

-- The part of `renderItem` above its `switch`.
unfoldable pub base_element : Host → Bool → Item → Element
unfolding animation_of percent scale_font
base_element host font_loaded it = record {
  classes = "broadcast-item" ∷ it.item_type ∷ [];
  style = record {
    position = "absolute";
    left = percent it.pos_x;
    top = percent it.pos_y;
    width = percent it.width;
    height = percent it.height;
    font_size = scale_font host it.font_size;
    color = it.font_color;
    font_weight = it.font_weight;
    background_color = if it.bg_color == "transparent" then "" else it.bg_color;
    border_radius = it.border_radius;
    z_index = it.z_index;
    font_family = if font_loaded then Family.broadcast_font else Family.inherited;
    animation = animation_of it.animation;
    display = "";
    align_items = "";
    justify_content = "";
    text_align = "";
    white_space = "";
    line_height = "";
    overflow = "";
  };
  text = [];
  child = childless;
}

unfoldable pub dress_text : Item → Element → Element
unfolding justify
dress_text it el = record el {
  text = it.content;
  style = record (el.style) {
    display = "flex";
    align_items = "center";
    justify_content = justify it.text_align;
    text_align = if it.text_align == "" then "center" else it.text_align;
    white_space = "pre-wrap";
    line_height = "1.2";
  };
}

unfoldable pub dress_clock : Item → Element → Element
unfolding justify
dress_clock it el = record el {
  text = codes "00:00:00";
  classes = el.classes ++ "bc-clock-val" ∷ [];
  style = record (el.style) {
    display = "flex";
    align_items = "center";
    justify_content = justify it.text_align;
    font_family = Family.monospace;
    white_space = "nowrap";
  };
}

-- `extra.scroll_speed || 120`; none where reading the property throws.
unfoldable pub scroll_speed : Host → Item → Option Text
scroll_speed host it = elim (host.parse_extra it.extra_json) [
  | malformed ↦ some (codes "120")
  | null_value ↦ none
  | value none ↦ some (codes "120")
  | value (some v) ↦ some v
]

unfoldable pub render_scrolling_notice : Host → Item → Element → Option Element
unfolding scroll_speed scale_font
render_scrolling_notice host it el = elim (scroll_speed host it) [
  | none ↦ none
  | some speed ↦ some (record el {
    child = span (record {
      text = it.content;
      font_size = scale_font host it.font_size;
      color = it.font_color;
      font_weight = it.font_weight;
      speed = speed;
    });
    style = record (el.style) {
      display = "flex";
      align_items = "center";
      overflow = "hidden";
      white_space = "nowrap";
    };
  })
]

-- The cases of the `switch` over `item_type`.
pub data Kind : Type 0 where
  text_item clock_item image_item countdown_item notice_item other_item : Kind

unfoldable pub kind_of : String → Kind
kind_of item_type =
    if item_type == "text"
    then text_item
    else if item_type == "clock"
    then clock_item
    else if item_type == "image"
    then image_item
    else if item_type == "countdown"
    then countdown_item
    else if item_type == "scrolling_notice"
    then notice_item
    else other_item

-- The body of the `switch`; none where the code throws.
unfoldable pub dress : Host → Item → Kind → Element → Option Element
dress host it text_item el = some (dress_text it el)
dress host it clock_item el = some (dress_clock it el)
dress host it image_item el = some (record el { child = img it.content })
dress host it countdown_item el = some (record el { text = codes "--:--:--" })
dress host it notice_item el = render_scrolling_notice host it el
dress host it other_item el = some el

unfoldable pub render_item : Host → Bool → Item → Option Element
unfolding dress kind_of
render_item host font_loaded it =
    dress host it (kind_of it.item_type) (base_element host font_loaded it)
