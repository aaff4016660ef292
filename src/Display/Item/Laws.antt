-- ===== src/Display/Item/Laws.antt =====
-- When an item of a broadcast page can be rendered, and which selectors find its element
-- (`renderItem` of internal/server/web/broadcast/display.js).
use text.Mathlib.Text.{◌==◌}
use text.Mathlib.TextEquality.{eq_iff}
use icpc_controller.Prelude.{
  String, Bool, true, false, none, some, ◌≡◌, refl, ◌≢◌, ◌↔◌, ◌||◌, any, arith, ◌++◌, ◌∷◌, [],
  if◌then◌else◌, Bool-cases, inl, inr,
}
use icpc_controller.Display.Host.{Host, null_value}
use icpc_controller.Display.Item.{
  Item, Element, base_element, dress_text, dress_clock, render_scrolling_notice, render_item, Kind,
  notice_item, kind_of, dress, scroll_speed, clock_item,
}

-- `JSON.parse` of the extra settings gives no `null`, where the item scrolls.
abbrev pub Renders : Host → Item → Type 0
Renders host it = it.item_type ≡ "scrolling_notice" → host.parse_extra it.extra_json ≢ null_value

dress-eq-none_iff :
    (host : Host) (it : Item) (k : Kind) (el : Element)
    → (dress host it k el ≡ none)
      ↔ ((k ≡ notice_item) × (host.parse_extra it.extra_json ≡ null_value))
unfolding dress render_scrolling_notice scroll_speed
dress-eq-none_iff host it k el = ground arith

kind_of-notice_iff : (t : String) → (kind_of t ≡ notice_item) ↔ (t ≡ "scrolling_notice")
unfolding kind_of
kind_of-notice_iff t = (λ e. ground (arith, eq_iff t "scrolling_notice"), λ e. rw e refl)

abbrev is_clock : Kind → Bool
is_clock clock_item = true
is_clock _ = false

-- Rendering an item throws exactly when the item is a scrolling notice whose extra settings are the
-- JSON value `null`.
pub render_item-eq-none_iff :
    (host : Host) (font_loaded : Bool) (it : Item)
    → (render_item host font_loaded it ≡ none)
      ↔ ((it.item_type ≡ "scrolling_notice") × (host.parse_extra it.extra_json ≡ null_value))
render_item-eq-none_iff host font_loaded it =
    let d = dress-eq-none_iff host it (kind_of it.item_type) (base_element host font_loaded it) in
    let k = kind_of-notice_iff it.item_type in
    (
      λ e. let r = d.0 (unfold render_item in e) in (k.0 r.0, r.1),
      λ r. unfold render_item in d.1 (k.1 r.0, r.1),
    )

-- `element.matches("." + name)`
abbrev pub has_class : String → Element → Bool
has_class name el = any (λ c. c == name) el.classes

dress-classes :
    (host : Host) (it : Item) (k : Kind) (el el' : Element)
    → dress host it k el ≡ some el'
    → el'.classes ≡ (if is_clock k then el.classes ++ "bc-clock-val" ∷ [] else el.classes)
unfolding dress dress_clock dress_text render_scrolling_notice scroll_speed
dress-classes host it k el el' h = ground arith

is_clock-kind_of : (t : String) → is_clock (kind_of t) ≡ (t == "clock")
unfolding kind_of
is_clock-kind_of t = elim (Bool-cases (t == "clock")) [
  | inl same ↦ let e = (eq_iff t "clock").0 same in rw e refl
  | inr other ↦ ground arith
]

-- The element of an item is found by ".broadcast-item" always, by ".countdown" exactly for a
-- countdown, and by ".bc-clock-val" exactly for a clock (or for an item type of that spelling).
pub render_item_classes :
    (host : Host) (font_loaded : Bool) (it : Item) (el : Element)
    → render_item host font_loaded it ≡ some el
    → (has_class "broadcast-item" el ≡ true)
      × (has_class "countdown" el ≡ (it.item_type == "countdown"))
      × (has_class "bc-clock-val" el ≡ (it.item_type == "clock" || it.item_type == "bc-clock-val"))
unfolding base_element
render_item_classes host font_loaded it el h =
    let base = base_element host font_loaded it in
    let c = dress-classes host it (kind_of it.item_type) base el (unfold render_item in h) in
    let k = is_clock-kind_of it.item_type in ground (arith, c, k)
