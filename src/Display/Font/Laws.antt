-- ===== src/Display/Font/Laws.antt =====
-- What an answer with the fonts changes (`loadFont` of
-- internal/server/web/broadcast/display.js).
use text.Mathlib.Text.{◌==◌ as str_eq}
use text.Mathlib.TextEquality.{eq_iff}
use text.Mathlib.TextPositions.{eq_refl}
use icpc_controller.Prelude.{
  ℕ, String, true, false, Option, none, some, List, [], ◌∷◌, ◌++◌, map, ◌≡◌, refl, ap, sym, ◌∙◌,
  arith, All, Bool-cases, inl, inr,
}
use icpc_controller.Display.Item.{Element, Family, broadcast_font}
use icpc_controller.Display.State.{PageNode, FontStyle, Fonts, Display}
use icpc_controller.Display.Font.{
  FontFile, set_family, restyle_node, restyle, is_active, find_font, put_style, on_fonts,
  css_format, remove_style,
}

-- The style element at the end of the head, which wins.
abbrev pub last_style : List FontStyle → Option String
last_style [] = none
last_style (f ∷ []) = some f.filename
last_style (f ∷ g ∷ fs) = last_style (g ∷ fs)

abbrev pub HasFamily : Family → Element → Type 0
HasFamily family el = el.style.font_family ≡ family

set_family-All :
    (family : Family) (els : List Element) → All (HasFamily family) (set_family family els)
unfolding set_family
set_family-All family [] = tt
set_family-All family (el ∷ els) = (refl, set_family-All family els)

abbrev pub NodeFamily : Family → PageNode → Type 0
NodeFamily family n = All (HasFamily family) n.view.elements

restyle-All :
    (family : Family) (nodes : List PageNode)
    → All (NodeFamily family) (map (restyle_node family) nodes)
restyle-All family [] = tt
restyle-All family (n ∷ nodes) = (set_family-All family n.view.elements, restyle-All family nodes)

find_font-filename :
    (font : String) (files : List FontFile) {f : FontFile}
    → find_font font files ≡ some f
    → f.filename ≡ font
unfolding find_font
find_font-filename font [] h = cc
find_font-filename font (g ∷ files) {f} h = elim (Bool-cases (str_eq g.filename font)) [
  | inl same ↦
      let e : g ≡ f = ground arith in
      ap (λ (x : FontFile). x.filename) (sym e) ∙ (eq_iff _ _).0 same
  | inr other ↦
      let e : find_font font files ≡ some f = ground arith in
      find_font-filename font files {f = f} e
]

last_style-append :
    (fs : List FontStyle) (f : FontStyle) → last_style (fs ++ f ∷ []) ≡ some f.filename
last_style-append [] f = refl
last_style-append (g ∷ []) f = refl
last_style-append (g ∷ h ∷ fs) f = last_style-append (h ∷ fs) f

put_style-last :
    (existing : Option ℕ) (f : FontFile) (fs : Fonts)
    → (last_style (put_style existing f fs).font_styles ≡ some f.filename)
      × ((put_style existing f fs).font_loaded ≡ true)
unfolding put_style
put_style-last none f fs = (
  last_style-append fs.font_styles
      (record { node = fs.next_style; filename = f.filename; format = css_format f.format }),
  refl,
)
put_style-last (some k) f fs = (
  last_style-append (remove_style (some k) fs.font_styles)
      (record { node = k; filename = f.filename; format = css_format f.format }),
  refl,
)

on_fonts-found :
    (font : String) (existing : Option ℕ) (files : List FontFile) (f : FontFile) (s : Display)
    → find_font font files ≡ some f
    → s.active_font ≡ some font
    → on_fonts font existing (some files) s
      ≡ restyle broadcast_font (record s { fonts = put_style existing f s.fonts })
unfolding on_fonts
on_fonts-found font existing files f s found active =
    let same : is_active font s.active_font ≡ true = rw active (eq_refl font) in
    ground (arith, same, found)

-- An answer that lists the active font makes that font the one in force: it counts as loaded, the
-- style element that wins names it, and every item on the screen takes it. An answer for a font
-- that is no longer active changes nothing.
pub on_fonts_lem :
    (font : String) (existing : Option ℕ) (files : List FontFile) (f : FontFile) (s : Display)
    → find_font font files ≡ some f
    → ((s.active_font ≡ some font)
        → ((on_fonts font existing (some files) s).font_loaded ≡ true)
          × (last_style (on_fonts font existing (some files) s).font_styles ≡ some font)
          × All (NodeFamily broadcast_font) (on_fonts font existing (some files) s).nodes)
      × ((is_active font s.active_font ≡ false) → on_fonts font existing (some files) s ≡ s)
on_fonts_lem font existing files f s found = (applied, stale)
  where
    applied :
        s.active_font ≡ some font
        → ((on_fonts font existing (some files) s).font_loaded ≡ true)
          × (last_style (on_fonts font existing (some files) s).font_styles ≡ some font)
          × All (NodeFamily broadcast_font) (on_fonts font existing (some files) s).nodes
    applied active =
        let (last, loaded) = put_style-last existing f s.fonts in
        let named = ap some (find_font-filename font files found) in
        rw (on_fonts-found font existing files f s found active)
          (unfold restyle in (loaded, last ∙ named, restyle-All broadcast_font s.nodes))

    stale : is_active font s.active_font ≡ false → on_fonts font existing (some files) s ≡ s
    stale other = unfold on_fonts in rw other refl
