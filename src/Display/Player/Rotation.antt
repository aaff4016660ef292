-- ===== src/Display/Player/Rotation.antt =====
-- The index and the timer of the carousel over a whole run of the display
-- (`renderCurrentPage` and `scheduleNext` of internal/server/web/broadcast/display.js).
use icpc_controller.Prelude.{
  ◌<◌, Bool, true, false, ◌||◌, Option, none, some, List, [], ◌∷◌, ◌≡◌, ◌≢◌, refl, arith, is_empty,
  Option-cases, inl, inr, length, All, All-get_elem?, get_elem?-lt, ltb→lt,
}
use icpc_controller.Prelude.Int.{ℤ, pos, negsuc}
use icpc_controller.Display.Host.{Host}
use icpc_controller.Display.Item.{Item, render_item}
use icpc_controller.Display.Item.Laws.{Renders, render_item-eq-none_iff}
use icpc_controller.Display.Page.{Page, View, render_items, view_of}
use icpc_controller.Display.State.{Display}
use icpc_controller.Display.Time.{in_range, page_at}
use icpc_controller.Display.Screen.{
  done, threw, settle, is_open, render_current_page, schedule_next, show_page,
}

-- Every item of the page can be rendered.
abbrev pub PageRenders : Host → Page → Type 0
PageRenders host page = All (Renders host) page.items

render_items-total :
    (host : Host) (font_loaded : Bool) (items : List Item)
    → All (Renders host) items
    → render_items host font_loaded items ≢ none
unfolding render_items
render_items-total host font_loaded [] h = λ e. cc
render_items-total host font_loaded (it ∷ items) h =
    elim (Option-cases (render_item host font_loaded it)) [
      | inl bad ↦
          let r = (render_item-eq-none_iff host font_loaded it).0 bad in absurd (h.0 r.0 r.1)
      | inr (el, good) ↦ ground (arith, render_items-total host font_loaded items h.1)
    ]

pub view_of-total :
    (host : Host) (font_loaded : Bool) (page : Page)
    → PageRenders host page
    → view_of host font_loaded page ≢ none
unfolding view_of
view_of-total host font_loaded page h =
    ground (arith, render_items-total host font_loaded page.items h)

pub page_at-in_range :
    (pages : List Page) (i : ℤ)
    → in_range i pages ≡ true
    → (page : Page) × (page_at pages i ≡ some page)
page_at-in_range pages (pos i) h = get_elem?-lt pages i (ltb→lt i (length pages) h)
page_at-in_range pages (negsuc i) h = cc

-- The two ways in which rendering a page can end, where the index is that of a page.
pub data Rendering (host : Host) (s : Display) : Type 0 where
  failed :
      (page : Page)
      → page_at s.pages s.current_idx ≡ some page
      → view_of host s.font_loaded page ≡ none
      → render_current_page host s ≡ threw s
      → Rendering host s
  shown :
      (page : Page) (view : View)
      → page_at s.pages s.current_idx ≡ some page
      → view_of host s.font_loaded page ≡ some view
      → render_current_page host s
        ≡ done (schedule_next (some page) (record s { container = show_page view s.container }))
      → Rendering host s

pub rendering :
    (host : Host) (s : Display) → in_range s.current_idx s.pages ≡ true → Rendering host s
unfolding render_current_page
rendering host s h =
    let (page, at) = page_at-in_range s.pages s.current_idx h in
    let some_pages = not_empty s.pages s.current_idx h in
    elim (Option-cases (view_of host s.font_loaded page)) [
      | inl bad ↦ failed page at bad (ground arith)
      | inr (view, good) ↦ shown page view at good (ground arith)
    ]
  where
    not_empty : (pages : List Page) (i : ℤ) → in_range i pages ≡ true → is_empty pages ≡ false
    not_empty [] (pos i) e = ground arith
    not_empty [] (negsuc i) e = cc
    not_empty (p ∷ ps) i e = refl

abbrev pub is_set : Option ℤ → Bool
is_set none = false
is_set (some d) = true

-- The index is that of a page, unless there is none; no carousel timer is pending while the socket
-- is open, nor while there is no page; and while the socket is not open one is pending, if there is
-- more than one page and they can be rendered.
pub record IsRotating (host : Host) (s : Display) : Type 0 where
  pub index : (is_empty s.pages || in_range s.current_idx s.pages) ≡ true
  pub held : is_open s.ws ≡ true → is_set s.page_timer ≡ false
  pub paged : is_set s.page_timer ≡ true → 0 < length s.pages
  pub running :
      All (PageRenders host) s.pages
      → 1 < length s.pages
      → is_open s.ws ≡ false
      → is_set s.page_timer ≡ true

-- What the handlers see to before they render.
pub record IsReady (s : Display) : Type 0 where
  pub index : in_range s.current_idx s.pages ≡ true
  pub held : is_open s.ws ≡ true → is_set s.page_timer ≡ false

page-PageRenders :
    (host : Host) (pages : List Page) (i : ℤ) {page : Page}
    → All (PageRenders host) pages
    → page_at pages i ≡ some page
    → PageRenders host page
page-PageRenders host pages (pos i) h e = All-get_elem? (PageRenders host) pages i h e
page-PageRenders host pages (negsuc i) h e = cc

in_range-pos : (pages : List Page) (i : ℤ) → in_range i pages ≡ true → 0 < length pages
in_range-pos pages (pos i) h = omega (arith, ltb→lt i (length pages) h)
in_range-pos pages (negsuc i) h = cc

or-right : (a b : Bool) → b ≡ true → (a || b) ≡ true
or-right true b h = refl
or-right false b h = h

pub schedule-IsRotating :
    (host : Host) (page : Option Page) (s : Display)
    → IsReady s
    → IsRotating host (schedule_next page s)
unfolding schedule_next
schedule-IsRotating host page s r = record {
  index = or-right _ _ r.index;
  held = λ up. ground arith;
  paged = λ _. in_range-pos s.pages s.current_idx r.index;
  running = λ _ many shut. ground arith;
}

failed-IsRotating :
    (host : Host) (page : Page) (s : Display)
    → page_at s.pages s.current_idx ≡ some page
    → view_of host s.font_loaded page ≡ none
    → IsReady s
    → IsRotating host s
failed-IsRotating host page s at bad r = record {
  index = or-right _ _ r.index;
  held = r.held;
  paged = λ _. in_range-pos s.pages s.current_idx r.index;
  running = λ all _ _. absurd (
      view_of-total host s.font_loaded page (page-PageRenders host s.pages s.current_idx all at)
        bad);
}

pub render-IsRotating :
    (host : Host) (s : Display) → IsReady s → IsRotating host (settle (render_current_page host s))
render-IsRotating host s r = elim (rendering host s r.index) [
  | failed page at bad e ↦ rw e (failed-IsRotating host page s at bad r)
  | shown page view at good e ↦ rw e (
      schedule-IsRotating host (some page) (record s { container = show_page view s.container })
        (record { index = r.index; held = r.held }))
]
