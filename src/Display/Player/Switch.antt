-- ===== src/Display/Player/Switch.antt =====
-- What the server's messages put on the screen
-- (`handleWSMessage` and `renderCurrentPage` of internal/server/web/broadcast/display.js).
use icpc_controller.Prelude.{
  true, false, some, List, [], ◌∷◌, ◌++◌, ◌≡◌, refl, ◌∙◌, ap, arith, if◌then◌else◌, inl, inr,
  Option-cases, count_if,
}
use icpc_controller.Prelude.Int.{ℤ, eqb_ℤ}
use icpc_controller.Display.Host.{Host}
use icpc_controller.Display.Page.{Page, View, view_of}
use icpc_controller.Display.State.{PageNode, Container, Display}
use icpc_controller.Display.Time.{in_range, page_at}
use icpc_controller.Display.Screen.{
  done, settle, render_current_page, schedule_next, show_page, deactivate,
}
use icpc_controller.Display.Player.{
  Message, Topic, switched, topic_of, on_topic, on_page_switch, set_index, sync_clocks,
  handle_ws_message, on_message,
}
use icpc_controller.Display.Player.Nodes.{is_active_node, IsTidy, count-deactivate}
use icpc_controller.Display.Player.Rotation.{PageRenders, rendering, failed, shown, view_of-total}

-- The views of the active page elements.
abbrev pub active_views : List PageNode → List View
active_views [] = []
active_views (n ∷ nodes) = if n.active then n.view ∷ active_views nodes else active_views nodes

active_views-none :
    (nodes : List PageNode) → count_if is_active_node nodes ≡ 0 → active_views nodes ≡ []
active_views-none [] h = refl
active_views-none (n ∷ nodes) h = ground (arith, active_views-none nodes)

active_views-append :
    (xs ys : List PageNode) → active_views (xs ++ ys) ≡ active_views xs ++ active_views ys
active_views-append [] ys = refl
active_views-append (n ∷ xs) ys = ground (arith, active_views-append xs ys)

active_views-show_page :
    (view : View) (c : Container) → IsTidy c → active_views (show_page view c).nodes ≡ view ∷ []
unfolding show_page
active_views-show_page view c t =
    let none_left =
      active_views-none (deactivate c.nodes) (count-deactivate c.nodes t.one_active) in
    rw (active_views-append, none_left) refl

-- Where the index is that of a page that can be rendered, rendering does not throw, keeps the index
-- and leaves the view of that page as the only active one.
pub render_current_page-shows :
    (host : Host) (s : Display) (page : Page)
    → IsTidy s.container
    → in_range s.current_idx s.pages ≡ true
    → page_at s.pages s.current_idx ≡ some page
    → PageRenders host page
    → (t : Display) × (view : View) × (render_current_page host s ≡ done t)
      × (view_of host s.font_loaded page ≡ some view)
      × (t.current_idx ≡ s.current_idx)
      × (active_views t.nodes ≡ view ∷ [])
unfolding schedule_next
render_current_page-shows host s page tidy within at good = elim (rendering host s within) [
  | failed p at' bad e ↦
      absurd (view_of-total host s.font_loaded page good (ground (arith, at, at', bad)))
  | shown p view at' v e ↦ (
    schedule_next (some p) (record s { container = show_page view s.container }),
    view,
    e,
    ground (arith, at, at', v),
    refl,
    active_views-show_page view s.container tidy,
  )
]

topic_of-page_switch : (msg : Message) → msg.type ≡ "page_switch" → topic_of msg ≡ switched
unfolding topic_of
topic_of-page_switch msg e = elim (Option-cases msg.pages) [
  | inl missing ↦ rw (missing, e) refl
  | inr (pages, given) ↦ rw (given, e) refl
]

on_topic-switched :
    (host : Host) (msg : Message) (t : Topic) (s : Display) (i : ℤ)
    → t ≡ switched
    → msg.page_index ≡ some i
    → on_topic host msg t s ≡ on_page_switch host (some i) s
unfolding on_topic
on_topic-switched host msg t s i e f = rw (e, on_topic) (ap (λ o. on_page_switch host o s) f)

on_page_switch-moves :
    (host : Host) (i : ℤ) (s : Display)
    → in_range i s.pages ≡ true
    → eqb_ℤ i s.current_idx ≡ false
    → on_page_switch host (some i) s ≡ render_current_page host (set_index i s)
unfolding on_page_switch
on_page_switch-moves host i s within other = rw (within, other) refl

-- A "page_switch" message whose index is that of another page that can be rendered makes that page
-- the current one, and its view the only active one.
pub page_switch-shows :
    (host : Host) (now : ℤ) (msg : Message) (s : Display) (i : ℤ) (page : Page)
    → msg.type ≡ "page_switch"
    → msg.page_index ≡ some i
    → IsTidy s.container
    → in_range i s.pages ≡ true
    → eqb_ℤ i s.current_idx ≡ false
    → page_at s.pages i ≡ some page
    → PageRenders host page
    → (view : View) × (view_of host s.font_loaded page ≡ some view)
      × ((on_message host now (some msg) s).current_idx ≡ i)
      × (active_views (on_message host now (some msg) s).nodes ≡ view ∷ [])
unfolding on_message handle_ws_message sync_clocks
page_switch-shows host now msg s i page type index tidy within other at good =
    let u : Display = set_index i (sync_clocks host now msg.server_time msg.started_at s) in
    let (t, view, e, v, same, shows) = render_current_page-shows host u page tidy within at good in
    let topic =
      on_topic-switched host msg (topic_of msg) _ i (topic_of-page_switch msg type) index in
    let moves = on_page_switch-moves host i _ within other in
    let result : on_message host now (some msg) s ≡ t = ap settle (topic ∙ moves ∙ e) in
    (
      view,
      v,
      ap (λ (d : Display). d.current_idx) result ∙ same,
      ap (λ (d : Display). active_views d.nodes) result ∙ shows,
    )
