-- ===== src/Display/Screen.antt =====
-- What is on the screen (`showEmpty`, `renderCurrentPage`, `scheduleNext` of
-- internal/server/web/broadcast/display.js).
use icpc_controller.Prelude.{
  ℕ, ◌+◌, Bool, true, false, Option, none, some, List, [], ◌∷◌, ◌++◌, length, leb, is_empty, ◌==◌,
  if◌then◌else◌,
}
use icpc_controller.Prelude.Int.{ℤ, pos}
use icpc_controller.Display.Host.{Host}
use icpc_controller.Display.Page.{Page, View, view_of}
use icpc_controller.Display.State.{ReadyState, open_state, PageNode, Container, Display}
use icpc_controller.Display.Time.{page_ms, page_at}

-- A handler ends, or throws and leaves the state as it is at that moment. Nothing that these
-- handlers have done is undone, whether the exception is caught or not.
pub data Run : Type 0 where
  done threw : Display → Run

abbrev pub settle : Run → Display
settle (done s) = s
settle (threw s) = s

-- `ws && ws.readyState === WebSocket.OPEN`
abbrev pub is_open : Option ReadyState → Bool
is_open (some open_state) = true
is_open _ = false

unfoldable pub show_empty : Display → Display
show_empty s = record s {
  carousel = record (s.carousel) { page_timer = none };
  container = record (s.container) { nodes = []; placeholder = true };
}

-- The delay that `scheduleNext` sets, if it sets one.
unfoldable pub next_delay : Option Page → Display → Option ℤ
next_delay page s =
    if leb (length s.pages) 1
    then none
    else if is_open s.ws
    then none
    else some (elim page [ none ↦ pos 10000 | some p ↦ page_ms p ])

unfoldable pub schedule_next : Option Page → Display → Display
unfolding next_delay
schedule_next page s = record s {
  carousel = record (s.carousel) { page_timer = next_delay page s };
}

-- `c.querySelector(".broadcast-page.active")`, which loses its class.
unfoldable pub deactivate : List PageNode → List PageNode
deactivate [] = []
deactivate (n ∷ nodes) =
    if n.active then record n { active = false } ∷ nodes else n ∷ deactivate nodes

unfoldable pub old_page : List PageNode → List ℕ
old_page [] = []
old_page (n ∷ nodes) = if n.active then n.node ∷ [] else old_page nodes

unfoldable pub show_page : View → Container → Container
unfolding deactivate old_page
show_page view c = record c {
  nodes = deactivate c.nodes ++ record { node = c.next_node; active = true; view = view } ∷ [];
  removals = c.removals ++ old_page c.nodes;
  next_node = c.next_node + 1;
}

unfoldable pub render_current_page : Host → Display → Run
unfolding show_page schedule_next
render_current_page host s =
    if is_empty s.pages then done s else elim (page_at s.pages s.current_idx) [
      | none ↦ threw s
      | some page ↦ elim (view_of host s.font_loaded page) [
        | none ↦ threw s
        | some view ↦
            done (schedule_next (some page) (record s { container = show_page view s.container }))
      ]
    ]

-- The callback of `setTimeout(..., 800)` for one node.
unfoldable pub remove_node : ℕ → List PageNode → List PageNode
remove_node k [] = []
remove_node k (n ∷ nodes) = let rest = remove_node k nodes in if n.node == k then rest else n ∷ rest

unfoldable pub drop_first : ℕ → List ℕ → List ℕ
drop_first k [] = []
drop_first k (i ∷ is) = if i == k then is else i ∷ drop_first k is

unfoldable pub on_removal : ℕ → Display → Display
unfolding remove_node drop_first
on_removal k s = record s {
  container = record (s.container) {
    nodes = remove_node k s.nodes;
    removals = drop_first k s.removals;
  };
}
