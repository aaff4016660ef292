-- ===== src/Display/Player/Shown.antt =====
-- At most one page element is active over a whole run of the display, and none is left behind
-- (`renderCurrentPage` and `showEmpty` of internal/server/web/broadcast/display.js).
use text.Mathlib.Text.{◌==◌ as str_eq}
use icpc_controller.Prelude.{
  ℕ, String, Option, none, some, List, ◌≡◌, refl, arith, is_empty, Bool-cases, inl, inr,
  Option-cases, ◌⊎◌,
}
use icpc_controller.Prelude.Int.{ℤ}
use icpc_controller.Display.Host.{Host}
use icpc_controller.Display.Item.{Family}
use icpc_controller.Display.Page.{View, view_of}
use icpc_controller.Display.State.{Display}
use icpc_controller.Display.Time.{page_at}
use icpc_controller.Display.Screen.{settle, render_current_page, show_empty, show_page, on_removal}
use icpc_controller.Display.Font.{
  FontFile, load_font, on_config, on_fonts, restyle, restyle_node, is_active, find_font,
}
use icpc_controller.Display.Clock.{on_tick, tick_node}
use icpc_controller.Display.Player.{
  Message, Topic, updated, switched, reset, unknown, PagesReply, CountdownReply, on_topic,
  on_pages_reply, on_countdown_reply, on_page_timer, fetch_countdown, sync_clocks, connect_ws,
  on_open, on_close, on_orphan_close, after_close, on_reconnect,
}
use icpc_controller.Display.Player.Frame.{
  pages_updated-leads, page_switch-leads, sync_reset-leads, pages_reply-leads, message-leads,
}
use icpc_controller.Display.Player.Steps.{
  init, Step, opened, message, lost, orphan_lost, reconnect, page_timer, pages_reply,
  countdown_reply, config_reply, fonts_reply, removal, tick, Reach, start, next,
}
use icpc_controller.Display.Player.Nodes.{
  IsTidy, show_page-IsTidy, count-remove_node, kept-remove_node, map-IsTidy,
}

abbrev Tidy : Display → Type 0
Tidy s = IsTidy s.container

-- Rendering leaves the container alone, or shows a page in it.
render-container :
    (host : Host) (s : Display)
    → ((settle (render_current_page host s)).container ≡ s.container)
      ⊎ ((view : View) × ((settle (render_current_page host s)).container
            ≡ show_page view s.container))
unfolding render_current_page
render-container host s = elim (Bool-cases (is_empty s.pages)) [
  | inl none_left ↦ inl (ground arith)
  | inr some_left ↦ elim (Option-cases (page_at s.pages s.current_idx)) [
    | inl missing ↦ inl (ground arith)
    | inr (page, at) ↦ elim (Option-cases (view_of host s.font_loaded page)) [
      | inl bad ↦ inl (ground arith)
      | inr (view, good) ↦ inr (view, ground arith)
    ]
  ]
]

render-Tidy : (host : Host) (s : Display) → Tidy s → Tidy (settle (render_current_page host s))
render-Tidy host s t = elim (render-container host s) [
  | inl same ↦ rw same t
  | inr (view, shown) ↦ rw shown (show_page-IsTidy view s.container t)
]

empty-Tidy : (s : Display) → Tidy (show_empty s)
unfolding show_empty
empty-Tidy s = record { one_active = omega arith; kept = tt }

config-container :
    (font : Option String) (s : Display)
    → ((on_config font s).container ≡ s.container)
      ⊎ ((on_config font s).container ≡ (restyle Family.inherited s).container)
unfolding on_config
config-container none s = inl refl
config-container (some font) s = elim (Bool-cases (is_active font s.active_font)) [
  | inl same ↦ inl (ground arith)
  | inr other ↦ elim (Bool-cases (str_eq font "")) [
    | inl default ↦ inr (ground arith)
    | inr named ↦ inl (ground arith)
  ]
]

fonts-container :
    (font : String) (existing : Option ℕ) (files : Option (List FontFile)) (s : Display)
    → ((on_fonts font existing files s).container ≡ s.container)
      ⊎ ((on_fonts font existing files s).container ≡ (restyle Family.broadcast_font s).container)
unfolding on_fonts
fonts-container font existing none s = inl refl
fonts-container font existing (some files) s = elim (Bool-cases (is_active font s.active_font)) [
  | inl same ↦ elim (Option-cases (find_font font files)) [
    | inl missing ↦ inl (ground arith)
    | inr (f, found) ↦ inr (ground arith)
  ]
  | inr other ↦ inl (ground arith)
]

open-container : (s : Display) → (on_open s).container ≡ s.container
unfolding on_open
open-container s = ground arith

close-container : (s : Display) → (on_close s).container ≡ s.container
unfolding on_close after_close
close-container s = ground arith

orphan-container : (s : Display) → (on_orphan_close s).container ≡ s.container
unfolding on_orphan_close after_close
orphan-container s = ground arith

countdown-container :
    (host : Host) (now : ℤ) (reply : Option CountdownReply) (s : Display)
    → (on_countdown_reply host now reply s).container ≡ s.container
unfolding on_countdown_reply
countdown-container host now reply s = ground arith

module _ (host : Host) where
  topic-Tidy :
      (msg : Message) (t : Topic) (s : Display) → Tidy s → Tidy (settle (on_topic host msg t s))
  unfolding on_topic fetch_countdown load_font
  topic-Tidy msg (updated pages) s h =
      pages_updated-leads host Tidy Tidy (render-Tidy host) pages s (λ _. empty-Tidy _) (λ _. h)
  topic-Tidy msg switched s h =
      page_switch-leads host Tidy Tidy (render-Tidy host) msg.page_index s h (λ _ _. h)
  topic-Tidy msg reset s h =
      sync_reset-leads host Tidy Tidy (render-Tidy host) msg.started_at s (λ _. h) (λ _. h)
  topic-Tidy msg unknown s h = h

  pages_reply-Tidy :
      (now : ℤ) (reply : Option PagesReply) (s : Display)
      → Tidy s
      → Tidy (settle (on_pages_reply host now reply s))
  unfolding sync_clocks
  pages_reply-Tidy now reply s h =
      pages_reply-leads host Tidy Tidy (render-Tidy host) now reply s h (λ _ _ _. empty-Tidy _)
        (λ _ _ _. h)

  restyle-Tidy : (family : Family) (s : Display) → Tidy s → Tidy (restyle family s)
  unfolding restyle
  restyle-Tidy family s h = map-IsTidy (restyle_node family) (λ n. (refl, refl)) s.container h

  config-Tidy : (font : Option String) (s : Display) → Tidy s → Tidy (on_config font s)
  config-Tidy font s h = elim (config-container font s) [
    | inl same ↦ rw same h
    | inr restyled ↦ rw restyled (restyle-Tidy Family.inherited s h)
  ]

  fonts-Tidy :
      (font : String) (existing : Option ℕ) (files : Option (List FontFile)) (s : Display)
      → Tidy s
      → Tidy (on_fonts font existing files s)
  fonts-Tidy font existing files s h = elim (fonts-container font existing files s) [
    | inl same ↦ rw same h
    | inr restyled ↦ rw restyled (restyle-Tidy Family.broadcast_font s h)
  ]

  Step-Tidy : {s t : Display} → Step host s t → Tidy s → Tidy t
  Step-Tidy {s} (opened e) h = rw (open-container s) h
  Step-Tidy {s} (message now msg) h = message-leads host Tidy topic-Tidy (λ _ _ q. q) now msg s h
  Step-Tidy {s} (lost alive) h = rw (close-container s) h
  Step-Tidy {s} (orphan_lost some_left) h = rw (orphan-container s) h
  Step-Tidy {s} (reconnect pending) h = unfold on_reconnect connect_ws in h
  Step-Tidy {s} (page_timer delay e) h = unfold on_page_timer in render-Tidy host _ h
  Step-Tidy {s} (pages_reply now reply) h = pages_reply-Tidy now reply s h
  Step-Tidy {s} (countdown_reply now reply) h = rw (countdown-container host now reply s) h
  Step-Tidy {s} (config_reply font) h = config-Tidy font s h
  Step-Tidy {s} (fonts_reply font existing files) h = fonts-Tidy font existing files s h
  Step-Tidy {s} (removal k e) h =
      unfold on_removal in
      record {
        one_active = omega (arith, count-remove_node k s.nodes, h.one_active);
        kept = kept-remove_node k s.nodes s.removals h.kept;
      }
  Step-Tidy {s} (tick now hr m sec) h =
      unfold on_tick in map-IsTidy (tick_node _ _) (λ n. (refl, refl)) s.container h

init-Tidy : (mode : String) → Tidy (init mode)
unfolding init connect_ws load_font
init-Tidy mode = record { one_active = omega arith; kept = tt }

-- In every state that the page can reach, at most one page element is active, and for every other
-- one in the container a timer is pending that removes it.
pub Reach-IsTidy :
    (host : Host) (mode : String) {s : Display} → Reach host mode s → IsTidy s.container
Reach-IsTidy host mode start = init-Tidy mode
Reach-IsTidy host mode (next r st) = Step-Tidy host st (Reach-IsTidy host mode r)
