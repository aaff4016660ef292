-- ===== src/Display/Player/Steps.antt =====
-- The events that reach the display, in any order and at any time, and the states that they lead to
-- from the start of the page (`init` of internal/server/web/broadcast/display.js).
use icpc_controller.Prelude.{ℕ, String, true, Option, some, List, ◌≡◌, ◌<◌, any, ◌==◌}
use icpc_controller.Prelude.Int.{ℤ}
use icpc_controller.Display.Host.{Host}
use icpc_controller.Display.State.{connecting, Display, initial}
use icpc_controller.Display.Screen.{settle, on_removal}
use icpc_controller.Display.Font.{FontFile, load_font, on_config, on_fonts}
use icpc_controller.Display.Clock.{on_tick}
use icpc_controller.Display.Player.{
  Message, PagesReply, CountdownReply, orphans_of, connect_ws, on_open, on_close, on_orphan_close,
  on_reconnect, on_message, on_pages_reply, on_countdown_reply, on_page_timer,
}

-- The state after `init`; its clock and its keyboard lock keep no state of their own here.
unfoldable pub init : String → Display
unfolding initial load_font connect_ws
init mode = connect_ws (load_font (initial mode))

pub data Step (host : Host) (s : Display) : Display → Type 0 where
  opened : s.ws ≡ some connecting → Step host s (on_open s)
  message : (now : ℤ) (msg : Option Message) → Step host s (on_message host now msg s)
  -- A socket that is not closed closes.
  lost : orphans_of s.ws ≡ 1 → Step host s (on_close s)
  orphan_lost : 0 < s.orphans → Step host s (on_orphan_close s)
  reconnect : 0 < s.reconnects → Step host s (on_reconnect s)
  page_timer : (delay : ℤ) → s.page_timer ≡ some delay → Step host s (settle (on_page_timer host s))
  pages_reply :
      (now : ℤ) (reply : Option PagesReply) → Step host s (settle (on_pages_reply host now reply s))
  countdown_reply :
      (now : ℤ) (reply : Option CountdownReply) → Step host s (on_countdown_reply host now reply s)
  config_reply : (font : Option String) → Step host s (on_config font s)
  fonts_reply :
      (font : String) (existing : Option ℕ) (files : Option (List FontFile))
      → Step host s (on_fonts font existing files s)
  removal : (k : ℕ) → any (λ i. i == k) s.removals ≡ true → Step host s (on_removal k s)
  tick : (now : ℤ) (h m sec : ℕ) → Step host s (on_tick host now h m sec s)

pub data Reach (host : Host) (mode : String) : Display → Type 0 where
  start : Reach host mode (init mode)
  next : {s t : Display} → Reach host mode s → Step host s t → Reach host mode t
