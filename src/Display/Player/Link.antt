-- ===== src/Display/Player/Link.antt =====
-- The socket, its heartbeat and its reconnection timer over a whole run of the display
-- (`connectWS` of internal/server/web/broadcast/display.js).
use icpc_controller.Prelude.{
  ℕ, ◌+◌, ◌-◌, ◌<◌, String, false, Option, some, List, ◌≡◌, refl, ◌∙◌, arith, if◌then◌else◌,
}
use icpc_controller.Prelude.Int.{ℤ}
use icpc_controller.Display.Host.{Host}
use icpc_controller.Display.State.{connecting, Connection, Display}
use icpc_controller.Display.Screen.{
  settle, is_open, render_current_page, schedule_next, show_empty, on_removal,
}
use icpc_controller.Display.Font.{FontFile, load_font, on_config, on_fonts}
use icpc_controller.Display.Clock.{on_tick}
use icpc_controller.Display.Player.{
  Message, Topic, updated, switched, reset, unknown, PagesReply, CountdownReply, on_topic,
  on_message, on_pages_reply, on_countdown_reply, on_page_timer, fetch_countdown, sync_clocks,
  orphans_of, stop_ping, connect_ws, on_open, on_close, after_close, on_reconnect,
}
use icpc_controller.Display.Player.Frame.{
  render-conn, pages_updated-leads, page_switch-leads, sync_reset-leads, pages_reply-leads,
  message-leads,
}
use icpc_controller.Display.Player.Steps.{
  init, Step, opened, message, lost, orphan_lost, reconnect, page_timer, pages_reply,
  countdown_reply, config_reply, fonts_reply, removal, tick, Reach, start, next,
}

-- One socket is alive, or else one timer is pending that opens the next; no socket that was replaced
-- is still to close; and one heartbeat runs exactly while the socket is open.
pub record IsConnected (c : Connection) : Type 0 where
  pub one_link : orphans_of c.ws + c.reconnects ≡ 1
  pub no_orphans : c.orphans ≡ 0
  pub beating : c.ping_timer ≡ is_open c.ws
  pub one_beat : c.pings ≡ (if c.ping_timer then 1 else 0)

-- Messages and answers leave the connection alone.
module _ (host : Host) (c : Connection) where
  abbrev Same : Display → Type 0
  Same t = t.conn ≡ c

  renders-Same : (s : Display) → Same s → Same (settle (render_current_page host s))
  renders-Same s p = render-conn host s ∙ p

  topic-Same :
      (msg : Message) (t : Topic) (s : Display) → Same s → Same (settle (on_topic host msg t s))
  unfolding on_topic show_empty fetch_countdown load_font
  topic-Same msg (updated pages) s p =
      pages_updated-leads host Same Same renders-Same pages s (λ _. p) (λ _. p)
  topic-Same msg switched s p =
      page_switch-leads host Same Same renders-Same msg.page_index s p (λ _ _. p)
  topic-Same msg reset s p =
      sync_reset-leads host Same Same renders-Same msg.started_at s (λ _. p) (λ _. p)
  topic-Same msg unknown s p = p

  message-Same :
      (now : ℤ) (msg : Option Message) (s : Display) → Same s → Same (on_message host now msg s)
  message-Same now msg s p = message-leads host Same topic-Same (λ _ _ q. q) now msg s p

  pages_reply-Same :
      (now : ℤ) (reply : Option PagesReply) (s : Display)
      → Same s
      → Same (settle (on_pages_reply host now reply s))
  unfolding show_empty sync_clocks
  pages_reply-Same now reply s p =
      pages_reply-leads host Same Same renders-Same now reply s p (λ _ _ _. p) (λ _ _ _. p)

page_timer-conn : (host : Host) (s : Display) → (settle (on_page_timer host s)).conn ≡ s.conn
unfolding on_page_timer
page_timer-conn host s = render-conn host _

stop_ping-off :
    (c : Connection)
    → c.pings ≡ (if c.ping_timer then 1 else 0)
    → ((stop_ping c).pings ≡ 0) × ((stop_ping c).ping_timer ≡ false)
unfolding stop_ping
stop_ping-off c h = ground arith

after_close-conn :
    (s : Display)
    → (after_close s).conn
      ≡ record (stop_ping s.conn) { reconnects = (stop_ping s.conn).reconnects + 1 }
unfolding after_close schedule_next
after_close-conn s = ground arith

-- The parts of the handlers that touch the connection, on the connection alone.
connect-IsConnected :
    (c : Connection)
    → orphans_of c.ws ≡ 0
    → c.reconnects ≡ 0
    → c.orphans ≡ 0
    → c.pings ≡ (if c.ping_timer then 1 else 0)
    → (s : Display) → s.conn ≡ c
    → IsConnected (connect_ws s).conn
unfolding connect_ws stop_ping
connect-IsConnected c a b o p s e = ground arith

open-IsConnected :
    (s : Display) → s.ws ≡ some connecting → IsConnected s.conn → IsConnected (on_open s).conn
unfolding on_open
open-IsConnected s e h = ground arith

close-IsConnected :
    (s : Display) → orphans_of s.ws ≡ 1 → IsConnected s.conn → IsConnected (on_close s).conn
unfolding on_close stop_ping
close-IsConnected s alive h = rw (after_close-conn _) (ground arith)

reconnect-IsConnected :
    (s : Display) → 0 < s.reconnects → IsConnected s.conn → IsConnected (on_reconnect s).conn
unfolding on_reconnect
reconnect-IsConnected s pending h =
    let link = h.one_link in
    connect-IsConnected (record (s.conn) { reconnects = s.reconnects - 1 }) (omega arith)
      (omega arith) h.no_orphans h.one_beat _ refl

config-conn : (font : Option String) (s : Display) → (on_config font s).conn ≡ s.conn
unfolding on_config
config-conn font s = ground arith

fonts-conn :
    (font : String) (existing : Option ℕ) (files : Option (List FontFile)) (s : Display)
    → (on_fonts font existing files s).conn ≡ s.conn
unfolding on_fonts
fonts-conn font existing files s = ground arith

countdown-conn :
    (host : Host) (now : ℤ) (reply : Option CountdownReply) (s : Display)
    → (on_countdown_reply host now reply s).conn ≡ s.conn
unfolding on_countdown_reply
countdown-conn host now reply s = ground arith

Step-IsConnected :
    (host : Host) {s t : Display} → Step host s t → IsConnected s.conn → IsConnected t.conn
Step-IsConnected host {s} (opened e) h = open-IsConnected s e h
Step-IsConnected host {s} (message now msg) h = rw (message-Same host s.conn now msg s refl) h
Step-IsConnected host {s} (lost alive) h = close-IsConnected s alive h
Step-IsConnected host {s} (orphan_lost some_left) h = absurd (omega (arith, h.no_orphans))
Step-IsConnected host {s} (reconnect pending) h = reconnect-IsConnected s pending h
Step-IsConnected host {s} (page_timer delay e) h = rw (page_timer-conn host s) h
Step-IsConnected host {s} (pages_reply now reply) h =
    rw (pages_reply-Same host s.conn now reply s refl) h
Step-IsConnected host {s} (countdown_reply now reply) h = rw (countdown-conn host now reply s) h
Step-IsConnected host {s} (config_reply font) h = rw (config-conn font s) h
Step-IsConnected host {s} (fonts_reply font existing files) h =
    rw (fonts-conn font existing files s) h
Step-IsConnected host {s} (removal k e) h = unfold on_removal in h
Step-IsConnected host {s} (tick now hr m sec) h = unfold on_tick in h

init-IsConnected : (mode : String) → IsConnected (init mode).conn
unfolding init connect_ws stop_ping load_font
init-IsConnected mode = ground arith

-- In every state that the page can reach, either one socket is not closed and no reconnection is
-- pending, or none is and exactly one reconnection is pending; no replaced socket is left open; and
-- exactly one heartbeat interval runs while the socket is open, and none otherwise.
pub Reach-IsConnected :
    (host : Host) (mode : String) {s : Display} → Reach host mode s → IsConnected s.conn
Reach-IsConnected host mode start = init-IsConnected mode
Reach-IsConnected host mode (next r st) = Step-IsConnected host st (Reach-IsConnected host mode r)
