-- ===== src/Display/Player.antt =====
-- The connection with the server and the carousel (`connectWS` and its callbacks,
-- `handleWSMessage`, `pollPagesHTTP`, `fetchCountdown` and the timer of `scheduleNext` of
-- internal/server/web/broadcast/display.js).
pub mod Steps
pub mod Frame
pub mod Link
pub mod Rotation
pub mod Turns
pub mod Nodes
pub mod Shown
pub mod Switch
use text.Mathlib.Text.{◌==◌}
use icpc_controller.Prelude.{
  ℕ, ◌+◌, ◌-◌, String, Bool, true, false, not, ◌&&◌, Option, none, some, List, [], ◌∷◌, ◌++◌,
  length, ltb, is_empty, if◌then◌else◌,
}
use icpc_controller.Prelude.Int.{ℤ, pos, negsuc, ◌+ℤ◌, ◌%ℤ◌, eqb_ℤ}
use icpc_controller.Display.Host.{Host}
use icpc_controller.Display.Page.{Page}
use icpc_controller.Display.State.{
  ReadyState, connecting, open_state, closing, closed, get_pages, get_countdown, Connection,
  Carousel, Clocks, Display,
}
use icpc_controller.Display.Time.{
  truthy, sub_time, date_of, in_range, page_at, calc_synced_page_index,
}
use icpc_controller.Display.Screen.{
  Run, done, settle, show_empty, schedule_next, render_current_page,
}
use icpc_controller.Display.Font.{send, load_font}

-- A message of the server; a field is none where it is missing.
pub record Message : Type 0 where
  pub type : String
  pub pages : Option (List Page)
  pub page_index : Option ℤ
  pub server_time : Option String
  pub started_at : Option String

-- The answer to the request for the pages. Without `pages` the answer is itself the list.
pub record PagesReply : Type 0 where
  pub pages : Option (List Page)
  pub body : List Page
  pub server_time : Option String
  pub started_at : Option String

pub record CountdownReply : Type 0 where
  pub target : Option String
  pub server_time : Option String

-- `clearInterval(pingTimer); pingTimer = null`, if it is set.
unfoldable pub stop_ping : Connection → Connection
stop_ping c = if c.ping_timer then record c { ping_timer = false; pings = c.pings - 1 } else c

-- `ws.close()`: the close event of a socket that is not closed is still to come.
abbrev pub orphans_of : Option ReadyState → ℕ
orphans_of none = 0
orphans_of (some closed) = 0
orphans_of (some _) = 1

unfoldable pub connect_ws : Display → Display
unfolding stop_ping
connect_ws s =
    let c = stop_ping s.conn in
    record s { conn = record c { ws = some connecting; orphans = c.orphans + orphans_of c.ws } }

unfoldable pub fetch_countdown : Display → Display
fetch_countdown s = send get_countdown s

-- The requests of `pollPagesHTTP`.
unfoldable pub poll_pages_http : Display → Display
unfolding fetch_countdown
poll_pages_http s = fetch_countdown (send (get_pages s.mode) s)

-- `ws.onopen`
unfoldable pub on_open : Display → Display
unfolding poll_pages_http
on_open s =
    let t = if s.ws_reconnect then s else poll_pages_http s in
    record t {
      conn = record (s.conn) {
        ws = some open_state;
        ws_reconnect = true;
        ping_timer = true;
        pings = s.pings + 1;
      };
      carousel = record (s.carousel) { page_timer = none };
    }

-- `pages[currentIdx] || pages[0]`
abbrev pub shown_page : Display → Option Page
shown_page s = elim (page_at s.pages s.current_idx) [
  | some page ↦ some page
  | none ↦ page_at s.pages (pos 0)
]

-- The body of `ws.onclose`.
unfoldable pub after_close : Display → Display
unfolding stop_ping schedule_next
after_close s =
    let t = record s { conn = stop_ping s.conn } in
    let u = if ltb 1 (length t.pages) then schedule_next (shown_page t) t else t in
    record u { conn = record (t.conn) { reconnects = t.reconnects + 1 } }

-- `ws.onclose`, of the socket in `ws` or of one that was replaced.
unfoldable pub on_close : Display → Display
on_close s = after_close (record s { conn = record (s.conn) { ws = some closed } })

unfoldable pub on_orphan_close : Display → Display
on_orphan_close s = after_close (record s { conn = record (s.conn) { orphans = s.orphans - 1 } })

-- `setTimeout(connectWS, 5000)` fires.
unfoldable pub on_reconnect : Display → Display
on_reconnect s = connect_ws (record s { conn = record (s.conn) { reconnects = s.reconnects - 1 } })

-- The first two lines of `handleWSMessage` and of the answer to `pollPagesHTTP`.
unfoldable pub sync_clocks : Host → ℤ → Option String → Option String → Display → Display
sync_clocks host now server_time started_at s = record s {
  clocks = record (s.clocks) {
    server_time_offset =
        if truthy server_time
        then sub_time (some now) (date_of host server_time)
        else s.server_time_offset;
    sync_started_at = if truthy started_at then started_at else s.sync_started_at;
  };
}

abbrev pub set_pages : List Page → Display → Display
set_pages pages s = record s { carousel = record (s.carousel) { pages = pages } }

abbrev pub set_index : ℤ → Display → Display
set_index i s = record s { carousel = record (s.carousel) { current_idx = i } }

abbrev pub set_started : Option String → Display → Display
set_started started_at s = record s { clocks = record (s.clocks) { sync_started_at = started_at } }

-- "pages_updated"
unfoldable pub on_pages_updated : Host → List Page → Display → Run
on_pages_updated host pages s =
    let t = set_pages pages (fetch_countdown (load_font s)) in
    if is_empty pages
    then done (show_empty t)
    else render_current_page host
        (set_index (if in_range t.current_idx pages then t.current_idx else pos 0) t)

-- "page_switch"
unfoldable pub on_page_switch : Host → Option ℤ → Display → Run
on_page_switch host none s = done s
on_page_switch host (some idx) s =
    if in_range idx s.pages && not (eqb_ℤ idx s.current_idx)
    then render_current_page host (set_index idx s)
    else done s

-- "sync_reset"
unfoldable pub on_sync_reset : Host → Option String → Display → Run
on_sync_reset host started_at s =
    let t = set_started started_at s in
    if is_empty t.pages then done t else render_current_page host (set_index (pos 0) t)

pub data Topic : Type 0 where
  updated : List Page → Topic
  switched reset unknown : Topic

-- The tests of the chain of `else if`.
unfoldable pub topic_of : Message → Topic
topic_of msg = elim msg.pages [
  | some pages ↦
      if msg.type == "pages_updated"
      then updated pages
      else if msg.type == "page_switch"
      then switched
      else if msg.type == "sync_reset"
      then reset
      else unknown
  | none ↦
      if msg.type == "page_switch"
      then switched
      else if msg.type == "sync_reset"
      then reset
      else unknown
]

unfoldable pub on_topic : Host → Message → Topic → Display → Run
on_topic host msg (updated pages) s = on_pages_updated host pages s
on_topic host msg switched s = on_page_switch host msg.page_index s
on_topic host msg reset s = on_sync_reset host msg.started_at s
on_topic host msg unknown s = done s

unfoldable pub handle_ws_message : Host → ℤ → Message → Display → Run
handle_ws_message host now msg s =
    on_topic host msg (topic_of msg) (sync_clocks host now msg.server_time msg.started_at s)

-- `ws.onmessage`: none is a text that is no JSON. An exception is dropped.
unfoldable pub on_message : Host → ℤ → Option Message → Display → Display
on_message host now none s = s
on_message host now (some msg) s = settle (handle_ws_message host now msg s)

-- The answer to `pollPagesHTTP`; none is a failed request.
unfoldable pub on_pages_reply : Host → ℤ → Option PagesReply → Display → Run
on_pages_reply host now none s = done s
on_pages_reply host now (some reply) s =
    let new_pages : List Page = elim reply.pages [ none ↦ reply.body | some pages ↦ pages ] in
    let t = set_pages new_pages (sync_clocks host now reply.server_time reply.started_at s) in
    if is_empty new_pages
    then done (show_empty t)
    else render_current_page host (set_index (calc_synced_page_index host now t) t)

-- The answer to `fetchCountdown`.
unfoldable pub on_countdown_reply : Host → ℤ → Option CountdownReply → Display → Display
on_countdown_reply host now none s = s
on_countdown_reply host now (some reply) s = record s {
  clocks = record (s.clocks) {
    countdown_target = if truthy reply.target then reply.target else none;
    countdown_offset =
        if truthy reply.server_time
        then sub_time (some now) (date_of host reply.server_time)
        else s.countdown_offset;
  };
}

-- The carousel timer fires. It is pending only while there are two pages or more.
unfoldable pub on_page_timer : Host → Display → Run
on_page_timer host s = render_current_page host (record s {
  carousel = record (s.carousel) {
    current_idx = (s.current_idx +ℤ pos 1) %ℤ pos (length s.pages);
    page_timer = none;
  };
})
