-- ===== src/Display/Tests.antt =====
-- Runs of the model of internal/server/web/broadcast/display.js on concrete input.
use text.Mathlib.Text.{◌==◌ as str_eq}
use icpc_controller.Prelude.{
  ℕ, ◌+◌, ◌*◌, ◌/◌, ◌<◌, String, true, false, none, some, List, [], ◌∷◌, ◌↔◌, ◌≡◌, refl, arith,
  length, if◌then◌else◌, All,
}
use icpc_controller.Prelude.Int.{pos, negsuc, ◌+ℤ◌, ◌-ℤ◌, ◌%ℤ◌, ◌≤ℤ◌, ◌<ℤ◌}
use icpc_controller.Prelude.Text.{codes, show}
use icpc_controller.Display.Host.{Host, malformed, null_value, value}
use icpc_controller.Display.Item.{Item, Element, render_item}
use icpc_controller.Display.Page.{Page, View, view_of}
use icpc_controller.Display.State.{Display, open_state, connecting}
use icpc_controller.Display.Item.{base_element, dress_text, dress_clock}
use icpc_controller.Display.Page.{render_items}
use icpc_controller.Display.Time.{
  page_ms, elapsed, total_ms, find_page, locate, synced_page, calc_synced_page_index,
}
use icpc_controller.Display.Time.Due.{prefix_ms, cycle_ms}
use icpc_controller.Display.Time.Synced.{calc_synced_page_index_iff}
use icpc_controller.Display.Screen.{render_current_page, schedule_next}
use icpc_controller.Display.Font.{FontFile, load_font}
use icpc_controller.Display.Clock.{remaining, remaining_text, countdown_text}
use icpc_controller.Display.Clock.Laws.{fields, countdown_text-fields}
use icpc_controller.Display.Keys.{KeyEvent, is_leave_key, is_window_key, block_keys}
use icpc_controller.Display.Player.{
  Message, orphans_of, connect_ws, on_open, on_close, on_message, handle_ws_message, topic_of,
  on_topic, on_pages_updated, sync_clocks, fetch_countdown,
}
use icpc_controller.Display.Player.Steps.{init, Reach, start, next, opened, message, lost}
use icpc_controller.Display.Player.Link.{IsConnected, Reach-IsConnected}
use icpc_controller.Display.Player.Rotation.{PageRenders}
use icpc_controller.Display.Player.Nodes.{IsTidy}
use icpc_controller.Display.Player.Shown.{Reach-IsTidy}
use icpc_controller.Display.Player.Switch.{active_views, page_switch-shows}

-- An environment with one date, plain numbers, and settings of each kind.
abbrev host : Host
host = record {
  parse_date = λ t. if str_eq t "start" then some (pos 1000) else none;
  parse_float = λ t. some t;
  parse_extra =
      λ t. if str_eq t "null" then null_value else if str_eq t "{}" then value none else malformed;
}

abbrev item : String → String → Item
item kind extra = record {
  item_type = kind;
  content = codes "hi";
  pos_x = codes "10";
  pos_y = codes "20";
  width = codes "30";
  height = codes "16";
  font_size = codes "4";
  font_color = "#fff";
  font_weight = "500";
  text_align = "left";
  bg_color = "transparent";
  border_radius = "0";
  animation = "";
  z_index = codes "10";
  extra_json = extra;
}

abbrev page_of : ℕ → Page
page_of ms = record {
  duration_ms = some (pos ms);
  bg_color = "";
  items = item "text" "{}" ∷ item "clock" "{}" ∷ [];
}

-- Two pages, of 3 seconds and of 10 (a duration of 0), in a broadcast that started at 1000.
abbrev two_pages : List Page
two_pages = page_of 3000 ∷ page_of 0 ∷ []

abbrev running : Display
running = record {
  mode = "before";
  conn = record {
    ws = some open_state;
    orphans = 0;
    reconnects = 0;
    ws_reconnect = true;
    ping_timer = true;
    pings = 1;
  };
  carousel = record { pages = two_pages; current_idx = pos 0; page_timer = none };
  container = record { nodes = []; placeholder = false; removals = []; next_node = 0 };
  fonts = record {
    active_font = some "f.ttf";
    font_loaded = false;
    font_styles = [];
    next_style = 0;
  };
  clocks = record {
    server_time_offset = some (pos 0);
    sync_started_at = some "start";
    countdown_target = some "start";
    countdown_offset = some (pos 0);
    global_clock = [];
  };
  requests = [];
}

elapsed_5000 : elapsed host (pos 6000) running ≡ some (pos 5000)
unfolding elapsed ◌-ℤ◌
elapsed_5000 = refl

calc_synced_page_index_test : calc_synced_page_index host (pos 6000) running ≡ pos 1
unfolding calc_synced_page_index synced_page locate total_ms find_page page_ms elapsed ◌-ℤ◌ ◌+ℤ◌
    ◌%ℤ◌
calc_synced_page_index_test = refl

two_pages-pos : All (λ page. pos 0 <ℤ page_ms page) two_pages
unfolding page_ms
two_pages-pos = (omega arith, (omega arith, tt))

calc_synced_page_index_iff_example : (calc_synced_page_index host (pos 6000) running ≡ pos 1) ↔ (
    (1 < length two_pages)
    × (prefix_ms (pos 0) two_pages 1 ≤ℤ cycle_ms (pos 5000) two_pages)
    × (cycle_ms (pos 5000) two_pages <ℤ prefix_ms (pos 0) two_pages 2))
calc_synced_page_index_iff_example =
    calc_synced_page_index_iff host (pos 6000) running (pos 5000) 1 refl (omega arith) elapsed_5000
      (omega arith) two_pages-pos

total-pos : pos 0 <ℤ total_ms (pos 0) two_pages
unfolding total_ms page_ms ◌+ℤ◌
total-pos = omega arith

-- A session: the socket opens, the pages arrive, the server switches to the second page, and the
-- connection is lost.
abbrev update_message : Message
update_message = record {
  type = "pages_updated";
  pages = some two_pages;
  page_index = none;
  server_time = none;
  started_at = none;
}

abbrev switch_message : Message
switch_message = record {
  type = "page_switch";
  pages = none;
  page_index = some (pos 1);
  server_time = none;
  started_at = none;
}

abbrev opened_display : Display
opened_display = on_open (init "before")

abbrev updated_display : Display
updated_display = on_message host (pos 6000) (some update_message) opened_display

abbrev lost_display : Display
lost_display = on_close updated_display

init-ws : (init "before").ws ≡ some connecting
unfolding init connect_ws
init-ws = refl

updated-ws : orphans_of updated_display.ws ≡ 1
unfolding init connect_ws on_open on_message handle_ws_message topic_of on_topic on_pages_updated
    render_current_page schedule_next sync_clocks view_of render_items render_item base_element
    dress_text dress_clock load_font fetch_countdown
updated-ws = refl

lost-Reach : Reach host "before" lost_display
lost-Reach =
    next (next (next start (opened init-ws)) (message (pos 6000) (some update_message)))
      (lost updated-ws)

Reach-IsConnected_example : IsConnected lost_display.conn
Reach-IsConnected_example = Reach-IsConnected host "before" lost-Reach

Reach-IsTidy_example : IsTidy lost_display.container
Reach-IsTidy_example = Reach-IsTidy host "before" lost-Reach

page-Renders : PageRenders host (page_of 0)
page-Renders = (λ e n. cc, (λ e n. cc, tt))

page_switch-shows_example :
    (view : View) × (view_of host false (page_of 0) ≡ some view)
    × ((on_message host (pos 6000) (some switch_message) running).current_idx ≡ pos 1)
    × (active_views (on_message host (pos 6000) (some switch_message) running).nodes ≡ view ∷ [])
page_switch-shows_example =
    page_switch-shows host (pos 6000) switch_message running (pos 1) (page_of 0) refl refl
      (record { one_active = omega arith; kept = tt }) refl refl refl page-Renders

remaining_3_5 : remaining host (negsuc 2499) running ≡ some (pos 3500)
unfolding remaining ◌-ℤ◌
remaining_3_5 = refl

countdown_text-fields_example :
    (h m sec : ℕ) × (fields (countdown_text host (negsuc 2499) running) ≡ h ∷ m ∷ sec ∷ [])
    × (h * 3600 + m * 60 + sec ≡ 3500 / 1000)
    × (m < 60)
    × (sec < 60)
countdown_text-fields_example =
    countdown_text-fields host (negsuc 2499) running "start" (pos 3500) refl remaining_3_5

countdown_text_test : countdown_text host (negsuc 2499) running ≡ codes "00:00:03"
unfolding countdown_text remaining_text remaining ◌-ℤ◌ show
countdown_text_test = refl

abbrev countdown_element : Element
countdown_element =
    let el = base_element host true (item "countdown" "{}") in record el { text = codes "--:--:--" }

countdown_rendered : render_item host true (item "countdown" "{}") ≡ some countdown_element
unfolding render_item
countdown_rendered = refl

abbrev font_files : List FontFile
font_files = record { filename = "f.ttf"; format = "ttf" } ∷ []

abbrev ctrl_w : KeyEvent
ctrl_w = record { key = "w"; code = "KeyW"; key_code = 87; ctrl = true; shift = false; alt = false }

ctrl_w_blocked : block_keys ctrl_w ≡ true
unfolding block_keys is_leave_key is_window_key
ctrl_w_blocked = refl
