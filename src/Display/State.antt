-- ===== src/Display/State.antt =====
-- The variables of the closure of internal/server/web/broadcast/display.js, the timers and sockets
-- that the browser holds for it, the page elements in its container, and the requests it has sent.
use icpc_controller.Prelude.{ℕ, String, Bool, false, Option, none, some, List, []}
use icpc_controller.Prelude.Int.{ℤ, pos, negsuc}
use icpc_controller.Prelude.Text.{Text}
use icpc_controller.Display.Page.{Page, View}

pub data ReadyState : Type 0 where
  connecting open_state closing closed : ReadyState

-- `fetch` calls in the order in which they are made. That for the fonts carries what its callback
-- captured: the font of the configuration, and the style element that was found.
pub data Request : Type 0 where
  get_pages : String → Request
  get_config get_countdown : Request
  get_fonts : String → Option ℕ → Request

-- A ".broadcast-page" element; `node` stands for its identity.
pub record PageNode : Type 0 where
  pub node : ℕ
  pub active : Bool
  pub view : View

-- The "broadcast-font-style" element.
pub record FontStyle : Type 0 where
  pub node : ℕ
  pub filename : String
  pub format : String

-- The socket, its heartbeat, and the timers that open the next one.
pub record Connection : Type 0 where
  pub ws : Option ReadyState
  -- Sockets that `connectWS` has closed and replaced, whose close event is to come.
  pub orphans : ℕ
  -- Pending `setTimeout(connectWS, 5000)`.
  pub reconnects : ℕ
  pub ws_reconnect : Bool
  -- Whether the variable `pingTimer` is set, and the intervals that are running.
  pub ping_timer : Bool
  pub pings : ℕ

pub record Carousel : Type 0 where
  pub pages : List Page
  pub current_idx : ℤ
  -- The delay of the pending `pageTimer`, none when there is none.
  pub page_timer : Option ℤ

-- The element "broadcast-container": its page elements, whether it has the waiting notice, and the
-- nodes that a pending timer removes. The next node to be created has the number `next_node`.
pub record Container : Type 0 where
  pub nodes : List PageNode
  pub placeholder : Bool
  pub removals : List ℕ
  pub next_node : ℕ

pub record Fonts : Type 0 where
  pub active_font : Option String
  pub font_loaded : Bool
  pub font_styles : List FontStyle
  pub next_style : ℕ

-- An offset is none where it is NaN.
pub record Clocks : Type 0 where
  pub server_time_offset : Option ℤ
  pub sync_started_at : Option String
  pub countdown_target : Option String
  pub countdown_offset : Option ℤ
  -- The text of the element "icpc-global-clock".
  pub global_clock : Text

pub record Display : Type 0 where
  pub mode : String
  pub conn : Connection
  pub open conn use *
  pub carousel : Carousel
  pub open carousel use *
  pub container : Container
  pub open container use *
  pub fonts : Fonts
  pub open fonts use *
  pub clocks : Clocks
  pub open clocks use *
  pub requests : List Request

-- The values that the variables are declared with.
unfoldable pub initial : String → Display
initial mode = record {
  mode = mode;
  conn = record {
    ws = none;
    orphans = 0;
    reconnects = 0;
    ws_reconnect = false;
    ping_timer = false;
    pings = 0;
  };
  carousel = record { pages = []; current_idx = negsuc 0; page_timer = none };
  container = record { nodes = []; placeholder = false; removals = []; next_node = 0 };
  fonts = record { active_font = none; font_loaded = false; font_styles = []; next_style = 0 };
  clocks = record {
    server_time_offset = some (pos 0);
    sync_started_at = none;
    countdown_target = none;
    countdown_offset = some (pos 0);
    global_clock = [];
  };
  requests = [];
}
