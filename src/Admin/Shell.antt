-- ===== src/Admin/Shell.antt =====
-- The frame around the pages (`Shell` of frontend/src/components/shell.tsx): the theme, with the
-- script of frontend/index.html that restores it, the menu of a small screen, the end of a session
-- and the head of the page.
pub mod Themes
use icpc_controller.Prelude.{
  ℕ, Bool, true, false, not, ◌&&◌, ◌||◌, Option, none, some, List, [], ◌∷◌, ◌++◌, ◌≡◌,
  if◌then◌else◌, is_empty, map,
}
use icpc_controller.Prelude.Text.{Text, codes, show, or_text}
use icpc_controller.Prelude.Sets.{text_eq, includes}
use icpc_controller.Admin.Menu.{Entry, menu}
use icpc_controller.Admin.App.{App, go_to}

-- `open` is whether the menu is shown, `attribute` is data-theme of the document, `stored` is
-- icpc-theme of the local storage, and `href` is where the browser was sent to.
pub record Shell : Type 0 where
  pub menu_open : Bool
  pub dark : Bool
  pub attribute : Option Text
  pub stored : Option Text
  pub requests : List Text
  pub href : Option Text

abbrev pub is_dark : Option Text → Bool
is_dark none = false
is_dark (some t) = text_eq t (codes "dark")

-- The script of the document: nothing else than a theme is taken from the storage.
unfoldable pub restored : Option Text → Option Text
restored none = none
restored (some t) = if text_eq t (codes "dark") || text_eq t (codes "light") then some t else none

-- The document is loaded, with what is stored.
unfoldable pub load_shell : Option Text → Shell
load_shell stored = record {
  menu_open = false;
  dark = is_dark (restored stored);
  attribute = restored stored;
  stored = stored;
  requests = [];
  href = none;
}

abbrev pub next_theme : Bool → Text
next_theme dark = if dark then codes "light" else codes "dark"

-- `toggleTheme`; `stores` is whether setItem does, which throws where there is no room.
unfoldable pub toggle_theme : Bool → Shell → Shell
toggle_theme stores s =
    if stores
    then record s {
      attribute = some (next_theme s.dark);
      stored = some (next_theme s.dark);
      dark = not s.dark;
    }
    else record s { attribute = some (next_theme s.dark) }

-- `logout`, with the user's answer, where the request does not fail.
unfoldable pub logout : Bool → Shell → Shell
logout confirmed s =
    if confirmed
    then record s {
      requests = s.requests ++ codes "/api/auth/logout" ∷ [];
      href = some (codes "/login.html");
    }
    else s

unfoldable pub open_menu : Shell → Shell
open_menu s = record s { menu_open = true }

unfoldable pub close_menu : Shell → Shell
close_menu s = record s { menu_open = false }

-- An entry of the menu goes to its page and closes the menu.
unfoldable pub pick_entry : Entry → Shell × App → Shell × App
pick_entry entry s = (close_menu s.0, go_to entry.id s.1)

-- The events of the frame and of the document that it stands in.
pub data Step (s : Shell) : Shell → Type 0 where
  toggled : (stores : Bool) → Step s (toggle_theme stores s)
  logged_out : (confirmed : Bool) → Step s (logout confirmed s)
  menu_opened : Step s (open_menu s)
  menu_closed : Step s (close_menu s)
  reloaded : Step s (load_shell s.stored)

pub data Reach : Shell → Type 0 where
  loaded : (stored : Option Text) → Reach (load_shell stored)
  further : {s t : Shell} → Reach s → Step s t → Reach t

unfoldable pub mode_label : Text → Text
mode_label mode =
    if text_eq mode (codes "cloud")
    then codes "云端"
    else if text_eq mode (codes "relay")
    then codes "机房中转"
    else codes "单机"

-- A room of the list by which the frame names it.
pub record RoomEntry : Type 0 where
  pub id : Text
  pub name : Text
  pub online : Bool

-- app.rooms.find((room) => room.id === app.roomID)?.name, the empty text for undefined
unfoldable pub shown_room : Text → List RoomEntry → Text
shown_room id [] = []
shown_room id (room ∷ rooms) =
    let rest = shown_room id rooms in if text_eq room.id id then room.name else rest

-- The line under the title; `own` is room_name of the deployment.
unfoldable pub place_text : Bool → Text → Text → List RoomEntry → Text
place_text cloud room_id own rooms =
    if cloud && is_empty room_id
    then codes "全部机房"
    else if is_empty room_id
    then or_text own (codes "当前局域网")
    else codes "正在管理 " ++ or_text (shown_room room_id rooms) room_id

abbrev pub room_option : RoomEntry → Text × Text
room_option room = (room.id, room.name ++ (if room.online then [] else codes " · 离线"))

-- The options of the select, as their values and texts.
unfoldable pub room_options : List RoomEntry → List (Text × Text)
room_options rooms = ([], codes "全部机房") ∷ map room_option rooms

abbrev pub link_label : Bool → Text
link_label connected = if connected then codes "实时" else codes "重连中"

abbrev pub stats_label : ℕ → ℕ → Text
stats_label online total = codes "在线 " ++ show online ++ codes " / " ++ show total
