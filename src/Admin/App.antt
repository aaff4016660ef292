-- ===== src/Admin/App.antt =====
-- The state of `AppProvider` as a whole (frontend/src/state.tsx): the handlers and effects of its
-- parts, which the other modules model, on one state, and the page that is drawn (frontend/src/
-- App.tsx).
pub mod Parts
use icpc_controller.Prelude.{
  ℕ, Bool, true, false, Option, none, some, List, [], ◌∷◌, ◌++◌, ◌≡◌, if◌then◌else◌,
}
use icpc_controller.Prelude.Text.{Text, codes}
use icpc_controller.Prelude.Uri.{IsScalar}
use icpc_controller.Prelude.Sets.{includes, text_eq}
use icpc_controller.Admin.Fleet.{toggle_fleet, select_fleet}
use icpc_controller.Admin.Routes.{pages, room_from_path}
use icpc_controller.Admin.Address
use icpc_controller.Admin.Address.{go, set_room, arrived, first_address, enter_room}
use icpc_controller.Admin.Address.InSync.{IsPath, IsHash}
use icpc_controller.Admin.Rooms
use icpc_controller.Admin.Rooms.{
  change_room, enter_page, set_cloud, on_device_event, load_devices, first_rooms,
}
use icpc_controller.Admin.Socket
use icpc_controller.Admin.Socket.{mount}
use icpc_controller.Admin.Notices
use icpc_controller.Admin.Notices.{no_notices}
use icpc_controller.Prelude.{All}

pub record App : Type 0 where
  pub address : Address.Address
  pub rooms : Rooms.Rooms
  pub fleet : List Text
  pub link : Socket.Link
  pub notices : Notices.Notices

-- `go` changes the page alone.
unfoldable pub go_to : Text → App → App
go_to next s = record s { address = go s.address.room_id next s.address }

-- `setRoom` writes the address and the state, and the effects for the new room run.
unfoldable pub enter : Text → App → App
enter id s = record s {
  address = set_room s.address.page id s.address;
  rooms = change_room id s.rooms;
}

-- Behind another room, the effects of the page that stays, or of another page that shows devices.
abbrev pub move_room : Bool → Text → Rooms.Rooms → Rooms.Rooms
move_room fresh id s = if fresh then enter_page id s else change_room id s

-- The listener of the window, for an address whose room can be read; `fresh` is whether another
-- page that shows devices is drawn.
unfoldable pub follow : Bool → Text → Text → Text → App → App
follow fresh path hash room s = record s {
  address = arrived path hash room s.address;
  rooms = move_room fresh room s.rooms;
}

-- The buttons of rooms, devices and check-ins: app.setRoom(room); app.go(next).
unfoldable pub press : Bool → Text → Text → App → App
press fresh room next s = record s {
  address = enter_room room next s.address;
  rooms = move_room fresh room s.rooms;
}

-- The first rendering, at an address whose room can be read.
unfoldable pub load_app : Text → Text → Text → App
load_app path hash room = record {
  address = first_address path hash room;
  rooms = first_rooms room;
  fleet = [];
  link = mount;
  notices = no_notices;
}

-- The events of the application: its handlers, those of the window, the answer with the
-- deployment, and the events of the socket and of the notices.
pub data Step (s : App) : App → Type 0 where
  went : (next : Text) → includes next pages ≡ true → Step s (go_to next s)
  entered : (id : Text) → All IsScalar id → Step s (enter id s)
  followed :
      (fresh : Bool) (path hash room : Text)
      → IsPath path
      → IsHash hash
      → room_from_path path ≡ some room
      → All IsScalar room
      → Step s (follow fresh path hash room s)
  pressed :
      (fresh : Bool) (room next : Text)
      → All IsScalar room
      → includes next pages ≡ true
      → Step s (press fresh room next s)
  deployed : (cloud : Bool) → Step s (record s { rooms = set_cloud cloud s.rooms })
  notified : (name : Text) → Step s (record s { rooms = on_device_event name s.rooms })
  shown : Step s (record s { rooms = load_devices s.rooms })
  toggled :
      (key : Text) (on : Option Bool) → Step s (record s { fleet = toggle_fleet key on s.fleet })
  selected : (keys : List Text) → Step s (record s { fleet = select_fleet keys })
  cleared : Step s (record s { fleet = [] })
  linked : {l : Socket.Link} → Socket.Step s.link l → Step s (record s { link = l })
  noticed : {n : Notices.Notices} → Notices.Step s.notices n → Step s (record s { notices = n })

pub data Reach : App → Type 0 where
  loaded :
      (path hash room : Text)
      → IsPath path
      → IsHash hash
      → room_from_path path ≡ some room
      → All IsScalar room
      → Reach (load_app path hash room)
  further : {s t : App} → Reach s → Step s t → Reach t

-- The component that `Router` draws, by the page that it is for.
pub data Drawn : Type 0 where
  rooms devices commands network distribute power checkin screen broadcast settings dashboard :
      Drawn

unfoldable pub router : Text → Drawn
router page =
    if text_eq page (codes "rooms")
    then Drawn.rooms
    else if text_eq page (codes "devices")
    then Drawn.devices
    else if text_eq page (codes "commands")
    then Drawn.commands
    else if text_eq page (codes "network")
    then Drawn.network
    else if text_eq page (codes "distribute")
    then Drawn.distribute
    else if text_eq page (codes "power")
    then Drawn.power
    else if text_eq page (codes "checkin")
    then Drawn.checkin
    else if text_eq page (codes "screen")
    then Drawn.screen
    else if text_eq page (codes "broadcast")
    then Drawn.broadcast
    else if text_eq page (codes "settings")
    then Drawn.settings
    else Drawn.dashboard
