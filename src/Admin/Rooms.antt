-- ===== src/Admin/Rooms.antt =====
-- The room that requests go to, beside the room that is shown: `setApiRoom` and its effect in
-- `AppProvider`, and `useDevices` of the page that is shown (frontend/src/lib/api.ts, state.tsx).
pub mod Routed
use icpc_controller.Prelude.{
  ℕ, Bool, true, false, not, ◌&&◌, List, [], ◌∷◌, ◌++◌, if◌then◌else◌, is_empty,
}
use icpc_controller.Prelude.Text.{Text, codes}
use icpc_controller.Prelude.Sets.{includes, text_eq}

-- `api_room` is the variable of lib/api.ts; `loads` are the rooms that the requests for the
-- devices went to, the latest at the end, the empty text for none.
pub record Rooms : Type 0 where
  pub room_id : Text
  pub cloud : Bool
  pub api_room : Text
  pub loads : List Text

-- deployment.mode === "cloud" && !roomID
abbrev pub cloud_all : Rooms → Bool
cloud_all s = s.cloud && is_empty s.room_id

-- `load` of useDevices: the room of a request is that of the variable.
unfoldable pub load_devices : Rooms → Rooms
load_devices s = if cloud_all s then s else record s { loads = s.loads ++ s.api_room ∷ [] }

unfoldable pub set_api_room : Rooms → Rooms
set_api_room s = record s { api_room = s.room_id }

abbrev pub same_bool : Bool → Bool → Bool
same_bool true b = b
same_bool false b = not b

-- The effects behind a rendering, where `room` was roomID until then, and `reloads` is whether
-- `load` of the page has changed with cloudAll or the page is a new one. React runs those of a
-- component before those of its parents: first that of the page, then that of AppProvider, for
-- another room.
unfoldable pub effects : Text → Bool → Rooms → Rooms
effects room reloads s =
    let t = if reloads then load_devices s else s in
    if text_eq room s.room_id then t else set_api_room t

-- `setRoom`, or an address that names another room, where the page stays.
unfoldable pub change_room : Text → Rooms → Rooms
change_room id s =
    let t = record s { room_id = id } in
    effects s.room_id (not (same_bool (cloud_all s) (cloud_all t))) t

-- The same, with another page that shows devices in the same rendering.
unfoldable pub enter_page : Text → Rooms → Rooms
enter_page id s = effects s.room_id true (record s { room_id = id })

-- The answer with the deployment.
unfoldable pub set_cloud : Bool → Rooms → Rooms
set_cloud cloud s =
    let t = record s { cloud = cloud } in
    effects s.room_id (not (same_bool (cloud_all s) (cloud_all t))) t

-- The listener of useDevices.
unfoldable pub device_events : List Text
device_events =
    codes "device_connected"
    ∷ codes "device_disconnected"
    ∷ codes "device_updated"
    ∷ codes "checkin_updated"
    ∷ codes "device_health"
    ∷ []

unfoldable pub on_device_event : Text → Rooms → Rooms
on_device_event name s = if includes name device_events then load_devices s else s

-- The first rendering, with a page that shows devices.
unfoldable pub first_rooms : Text → Rooms
first_rooms room =
    set_api_room
      (load_devices (record { room_id = room; cloud = false; api_room = []; loads = [] }))

-- `shown` is another page that shows devices, with its first effect, in the same room, or `reload`.
pub data Step (s : Rooms) : Rooms → Type 0 where
  room_changed : (id : Text) → Step s (change_room id s)
  page_entered : (id : Text) → Step s (enter_page id s)
  deployed : (cloud : Bool) → Step s (set_cloud cloud s)
  notified : (name : Text) → Step s (on_device_event name s)
  shown : Step s (load_devices s)

pub data Reach : Rooms → Type 0 where
  loaded : (room : Text) → Reach (first_rooms room)
  further : {s t : Rooms} → Reach s → Step s t → Reach t
