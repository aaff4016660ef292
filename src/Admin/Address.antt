-- ===== src/Admin/Address.antt =====
-- The page and the room of `AppProvider` beside the address of the window (`go`, `setRoom` and
-- the listeners of frontend/src/state.tsx), and the buttons that enter a room (frontend/src/pages/
-- devices.tsx, rooms.tsx, checkin.tsx).
pub mod InSync
use icpc_controller.Prelude.{
  ℕ, ◌+◌, Bool, true, false, not, Option, none, some, List, [], ◌∷◌, ◌++◌, ◌≡◌, if◌then◌else◌,
  is_empty,
}
use icpc_controller.Prelude.Text.{or_text, Text, codes}
use icpc_controller.Prelude.Sets.{text_eq, includes}
use icpc_controller.Admin.Routes.{pages, strip_first, parse_page, room_from_path, room_path}

-- The state, `location.pathname` and `location.hash`, and how many entries `pushState` has added.
pub record Address : Type 0 where
  pub page : Text
  pub room_id : Text
  pub path : Text
  pub hash : Text
  pub pushed : ℕ

-- history.pushState(null, "", url) for the address of a room and a fragment that is not empty.
unfoldable pub push_state : Text → Text → Address → Address
push_state room fragment s = record s {
  path = room_path room;
  hash = 35 ∷ fragment;
  pushed = s.pushed + 1;
}

-- `go` reads the room of the rendering that it belongs to, `room`.
unfoldable pub go : Text → Text → Address → Address
go room next s =
    let t =
      if text_eq (s.path ++ s.hash) (room_path room ++ 35 ∷ next)
      then s
      else push_state room next s in
    record t { page = next }

-- `setRoom` reads the page of the rendering that it belongs to, `page`.
unfoldable pub set_room : Text → Text → Address → Address
set_room page id s = record (push_state id (or_text (strip_first 35 s.hash) page) s) {
  room_id = id;
}

-- `sync`, behind a change of the address; where it throws, the page is set and the room is not.
abbrev pub arrived : Text → Text → Text → Address → Address
arrived path hash room s = record s {
  page = parse_page hash;
  room_id = room;
  path = path;
  hash = hash;
}

unfoldable pub sync : Text → Text → Address → Address
sync path hash s = elim (room_from_path path) as (λ x. Address) [
  | none ↦ record s { page = parse_page hash; path = path; hash = hash }
  | some room ↦ arrived path hash room s
]

-- The first state, from the address that is loaded; none where it throws.
abbrev pub first_address : Text → Text → Text → Address
first_address path hash room = record {
  page = parse_page hash;
  room_id = room;
  path = path;
  hash = hash;
  pushed = 0;
}

unfoldable pub load_address : Text → Text → Option Address
load_address path hash = elim (room_from_path path) as (λ x. Option Address) [
  | none ↦ none
  | some room ↦ some (first_address path hash room)
]

-- app.setRoom(room); app.go(page), both of one rendering of the page.
unfoldable pub enter_room : Text → Text → Address → Address
enter_room room page s = go s.room_id page (set_room s.page room s)
