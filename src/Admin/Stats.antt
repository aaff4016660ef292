-- ===== src/Admin/Stats.antt =====
-- The deployment, the rooms and the statistics of `AppProvider` (frontend/src/state.tsx): the
-- effects that ask for them and what their answers set.
pub mod Summed
use icpc_controller.Prelude.{
  ℕ, suc, ◌-◌, Bool, true, false, not, ◌&&◌, ◌||◌, Option, none, some, List, [], ◌∷◌, ◌++◌, ◌≡◌,
  ◌<◌, if◌then◌else◌, is_empty,
}
use icpc_controller.Prelude.Text.{Text, codes}
use icpc_controller.Prelude.Sets.{text_eq}
use icpc_controller.Admin.Fleet.{Room}
use icpc_controller.Admin.Overview.{online_devices, total_devices}

-- The state and the requests that wait for their answers, by their number: for the status, for the
-- rooms and for the statistics.
pub record Stats : Type 0 where
  pub mode : Text
  pub connection : Text
  pub room_id : Text
  pub page : Text
  pub rooms : List Room
  pub online : ℕ
  pub total : ℕ
  pub status_asked : ℕ
  pub rooms_asked : ℕ
  pub stats_asked : ℕ

abbrev pub is_cloud : Stats → Bool
is_cloud s = text_eq s.mode (codes "cloud")

-- cloudAll
abbrev pub in_all : Stats → Bool
in_all s = is_cloud s && is_empty s.room_id

-- The effect of the status, for another room.
unfoldable pub ask_status : Stats → Stats
ask_status s = record s { status_asked = suc s.status_asked }

-- `refreshRooms`, up to its request; the effect behind another mode calls it in the cloud.
unfoldable pub refresh_rooms : Stats → Stats
refresh_rooms s = if is_cloud s then record s { rooms_asked = suc s.rooms_asked } else s

-- The effect of the statistics, behind another mode, room, list of rooms or page.
unfoldable pub draw_stats : Stats → Stats
draw_stats s =
    if in_all s
    then record s { online = online_devices s.rooms; total = total_devices s.rooms }
    else record s { stats_asked = suc s.stats_asked }

-- The first rendering.
unfoldable pub first_stats : Text → Text → Stats
first_stats room_id page = draw_stats (
    ask_status (record {
      mode = codes "standalone";
      connection = [];
      room_id = room_id;
      page = page;
      rooms = [];
      online = 0;
      total = 0;
      status_asked = 0;
      rooms_asked = 0;
      stats_asked = 0;
    }))

unfoldable pub change_room : Text → Stats → Stats
change_room id s =
    if text_eq id s.room_id then s else draw_stats (ask_status (record s { room_id = id }))

unfoldable pub change_page : Text → Stats → Stats
change_page page s = if text_eq page s.page then s else draw_stats (record s { page = page })

-- The answer with the status; the effects of the mode run where it is another one.
unfoldable pub on_status : Text → Text → Stats → Stats
on_status mode connection s =
    let t = record s { connection = connection; status_asked = s.status_asked - 1 } in
    if text_eq mode s.mode then t else draw_stats (refresh_rooms (record t { mode = mode }))

-- The answer with the rooms, and a request for them that fails.
unfoldable pub on_rooms : List Room → Stats → Stats
on_rooms list s = draw_stats (record s { rooms = list; rooms_asked = s.rooms_asked - 1 })

unfoldable pub fail_rooms : Stats → Stats
fail_rooms s = record s { rooms_asked = s.rooms_asked - 1 }

-- The answer with the statistics, and a request for them that fails.
unfoldable pub on_stats : ℕ → ℕ → Stats → Stats
on_stats online total s = record s {
  online = online;
  total = total;
  stats_asked = s.stats_asked - 1;
}

unfoldable pub fail_stats : Stats → Stats
fail_stats s = record s { stats_asked = s.stats_asked - 1 }

-- The events of the state; `refreshed` is the button of the rooms' page.
pub data Step (s : Stats) : Stats → Type 0 where
  room_changed : (id : Text) → Step s (change_room id s)
  page_changed : (page : Text) → Step s (change_page page s)
  refreshed : Step s (refresh_rooms s)
  status_got : (mode connection : Text) → 0 < s.status_asked → Step s (on_status mode connection s)
  rooms_got : (list : List Room) → 0 < s.rooms_asked → Step s (on_rooms list s)
  rooms_failed : 0 < s.rooms_asked → Step s (fail_rooms s)
  stats_got : (online total : ℕ) → 0 < s.stats_asked → Step s (on_stats online total s)
  stats_failed : 0 < s.stats_asked → Step s (fail_stats s)

pub data Reach : Stats → Type 0 where
  start : (room_id page : Text) → Reach (first_stats room_id page)
  further : {s t : Stats} → Reach s → Step s t → Reach t
