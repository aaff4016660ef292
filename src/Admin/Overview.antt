-- ===== src/Admin/Overview.antt =====
-- The figures of all rooms (frontend/src/pages/dashboard.tsx, checkin.tsx and the statistics of
-- frontend/src/state.tsx) and their latest commands (dashboard.tsx, commands.tsx).
pub mod Figures
use icpc_controller.Prelude.{
  ℕ, ◌+◌, Bool, true, false, List, [], ◌∷◌, ◌++◌, map, ◌==◌, count_if, length,
}
use icpc_controller.Prelude.Int.{ℤ, pos, ◌-ℤ◌}
use icpc_controller.Prelude.Text.{Text}
use icpc_controller.Prelude.Sorting.{sort_latest, front}
use icpc_controller.Admin.Fleet.{Device, CommandLog, Room}

-- rooms.reduce((sum, room) => sum + value(room), 0)
unfoldable pub sum_rooms : (Room → ℕ) → List Room → ℕ
sum_rooms value [] = 0
sum_rooms value (room ∷ rooms) = value room + sum_rooms value rooms

unfoldable pub total_devices : List Room → ℕ
total_devices rooms = sum_rooms (λ room. length room.devices) rooms

unfoldable pub online_devices : List Room → ℕ
online_devices rooms = sum_rooms (λ room. count_if (λ d. d.connected) room.devices) rooms

abbrev pub has_status : ℕ → Device → Bool
has_status status d = d.checkin_status == status

unfoldable pub checked_in : List Room → ℕ
checked_in rooms = sum_rooms (λ room. count_if (has_status 1) room.devices) rooms

unfoldable pub checked_out : List Room → ℕ
checked_out rooms = sum_rooms (λ room. count_if (has_status 2) room.devices) rooms

unfoldable pub all_commands : List Room → ℕ
all_commands rooms = sum_rooms (λ room. room.total_commands) rooms

pub record CheckinStats : Type 0 where
  pub total : ℕ
  pub checked_in : ℕ
  pub checked_out : ℕ
  pub not_checked : ℤ

unfoldable pub checkin_stats : List Room → CheckinStats
checkin_stats rooms = record {
  total = total_devices rooms;
  checked_in = checked_in rooms;
  checked_out = checked_out rooms;
  not_checked = pos (total_devices rooms) -ℤ pos (checked_in rooms) -ℤ pos (checked_out rooms);
}

-- A command with the name of its room.
pub record RecentCommand : Type 0 where
  pub log : CommandLog
  pub room : Text

unfoldable pub recent_commands : List Room → List RecentCommand
recent_commands [] = []
recent_commands (room ∷ rooms) =
    map (λ c. record { log = c; room = room.name }) room.recent_commands ++ recent_commands rooms

-- The latest commands: `limit` is 12 on the dashboard and 40 on the page of commands. `date` is
-- the time of a date, which can be read in all of them.
unfoldable pub latest_commands : (Text → ℤ) → ℕ → List Room → List RecentCommand
latest_commands date limit rooms =
    front limit (sort_latest (λ c. date c.log.created_at) (recent_commands rooms))
