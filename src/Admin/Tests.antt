-- ===== src/Admin/Tests.antt =====
-- Runs of the model of the administrators' frontend (frontend/src) on concrete input.
mod Views
mod Rooms
mod Editing
mod Forms
mod Whole
mod Devices
mod Frames
mod Grids
mod Orders
mod Terminals
mod Cancels
use icpc_controller.Prelude.{
  arith, inl, ◌++◌, ◌↔◌, ℕ, ◌≤◌, Bool, true, false, not, none, some, List, [], ◌∷◌, map, ◌≡◌, refl,
  if◌then◌else◌, length, any, ◌==◌,
}
use icpc_controller.Prelude.Text.{Text, codes, show, read}
use icpc_controller.Prelude.Sets.{includes, Nodup, text_eq}
use icpc_controller.Prelude.Maps.{lookup, set}
use icpc_controller.Admin.Fleet.{
  Device, Room, toggle_fleet, select_fleet, queue_fleet, select_online, fleet_devices,
}
use icpc_controller.Admin.Fleet.Selection.{
  toggle_fleet_lem, select_fleet_lem, select_online_lem, is_online_key,
}
use icpc_controller.Admin.Fleet.Queue.{queue_fleet_lem, keys, sent, chosen}
use icpc_controller.Admin.Export.{export_fleet, headings, device_rows}
use icpc_controller.Admin.Export.Reader.{read_rows, read_rows-export_fleet}
use icpc_controller.Admin.Commands.{
  Row, Panel, Child, AdminEvent, EventKind, on_admin, on_created, run, row_list, failed, done,
  next_rows,
}
use icpc_controller.Admin.Commands.Steps.{Reach, start, next, ran, created, event, first}
use icpc_controller.Admin.Commands.Rows.{IsKept, Reach-IsKept, IsGrown, on_admin-IsGrown}
use icpc_controller.Admin.Commands.Sorted.{
  IsAscending, row_of, Reach-IsAscending, HasFailed, Reach-failed,
}
use icpc_controller.Admin.Commands.Runs.{HasRun, run_lem, last_child, row_for, on_created-rows}
use icpc_controller.Prelude.Int.{pos, negsuc, ◌+ℤ◌}
use icpc_controller.Admin.Socket.{
  Link, mount, on_socket_open, on_socket_close, clean_up, open_socket, socket_opened, socket_closed,
  here, later,
}
use icpc_controller.Admin.Socket.{Reach as SocketReach, start as socket_start, next as socket_next}
use icpc_controller.Admin.Socket.Live.{IsLinked, Reach-IsLinked, clean_up-made}
use icpc_controller.Admin.Pages.{
  moved, move, keep_page, local_push, insert_at, remove_at, numbered, strip_slash,
}
use icpc_controller.Admin.Pages.Order.{moved-moved, HasMoved, move_lem}
use icpc_controller.Admin.Pages.Publish.{IsSelected, keep_page-IsSelected, local_push-slash}
use icpc_controller.Admin.Actions.{
  Rule, Choice, Kind, clean, wake, schedule, start_distribution, act, cloud_command, power_command,
  nobody_picked,
}
use icpc_controller.Admin.Actions.Aimed.{
  AllAimed, actions-AllAimed, power_command-aimed_iff, act-rules_iff, queued_rules, saved_rules,
}
use icpc_controller.Admin.Commands.{Mode, trim_start, trim_end, is_space}
use icpc_controller.Admin.Routes.{
  pages, parse_page, room_from_path, room_path, resolve, after_prefix, segment,
}
use icpc_controller.Prelude.Uri.{decode, tokens, characters, hex_value}
use icpc_controller.Admin.Routes.Paths.{parse_page_lem, room_from_path-room_path, resolve-api}

abbrev one : Text
one = codes "a:1"

abbrev two : Text
two = codes "a:2"

toggle_fleet_test : toggle_fleet one none (one ∷ two ∷ []) ≡ two ∷ []
unfolding toggle_fleet includes text_eq
toggle_fleet_test = refl

abbrev device : ℕ → Bool → Device
device n up = record {
  assigned_id = n;
  hostname = codes "pc \"x\", y";
  student_name = [];
  student_num = [];
  checkin_status = 1;
  connected = up;
}

abbrev rooms : List Room
rooms =
    record {
      id = codes "a";
      name = codes "A";
      devices = device 1 true ∷ device 2 false ∷ [];
      total_commands = 1;
      recent_commands = [];
    }
    ∷ []

abbrev selection : List (Text × ℕ)
selection = (codes "a", 1) ∷ (codes "b", 1) ∷ (codes "a", 12) ∷ []

queue_fleet_lem_example :
    ((room : Text)
      → (sent room (queue_fleet (read 0) (keys selection) (codes "command")).targets
          ≡ map (λ id. read 0 (show id)) (chosen room selection))
        × (includes room (queue_fleet (read 0) (keys selection) (codes "command")).room_ids
            ≡ includes room (map (λ d. d.0) selection)))
    × Nodup (queue_fleet (read 0) (keys selection) (codes "command")).room_ids
queue_fleet_lem_example =
    queue_fleet_lem (read 0) selection (codes "command")
      ((λ e. cc, tt), ((λ e. cc, tt), ((λ e. cc, tt), tt)))

read_rows-export_fleet_example : read_rows (export_fleet rooms) ≡ headings ∷ device_rows rooms
read_rows-export_fleet_example = read_rows-export_fleet rooms

abbrev children : List Child
children =
    record { id = 8; target_id = some 2; status = codes "dispatched"; error_output = [] }
    ∷ record { id = 9; target_id = some 1; status = codes "failed"; error_output = [] }
    ∷ []

abbrev created_panel : Panel
created_panel = on_created children 2 (run (some (1 ∷ 2 ∷ [])) first)

abbrev output_event : AdminEvent
output_event = record {
  kind = EventKind.command_output;
  command_id = 8;
  device_id = 2;
  line = codes "hello";
  status = [];
  error_output = [];
  duration_ms = 0;
}

running-Reach : Reach (on_admin output_event created_panel)
running-Reach =
    next (next (next start (ran (some (1 ∷ 2 ∷ [])))) (created children 2)) (event output_event)

Reach-IsKept_example :
    IsKept (on_admin output_event created_panel).rows (on_admin output_event created_panel).known
Reach-IsKept_example = Reach-IsKept running-Reach

Reach-failed_example :
    ((d : ℕ)
      → (any (λ x. d == x) (failed (on_admin output_event created_panel)) ≡ true)
        ↔ HasFailed (lookup d (on_admin output_event created_panel).rows))
    × (length (failed (on_admin output_event created_panel))
        ≤ done (on_admin output_event created_panel))
    × (done (on_admin output_event created_panel)
        ≤ length (row_list (on_admin output_event created_panel)))
Reach-failed_example = Reach-failed running-Reach

Reach-IsAscending_example :
    IsAscending (row_list (on_admin output_event created_panel))
    × ((d : ℕ)
        → row_of d (row_list (on_admin output_event created_panel))
          ≡ lookup d (on_admin output_event created_panel).rows)
Reach-IsAscending_example = Reach-IsAscending running-Reach

abbrev dispatched_row : Row
dispatched_row = record {
  device_id = 2;
  command_id = 8;
  status = codes "dispatched";
  output = [];
  duration = 0;
}

dispatched_found : lookup 2 created_panel.rows ≡ some dispatched_row
unfolding on_created next_rows set
dispatched_found = refl

on_admin-IsGrown_example :
    (row : Row) × (lookup 2 (on_admin output_event created_panel).rows ≡ some row)
    × IsGrown dispatched_row row
    × ((2 == 2) ≡ false → row ≡ dispatched_row)
on_admin-IsGrown_example =
    on_admin-IsGrown output_event created_panel 2 dispatched_row dispatched_found

abbrev closed_link : Link
closed_link = on_socket_close (on_socket_open mount)

closed-Reach : SocketReach closed_link
unfolding mount on_socket_open on_socket_close open_socket
closed-Reach = socket_next (socket_next socket_start (socket_opened refl)) (socket_closed refl)

Reach-IsLinked_example : IsLinked closed_link
Reach-IsLinked_example = Reach-IsLinked closed-Reach

move_test : move 0 (pos 1) (7 ∷ 8 ∷ 9 ∷ []) ≡ some ((8, 0) ∷ (7, 1) ∷ (9, 2) ∷ [])
unfolding move moved insert_at remove_at numbered ◌+ℤ◌
move_test = refl

move_lem_example :
    HasMoved 1 (7 ∷ 8 ∷ 9 ∷ []) (pos 1 +ℤ negsuc 0) (move 1 (negsuc 0) (7 ∷ 8 ∷ 9 ∷ []))
move_lem_example = move_lem 1 (negsuc 0) (7 ∷ 8 ∷ 9 ∷ []) (omega arith)

abbrev choice : Bool → List Text → Choice
choice cloud fleet = record {
  cloud_all = cloud;
  fleet = fleet;
  devices = device 1 true ∷ [];
  mode = Mode.picked;
  picked = [];
}

abbrev rules : List Rule
rules =
    record { kind = codes "DOMAIN"; value = codes " a.b " }
    ∷ record { kind = codes "DOMAIN"; value = [] }
    ∷ []

actions-AllAimed_example :
    AllAimed (wake (choice false []))
    × AllAimed (schedule (codes "2026") (choice false []))
    × AllAimed (start_distribution (codes "f" ∷ []) (choice false []) true)
    × AllAimed (act Kind.apply rules (choice false []) true)
    × AllAimed (cloud_command (codes "ls") (choice false []) true)
actions-AllAimed_example =
    actions-AllAimed (choice false []) true (codes "2026") (codes "f" ∷ []) Kind.apply rules
      (codes "ls")

clean_test : clean rules ≡ record { kind = codes "DOMAIN"; value = codes "a.b" } ∷ []
unfolding clean trim_start trim_end is_space
clean_test = refl

room_from_path-room_path_example : room_from_path (room_path (codes "a/b 机")) ≡ some (codes "a/b 机")
room_from_path-room_path_example = room_from_path-room_path (codes "a/b 机") (
  inl (omega arith),
  (inl (omega arith), (inl (omega arith), (inl (omega arith), (inl (omega arith), tt)))),
)

room_from_path_test : room_from_path (codes "/room/a%2Fb%20%E6%9C%BA/") ≡ some (codes "a/b 机")
unfolding room_from_path after_prefix segment decode tokens characters hex_value
room_from_path_test = refl

-- A sign of an escape without its digits is an error.
room_from_path_malformed : room_from_path (codes "/room/50%") ≡ none
unfolding room_from_path after_prefix segment decode tokens characters hex_value
room_from_path_malformed = refl
