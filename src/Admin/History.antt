-- ===== src/Admin/History.antt =====
-- The commands page of a room over changes of the room (`RoomCommands` of frontend/src/pages/
-- commands.tsx): its history, its presets, and the button that ends a command.
pub mod Ends
use icpc_controller.Prelude.{
  ℕ, Bool, true, false, not, ◌&&◌, ◌||◌, Option, none, some, List, [], ◌∷◌, ◌++◌, ◌≡◌, ◌==◌, refl,
  ◌∙◌, inl, inr, arith, All, All-snoc, Bool-cases, Option-cases, if◌then◌else◌, is_empty,
}
use icpc_controller.Prelude.Text.{Text, codes, show}
use icpc_controller.Prelude.Sets.{text_eq, text_eq→eq}
use icpc_controller.Prelude.Maps.{lookup}
use icpc_controller.Admin.Settings.{Preset}
use icpc_controller.Admin.Tables.Runs.{Logged}
use icpc_controller.Admin.Commands.{
  Row, Panel, AdminEvent, EventKind, Child, run, on_created, on_run_error, on_admin, on_kind,
  is_known, put_row, load_history, click_row,
}
use icpc_controller.Admin.Commands.Steps.{first}

pub data Request : Type 0 where
  get_presets : Request
  clear : Request
  get_command : ℕ → Request
  -- the command, and the room in which it runs
  cancel_in : Text → ℕ → Request

-- The page; `ran_in` is the room that the rows are from, and `sent` are the requests with the
-- rooms that they go to.
pub record RoomRun : Type 0 where
  pub panel : Panel
  pub room : Text
  pub ran_in : Text
  pub history : List Logged
  pub detail : Option Logged
  pub presets : List Preset
  pub sent : List (Text × Request)

abbrev pub send_request : Request → RoomRun → RoomRun
send_request request s = record s { sent = s.sent ++ (s.room, request) ∷ [] }

-- Another room, with the first effect anew: the rows stay, and the request still goes to the room
-- from before, since the effects of a component run before those of its parents, where `setApiRoom`
-- is.
unfoldable pub load_room : Text → RoomRun → RoomRun
load_room room s = record (send_request Request.get_presets s) {
  room = room;
  panel = load_history s.panel;
}

unfoldable pub on_history : List Logged → RoomRun → RoomRun
on_history history s = record s { history = history }

unfoldable pub on_preset_list : List Preset → RoomRun → RoomRun
on_preset_list presets s = record s { presets = presets }

unfoldable pub pick_preset : Preset → RoomRun → RoomRun
pick_preset preset s = record s { panel = record s.panel { command = preset.command } }

-- The button that clears the history, with the user's answer.
unfoldable pub clear_history : Bool → RoomRun → RoomRun
clear_history confirmed s =
    if confirmed then send_request Request.clear (record s { panel = load_history s.panel }) else s

-- An entry of the history is opened, and the answer with it; the button that closes it.
unfoldable pub open_entry : ℕ → RoomRun → RoomRun
open_entry id s = send_request (Request.get_command id) s

unfoldable pub on_entry : Logged → RoomRun → RoomRun
on_entry item s = record s { detail = some item }

unfoldable pub close_entry : RoomRun → RoomRun
close_entry s = record s { detail = none }

-- rows[active]
abbrev pub row_at : Option ℕ → List (ℕ × Row) → Option Row
row_at none rows = none
row_at (some d) rows = lookup d rows

abbrev pub is_unfinished : Row → Bool
is_unfinished row = text_eq row.status (codes "running") || text_eq row.status (codes "dispatched")

-- The button that ends the command of the row that is open; it stands there for one that runs.
abbrev pub cancel_row : Option Row → RoomRun → RoomRun
cancel_row none s = s
cancel_row (some row) s =
    if is_unfinished row then send_request (Request.cancel_in s.ran_in row.command_id) s else s

unfoldable pub cancel : RoomRun → RoomRun
cancel s = cancel_row (row_at s.panel.active s.panel.rows) s

-- The answer of a run that was sent to a room.
unfoldable pub on_answer : Text → List Child → ℕ → RoomRun → RoomRun
on_answer from children count s = record s {
  panel = on_created children count s.panel;
  ran_in = from;
}

-- The first rendering, with the first effect; `asked` is the room that requests go to until then:
-- the same one, or none where the application itself is rendered first.
unfoldable pub first_run : Text → Text → RoomRun
first_run room asked = record {
  panel = load_history first;
  room = room;
  ran_in = room;
  history = [];
  detail = none;
  presets = [];
  sent = (asked, Request.get_presets) ∷ [];
}

pub data Step (s : RoomRun) : RoomRun → Type 0 where
  room_entered : (room : Text) → Step s (load_room room s)
  answered :
      (from : Text) (children : List Child) (count : ℕ) → Step s (on_answer from children count s)
  ran : (ids : Option (List ℕ)) → Step s (record s { panel = run ids s.panel })
  failed : (message : Text) → Step s (record s { panel = on_run_error message s.panel })
  notified : (e : AdminEvent) → Step s (record s { panel = on_admin e s.panel })
  row_clicked : (d : ℕ) → Step s (record s { panel = click_row d s.panel })
  preset_picked : (preset : Preset) → Step s (pick_preset preset s)
  history_got : (history : List Logged) → Step s (on_history history s)
  presets_got : (presets : List Preset) → Step s (on_preset_list presets s)
  cleared : (confirmed : Bool) → Step s (clear_history confirmed s)
  entry_opened : (id : ℕ) → Step s (open_entry id s)
  entry_got : (item : Logged) → Step s (on_entry item s)
  entry_closed : Step s (close_entry s)
  cancelled : Step s (cancel s)

pub data Reach : RoomRun → Type 0 where
  start : (room asked : Text) → Reach (first_run room asked)
  further : {s t : RoomRun} → Reach s → Step s t → Reach t
