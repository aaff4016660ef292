-- ===== src/Admin/Commands/Steps.antt =====
-- The runs of the commands page (frontend/src/pages/commands.tsx): the events in any order.
use icpc_controller.Prelude.{ℕ, false, Option, none, List, [], ◌∷◌}
use icpc_controller.Prelude.Text.{Text, codes}
use icpc_controller.Admin.Fleet.{Device}
use icpc_controller.Admin.Commands.{
  Mode, Request, Panel, AdminEvent, on_admin, run, Child, on_created, on_run_error, toggle_picked,
  click_row,
}

-- The events of the page. Several runs may wait for their answers at a time, since the button
-- that repeats the failed ones is open while a run is busy.
pub data Step : Panel → Panel → Type 0 where
  event : {s : Panel} (e : AdminEvent) → Step s (on_admin e s)
  ran : {s : Panel} (ids : Option (List ℕ)) → Step s (run ids s)
  created : {s : Panel} (children : List Child) (count : ℕ) → Step s (on_created children count s)
  errored : {s : Panel} (message : Text) → Step s (on_run_error message s)
  edited : {s : Panel} (command : Text) → Step s (record s { command = command })
  moded : {s : Panel} (mode : Mode) → Step s (record s { mode = mode })
  toggled : {s : Panel} (id : ℕ) → Step s (record s { picked = toggle_picked id s.picked })
  chosen : {s : Panel} (ids : List ℕ) → Step s (record s { picked = ids })
  clicked : {s : Panel} (d : ℕ) → Step s (click_row d s)
  loaded : {s : Panel} (devices : List Device) → Step s (record s { devices = devices })

-- The page as it is first shown, with the history asked for.
abbrev pub first : Panel
first = record {
  devices = [];
  command = codes "hostname && uptime";
  mode = Mode.online;
  picked = [];
  rows = [];
  known = [];
  active = none;
  busy = false;
  requests = Request.get_history ∷ [];
  toasts = [];
}

pub data Reach : Panel → Type 0 where
  start : Reach first
  next : {s t : Panel} → Reach s → Step s t → Reach t
