-- ===== src/Admin/Tests/Grids.antt =====
-- Runs of the models of the tables (frontend/src/pages, frontend/src/components) on concrete
-- input.
use icpc_controller.Prelude.{ℕ, true, false, none, List, [], ◌∷◌, ◌≡◌, ◌↔◌, refl, All, ◌==◌}
use icpc_controller.Prelude.Int.{ℤ}
use icpc_controller.Prelude.Text.{Text, codes, show}
use icpc_controller.Admin.Devices.{Event, Machine}
use icpc_controller.Admin.Devices.Table.{Browser}
use icpc_controller.Admin.Tables.{IsEven}
use icpc_controller.Admin.Tables.Runs.{
  Logged, run_grid, history_grid, detail_grids, recent_grid, room_grid, last_line,
}
use icpc_controller.Admin.Tables.Work.{file_grid, progress_grid, schedule_grid, job_grid, op_grid}
use icpc_controller.Admin.Tables.People.{device_grid, event_grid, fleet_grid, checkin_grid}
use icpc_controller.Admin.Tables.Shape.{grids-IsEven, grids_iff}

abbrev browser : Browser ℕ
browser = record {
  parse = λ text. none;
  is_falsy = λ n. n == 0;
  is_below = λ n. false;
  is_above = λ n. true;
  to_fixed = show;
  show_value = λ value. codes "value";
  lower = λ text. text;
}

abbrev entry : Logged
entry = record {
  id = 3;
  room = codes "A";
  target_type = codes "broadcast";
  target_id = none;
  command = codes "ls";
  status = codes "completed";
  output = codes "ok";
  error_output = [];
  created_at = codes "2026";
  duration_ms = 12;
}

abbrev logged : List Logged
logged = entry ∷ []

abbrev machines : List (Machine ℕ)
machines = []

abbrev events : List Event
events = record { id = 1; event = codes "up"; detail = []; at = codes "2026" } ∷ []

abbrev ago : Text → Text
ago text = text

grids-IsEven_example :
    IsEven (run_grid [])
    × All IsEven (detail_grids logged)
    × IsEven (recent_grid ago logged)
    × IsEven (room_grid ago logged)
    × IsEven (file_grid show [])
    × IsEven (progress_grid [])
    × IsEven (schedule_grid [])
    × IsEven (job_grid [])
    × IsEven (op_grid [])
    × IsEven (device_grid browser machines)
    × IsEven (event_grid events)
    × IsEven (checkin_grid [])
grids-IsEven_example = grids-IsEven browser ago show [] logged [] [] [] [] [] machines events []

grids_iff_example :
    (IsEven (history_grid []) ↔ (true ≡ false)) × (IsEven (fleet_grid true []) ↔ (true ≡ true))
grids_iff_example = grids_iff [] true []

last_line_test : last_line (codes "a\nb") ≡ codes "b"
unfolding last_line
last_line_test = refl

abbrev fixed : ℕ → ℕ → ℤ → Text
fixed digits bytes i = show bytes
