-- ===== src/Admin/History/Ends.antt =====
-- What the button sends that ends a command (frontend/src/pages/commands.tsx).
use icpc_controller.Prelude.{ℕ, Option, some, List, [], ◌∷◌, ◌++◌, ◌≡◌, ◌⊎◌}
use icpc_controller.Prelude.Text.{codes}
use icpc_controller.Prelude.Maps.{lookup}
use icpc_controller.Admin.Commands.{Row}
use icpc_controller.Admin.Commands.Steps
use icpc_controller.Admin.Commands.Rows.{IsKept}
use icpc_controller.Admin.History.{cancel_in, RoomRun, row_at, cancel}

abbrev HasKept : RoomRun → Type 0
HasKept s = IsKept s.panel.rows s.panel.known

abbrev pub Runs : Row → Type 0
Runs row = (row.status ≡ codes "running") ⊎ (row.status ≡ codes "dispatched")

-- A row that runs is open: the end of its command is asked for, a command of the last answer that
-- is for the device of the row.
pub record Ends (s : RoomRun) : Type 0 where
  pub device : ℕ
  pub row : Row
  pub target : ℕ
  pub opened : s.panel.active ≡ some device
  pub is_row : lookup device s.panel.rows ≡ some row
  pub runs : Runs row
  pub of_device : row.device_id ≡ device
  pub of_run : lookup row.command_id s.panel.known ≡ some target
  pub sent : (cancel s).sent ≡ s.sent ++ (s.room, cancel_in s.ran_in row.command_id) ∷ []

-- No row that runs is open.
pub record IsIdle (s : RoomRun) : Type 0 where
  pub over :
      (device : ℕ) (row : Row)
      → s.panel.active ≡ some device
      → lookup device s.panel.rows ≡ some row
      → ¬ Runs row
  pub kept : cancel s ≡ s

row_at-lookup :
    (active : Option ℕ) (rows : List (ℕ × Row)) (device : ℕ) (row : Row)
    → active ≡ some device
    → lookup device rows ≡ some row
    → row_at active rows ≡ some row
row_at-lookup active rows device row a e = rw a e
