-- ===== src/Admin/Tables/Shape.antt =====
-- The shape of the tables (frontend/src/pages, frontend/src/components).
use icpc_controller.Prelude.{
  ℕ, suc, Bool, true, false, not, List, [], ◌∷◌, ◌++◌, map, ◌≡◌, ◌↔◌, refl, inl, inr, arith, All,
  length, is_empty, Bool-cases, ◌||◌,
}
use icpc_controller.Prelude.Text.{Text, codes}
use icpc_controller.Admin.Commands.{Row}
use icpc_controller.Admin.Fleet.{Device}
use icpc_controller.Admin.Devices.{Machine, Event}
use icpc_controller.Admin.Devices.Table.{Browser, device_cells, device_headings}
use icpc_controller.Admin.Tables.{Cell, IsEven, width, rows_or}
use icpc_controller.Admin.Tables.Runs.{
  Logged, run_grid, run_cells, history_grid, history_cells, has_room, detail_grids, child_cells,
  recent_grid, recent_cells, room_grid, room_cells, only_if,
}
use icpc_controller.Admin.Tables.Work.{
  File, Progress, Schedule, Job, Op, file_grid, file_cells, progress_grid, progress_cells,
  schedule_grid, schedule_cells, job_grid, job_cells, op_grid, op_cells, slice_to,
}
use icpc_controller.Admin.Tables.People.{
  FleetRow, device_grid, event_grid, fleet_grid, fleet_cells, checkin_grid, checkin_cells,
}

map-width :
    {A : Type 0} (row : A → List Cell) (n : ℕ) (xs : List A)
    → ((x : A) → width (row x) ≡ n)
    → All (λ r. width r ≡ n) (map row xs)
map-width row n [] h = tt
map-width row n (x ∷ xs) h = (h x, map-width row n xs h)

-- Rows of one width, and a blank row of the same.
rows_or-width :
    {A : Type 0} (empty : List (List Cell)) (row : A → List Cell) (n : ℕ) (xs : List A)
    → All (λ r. width r ≡ n) empty
    → ((x : A) → width (row x) ≡ n)
    → All (λ r. width r ≡ n) (rows_or empty row xs)
rows_or-width empty row n [] blank_h h = blank_h
rows_or-width empty row n (x ∷ xs) blank_h h = (h x, map-width row n xs h)

detail_grids-IsEven : (children : List Logged) → All IsEven (detail_grids children)
unfolding detail_grids child_cells
detail_grids-IsEven [] = tt
detail_grids-IsEven (child ∷ children) = ((refl, map-width child_cells 3 children (λ x. refl)), tt)

-- Every row of these tables is as wide as the head: those of a run, of a command with children, of
-- the dashboard, of files and progress, of schedules, jobs and snapshots, of a room's devices,
-- their events and their check-ins.
pub grids-IsEven :
    {Number : Type 0} (B : Browser Number) (ago : Text → Text) (size_text : ℕ → Text)
    (runs : List Row) (logged : List Logged) (files : List File) (progresses : List Progress)
    (schedules : List Schedule) (jobs : List Job) (ops : List Op) (machines : List (Machine Number))
    (events : List Event) (devices : List Device)
    → IsEven (run_grid runs)
      × All IsEven (detail_grids logged)
      × IsEven (recent_grid ago logged)
      × IsEven (room_grid ago logged)
      × IsEven (file_grid size_text files)
      × IsEven (progress_grid progresses)
      × IsEven (schedule_grid schedules)
      × IsEven (job_grid jobs)
      × IsEven (op_grid ops)
      × IsEven (device_grid B machines)
      × IsEven (event_grid events)
      × IsEven (checkin_grid devices)
unfolding run_grid run_cells recent_grid recent_cells room_grid room_cells file_grid file_cells
    progress_grid progress_cells schedule_grid schedule_cells job_grid job_cells op_grid op_cells
    device_grid device_cells device_headings event_grid checkin_grid checkin_cells
grids-IsEven B ago size_text runs logged files progresses schedules jobs ops machines events
      devices =
    (
      rows_or-width _ run_cells 4 runs (refl, tt) (λ x. refl),
      detail_grids-IsEven logged,
      rows_or-width _ (recent_cells ago) 4 logged (refl, tt) (λ x. refl),
      rows_or-width _ (room_cells ago) 4 logged (refl, tt) (λ x. refl),
      rows_or-width _ (file_cells size_text) 4 files (refl, tt) (λ x. refl),
      rows_or-width _ progress_cells 4 progresses (refl, tt) (λ x. refl),
      map-width schedule_cells 5 schedules (λ x. refl),
      rows_or-width _ job_cells 5 (slice_to 30 jobs) (refl, tt) (λ x. refl),
      rows_or-width _ op_cells 4 ops (refl, tt) (λ x. refl),
      rows_or-width _ _ 6 machines (refl, tt) (λ x. refl),
      rows_or-width _ _ 3 events (refl, tt) (λ x. refl),
      rows_or-width _ checkin_cells 6 devices (refl, tt) (λ x. refl),
    )

history_cells-width :
    (rooms : Bool) (item : Logged)
    → width (history_cells rooms item)
      ≡ suc (
          length (
            only_if rooms (codes "机房") ++ (codes "目标" ∷ codes "命令" ∷ codes "状态" ∷ codes "耗时" ∷ [])))
unfolding history_cells
history_cells-width true item = refl
history_cells-width false item = refl

history_grid_iff :
    (history : List Logged) → IsEven (history_grid history) ↔ (is_empty history ≡ false)
unfolding history_grid
history_grid_iff [] = (λ h. absurd (ground (arith, h.0)), λ h. absurd (ground arith))
history_grid_iff (item ∷ rest) = (
  λ h. refl,
  λ h.
      map-width (history_cells (has_room (item ∷ rest))) _ (item ∷ rest)
        (λ x. history_cells-width (has_room (item ∷ rest)) x),
)

fleet_cells-width :
    (managed : Bool) (row : FleetRow)
    → width (fleet_cells managed row)
      ≡ suc (suc (suc (suc (suc (length (only_if {A = Text} managed []))))))
unfolding fleet_cells
fleet_cells-width true row = elim (Bool-cases row.device.device.connected) [
  | inl up ↦ rw up refl
  | inr down ↦ rw down refl
]
fleet_cells-width false row = elim (Bool-cases row.device.device.connected) [
  | inl up ↦ rw up refl
  | inr down ↦ rw down refl
]

fleet_grid_iff :
    (managed : Bool) (shown : List FleetRow)
    → IsEven (fleet_grid managed shown) ↔ ((managed || not (is_empty shown)) ≡ true)
unfolding fleet_grid
fleet_grid_iff true [] = (λ h. refl, λ h. (refl, tt))
fleet_grid_iff false [] = (λ h. absurd (ground (arith, h.0)), λ h. absurd (ground arith))
fleet_grid_iff true (row ∷ rows) =
    (λ h. refl, λ h. map-width (fleet_cells true) _ (row ∷ rows) (fleet_cells-width true))
fleet_grid_iff false (row ∷ rows) =
    (λ h. refl, λ h. map-width (fleet_cells false) _ (row ∷ rows) (fleet_cells-width false))

-- The history is even exactly if it has an entry: without one its blank row is for six columns, and
-- there are five, since no entry names a room. The table of the fleet is even exactly if it has the
-- column for entering a room or shows a device.
pub grids_iff :
    (history : List Logged) (managed : Bool) (shown : List FleetRow)
    → (IsEven (history_grid history) ↔ (is_empty history ≡ false))
      × (IsEven (fleet_grid managed shown) ↔ ((managed || not (is_empty shown)) ≡ true))
grids_iff history managed shown = (history_grid_iff history, fleet_grid_iff managed shown)
