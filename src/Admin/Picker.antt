-- ===== src/Admin/Picker.antt =====
-- The picker of targets (`TargetPicker` of frontend/src/components/targets.tsx) on the pages that
-- use it (frontend/src/pages/network.tsx, distribute.tsx, power.tsx, commands.tsx).
pub mod Distinct
use icpc_controller.Prelude.{ℕ, Bool, true, false, List, [], ◌∷◌, map, keep, any, ◌≡◌, ◌==◌}
use icpc_controller.Admin.Fleet.{Device}
use icpc_controller.Admin.Commands.{toggle_picked}

-- `matches` is the search: whether a device is found by the text of the picker, as
-- Admin.Search.Rows has it.
unfoldable pub found : (Device → Bool) → List Device → List Device
found matches devices = keep matches devices

-- The buttons that set the selection: what is found and connected, and what is found.
unfoldable pub set_online : (Device → Bool) → List Device → List ℕ
set_online matches devices =
    map (λ d. d.assigned_id) (keep (λ d. d.connected) (found matches devices))

unfoldable pub set_found : (Device → Bool) → List Device → List ℕ
set_found matches devices = map (λ d. d.assigned_id) (found matches devices)

abbrev pub IsDistinct : List ℕ → Type 0
IsDistinct [] = Unit
IsDistinct (id ∷ ids) = (any (λ x. id == x) ids ≡ false) × IsDistinct ids

abbrev pub ids_of : List Device → List ℕ
ids_of devices = map (λ d. d.assigned_id) devices

-- The events of the picker, on the numbers that are picked; the devices and the search may change
-- in between, but no list of devices has a number twice.
pub data Step (picked : List ℕ) : List ℕ → Type 0 where
  toggled : (id : ℕ) → Step picked (toggle_picked id picked)
  online_set :
      (matches : Device → Bool) (devices : List Device)
      → IsDistinct (ids_of devices)
      → Step picked (set_online matches devices)
  found_set :
      (matches : Device → Bool) (devices : List Device)
      → IsDistinct (ids_of devices)
      → Step picked (set_found matches devices)
  cleared : Step picked []

pub data Reach : List ℕ → Type 0 where
  begun : Reach []
  further : {s t : List ℕ} → Reach s → Step s t → Reach t
