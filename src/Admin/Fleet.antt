-- ===== src/Admin/Fleet.antt =====
-- The selection of devices across rooms: `useFleetDevices`, `FleetTable` and `queueFleet`
-- (frontend/src/components/fleet.tsx), the fleet of `AppProvider` (frontend/src/state.tsx) and
-- `deviceKey` (frontend/src/lib/utils.ts).
pub mod Selection
pub mod Queue
use icpc_controller.Prelude.{
  ℕ, zero, suc, ◌+◌, Bool, true, false, not, ◌&&◌, ◌||◌, Option, none, some, List, [], ◌∷◌, ◌++◌,
  map, ◌==◌, if◌then◌else◌, keep,
}
use icpc_controller.Prelude.Text.{Text, show}
use icpc_controller.Prelude.Sets.{text_eq, includes}

-- A missing text is empty.
pub record Device : Type 0 where
  pub assigned_id : ℕ
  pub hostname : Text
  pub student_name : Text
  pub student_num : Text
  pub checkin_status : ℕ
  pub connected : Bool

pub record CommandLog : Type 0 where
  pub id : ℕ
  pub command : Text
  pub status : Text
  pub created_at : Text

pub record Room : Type 0 where
  pub id : Text
  pub name : Text
  pub devices : List Device
  pub total_commands : ℕ
  pub recent_commands : List CommandLog

pub record FleetDevice : Type 0 where
  pub device : Device
  pub room_id : Text
  pub room_name : Text
  pub key : Text

-- room + ":" + id
unfoldable pub device_key : Text → ℕ → Text
device_key room id = room ++ 58 ∷ show id

unfoldable pub fleet_device : Room → Device → FleetDevice
fleet_device room d = record {
  device = d;
  room_id = room.id;
  room_name = room.name;
  key = device_key room.id d.assigned_id;
}

unfoldable pub fleet_devices : List Room → List FleetDevice
fleet_devices [] = []
fleet_devices (room ∷ rooms) = map (fleet_device room) room.devices ++ fleet_devices rooms

-- a ?? b
abbrev pub or_else : Option Bool → Bool → Bool
or_else none b = b
or_else (some a) b = a

-- The selection is a list of keys; an omitted second argument of `toggleFleet` is none.
unfoldable pub toggle_fleet : Text → Option Bool → List Text → List Text
toggle_fleet key on list =
    let has = includes key list in
    let next = or_else on (not has) in
    if next && not has
    then list ++ key ∷ []
    else if not next && has
    then keep (λ item. not (text_eq item key)) list
    else list

-- Array.from(new Set(keys)), behind the keys that the set holds.
unfoldable pub add_all : List Text → List Text → List Text
add_all set [] = set
add_all set (k ∷ keys) = add_all (if includes k set then set else set ++ k ∷ []) keys

unfoldable pub select_fleet : List Text → List Text
select_fleet keys = add_all [] keys

-- The buttons above the table; `contains` is the search among the texts of a row, which
-- Admin.Search.Rows has.
unfoldable pub is_shown : Text → (FleetDevice → Bool) → FleetDevice → Bool
is_shown [] contains d = contains d
is_shown (c ∷ cs) contains d = text_eq d.room_id (c ∷ cs) && contains d

unfoldable pub shown : Text → (FleetDevice → Bool) → List Room → List FleetDevice
shown room contains rooms = keep (is_shown room contains) (fleet_devices rooms)

unfoldable pub select_online : Text → (FleetDevice → Bool) → List Room → List Text
select_online room contains rooms =
    select_fleet (map (λ d. d.key) (keep (λ d. d.device.connected) (shown room contains rooms)))

-- key.indexOf(":"); none is -1.
unfoldable pub index_of : ℕ → Text → Option ℕ
index_of c [] = none
index_of c (x ∷ xs) =
    let rest = index_of c xs in
    if x == c then some 0 else elim rest [ none ↦ none | some i ↦ some (suc i) ]

abbrev pub take : ℕ → Text → Text
take zero xs = []
take (suc n) [] = []
take (suc n) (x ∷ xs) = x ∷ take n xs

abbrev pub drop : ℕ → Text → Text
drop zero xs = xs
drop (suc n) [] = []
drop (suc n) (x ∷ xs) = drop n xs

-- text.slice(0, -1)
unfoldable pub drop_last : Text → Text
drop_last [] = []
drop_last (x ∷ []) = []
drop_last (x ∷ y ∷ ys) = x ∷ drop_last (y ∷ ys)

unfoldable pub room_part : Text → Text
room_part key = elim (index_of 58 key) [ none ↦ drop_last key | some i ↦ take i key ]

unfoldable pub id_part : Text → Text
id_part key = elim (index_of 58 key) [ none ↦ key | some i ↦ drop (suc i) key ]

-- `targets`: its rooms in the order in which they are added, each with its device numbers.
-- `number` is JavaScript's `Number` of a text.
module _ {N : Type 0} where
  unfoldable pub add_target : Text → N → List (Text × List N) → List (Text × List N)
  add_target room id [] = (room, id ∷ []) ∷ []
  add_target room id (t ∷ targets) =
      let rest = add_target room id targets in
      if text_eq room t.0 then (t.0, t.1 ++ id ∷ []) ∷ targets else t ∷ rest

  unfoldable pub add_targets : (Text → N) → List (Text × List N) → List Text → List (Text × List N)
  add_targets number targets [] = targets
  add_targets number targets (key ∷ selection) =
      add_targets number (add_target (room_part key) (number (id_part key)) targets) selection

-- The fields `operation`, `room_ids` and `targets` of the request.
pub record JobRequest (N : Type 0) : Type 0 where
  pub operation : Text
  pub room_ids : List Text
  pub targets : List (Text × List N)

unfoldable pub queue_fleet : {N : Type 0} → (Text → N) → List Text → Text → JobRequest N
queue_fleet number selection operation =
    let targets = add_targets number [] selection in
    record { operation = operation; room_ids = map (λ t. t.0) targets; targets = targets }
