-- ===== src/Admin/Commands.antt =====
-- The commands page of a room (`RoomCommands` of frontend/src/pages/commands.tsx): its targets,
-- its requests and the rows of the current run.
pub mod Steps
pub mod Rows
pub mod Sorted
pub mod Runs
use icpc_controller.Prelude.{
  ℕ, suc, ◌+◌, String, Bool, true, false, not, ◌&&◌, ◌||◌, Option, none, some, List, [], ◌∷◌, ◌++◌,
  map, ◌==◌, leb, if◌then◌else◌, keep, length, is_empty, any,
}
use icpc_controller.Prelude.Text.{or_text, Text, codes, show}
use icpc_controller.Prelude.Sets.{text_eq, includes}
use icpc_controller.Prelude.Maps.{lookup, set}
use icpc_controller.Admin.Fleet.{Device}

pub record Row : Type 0 where
  pub device_id : ℕ
  pub command_id : ℕ
  pub status : Text
  pub output : Text
  pub duration : ℕ

pub data Mode : Type 0 where
  online picked : Mode

pub data Target : Type 0 where
  broadcast : Target
  target_list : List ℕ → Target

pub data Request : Type 0 where
  get_history : Request
  post_command : Target → Text → Request

-- Messages to the user: refusals and errors are bad.
pub data Toast : Type 0 where
  bad ok : Text → Toast

-- The state of the page; requests and toasts are kept in the order in which they are made.
pub record Panel : Type 0 where
  pub devices : List Device
  pub command : Text
  pub mode : Mode
  pub picked : List ℕ
  pub rows : List (ℕ × Row)
  pub known : List (ℕ × ℕ)
  pub active : Option ℕ
  pub busy : Bool
  pub requests : List Request
  pub toasts : List Toast

pub data EventKind : Type 0 where
  command_output command_result other : EventKind

-- The fields of an event's data; a missing number is 0 and a missing text is empty.
pub record AdminEvent : Type 0 where
  pub kind : EventKind
  pub command_id : ℕ
  pub device_id : ℕ
  pub line : Text
  pub status : Text
  pub error_output : Text
  pub duration_ms : ℕ

unfoldable pub current_row : AdminEvent → Panel → Row
current_row e s = elim (lookup e.device_id s.rows) [
  | none ↦ record {
    device_id = e.device_id;
    command_id = e.command_id;
    status = codes "running";
    output = [];
    duration = 0;
  }
  | some row ↦ row
]

unfoldable pub put_row : AdminEvent → Row → Panel → Panel
put_row e row s = record s { rows = set e.device_id row s.rows }

abbrev pub load_history : Panel → Panel
load_history s = record s { requests = s.requests ++ Request.get_history ∷ [] }

unfoldable pub output_row : AdminEvent → Row → Row
output_row e row = record row {
  output = row.output ++ (e.line ++ 10 ∷ []);
  status = if text_eq row.status (codes "dispatched") then codes "running" else row.status;
}

abbrev pub error_lines : Text → Text
error_lines [] = []
error_lines (c ∷ cs) = (c ∷ cs) ++ 10 ∷ []

unfoldable pub result_row : AdminEvent → Row → Row
result_row e row = record row {
  status = or_text e.status (codes "completed");
  output = row.output ++ error_lines e.error_output;
  duration = e.duration_ms;
}

unfoldable pub is_known : ℕ → Panel → Bool
is_known id s =
    not (id == 0) && elim (lookup id s.known) as (λ x. Bool) [ none ↦ false | some d ↦ true ]

abbrev pub on_kind : EventKind → AdminEvent → Panel → Panel
on_kind EventKind.command_output e s = put_row e (output_row e (current_row e s)) s
on_kind EventKind.command_result e s = load_history (put_row e (result_row e (current_row e s)) s)
on_kind EventKind.other e s = s

unfoldable pub on_admin : AdminEvent → Panel → Panel
on_admin e s = if is_known e.command_id s then on_kind e.kind e s else s

-- White space and line ends, as `trim` takes them off.
unfoldable pub is_space : ℕ → Bool
is_space c =
    (leb 9 c && leb c 13)
    || (c == 32)
    || (c == 160)
    || (c == 5760)
    || (leb 8192 c && leb c 8202)
    || (c == 8232)
    || (c == 8233)
    || (c == 8239)
    || (c == 8287)
    || (c == 12288)
    || (c == 65279)

unfoldable pub trim_start : Text → Text
trim_start [] = []
trim_start (c ∷ cs) = let rest = trim_start cs in if is_space c then rest else c ∷ cs

unfoldable pub trim_end : Text → Text
trim_end [] = []
trim_end (c ∷ cs) = let rest = trim_end cs in if is_empty rest && is_space c then [] else c ∷ rest

abbrev pub trim : Text → Text
trim t = trim_end (trim_start t)

-- devices.filter((device) => device.connected).map((device) => device.assigned_id)
unfoldable pub online_ids : List Device → List ℕ
online_ids ds = map (λ d. d.assigned_id) (keep (λ d. d.connected) ds)

abbrev pub is_online : Mode → Bool
is_online Mode.online = true
is_online Mode.picked = false

-- The devices that a run is for; `ids` are those of a repeated run.
unfoldable pub run_targets : Option (List ℕ) → Panel → List ℕ
run_targets (some ids) s = ids
run_targets none s = if is_online s.mode then online_ids s.devices else s.picked

unfoldable pub run_target : Option (List ℕ) → Panel → Target
run_target (some ids) s = Target.target_list ids
run_target none s =
    if is_online s.mode then Target.broadcast else Target.target_list (run_targets none s)

abbrev pub add_toast : Toast → Panel → Panel
add_toast t s = record s { toasts = s.toasts ++ t ∷ [] }

-- `run` up to its request: the checks of the command and of the targets.
unfoldable pub run : Option (List ℕ) → Panel → Panel
run ids s =
    let text = trim s.command in
    if is_empty text
    then add_toast (Toast.bad (codes "请输入命令")) s
    else if is_empty (run_targets ids s)
    then add_toast (Toast.bad (if is_online s.mode then codes "没有在线设备" else codes "请先指定设备")) s
    else record s {
      busy = true;
      requests = s.requests ++ Request.post_command (run_target ids s) text ∷ [];
    }

-- A command of the answer; none is a missing target.
pub record Child : Type 0 where
  pub id : ℕ
  pub target_id : Option ℕ
  pub status : Text
  pub error_output : Text

abbrev pub child_row : Child → ℕ → Row
child_row c d = record {
  device_id = d;
  command_id = c.id;
  status = c.status;
  output = c.error_output;
  duration = 0;
}

-- `nextRows` and `nextKnown`, behind those of the children before.
unfoldable pub next_rows : List Child → List (ℕ × Row) → List (ℕ × Row)
next_rows [] rows = rows
next_rows (c ∷ cs) rows = elim c.target_id as (λ x. List (ℕ × Row)) [
  | none ↦ next_rows cs rows
  | some d ↦ next_rows cs (set d (child_row c d) rows)
]

unfoldable pub next_known : List Child → List (ℕ × ℕ) → List (ℕ × ℕ)
next_known [] known = known
next_known (c ∷ cs) known = elim c.target_id as (λ x. List (ℕ × ℕ)) [
  | none ↦ next_known cs known
  | some d ↦ next_known cs (set c.id d known)
]

abbrev pub or_number : ℕ → ℕ → ℕ
or_number a b = if a == 0 then b else a

abbrev pub sent_text : ℕ → Text
sent_text n = codes "已一次派发到 " ++ (show n ++ codes " 台")

-- The rest of `run`, on the answer with its children; `count` is the number of the targets.
unfoldable pub on_created : List Child → ℕ → Panel → Panel
on_created children count s =
    let t = record s {
      rows = next_rows children [];
      known = next_known children [];
      active = none;
      busy = false;
    } in
    load_history (add_toast (Toast.ok (sent_text (or_number (length children) count))) t)

-- The rest of `run`, on an error.
unfoldable pub on_run_error : Text → Panel → Panel
on_run_error message s = add_toast (Toast.bad message) (record s { busy = false })

-- Object.values(rows).sort((a, b) => a.deviceID - b.deviceID)
unfoldable pub insert_row : Row → List Row → List Row
insert_row r [] = r ∷ []
insert_row r (x ∷ xs) =
    let rest = insert_row r xs in if leb r.device_id x.device_id then r ∷ x ∷ xs else x ∷ rest

unfoldable pub sort_rows : List Row → List Row
sort_rows [] = []
sort_rows (r ∷ rs) = insert_row r (sort_rows rs)

abbrev pub row_list : Panel → List Row
row_list s = sort_rows (map (λ p. p.1) s.rows)

abbrev pub is_failed : Row → Bool
is_failed r = text_eq r.status (codes "failed") || text_eq r.status (codes "timeout")

abbrev pub is_done : Row → Bool
is_done r =
    text_eq r.status (codes "completed")
    || text_eq r.status (codes "failed")
    || text_eq r.status (codes "timeout")

unfoldable pub failed : Panel → List ℕ
failed s = map (λ r. r.device_id) (keep is_failed (row_list s))

unfoldable pub done : Panel → ℕ
done s = length (keep is_done (row_list s))

-- The targets that the picker toggles, and the row that a click opens or closes.
unfoldable pub toggle_picked : ℕ → List ℕ → List ℕ
toggle_picked id list =
    if any (λ x. id == x) list then keep (λ x. not (x == id)) list else list ++ id ∷ []

unfoldable pub click_row : ℕ → Panel → Panel
click_row d s = record s {
  active = elim s.active as (λ x. Option ℕ) [
    | none ↦ some d
    | some a ↦ if a == d then none else some d
  ];
}
