-- ===== src/Admin/Checkin.antt =====
-- The page of check-ins of a room and the export of all rooms (frontend/src/pages/checkin.tsx).
pub mod Forms
pub mod Quoting
use icpc_controller.Prelude.{
  ℕ, ◌+◌, Bool, true, false, not, ◌||◌, Option, none, some, List, [], ◌∷◌, ◌++◌, map, ◌≡◌, ◌==◌,
  if◌then◌else◌, is_empty, any,
}
use icpc_controller.Prelude.Text.{Text, codes, show}
use icpc_controller.Admin.Fleet.{Device, Room}
use icpc_controller.Admin.Labels.{checkin_label}
use icpc_controller.Admin.Commands.{trim}
use icpc_controller.Admin.Export.{join}

pub data Action : Type 0 where
  check_in check_out restore swap reset : Action

-- The buttons of a row.
unfoldable pub actions : ℕ → List Action
actions status =
    (if status == 1 then Action.check_out ∷ [] else Action.check_in ∷ [])
    ++ ((if status == 2 then Action.restore ∷ [] else [])
        ++ (Action.swap ∷ (if status == 0 then [] else Action.reset ∷ [])))

-- `number` of the target of a swap is JavaScript's number of the text; none is 0 or not a number.
pub data Request : Type 0 where
  post_checkin : ℕ → Text → Text → Request
  post_swap : ℕ → ℕ → Request
  post_action : Action → ℕ → Request
  post_reset_all : Request

-- The state of the page, its requests, and how many refusals it has shown.
pub record Page : Type 0 where
  pub form : Option ℕ
  pub name : Text
  pub num : Text
  pub swap_from : Option ℕ
  pub swap_to : Text
  pub requests : List Request
  pub refusals : ℕ

abbrev pub request : Request → Page → Page
request r s = record s { requests = s.requests ++ r ∷ [] }

abbrev pub refuse : Page → Page
refuse s = record s { refusals = s.refusals + 1 }

-- The button for a check-in opens the form with what is known of the device.
unfoldable pub open_form : Device → Page → Page
open_form d s = record s { form = some d.assigned_id; name = d.student_name; num = d.student_num }

-- The button of the form for device `id`, up to its request; the answer closes the form, as the
-- user may (`form_closed`, and `swap_closed` for the other form).
unfoldable pub submit_form : ℕ → Page → Page
submit_form id s =
    if is_empty (trim s.name) || is_empty (trim s.num)
    then refuse s
    else request (Request.post_checkin id (trim s.name) (trim s.num)) s

unfoldable pub open_swap : ℕ → Page → Page
open_swap id s = record s { swap_from = some id; swap_to = [] }

unfoldable pub submit_swap : (Text → Option ℕ) → ℕ → Page → Page
submit_swap number id s = elim (number s.swap_to) as (λ x. Page) [
  | none ↦ refuse s
  | some to ↦ request (Request.post_swap id to) s
]

-- The button for all, with the user's answer.
unfoldable pub reset_all : Bool → Page → Page
reset_all confirmed s = if confirmed then request Request.post_reset_all s else s

-- The buttons of a row for the actions that need no form; the one that checks out asks first.
unfoldable pub row_action : Action → Bool → ℕ → Page → Page
row_action Action.check_out confirmed id s =
    if confirmed then request (Request.post_action Action.check_out id) s else s
row_action Action.restore confirmed id s = request (Request.post_action Action.restore id) s
row_action Action.reset confirmed id s = request (Request.post_action Action.reset id) s
row_action Action.check_in confirmed id s = s
row_action Action.swap confirmed id s = s

abbrev pub is_action : Action → Action → Bool
is_action Action.check_in Action.check_in = true
is_action Action.check_out Action.check_out = true
is_action Action.restore Action.restore = true
is_action Action.swap Action.swap = true
is_action Action.reset Action.reset = true
is_action a b = false

abbrev pub offered : Action → Device → Bool
offered a d = any (is_action a) (actions d.checkin_status)

-- The events of the page; a device is one of a row, with a button that is offered.
pub data Step (number : Text → Option ℕ) (s : Page) : Page → Type 0 where
  opened : (d : Device) → offered Action.check_in d ≡ true → Step number s (open_form d s)
  named : (text : Text) → Step number s (record s { name = text })
  numbered : (text : Text) → Step number s (record s { num = text })
  submitted : {id : ℕ} → s.form ≡ some id → Step number s (submit_form id s)
  form_closed : Step number s (record s { form = none })
  swap_opened : (d : Device) → Step number s (open_swap d.assigned_id s)
  swap_typed : (text : Text) → Step number s (record s { swap_to = text })
  swapped : {id : ℕ} → s.swap_from ≡ some id → Step number s (submit_swap number id s)
  swap_closed : Step number s (record s { swap_from = none })
  acted :
      (a : Action) (confirmed : Bool) (d : Device)
      → offered a d ≡ true
      → Step number s (row_action a confirmed d.assigned_id s)
  all_reset : (confirmed : Bool) → Step number s (reset_all confirmed s)

abbrev pub first_page : Page
first_page = record {
  form = none;
  name = [];
  num = [];
  swap_from = none;
  swap_to = [];
  requests = [];
  refusals = 0;
}

pub data Reach (number : Text → Option ℕ) : Page → Type 0 where
  start : Reach number first_page
  further : {s t : Page} → Reach number s → Step number s t → Reach number t

unfoldable pub checkin_headings : List Text
checkin_headings = codes "机房" ∷ codes "编号" ∷ codes "选手" ∷ codes "学号" ∷ codes "状态" ∷ []

unfoldable pub checkin_row : Room → Device → List Text
checkin_row room d =
    room.name
    ∷ show d.assigned_id
    ∷ d.student_name
    ∷ d.student_num
    ∷ checkin_label d.checkin_status
    ∷ []

unfoldable pub checkin_rows : List Room → List (List Text)
checkin_rows [] = []
checkin_rows (room ∷ rooms) = map (checkin_row room) room.devices ++ checkin_rows rooms

-- `"${value}"`, without doubling the quotes within it.
unfoldable pub plain_cell : Text → Text
plain_cell value = 34 ∷ (value ++ 34 ∷ [])

unfoldable pub plain_line : List Text → Text
plain_line row = join (44 ∷ []) (map plain_cell row)

unfoldable pub export_checkin : List Room → Text
export_checkin rooms =
    65279 ∷ join (13 ∷ 10 ∷ []) (map plain_line (checkin_headings ∷ checkin_rows rooms))
