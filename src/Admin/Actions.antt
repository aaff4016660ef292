-- ===== src/Admin/Actions.antt =====
-- The guarded actions of the network, power and distribution pages
-- (frontend/src/pages/network.tsx, power.tsx, distribute.tsx): which requests an action makes.
pub mod Aimed
use icpc_controller.Prelude.{
  ℕ, String, Bool, true, false, Option, none, some, List, [], ◌∷◌, ◌++◌, map, if◌then◌else◌, keep,
  is_empty, not,
}
use icpc_controller.Prelude.Text.{Text, codes}
use icpc_controller.Admin.Fleet.{Device}
use icpc_controller.Admin.Commands.{Mode, Target, is_online, online_ids, trim}

pub record Rule : Type 0 where
  pub kind : Text
  pub value : Text

-- What the pages share: the state of the application and of the picker of targets.
pub record Choice : Type 0 where
  pub cloud_all : Bool
  pub fleet : List Text
  pub devices : List Device
  pub mode : Mode
  pub picked : List ℕ

pub data Request : Type 0 where
  put_rules : List Rule → Request
  -- `queueFleet` of the fleet, with the rules among its extra fields
  queue : List Text → Text → Option (List Rule) → Request
  -- a path and the targets of the body
  post : Text → Target → Request

-- `save`: the rules with trimmed values, without the blank ones.
unfoldable pub clean : List Rule → List Rule
clean rules =
    keep (λ r. not (is_empty r.value))
      (map (λ r. record { kind = r.kind; value = trim r.value }) rules)

pub data Kind : Type 0 where
  apply remove : Kind

abbrev pub saving : Kind → List Rule → List Request
saving Kind.apply rules = Request.put_rules (clean rules) ∷ []
saving Kind.remove rules = []

abbrev pub queue_kind : Kind → List Text → List Rule → Request
queue_kind Kind.apply fleet rules = Request.queue fleet (codes "network_apply") (some rules)
queue_kind Kind.remove fleet rules = Request.queue fleet (codes "network_remove") none

abbrev pub kind_path : Kind → Text
kind_path Kind.apply = codes "/api/network/apply"
kind_path Kind.remove = codes "/api/network/remove"

unfoldable pub act_ids : Choice → List ℕ
act_ids c = if is_online c.mode then online_ids c.devices else c.picked

-- `act` of the network page, with the user's answer, where no request fails.
unfoldable pub act : Kind → List Rule → Choice → Bool → List Request
act kind rules c confirmed =
    if c.cloud_all
    then if is_empty c.fleet
      then []
      else saving kind rules ++ (if confirmed then queue_kind kind c.fleet rules ∷ [] else [])
    else if is_empty (act_ids c)
    then []
    else saving kind rules
      ++ Request.post (kind_path kind)
          (if is_online c.mode then Target.broadcast else Target.target_list (act_ids c))
        ∷ []

-- `broadcast` also stands for the target type `all`, and for the empty list by which a
-- distribution is for all.
abbrev pub mode_target : Choice → Target
mode_target c = if is_online c.mode then Target.broadcast else Target.target_list c.picked

abbrev pub nobody_picked : Choice → Bool
nobody_picked c = if is_online c.mode then false else is_empty c.picked

-- `wake` of the power page.
unfoldable pub wake : Choice → List Request
wake c =
    if c.cloud_all
    then (if is_empty c.fleet then [] else Request.queue c.fleet (codes "wol") none ∷ [])
    else if nobody_picked c
    then []
    else Request.post (codes "/api/power/wol") (mode_target c) ∷ []

-- `powerCommand`, with the user's answer.
unfoldable pub power_command : Choice → Bool → List Request
power_command c confirmed =
    if c.cloud_all
    then if is_empty c.fleet
      then []
      else if confirmed
      then Request.queue c.fleet (codes "command") none ∷ []
      else []
    else if confirmed
    then Request.post (codes "/api/commands") (mode_target c) ∷ []
    else []

-- The button that makes a schedule, with the time that it is for.
unfoldable pub schedule : Text → Choice → List Request
schedule run_at c =
    if is_empty run_at
    then []
    else if c.cloud_all
    then (if is_empty c.fleet then [] else Request.queue c.fleet (codes "schedule") none ∷ [])
    else if nobody_picked c
    then []
    else Request.post (codes "/api/power/schedules") (mode_target c) ∷ []

-- The button that starts a distribution of the picked files, with the user's answer.
unfoldable pub start_distribution : List Text → Choice → Bool → List Request
start_distribution files c confirmed =
    if is_empty files
    then []
    else if c.cloud_all
    then if is_empty c.fleet
      then []
      else if confirmed
      then Request.queue c.fleet (codes "distribute") none ∷ []
      else []
    else if nobody_picked c
    then []
    else Request.post (codes "/api/distribution/start") (mode_target c) ∷ []

-- The button of `CloudCommands` for the devices of the selection, with the user's answer; it is
-- shown in the view of all rooms only.
unfoldable pub cloud_command : Text → Choice → Bool → List Request
cloud_command command c confirmed =
    if is_empty (trim command)
    then []
    else if is_empty c.fleet
    then []
    else if confirmed
    then Request.queue c.fleet (codes "command") none ∷ []
    else []
