-- ===== src/Admin/Snapshots.antt =====
-- The snapshot of operations and its queue (`Snapshots` of frontend/src/components/snapshots.tsx).
pub mod Listed
use icpc_controller.Prelude.{
  ℕ, Bool, true, false, Option, none, some, List, [], ◌∷◌, ◌++◌, ◌≡◌, if◌then◌else◌, is_empty,
}
use icpc_controller.Prelude.Text.{Text, codes}
use icpc_controller.Prelude.Sets.{text_eq}
use icpc_controller.Admin.Asked.{answered, is_asked}
use icpc_controller.Admin.Commands.{trim}
use icpc_controller.Admin.Tables.Work.{Op}

pub record Snap : Type 0 where
  pub id : ℕ
  pub name : Text
  pub created_at : Text
  pub op_count : ℕ

pub data Request : Type 0 where
  get_active : Request
  get_ops : ℕ → Request
  post_snapshot : Text → Request
  end_snapshot : ℕ → Request
  delete_op : ℕ → ℕ → Request

-- The state; `room` is the room that requests go to, and `asked_in` the one that the operations of
-- the active snapshot were asked from. `asked` are the snapshots whose operations are waited for,
-- with the rooms that they were asked from and the earlier ones first; `requests` have the rooms
-- that they went to.
pub record Snapshots : Type 0 where
  pub room : Text
  pub asked_in : Text
  pub active : Option Snap
  pub ops : List Op
  pub name : Text
  pub scope : Text
  pub asked : List (Text × ℕ)
  pub requests : List (Text × Request)
  pub refusals : List Text

abbrev pub ask_for : Request → Snapshots → Snapshots
ask_for request s = record s { requests = s.requests ++ (s.room, request) ∷ [] }

-- `load`, up to its request: behind another page, for an event, and by the buttons.
unfoldable pub load : Snapshots → Snapshots
load s = ask_for Request.get_active s

-- Behind another room, the effect of the page runs before that of AppProvider, where `setApiRoom` is.
unfoldable pub change_room : Text → Snapshots → Snapshots
change_room room s = record (load s) { room = room }

-- Its answer, up to the request for the operations, which goes to the room of the moment.
unfoldable pub on_active : Option Snap → Text → Snapshots → Snapshots
on_active none scope s = record s { active = none; scope = scope; ops = [] }
on_active (some snap) scope s = record s {
  active = some snap;
  scope = scope;
  asked_in = s.room;
  asked = s.asked ++ (s.room, snap.id) ∷ [];
  requests = s.requests ++ (s.room, Request.get_ops snap.id) ∷ [];
}

unfoldable pub on_ops : Text → ℕ → List Op → Snapshots → Snapshots
on_ops from id ops s = record s { ops = ops; asked = answered (from, id) s.asked }

unfoldable pub fail_ops : Text → ℕ → Snapshots → Snapshots
fail_ops from id s = record s { asked = answered (from, id) s.asked }

-- The listener of the page.
unfoldable pub on_event : Text → Snapshots → Snapshots
on_event name s = if text_eq name (codes "snapshot_updated") then load s else s

unfoldable pub type_name : Text → Snapshots → Snapshots
type_name text s = record s { name = text }

-- The button that starts a snapshot, which stands there while none is active, with the user's
-- answer, where the request does not fail.
unfoldable pub enable : Bool → Snapshots → Snapshots
enable confirmed s =
    if is_empty (trim s.name)
    then record s { refusals = s.refusals ++ codes "请填写快照名称" ∷ [] }
    else if confirmed
    then load (record (ask_for (Request.post_snapshot (trim s.name)) s) { name = [] })
    else s

-- The buttons for the active snapshot, with the user's answers.
unfoldable pub finish_snapshot : Bool → Snap → Snapshots → Snapshots
finish_snapshot confirmed snap s =
    if confirmed then load (ask_for (Request.end_snapshot snap.id) s) else s

unfoldable pub remove_op : Bool → Snap → Op → Snapshots → Snapshots
remove_op confirmed snap op s =
    if confirmed then load (ask_for (Request.delete_op snap.id op.id) s) else s

-- The first rendering in a room; `before` is the room that requests go to until then: the same one,
-- or none where the application itself is rendered first.
unfoldable pub first_snapshots : Text → Text → Snapshots
first_snapshots before room = change_room room (record {
  room = before;
  asked_in = before;
  active = none;
  ops = [];
  name = [];
  scope = [];
  asked = [];
  requests = [];
  refusals = [];
})

-- scope === "cloud" ? ... : ...
unfoldable pub scope_text : Text → Text
scope_text scope = if text_eq scope (codes "cloud") then codes "云端队列" else codes "本机房队列"

-- The events of the page. `IsOf` tells whose the operations of an answer are: the server answers
-- each request for the snapshot that it names in the room that it goes to.
module _ (IsOf : Text × ℕ → List Op → Type 0) where
  pub data Step (s : Snapshots) : Snapshots → Type 0 where
    loaded : Step s (load s)
    room_changed : (room : Text) → Step s (change_room room s)
    active_got : (active : Option Snap) (scope : Text) → Step s (on_active active scope s)
    ops_got :
        (from : Text) (id : ℕ) (ops : List Op)
        → is_asked (from, id) s.asked ≡ true
        → IsOf (from, id) ops
        → Step s (on_ops from id ops s)
    ops_failed :
        (from : Text) (id : ℕ) → is_asked (from, id) s.asked ≡ true → Step s (fail_ops from id s)
    notified : (name : Text) → Step s (on_event name s)
    name_typed : (text : Text) → Step s (type_name text s)
    enabled : (confirmed : Bool) → s.active ≡ none → Step s (enable confirmed s)
    finished :
        (confirmed : Bool) (snap : Snap)
        → s.active ≡ some snap
        → Step s (finish_snapshot confirmed snap s)
    op_removed :
        (confirmed : Bool) (snap : Snap) (op : Op)
        → s.active ≡ some snap
        → Step s (remove_op confirmed snap op s)

  pub data Reach : Snapshots → Type 0 where
    start : (before room : Text) → Reach (first_snapshots before room)
    further : {s t : Snapshots} → Reach s → Step s t → Reach t
