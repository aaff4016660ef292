-- ===== src/Admin/Distribution.antt =====
-- The library of files and the progress of a distribution (frontend/src/pages/distribute.tsx); the
-- start of a distribution is with the actions of the other pages (Admin.Actions).
pub mod Polling
use icpc_controller.Prelude.{
  ℕ, suc, ◌<◌, ◌-◌, ◌+◌, Bool, true, false, not, ◌&&◌, ◌||◌, Option, none, some, List, [], ◌∷◌,
  ◌++◌, ◌≡◌, if◌then◌else◌, is_empty, keep,
}
use icpc_controller.Prelude.Text.{Text, codes}
use icpc_controller.Prelude.Sets.{text_eq, includes}

-- `has_files` says that the task names its files.
pub record Task : Type 0 where
  pub status : Text
  pub suggested_ip : Text
  pub has_files : Bool

-- The requests of the buttons beside those for the files and the task; a repeat is for a device, or
-- for all that are not done as device 0.
pub data Request : Type 0 where
  upload_file : Text → Request
  stop_task : Request
  retry_device : ℕ → Request

-- The state of the page; `progress` is the text of the upload, `sent` are the requests above,
-- `loads` counts the requests for the task that have no answer yet, and `watched_status`,
-- `watched_room` and `live` are the effect that polls: what it depended on when it last ran, and
-- whether its interval is there.
pub record Distribution : Type 0 where
  pub cloud_all : Bool
  pub room_id : Text
  pub files : List Text
  pub picked_files : List Text
  pub task : Option Task
  pub server_ip : Text
  pub deleted : List (List Text)
  pub loads : ℕ
  pub progress : Text
  pub sent : List Request
  pub watched_status : Option Text
  pub watched_room : Text
  pub live : Bool

-- task?.status
abbrev pub status_of : Option Task → Option Text
status_of none = none
status_of (some t) = some t.status

abbrev pub is_running : Option Text → Bool
is_running none = false
is_running (some status) = text_eq status (codes "running")

abbrev pub same_status : Option Text → Option Text → Bool
same_status none none = true
same_status none (some b) = false
same_status (some a) none = false
same_status (some a) (some b) = text_eq a b

-- The effect that polls, behind each rendering: where what it depends on has changed, its
-- interval goes, and another one comes for a task that runs.
unfoldable pub watch : Distribution → Distribution
watch s =
    if same_status (status_of s.task) s.watched_status && text_eq s.room_id s.watched_room
    then s
    else record s {
      watched_status = status_of s.task;
      watched_room = s.room_id;
      live = is_running (status_of s.task);
    }

-- `loadTask`, up to its request.
unfoldable pub load_task : Distribution → Distribution
load_task s = if s.cloud_all then s else record s { loads = suc s.loads }

-- next?.suggested_ip && !serverIP, where `seen` is the address of the rendering that asked.
abbrev pub next_ip : Option Task → Text → Text → Text
next_ip none seen ip = ip
next_ip (some t) seen ip =
    if not (is_empty t.suggested_ip) && is_empty seen then t.suggested_ip else ip

-- `loadTask`, from its answer on.
unfoldable pub on_task : Text → Option Task → Distribution → Distribution
on_task seen next s =
    watch (record s { task = next; server_ip = next_ip next seen s.server_ip; loads = s.loads - 1 })

-- The page for another room, or for all: the effects run again.
unfoldable pub change_room : Text → Bool → Distribution → Distribution
change_room room all s = watch (load_task (record s { room_id = room; cloud_all = all }))

unfoldable pub toggle_file : Text → Distribution → Distribution
toggle_file name s = record s {
  picked_files =
      if includes name s.picked_files
      then keep (λ item. not (text_eq item name)) s.picked_files
      else s.picked_files ++ name ∷ [];
}

-- The button that deletes the picked files, with the user's answer, up to its request; the
-- answer empties the picked files (`none_picked`).
unfoldable pub delete_files : Bool → Distribution → Distribution
delete_files confirmed s =
    if is_empty s.picked_files || not confirmed
    then s
    else record s { deleted = s.deleted ++ s.picked_files ∷ [] }

-- The statuses of a task whose progress is shown.
unfoldable pub shown_statuses : List Text
shown_statuses = codes "running" ∷ codes "completed" ∷ codes "stopped" ∷ codes "failed" ∷ []

-- `running`: whether the progress is shown, in place of the form that starts a distribution.
abbrev pub task_shown : Option Task → Bool
task_shown none = false
task_shown (some t) = includes t.status shown_statuses && t.has_files

-- The button that goes back to the form.
unfoldable pub back : Distribution → Distribution
back s = watch (record s { task = none })

abbrev pub send_off : Request → Distribution → Distribution
send_off request s = record s { sent = s.sent ++ request ∷ [] }

-- `upload`, up to its request, and its answer, behind which the files are asked for.
unfoldable pub upload : Text → Distribution → Distribution
upload name s = send_off (Request.upload_file name) (record s { progress = codes "正在上传 " ++ name })

unfoldable pub on_upload : Distribution → Distribution
on_upload s = record s { progress = codes "上传完成" }

-- The button that stops a task that runs, up to its request, and those that repeat it: for all that
-- are not done, and for one device that failed.
unfoldable pub stop : Distribution → Distribution
stop s = if is_running (status_of s.task) then send_off Request.stop_task s else s

unfoldable pub retry : ℕ → Distribution → Distribution
retry device s = send_off (Request.retry_device device) s

-- The events of the page for one room or for all; `asked` is a button that ends in `loadTask`.
pub data Move (s : Distribution) : Distribution → Type 0 where
  answered : (seen : Text) (next : Option Task) → 0 < s.loads → Move s (on_task seen next s)
  ticked : s.live ≡ true → Move s (load_task s)
  asked : Move s (load_task s)
  went_back : is_running (status_of s.task) ≡ false → Move s (back s)
  listed : (files : List Text) → Move s (record s { files = files })
  file_toggled : (name : Text) → Move s (toggle_file name s)
  all_picked : Move s (record s { picked_files = s.files })
  none_picked : Move s (record s { picked_files = [] })
  files_deleted : (confirmed : Bool) → Move s (delete_files confirmed s)
  ip_typed : (ip : Text) → Move s (record s { server_ip = ip })
  upload_begun : (name : Text) → Move s (upload name s)
  upload_done : Move s (on_upload s)
  task_stopped : Move s (stop s)
  retried : (device : ℕ) → Move s (retry device s)

-- The first rendering: its effects ask for the task.
unfoldable pub first_state : Text → Bool → Distribution
first_state room all = load_task record {
  cloud_all = all;
  room_id = room;
  files = [];
  picked_files = [];
  task = none;
  server_ip = [];
  deleted = [];
  loads = 0;
  progress = [];
  sent = [];
  watched_status = none;
  watched_room = room;
  live = false;
}

-- Runs for one room or for all, and runs with changes between them.
pub data Stay (s : Distribution) : Distribution → Type 0 where
  stay : Stay s s
  moved_on : {t u : Distribution} → Stay s t → Move t u → Stay s u

pub data Reach : Distribution → Type 0 where
  begun : (room : Text) (all : Bool) → Reach (first_state room all)
  changed : {s : Distribution} (room : Text) (all : Bool) → Reach s → Reach (change_room room all s)
  moved : {s t : Distribution} → Reach s → Move s t → Reach t
