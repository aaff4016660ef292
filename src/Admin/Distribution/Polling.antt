-- ===== src/Admin/Distribution/Polling.antt =====
-- When the progress of a distribution is asked for (frontend/src/pages/distribute.tsx).
use icpc_controller.Prelude.{
  Bool, true, false, not, ◌&&◌, ◌||◌, Option, none, some, [], ◌≡◌, refl, sym, ap, ◌∙◌, subst, inl,
  inr, arith, Bool-cases, is_empty,
}
use icpc_controller.Prelude.Text.{Text}
use icpc_controller.Prelude.Sets.{text_eq, text_eq→eq}
use icpc_controller.Admin.Distribution.{
  Task, Distribution, status_of, is_running, same_status, watch, load_task, on_task, change_room,
  toggle_file, delete_files, back, Move, answered, ticked, asked, went_back, listed, file_toggled,
  all_picked, none_picked, files_deleted, ip_typed, upload, on_upload, stop, retry, upload_begun,
  upload_done, task_stopped, retried, first_state, Stay, stay, moved_on, Reach, begun, changed,
  moved,
}

-- The interval is there exactly while the task that is shown runs.
pub record IsPolling (s : Distribution) : Type 0 where
  pub watched : s.watched_status ≡ status_of s.task
  pub polled : s.live ≡ is_running (status_of s.task)

-- What holds between a change of the state and the effect behind its rendering.
abbrev IsWatched : Distribution → Type 0
IsWatched s = s.live ≡ is_running s.watched_status

same_status→eq : (a b : Option Text) → same_status a b ≡ true → a ≡ b
same_status→eq none none h = refl
same_status→eq none (some b) h = cc
same_status→eq (some a) none h = cc
same_status→eq (some a) (some b) h = ap some (text_eq→eq a b h)

watch-IsPolling : (s : Distribution) → IsWatched s → IsPolling (watch s)
unfolding watch
watch-IsPolling s h =
    elim (Bool-cases
      (same_status (status_of s.task) s.watched_status && text_eq s.room_id s.watched_room)) [
        | inl same ↦
            let e : status_of s.task ≡ s.watched_status = same_status→eq _ _ (ground arith) in
            rw same (record { watched = sym e; polled = h ∙ ap is_running (sym e) })
        | inr other ↦ rw other (record { watched = refl; polled = refl })
      ]

IsPolling-IsWatched : {s : Distribution} → IsPolling s → IsWatched s
IsPolling-IsWatched {s} h = h.polled ∙ ap is_running (sym h.watched)

load_task-IsPolling : (s : Distribution) → IsPolling s → IsPolling (load_task s)
unfolding load_task
load_task-IsPolling s h = elim (Bool-cases s.cloud_all) [
  | inl all ↦ simp all h
  | inr one ↦ simp one (record { watched = h.watched; polled = h.polled })
]

delete_files-IsPolling :
    (sure : Bool) (s : Distribution) → IsPolling s → IsPolling (delete_files sure s)
unfolding delete_files
delete_files-IsPolling sure s h = elim (Bool-cases (is_empty s.picked_files || not sure)) [
  | inl none_there ↦ rw none_there h
  | inr some_there ↦ rw some_there (record { watched = h.watched; polled = h.polled })
]

stop-IsPolling : (s : Distribution) → IsPolling s → IsPolling (stop s)
unfolding stop
stop-IsPolling s h = elim (Bool-cases (is_running (status_of s.task))) [
  | inl runs ↦ simp runs (record { watched = h.watched; polled = h.polled })
  | inr ended ↦ simp ended h
]

Move-IsPolling : {s t : Distribution} → Move s t → IsPolling s → IsPolling t
unfolding on_task back toggle_file upload on_upload retry
Move-IsPolling {s} (answered seen next k) h = watch-IsPolling _ (IsPolling-IsWatched h)
Move-IsPolling {s} (ticked k) h = load_task-IsPolling s h
Move-IsPolling {s} asked h = load_task-IsPolling s h
Move-IsPolling {s} (went_back k) h = watch-IsPolling _ (IsPolling-IsWatched h)
Move-IsPolling (listed files) h = record { watched = h.watched; polled = h.polled }
Move-IsPolling (file_toggled name) h = record { watched = h.watched; polled = h.polled }
Move-IsPolling all_picked h = record { watched = h.watched; polled = h.polled }
Move-IsPolling none_picked h = record { watched = h.watched; polled = h.polled }
Move-IsPolling {s} (files_deleted sure) h = delete_files-IsPolling sure s h
Move-IsPolling (ip_typed ip) h = record { watched = h.watched; polled = h.polled }
Move-IsPolling (upload_begun name) h = record { watched = h.watched; polled = h.polled }
Move-IsPolling upload_done h = record { watched = h.watched; polled = h.polled }
Move-IsPolling {s} task_stopped h = stop-IsPolling s h
Move-IsPolling (retried device) h = record { watched = h.watched; polled = h.polled }

-- Over every run of the page, its changes of the room included, the interval that asks for the
-- progress is there exactly while the task that is shown runs.
pub Reach-IsPolling : {s : Distribution} → Reach s → IsPolling s
unfolding first_state change_room
Reach-IsPolling (begun room all) = load_task-IsPolling _ (record { watched = refl; polled = refl })
Reach-IsPolling (changed {s} room all r) =
    let h = Reach-IsPolling r in
    let t : IsPolling (record s { room_id = room; cloud_all = all }) = record {
      watched = h.watched;
      polled = h.polled;
    } in
    watch-IsPolling _ (IsPolling-IsWatched (load_task-IsPolling _ t))
Reach-IsPolling (moved r step) = Move-IsPolling step (Reach-IsPolling r)

-- A running task that is left over in the view of all rooms.
record IsStuck (task : Option Task) (s : Distribution) : Type 0 where
  all : s.cloud_all ≡ true
  unasked : s.loads ≡ 0
  kept : s.task ≡ task

load_task-IsStuck :
    {task : Option Task} (s : Distribution) → IsStuck task s → IsStuck task (load_task s)
unfolding load_task
load_task-IsStuck s h = let all = h.all in simp all h

Move-IsStuck :
    {task : Option Task} {s t : Distribution}
    → is_running (status_of task) ≡ true
    → Move s t
    → IsStuck task s
    → IsStuck task t
unfolding toggle_file delete_files upload on_upload retry stop
Move-IsStuck run (answered seen next k) h = let e = h.unasked in absurd (omega arith)
Move-IsStuck {task} {s} run (ticked k) h = load_task-IsStuck s h
Move-IsStuck {task} {s} run asked h = load_task-IsStuck s h
Move-IsStuck {task} {s} run (went_back k) h =
    let off : is_running (status_of task) ≡ false =
      subst (λ x. is_running (status_of x) ≡ false) h.kept k in
    absurd (ground arith)
Move-IsStuck run (listed files) h = record { all = h.all; unasked = h.unasked; kept = h.kept }
Move-IsStuck run (file_toggled name) h = record { all = h.all; unasked = h.unasked; kept = h.kept }
Move-IsStuck run all_picked h = record { all = h.all; unasked = h.unasked; kept = h.kept }
Move-IsStuck run none_picked h = record { all = h.all; unasked = h.unasked; kept = h.kept }
Move-IsStuck {task} {s} run (files_deleted sure) h =
    elim (Bool-cases (is_empty s.picked_files || not sure)) [
      | inl none_there ↦ rw none_there h
      | inr some_there ↦ rw some_there (record { all = h.all; unasked = h.unasked; kept = h.kept })
    ]
Move-IsStuck run (ip_typed ip) h = record { all = h.all; unasked = h.unasked; kept = h.kept }
Move-IsStuck run (upload_begun name) h = record { all = h.all; unasked = h.unasked; kept = h.kept }
Move-IsStuck run upload_done h = record { all = h.all; unasked = h.unasked; kept = h.kept }
Move-IsStuck {task} {s} run task_stopped h = elim (Bool-cases (is_running (status_of s.task))) [
  | inl runs ↦ simp runs (record { all = h.all; unasked = h.unasked; kept = h.kept })
  | inr ended ↦ simp ended h
]
Move-IsStuck run (retried device) h = record { all = h.all; unasked = h.unasked; kept = h.kept }

Stay-IsStuck :
    {task : Option Task} {s t : Distribution}
    → is_running (status_of task) ≡ true
    → Stay s t
    → IsStuck task s
    → IsStuck task t
Stay-IsStuck run stay h = h
Stay-IsStuck run (moved_on r step) h = Move-IsStuck run step (Stay-IsStuck run r h)

watch-IsStuck : {task : Option Task} (s : Distribution) → IsStuck task s → IsStuck task (watch s)
unfolding watch
watch-IsStuck s h =
    elim (Bool-cases
      (same_status (status_of s.task) s.watched_status && text_eq s.room_id s.watched_room)) [
        | inl same ↦ rw same h
        | inr other ↦ rw other (record { all = h.all; unasked = h.unasked; kept = h.kept })
      ]

-- A change to the view of all rooms, while a room's task runs and no request is open, leaves that
-- task shown as running, and nothing but another change of the room ends it: whatever the user
-- does, nothing asks for the task again.
pub change_room-stuck :
    (s : Distribution) {t : Distribution} (task : Option Task)
    → s.task ≡ task
    → is_running (status_of task) ≡ true
    → s.loads ≡ 0
    → Stay (change_room [] true s) t
    → (t.task ≡ task) × (t.loads ≡ 0)
unfolding change_room load_task
change_room-stuck s {t} task e run none_open r =
    let begun : IsStuck task (watch (record s { room_id = []; cloud_all = true })) =
      watch-IsStuck _ (record { all = refl; unasked = none_open; kept = e }) in
    let last = Stay-IsStuck run r begun in (last.kept, last.unasked)
