-- ===== src/Admin/Devices.antt =====
-- The page of a room's devices (`Devices` of frontend/src/pages/devices.tsx): the device that is
-- shown with its events, the terminal, the search, and the buttons.
pub mod Matched
pub mod Table
pub mod Found
use icpc_controller.Prelude.{
  ℕ, suc, Bool, true, false, Option, none, some, List, [], ◌∷◌, ◌++◌, ◌≡◌, ◌==◌, if◌then◌else◌, any,
}
use icpc_controller.Admin.Asked.{answered, is_asked}
use icpc_controller.Prelude.Text.{Text, codes, show}

pub record Event : Type 0 where
  pub id : ℕ
  pub event : Text
  pub detail : Text
  pub at : Text

-- A request, by its path, which the room that it goes to stands beside.
pub data Request : Type 0 where
  get post delete : Text → Request

-- "/api/devices/" + id
abbrev pub device_path : ℕ → Text
device_path id = codes "/api/devices/" ++ show id

module _ (Number : Type 0) where
  -- A missing text is empty.
  pub record Machine : Type 0 where
    pub assigned_id : ℕ
    pub hostname : Text
    pub os_name : Text
    pub os_pretty_name : Text
    pub kernel_release : Text
    pub cpu_model : Text
    pub gpu_info : Text
    pub mac_address : Text
    pub disk_info : Text
    pub last_seen : Text
    pub local_ip : Text
    pub client_version : Text
    pub student_name : Text
    pub student_num : Text
    pub checkin_status : ℕ
    pub connected : Bool
    pub cpu_pct : Option Number
    pub mem_pct : Option Number
    pub temp_c : Option Number

  -- The state of the page; `room` is the room that requests go to, `shown_in` the one that the
  -- shown device was asked from, `asked` and `asked_events` are the devices whose answers `open`
  -- still waits for, with the rooms that these were asked from and the earlier ones first, and
  -- `requests` are those made, with the rooms that they went to.
  pub record Devices : Type 0 where
    pub room : Text
    pub shown_in : Text
    pub detail : Option Machine
    pub events : List Event
    pub term : Option ℕ
    pub query : Text
    pub asked : List (Text × ℕ)
    pub asked_events : List (Text × ℕ)
    pub toasts : List Text
    pub requests : List (Text × Request)
    pub reloads : ℕ

  unfoldable pub first_devices : Text → Devices
  first_devices room = record {
    room = room;
    shown_in = [];
    detail = none;
    events = [];
    term = none;
    query = [];
    asked = [];
    asked_events = [];
    toasts = [];
    requests = [];
    reloads = 0;
  }

  abbrev make_request : Request → Devices → Devices
  make_request request s = record s { requests = s.requests ++ (s.room, request) ∷ [] }

  -- Another room: the page stays as it is.
  unfoldable pub change_room : Text → Devices → Devices
  change_room room s = record s { room = room }

  -- A row is clicked: `open`, up to its first request.
  unfoldable pub open_device : ℕ → Devices → Devices
  open_device id s =
      make_request (Request.get (device_path id))
        (record s { asked = s.asked ++ (s.room, id) ∷ [] })

  -- Its answer, from a room, up to the second request, which goes to the room of the moment.
  unfoldable pub on_device : Text → ℕ → Machine → Devices → Devices
  on_device from id device s =
      make_request (Request.get (device_path id ++ codes "/events")) (record s {
        detail = some device;
        shown_in = from;
        asked = answered (from, id) s.asked;
        asked_events = s.asked_events ++ (s.room, id) ∷ [];
      })

  -- The second answer.
  unfoldable pub on_events : Text → ℕ → List Event → Devices → Devices
  on_events from id events s = record s {
    events = events;
    asked_events = answered (from, id) s.asked_events;
  }

  -- One of the two requests fails.
  unfoldable pub fail_device : Text → ℕ → Text → Devices → Devices
  fail_device from id message s = record s {
    asked = answered (from, id) s.asked;
    toasts = s.toasts ++ message ∷ [];
  }

  unfoldable pub fail_events : Text → ℕ → Text → Devices → Devices
  fail_events from id message s = record s {
    asked_events = answered (from, id) s.asked_events;
    toasts = s.toasts ++ message ∷ [];
  }

  -- The dialog is closed.
  unfoldable pub close_detail : Devices → Devices
  close_detail s = record s { detail = none }

  -- The button that deletes the record of the shown device, with the user's answer, where the
  -- request does not fail.
  unfoldable pub delete_shown : Option Machine → Bool → Devices → Devices
  delete_shown none confirmed s = s
  delete_shown (some device) confirmed s =
      if confirmed
      then make_request (Request.delete (device_path device.assigned_id))
          (record s { detail = none; reloads = suc s.reloads })
      else s

  unfoldable pub delete_record : Bool → Devices → Devices
  delete_record confirmed s = delete_shown s.detail confirmed s

  -- The button that resets the numbers.
  unfoldable pub reset_numbers : Bool → Devices → Devices
  reset_numbers confirmed s =
      if confirmed
      then make_request (Request.post (codes "/api/devices/reset"))
          (record s { toasts = s.toasts ++ codes "已重置" ∷ []; reloads = suc s.reloads })
      else s

  abbrev pub shown_id : Option Machine → Option ℕ
  shown_id none = none
  shown_id (some device) = some device.assigned_id

  unfoldable pub open_terminal : Devices → Devices
  open_terminal s = record s { term = shown_id s.detail }

  unfoldable pub close_terminal : Devices → Devices
  close_terminal s = record s { term = none }

  unfoldable pub search_for : Text → Devices → Devices
  search_for query s = record s { query = query }

  -- The events of the page. `IsOf` tells whose the events of an answer are: the server answers
  -- each request for the device that it names in the room that it goes to.
  module _ (IsOf : Text × ℕ → List Event → Type 0) where
    pub data Step (s : Devices) : Devices → Type 0 where
      room_changed : (room : Text) → Step s (change_room room s)
      opened : (id : ℕ) → Step s (open_device id s)
      device_got :
          (from : Text) (id : ℕ) (device : Machine)
          → is_asked (from, id) s.asked ≡ true
          → device.assigned_id ≡ id
          → Step s (on_device from id device s)
      events_got :
          (from : Text) (id : ℕ) (events : List Event)
          → is_asked (from, id) s.asked_events ≡ true
          → IsOf (from, id) events
          → Step s (on_events from id events s)
      device_failed :
          (from : Text) (id : ℕ) (message : Text)
          → is_asked (from, id) s.asked ≡ true
          → Step s (fail_device from id message s)
      events_failed :
          (from : Text) (id : ℕ) (message : Text)
          → is_asked (from, id) s.asked_events ≡ true
          → Step s (fail_events from id message s)
      detail_closed : Step s (close_detail s)
      record_deleted : (confirmed : Bool) → Step s (delete_record confirmed s)
      numbers_reset : (confirmed : Bool) → Step s (reset_numbers confirmed s)
      terminal_opened : Step s (open_terminal s)
      terminal_closed : Step s (close_terminal s)
      searched : (query : Text) → Step s (search_for query s)

    pub data Reach : Devices → Type 0 where
      first : (room : Text) → Reach (first_devices room)
      further : {s t : Devices} → Reach s → Step s t → Reach t
