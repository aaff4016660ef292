-- ===== src/Admin/Tests/Devices.antt =====
-- Runs of the model of the page of a room's devices (frontend/src/pages/devices.tsx) on concrete
-- input.
use icpc_controller.Prelude.{ℕ, true, false, none, some, List, [], ◌∷◌, ◌≡◌, ◌↔◌, refl, ◌==◌, map}
use icpc_controller.Prelude.Text.{Text, codes, show}
use icpc_controller.Prelude.Sets.{text_eq}
use icpc_controller.Admin.Asked.{answered}
use icpc_controller.Admin.Fleet.{FleetDevice}
use icpc_controller.Admin.Commands.{trim_start, trim_end, is_space}
use icpc_controller.Admin.Search.Words.{SomePart}
use icpc_controller.Admin.Search.Rows.{fleet_contains, picker_matches, searches_iff}
use icpc_controller.Admin.Devices.{
  Event, Machine, Devices, first, further, opened, device_got, events_got, first_devices,
  change_room, room_changed, open_device, on_device, on_events,
}
use icpc_controller.Admin.Devices.Matched.{IsMatched, Reach-IsMatched}
use icpc_controller.Admin.Devices.Table.{Json, Items, Members, Browser, parse_ip, text_of, is_found}
use icpc_controller.Admin.Devices.Found.{addresses, first_or, parse_ip-addresses}

abbrev machine : ℕ → Machine ℕ
machine id = record {
  assigned_id = id;
  hostname = codes "pc";
  os_name = [];
  os_pretty_name = [];
  kernel_release = [];
  cpu_model = [];
  gpu_info = [];
  mac_address = [];
  disk_info = [];
  last_seen = [];
  local_ip = codes "[]";
  client_version = [];
  student_name = codes "ann";
  student_num = [];
  checkin_status = 0;
  connected = true;
  cpu_pct = none;
  mem_pct = some 3;
  temp_c = none;
}

-- The events of a device have its number here.
abbrev IsOf : Text × ℕ → List Event → Type 0
IsOf d [] = Unit
IsOf d (e ∷ es) = e.id ≡ d.1

abbrev event_of : ℕ → Event
event_of d = record { id = d; event = codes "up"; detail = []; at = [] }

abbrev hall : Text
hall = codes "a"

abbrev asked_state : Devices ℕ
asked_state = on_device ℕ hall 5 (machine 5) (open_device ℕ 5 (first_devices ℕ hall))

-- The room changes while the events are waited for.
abbrev moved_state : Devices ℕ
moved_state = change_room ℕ (codes "b") asked_state

Reach-IsMatched_example : IsMatched IsOf (on_events ℕ hall 5 (event_of 5 ∷ []) moved_state)
unfolding change_room on_device open_device first_devices answered text_eq
Reach-IsMatched_example =
    Reach-IsMatched IsOf
      (further
        (further
          (further (further (first hall) (opened 5)) (device_got hall 5 (machine 5) refl refl))
          (room_changed (codes "b")))
        (events_got hall 5 (event_of 5 ∷ []) refl refl))
      ((((tt, refl), refl), refl), refl)

-- Where it changes before, the second request goes to the other room.
crossed_test :
    (on_device ℕ hall 5
      (machine 5)
      (change_room ℕ (codes "b") (open_device ℕ 5 (first_devices ℕ hall)))).asked_events
    ≡ (codes "b", 5) ∷ []
unfolding change_room on_device open_device first_devices
crossed_test = refl

abbrev host : Json ℕ
host =
    Json.object
      (Members.member_then (codes "ip") (Json.string (codes "10.0.0.1")) Members.no_members)

abbrev list : Items ℕ
list = Items.item_then Json.null (Items.item_then host Items.no_items)

abbrev browser : Browser ℕ
browser = record {
  parse = λ text. some (Json.array list);
  is_falsy = λ n. n == 0;
  is_below = λ n. false;
  is_above = λ n. true;
  to_fixed = show;
  show_value = λ value. codes "value";
  lower = λ text. text;
}

parse_ip-addresses_example :
    parse_ip browser (codes "[]") ≡ first_or browser (Json.string []) (addresses browser list)
parse_ip-addresses_example = parse_ip-addresses browser (codes "[]") list refl refl

parse_ip_test : parse_ip browser (codes "[]") ≡ Json.string (codes "10.0.0.1")
unfolding parse_ip text_eq
parse_ip_test = parse_ip-addresses_example

abbrev fleet_member : FleetDevice
fleet_member = record {
  device = record {
    assigned_id = 7;
    hostname = codes "pc";
    student_name = [];
    student_num = [];
    checkin_status = 0;
    connected = true;
  };
  room_id = codes "a";
  room_name = codes "hall ann";
  key = codes "a:7";
}

abbrev address : Text
address = text_of browser (parse_ip browser (codes "[]"))

abbrev fleet_words : List Text
fleet_words = codes "hall ann" ∷ codes "pc" ∷ [] ∷ [] ∷ show 7 ∷ []

searches_iff_example :
    ((is_found browser (codes " ann ") (machine 5) ≡ true)
      ↔ SomePart (codes "ann") (map (λ t. t) (codes "pc" ∷ codes "ann" ∷ show 5 ∷ address ∷ [])))
    × ((fleet_contains (λ t. t) (codes " ann ") fleet_member ≡ true)
        ↔ SomePart (codes "ann") (map (λ t. t) fleet_words))
    × ((picker_matches browser (codes " ann ") (machine 5) ≡ true)
        ↔ SomePart
            (codes "ann")
            (map (λ t. t) (codes "pc" ∷ codes "ann" ∷ [] ∷ show 5 ∷ address ∷ [])))
unfolding trim_start trim_end is_space
searches_iff_example =
    searches_iff browser (codes " ann ") (machine 5) fleet_member (λ a b. refl)
      (λ e. cc, (λ e. cc, (λ e. cc, tt)))
