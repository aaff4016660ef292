-- ===== src/Admin/Search/Rows.antt =====
-- The search of the table of the fleet and of the picker of targets (frontend/src/components/
-- fleet.tsx, targets.tsx), on the selections that their buttons make.
use icpc_controller.Prelude.{Bool, true, [], ◌∷◌, ◌++◌, ◌≡◌, ◌↔◌, map}
use icpc_controller.Prelude.Text.{Text, show}
use icpc_controller.Admin.Fleet.{FleetDevice}
use icpc_controller.Admin.Devices.{Machine}
use icpc_controller.Admin.Devices.Table.{Browser, text_of, parse_ip, is_found}
use icpc_controller.Admin.Commands.{trim}
use icpc_controller.Admin.Search.{join_texts, finds}
use icpc_controller.Admin.Search.Words.{HasNoBlank, SomePart, finds-SomePart}

abbrev pub fleet_text : FleetDevice → Text
fleet_text d = join_texts (
    d.room_name
    ∷ d.device.hostname
    ∷ d.device.student_name
    ∷ d.device.student_num
    ∷ show d.device.assigned_id
    ∷ [])

-- The search of `FleetTable`, for Admin.Fleet.shown.
unfoldable pub fleet_contains : (Text → Text) → Text → FleetDevice → Bool
fleet_contains lower query d = finds lower query (fleet_text d)

abbrev pub picker_text : {Number : Type 0} → Browser Number → Machine Number → Text
picker_text B device = join_texts (
    device.hostname
    ∷ device.student_name
    ∷ device.student_num
    ∷ show device.assigned_id
    ∷ text_of B (parse_ip B device.local_ip)
    ∷ [])

-- The search of `TargetPicker`.
unfoldable pub picker_matches : {Number : Type 0} → Browser Number → Text → Machine Number → Bool
picker_matches B query device = finds B.lower query (picker_text B device)

-- The three searches, where small letters are made word by word and the query, trimmed and in small
-- letters, has no blank inside: a device of a room is found exactly if the query is a part of its
-- host, student, number of the device or address in small letters; one of the fleet, of its room,
-- host, student, number of the student or of the device; and one of the picker of targets, of its
-- host, student, number of the student or of the device, or address.
pub searches_iff :
    {Number : Type 0} (B : Browser Number) (query : Text) (device : Machine Number)
    (member : FleetDevice)
    → ((a b : Text) → B.lower (a ++ 32 ∷ b) ≡ B.lower a ++ 32 ∷ B.lower b)
    → HasNoBlank (B.lower (trim query))
    → ((is_found B query device ≡ true)
        ↔ SomePart (B.lower (trim query)) (
            map B.lower (
              device.hostname
              ∷ device.student_name
              ∷ show device.assigned_id
              ∷ text_of B (parse_ip B device.local_ip)
              ∷ [])))
      × ((fleet_contains B.lower query member ≡ true)
          ↔ SomePart (B.lower (trim query)) (
              map B.lower (
                member.room_name
                ∷ member.device.hostname
                ∷ member.device.student_name
                ∷ member.device.student_num
                ∷ show member.device.assigned_id
                ∷ [])))
      × ((picker_matches B query device ≡ true)
          ↔ SomePart (B.lower (trim query)) (
              map B.lower (
                device.hostname
                ∷ device.student_name
                ∷ device.student_num
                ∷ show device.assigned_id
                ∷ text_of B (parse_ip B device.local_ip)
                ∷ [])))
unfolding is_found fleet_contains picker_matches
searches_iff B query device member words n = (
  finds-SomePart B.lower query device.hostname
      (device.student_name ∷ show device.assigned_id ∷ text_of B (parse_ip B device.local_ip) ∷ [])
      words n,
  finds-SomePart B.lower query member.room_name
      (member.device.hostname
        ∷ member.device.student_name
        ∷ member.device.student_num
        ∷ show member.device.assigned_id
        ∷ [])
      words n,
  finds-SomePart B.lower query device.hostname
      (device.student_name
        ∷ device.student_num
        ∷ show device.assigned_id
        ∷ text_of B (parse_ip B device.local_ip)
        ∷ [])
      words n,
)
