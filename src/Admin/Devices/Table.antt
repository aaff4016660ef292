-- ===== src/Admin/Devices/Table.antt =====
-- The table of devices and its search (frontend/src/pages/devices.tsx), with the address that
-- `parseIP` finds (frontend/src/lib/utils.ts).
use icpc_controller.Prelude.{
  String, Bool, true, false, Option, none, some, List, [], ◌∷◌, ◌++◌, ◌&&◌, if◌then◌else◌, keep,
  is_empty, not,
}
use icpc_controller.Prelude.Text.{Text, codes, show, or_text}
use icpc_controller.Prelude.Sets.{text_eq}
use icpc_controller.Admin.Search.{join_texts, finds}
use icpc_controller.Admin.Labels.{checkin_label}
use icpc_controller.Admin.Devices.{Machine, Event}

-- A value that JSON.parse gives, with the members of an object in the order of its text.
mutual
  pub data Json (Number : Type 0) : Type 0 where
    null : Json Number
    bool : Bool → Json Number
    number : Number → Json Number
    string : Text → Json Number
    array : Items Number → Json Number
    object : Members Number → Json Number

  pub data Items (Number : Type 0) : Type 0 where
    no_items : Items Number
    item_then : Json Number → Items Number → Items Number

  pub data Members (Number : Type 0) : Type 0 where
    no_members : Members Number
    member_then : Text → Json Number → Members Number → Members Number

-- What the page takes from the browser: JSON.parse, none where it throws; whether a number is 0 or
-- not a number, and whether it is below or above 0; toFixed(0); the text of a value that is no
-- text, as `String` gives it; and toLowerCase.
pub record Browser (Number : Type 0) : Type 0 where
  pub parse : Text → Option (Json Number)
  pub is_falsy : Number → Bool
  pub is_below : Number → Bool
  pub is_above : Number → Bool
  pub to_fixed : Number → Text
  pub show_value : Json Number → Text
  pub lower : Text → Text

-- a || b
abbrev pub or_value :
    {Number : Type 0} → (Json Number → Bool) → Json Number → Json Number → Json Number
or_value truthy a b = if truthy a then a else b

module _ {Number : Type 0} (B : Browser Number) where
  -- Whether a value counts as true.
  abbrev pub is_truthy : Json Number → Bool
  is_truthy Json.null = false
  is_truthy (Json.bool b) = b
  is_truthy (Json.number n) = not (B.is_falsy n)
  is_truthy (Json.string t) = not (is_empty t)
  is_truthy (Json.array items) = true
  is_truthy (Json.object fields) = true

  -- The member of a name, the last one where it is there twice; `null` stands for undefined too,
  -- since both count as false.
  abbrev pub member_or : Text → Json Number → Members Number → Json Number
  member_or name found no_members = found
  member_or name found (member_then key value fields) =
      member_or name (if text_eq key name then value else found) fields

  abbrev pub member : Text → Json Number → Json Number
  member name Json.null = Json.null
  member name (Json.bool b) = Json.null
  member name (Json.number n) = Json.null
  member name (Json.string t) = Json.null
  member name (Json.array items) = Json.null
  member name (Json.object fields) = member_or name Json.null fields

  -- item?.addr || item?.ip || item?.ipv4
  abbrev pub address_of : Json Number → Json Number
  address_of item =
      or_value is_truthy (member (codes "addr") item)
        (or_value is_truthy (member (codes "ip") item) (member (codes "ipv4") item))

  -- data.find(...), and what is taken of its result
  unfoldable pub first_hit : Items Number → Json Number
  first_hit no_items = Json.string []
  first_hit (item_then item items) =
      let rest = first_hit items in
      if is_truthy item && is_truthy (address_of item) then address_of item else rest

  abbrev pub address_in : Text → Option (Json Number) → Json Number
  address_in raw none = Json.string raw
  address_in raw (some (Json.array items)) = first_hit items
  address_in raw (some Json.null) = Json.string raw
  address_in raw (some (Json.bool b)) = Json.string raw
  address_in raw (some (Json.number n)) = Json.string raw
  address_in raw (some (Json.string t)) = Json.string raw
  address_in raw (some (Json.object fields)) = Json.string raw

  unfoldable pub parse_ip : Text → Json Number
  parse_ip raw = if is_empty raw then Json.string [] else address_in raw (B.parse raw)

  -- The text of a value, as `join` takes it.
  abbrev pub text_of : Json Number → Text
  text_of Json.null = []
  text_of (Json.string t) = t
  text_of (Json.bool b) = B.show_value (Json.bool b)
  text_of (Json.number n) = B.show_value (Json.number n)
  text_of (Json.array items) = B.show_value (Json.array items)
  text_of (Json.object fields) = B.show_value (Json.object fields)

  -- [..., ...].join(" ")
  abbrev pub searched_text : Machine Number → Text
  searched_text device = join_texts (
      device.hostname
      ∷ device.student_name
      ∷ show device.assigned_id
      ∷ text_of (parse_ip device.local_ip)
      ∷ [])

  unfoldable pub is_found : Text → Machine Number → Bool
  is_found query device = finds B.lower query (searched_text device)

  -- `shown`
  unfoldable pub shown_devices : Text → List (Machine Number) → List (Machine Number)
  shown_devices query devices = keep (is_found query) devices

  -- `pct`
  abbrev pub pct : Option Number → Text
  pct none = codes "—"
  pct (some value) = if B.is_below value then codes "—" else B.to_fixed value ++ codes "%"

  -- device.temp_c && device.temp_c > 0 ? ... : "—"
  abbrev pub temperature : Option Number → Text
  temperature none = codes "—"
  temperature (some value) =
      if not (B.is_falsy value) && B.is_above value
      then B.to_fixed value ++ codes "°C"
      else codes "—"

  -- The texts of a row, by its cells.
  unfoldable pub device_cells : Machine Number → List (List Text)
  device_cells device =
      ((35 ∷ show device.assigned_id) ∷ [])
      ∷ (device.hostname ∷ (device.os_name ++ 32 ∷ device.client_version) ∷ [])
      ∷ (text_of (or_value is_truthy (parse_ip device.local_ip) (Json.string (codes "—"))) ∷ [])
      ∷ (or_text device.student_name (codes "—") ∷ checkin_label device.checkin_status ∷ [])
      ∷ ((codes "CPU "
            ++ pct device.cpu_pct
            ++ codes " · 内存 "
            ++ pct device.mem_pct
            ++ codes " · "
            ++ temperature device.temp_c)
          ∷ [])
      ∷ ((if device.connected then codes "在线" else codes "离线") ∷ [])
      ∷ []

  -- `Item`: its title and its value.
  abbrev pub detail_item : String → Text → Text × Text
  detail_item k v = (codes k, or_text v (codes "—"))

  -- [a, b].filter(Boolean).join(" ")
  abbrev pub join_given : Text → Text → Text
  join_given [] b = b
  join_given (c ∷ cs) [] = c ∷ cs
  join_given (c ∷ cs) (d ∷ ds) = (c ∷ cs) ++ 32 ∷ d ∷ ds

  -- The list of the dialog; `memory` and `seen` are the texts of `formatBytes` and `timeAgo`.
  unfoldable pub detail_items : Text → Text → Machine Number → List (Text × Text)
  detail_items memory seen device =
      detail_item "系统" (or_text device.os_pretty_name device.os_name)
      ∷ detail_item "内核" device.kernel_release
      ∷ detail_item "CPU" device.cpu_model
      ∷ detail_item "内存" memory
      ∷ detail_item "GPU" device.gpu_info
      ∷ detail_item "MAC" device.mac_address
      ∷ detail_item "选手" (join_given device.student_name device.student_num)
      ∷ detail_item "最近在线" seen
      ∷ detail_item "磁盘" device.disk_info
      ∷ []

unfoldable pub device_headings : List Text
device_headings = codes "编号" ∷ codes "主机" ∷ codes "地址" ∷ codes "选手" ∷ codes "健康" ∷ codes "状态" ∷ []

abbrev pub event_cells : Event → List Text
event_cells event = event.at ∷ event.event ∷ event.detail ∷ []
