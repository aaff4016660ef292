-- ===== src/Admin/Tables/People.antt =====
-- The tables of devices and of their events (frontend/src/pages/devices.tsx, checkin.tsx,
-- frontend/src/components/fleet.tsx).
use icpc_controller.Prelude.{ℕ, Bool, not, List, [], ◌∷◌, ◌++◌, map, ◌==◌, if◌then◌else◌}
use icpc_controller.Prelude.Text.{Text, codes, show, or_text}
use icpc_controller.Admin.Labels.{Tone, checkin_label}
use icpc_controller.Admin.Fleet.{Device, FleetDevice}
use icpc_controller.Admin.Devices.{Machine, Event}
use icpc_controller.Admin.Devices.Table.{Browser, device_cells, device_headings, event_cells}
use icpc_controller.Admin.Tables.{Cell, Grid, td, badge, blank, rows_or}
use icpc_controller.Admin.Tables.Runs.{only_if}

-- The devices of a room that the search shows.
unfoldable pub device_grid : {Number : Type 0} → Browser Number → List (Machine Number) → Grid
device_grid B devices = record {
  head = device_headings;
  rows = rows_or (blank 6 "没有设备") (λ device. map td (device_cells B device)) devices;
}

unfoldable pub event_grid : List Event → Grid
event_grid events = record {
  head = codes "时间" ∷ codes "事件" ∷ codes "详情" ∷ [];
  rows = rows_or (blank 3 "没有事件") (λ event. map (λ t. td (t ∷ [])) (event_cells event)) events;
}

abbrev pub online_badge : Bool → Cell
online_badge up = if up then badge Tone.ok (codes "在线") else badge Tone.muted (codes "离线")

-- A row of `FleetTable`, with os_name of its device.
pub record FleetRow : Type 0 where
  pub device : FleetDevice
  pub os_name : Text

unfoldable pub fleet_cells : Bool → FleetRow → List Cell
fleet_cells managed row =
    td []
    ∷ td (row.device.room_name ∷ (35 ∷ show row.device.device.assigned_id) ∷ [])
    ∷ td (row.device.device.hostname ∷ row.os_name ∷ [])
    ∷ td (
        or_text row.device.device.student_name (codes "—")
        ∷ checkin_label row.device.device.checkin_status
        ∷ [])
    ∷ online_badge row.device.device.connected
    ∷ only_if managed (td (codes "进入机房" ∷ []))

-- `FleetTable`; `managed` is whether it was given `onManage`.
unfoldable pub fleet_grid : Bool → List FleetRow → Grid
fleet_grid managed shown = record {
  head = [] ∷ codes "机房 / 编号" ∷ codes "主机" ∷ codes "选手" ∷ codes "状态" ∷ only_if managed [];
  rows = rows_or (blank 6 "没有匹配的设备") (fleet_cells managed) shown;
}

abbrev pub checkin_tone : ℕ → Tone
checkin_tone status = if status == 1 then Tone.ok else if status == 2 then Tone.warn else Tone.muted

-- The buttons of a row, by the state of the device.
unfoldable pub checkin_buttons : ℕ → List Text
checkin_buttons status =
    only_if (not (status == 1)) (codes "签到")
    ++ (only_if (status == 1) (codes "签退")
        ++ (only_if (status == 2) (codes "恢复")
            ++ (codes "换机" ∷ only_if (not (status == 0)) (codes "重置"))))

unfoldable pub checkin_cells : Device → List Cell
checkin_cells device =
    td ((35 ∷ show device.assigned_id) ∷ [])
    ∷ td (device.hostname ∷ [])
    ∷ td (or_text device.student_name (codes "—") ∷ [])
    ∷ td (or_text device.student_num (codes "—") ∷ [])
    ∷ badge (checkin_tone device.checkin_status) (checkin_label device.checkin_status)
    ∷ td (checkin_buttons device.checkin_status)
    ∷ []

unfoldable pub checkin_grid : List Device → Grid
checkin_grid devices = record {
  head = codes "编号" ∷ codes "主机" ∷ codes "选手" ∷ codes "学号" ∷ codes "状态" ∷ [] ∷ [];
  rows = rows_or (blank 6 "没有设备") checkin_cells devices;
}
