-- ===== src/Admin/Export.antt =====
-- The table of all devices as comma separated values (`exportFleet` of
-- frontend/src/pages/devices.tsx).
pub mod Reader
use icpc_controller.Prelude.{
  ℕ, String, Bool, true, false, List, [], ◌∷◌, ◌++◌, map, ◌==◌, if◌then◌else◌,
}
use icpc_controller.Prelude.Text.{Text, codes, show}
use icpc_controller.Admin.Fleet.{Device, Room}
use icpc_controller.Admin.Labels.{checkin_label}

unfoldable pub headings : List Text
headings =
    codes "机房"
    ∷ codes "身份"
    ∷ codes "编号"
    ∷ codes "主机名"
    ∷ codes "选手"
    ∷ codes "学号"
    ∷ codes "签到"
    ∷ codes "在线"
    ∷ []

unfoldable pub device_row : Room → Device → List Text
device_row room d =
    room.name
    ∷ room.id
    ∷ show d.assigned_id
    ∷ d.hostname
    ∷ d.student_name
    ∷ d.student_num
    ∷ checkin_label d.checkin_status
    ∷ (if d.connected then codes "在线" else codes "离线")
    ∷ []

unfoldable pub device_rows : List Room → List (List Text)
device_rows [] = []
device_rows (room ∷ rooms) = map (device_row room) room.devices ++ device_rows rooms

abbrev pub all_rows : List Room → List (List Text)
all_rows rooms = headings ∷ device_rows rooms

-- value.replace(/"/g, '""')
unfoldable pub escape : Text → Text
escape [] = []
escape (c ∷ cs) = let rest = escape cs in if c == 34 then 34 ∷ 34 ∷ rest else c ∷ rest

unfoldable pub cell : Text → Text
cell value = 34 ∷ (escape value ++ 34 ∷ [])

-- parts.join(separator)
unfoldable pub join : Text → List Text → Text
join separator [] = []
join separator (x ∷ []) = x
join separator (x ∷ y ∷ ys) = x ++ (separator ++ join separator (y ∷ ys))

unfoldable pub line : List Text → Text
line row = join (44 ∷ []) (map cell row)

-- The text of the file, behind the byte order mark.
unfoldable pub export_fleet : List Room → Text
export_fleet rooms = 65279 ∷ join (13 ∷ 10 ∷ []) (map line (all_rows rooms))
