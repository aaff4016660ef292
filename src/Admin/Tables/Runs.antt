-- ===== src/Admin/Tables/Runs.antt =====
-- The tables of commands (frontend/src/pages/commands.tsx, dashboard.tsx).
use icpc_controller.Prelude.{
  ℕ, String, Bool, not, ◌||◌, Option, none, some, List, [], ◌∷◌, ◌++◌, map, any, ◌==◌, is_empty,
  if◌then◌else◌,
}
use icpc_controller.Prelude.Text.{Text, codes, show, or_text}
use icpc_controller.Prelude.Sets.{text_eq}
use icpc_controller.Admin.Labels.{status_label, status_tone}
use icpc_controller.Admin.Commands.{Row, trim}
use icpc_controller.Admin.Tables.{Cell, Grid, td, badge, blank, rows_or}

-- A command, with the name of its room where it is one of many; missing texts are empty.
pub record Logged : Type 0 where
  pub id : ℕ
  pub room : Text
  pub target_type : Text
  pub target_id : Option ℕ
  pub command : Text
  pub status : Text
  pub output : Text
  pub error_output : Text
  pub created_at : Text
  pub duration_ms : ℕ

abbrev pub has_line_end : Text → Bool
has_line_end text = any (λ c. c == 10) text

-- text.split("\n").pop()
unfoldable pub last_line : Text → Text
last_line [] = []
last_line (c ∷ cs) =
    let rest = last_line cs in if (c == 10) || has_line_end cs then rest else c ∷ cs

-- duration ? duration + " ms" : "—"
abbrev pub duration_text : ℕ → Text
duration_text n = if n == 0 then codes "—" else show n ++ codes " ms"

unfoldable pub run_cells : Row → List Cell
run_cells row =
    td ((35 ∷ show row.device_id) ∷ [])
    ∷ badge (status_tone row.status) (status_label row.status)
    ∷ td (or_text (last_line (trim row.output)) (codes "—") ∷ [])
    ∷ td (duration_text row.duration ∷ [])
    ∷ []

-- The rows of the current run, in their order.
unfoldable pub run_grid : List Row → Grid
run_grid list = record {
  head = codes "设备" ∷ codes "状态" ∷ codes "摘要" ∷ codes "耗时" ∷ [];
  rows = rows_or (blank 4 "执行后这里按设备列出输出") run_cells list;
}

abbrev pub id_text : Option ℕ → Text
id_text none = []
id_text (some id) = show id

-- The target of a command, as the history names a list of devices.
abbrev pub target_text : String → Text → Option ℕ → Text
target_text several kind id =
    if text_eq kind (codes "broadcast")
    then codes "全部在线"
    else if text_eq kind (codes "list")
    then codes several
    else 35 ∷ id_text id

-- history.some((item) => item.room)
abbrev pub has_room : List Logged → Bool
has_room history = any (λ item. not (is_empty item.room)) history

abbrev pub only_if : {A : Type 0} → Bool → A → List A
only_if test x = if test then x ∷ [] else []

unfoldable pub history_cells : Bool → Logged → List Cell
history_cells rooms item =
    td (item.created_at ∷ [])
    ∷ (only_if rooms (td (item.room ∷ []))
        ++ (td (target_text "指定多台" item.target_type item.target_id ∷ [])
            ∷ td (item.command ∷ [])
            ∷ badge (status_tone item.status) (status_label item.status)
            ∷ td (duration_text item.duration_ms ∷ [])
            ∷ []))

-- `History`
unfoldable pub history_grid : List Logged → Grid
history_grid history = record {
  head =
      codes "时间"
      ∷ (only_if (has_room history) (codes "机房")
          ++ (codes "目标" ∷ codes "命令" ∷ codes "状态" ∷ codes "耗时" ∷ []));
  rows = rows_or (blank 6 "暂无记录") (history_cells (has_room history)) history;
}

unfoldable pub child_cells : Logged → List Cell
child_cells child =
    td ((35 ∷ id_text child.target_id) ∷ [])
    ∷ badge (status_tone child.status) (status_label child.status)
    ∷ td (or_text child.output child.error_output ∷ [])
    ∷ []

-- `CommandDetail`: its text, and the table where the command has children.
unfoldable pub detail_text : Logged → Text
detail_text item = or_text item.output (or_text item.error_output (codes "没有汇总输出"))

unfoldable pub detail_grids : List Logged → List Grid
detail_grids [] = []
detail_grids (child ∷ children) =
    record {
      head = codes "设备" ∷ codes "状态" ∷ codes "输出" ∷ [];
      rows = map child_cells (child ∷ children);
    }
    ∷ []

-- The tables of the dashboard, of all rooms and of one; `ago` is the label of a time.
unfoldable pub recent_cells : (Text → Text) → Logged → List Cell
recent_cells ago item =
    td (item.room ∷ [])
    ∷ td (item.command ∷ [])
    ∷ badge (status_tone item.status) (status_label item.status)
    ∷ td (ago item.created_at ∷ [])
    ∷ []

unfoldable pub recent_grid : (Text → Text) → List Logged → Grid
recent_grid ago recent = record {
  head = codes "机房" ∷ codes "命令" ∷ codes "状态" ∷ codes "时间" ∷ [];
  rows = rows_or (blank 4 "暂无命令") (recent_cells ago) recent;
}

unfoldable pub room_cells : (Text → Text) → Logged → List Cell
room_cells ago item =
    td (ago item.created_at ∷ [])
    ∷ td (target_text "指定设备" item.target_type item.target_id ∷ [])
    ∷ td (item.command ∷ [])
    ∷ badge (status_tone item.status) (status_label item.status)
    ∷ []

unfoldable pub room_grid : (Text → Text) → List Logged → Grid
room_grid ago commands = record {
  head = codes "时间" ∷ codes "目标" ∷ codes "命令" ∷ codes "状态" ∷ [];
  rows = rows_or (blank 4 "还没有命令记录") (room_cells ago) commands;
}
