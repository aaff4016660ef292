-- ===== src/Admin/Tables/Work.antt =====
-- The tables of distributions, schedules, jobs and snapshots (frontend/src/pages/distribute.tsx,
-- power.tsx, frontend/src/components/fleet.tsx, snapshots.tsx).
use icpc_controller.Prelude.{ℕ, zero, suc, List, [], ◌∷◌, ◌++◌, map, is_empty, if◌then◌else◌}
use icpc_controller.Prelude.Text.{Text, codes, show}
use icpc_controller.Prelude.Sets.{text_eq}
use icpc_controller.Admin.Labels.{status_label}
use icpc_controller.Admin.Tables.{Cell, Grid, td, blank, rows_or}
use icpc_controller.Admin.Tables.Runs.{only_if}

pub record File : Type 0 where
  pub name : Text
  pub size : ℕ
  pub mod_time : Text

-- The library of files, with the check of each; `size_text` is the label of a size.
unfoldable pub file_cells : (ℕ → Text) → File → List Cell
file_cells size_text file =
    td [] ∷ td (file.name ∷ []) ∷ td (size_text file.size ∷ []) ∷ td (file.mod_time ∷ []) ∷ []

unfoldable pub file_grid : (ℕ → Text) → List File → Grid
file_grid size_text files = record {
  head = [] ∷ codes "文件" ∷ codes "大小" ∷ codes "时间" ∷ [];
  rows = rows_or (blank 4 "还没有文件") (file_cells size_text) files;
}

pub record Progress : Type 0 where
  pub device_id : ℕ
  pub hostname : Text
  pub status : Text
  pub error : Text

-- The second cell has the bar.
unfoldable pub progress_cells : Progress → List Cell
progress_cells item =
    td ((35 ∷ (show item.device_id ++ (32 ∷ item.hostname))) ∷ [])
    ∷ td []
    ∷ td (
        (status_label item.status
          ++ (if is_empty item.error then [] else codes " · " ++ item.error))
        ∷ [])
    ∷ td (only_if (text_eq item.status (codes "failed")) (codes "重试"))
    ∷ []

unfoldable pub progress_grid : List Progress → Grid
progress_grid progresses = record {
  head = codes "设备" ∷ codes "进度" ∷ codes "状态" ∷ [] ∷ [];
  rows = rows_or (blank 4 "等待设备回报") progress_cells progresses;
}

pub record Schedule : Type 0 where
  pub id : ℕ
  pub action : Text
  pub run_at : Text
  pub target_type : Text
  pub target_ids : List ℕ
  pub note : Text
  pub status : Text

-- ids.map((id) => "#" + id).join(" ")
abbrev pub joined_ids : List ℕ → Text
joined_ids [] = []
joined_ids (id ∷ []) = 35 ∷ show id
joined_ids (id ∷ next ∷ ids) = (35 ∷ show id) ++ (32 ∷ joined_ids (next ∷ ids))

unfoldable pub schedule_cells : Schedule → List Cell
schedule_cells item =
    td (item.run_at ∷ [])
    ∷ td (item.action ∷ [])
    ∷ td (
        (if text_eq item.target_type (codes "all") then codes "全部" else joined_ids item.target_ids)
        ∷ [])
    ∷ td ((item.status ++ (if is_empty item.note then [] else codes " · " ++ item.note)) ∷ [])
    ∷ td (codes "删除" ∷ [])
    ∷ []

-- The table has no row where there are no schedules.
unfoldable pub schedule_grid : List Schedule → Grid
schedule_grid schedules = record {
  head = codes "时间" ∷ codes "动作" ∷ codes "目标" ∷ codes "状态" ∷ [] ∷ [];
  rows = map schedule_cells schedules;
}

pub record Job : Type 0 where
  pub id : Text
  pub room_id : Text
  pub status : Text
  pub response : Text
  pub created_at : Text

-- list.slice(0, n)
abbrev pub slice_to : {A : Type 0} → ℕ → List A → List A
slice_to zero xs = []
slice_to (suc n) [] = []
slice_to (suc n) (x ∷ xs) = x ∷ slice_to n xs

unfoldable pub job_cells : Job → List Cell
job_cells job =
    td (job.created_at ∷ [])
    ∷ td (slice_to 8 job.room_id ∷ [])
    ∷ td (job.status ∷ [])
    ∷ td (job.response ∷ [])
    ∷ td (only_if (text_eq job.status (codes "queued")) (codes "取消"))
    ∷ []

-- `Jobs`: the first thirty.
unfoldable pub job_grid : List Job → Grid
job_grid jobs = record {
  head = codes "时间" ∷ codes "机房" ∷ codes "状态" ∷ codes "回执" ∷ [] ∷ [];
  rows = rows_or (blank 5 "还没有跨机房任务") job_cells (slice_to 30 jobs);
}

pub record Op : Type 0 where
  pub id : ℕ
  pub kind : Text
  pub summary : Text
  pub delivered : ℕ

-- const KINDS
unfoldable pub kinds : List (Text × Text)
kinds =
    (codes "command", codes "命令")
    ∷ (codes "distribute", codes "分发")
    ∷ (codes "wol", codes "唤醒")
    ∷ (codes "schedule", codes "电源计划")
    ∷ (codes "broadcast", codes "广播")
    ∷ []

-- KINDS[kind] || kind
abbrev pub kind_in : List (Text × Text) → Text → Text
kind_in [] kind = kind
kind_in (entry ∷ table) kind =
    let rest = kind_in table kind in if text_eq entry.0 kind then entry.1 else rest

unfoldable pub op_cells : Op → List Cell
op_cells op =
    td (kind_in kinds op.kind ∷ [])
    ∷ td (op.summary ∷ [])
    ∷ td (show op.delivered ∷ [])
    ∷ td (codes "移除" ∷ [])
    ∷ []

unfoldable pub op_grid : List Op → Grid
op_grid ops = record {
  head = codes "类型" ∷ codes "内容" ∷ codes "已送达" ∷ [] ∷ [];
  rows = rows_or (blank 4 "队列还是空的") op_cells ops;
}
