-- ===== src/Admin/Labels.antt =====
-- The labels of states and times (`checkinLabel`, `statusLabel`, `timeAgo` of frontend/src/lib/
-- utils.ts; `statusTone` of frontend/src/components/ui.tsx).
pub mod Times
use icpc_controller.Prelude.{
  ℕ, zero, suc, ◌+◌, ◌*◌, ◌/◌, String, Bool, true, false, ◌||◌, Option, none, some, List, [], ◌∷◌,
  ◌++◌, if◌then◌else◌, ltb, is_empty,
}
use icpc_controller.Prelude.Int.{ℤ, pos, negsuc, ◌-ℤ◌}
use icpc_controller.Prelude.Text.{Text, codes, show}
use icpc_controller.Prelude.Sets.{text_eq}

unfoldable pub checkin_label : ℕ → Text
checkin_label zero = codes "未签到"
checkin_label (suc zero) = codes "已签到"
checkin_label (suc (suc zero)) = codes "已签退"
checkin_label (suc (suc (suc n))) = codes "未知"

unfoldable pub status_labels : List (Text × Text)
status_labels =
    (codes "idle", codes "未运行")
    ∷ (codes "downloading", codes "下载中")
    ∷ (codes "pending", codes "等待中")
    ∷ (codes "dispatched", codes "已派发")
    ∷ (codes "running", codes "运行中")
    ∷ (codes "completed", codes "已完成")
    ∷ (codes "failed", codes "失败")
    ∷ (codes "timeout", codes "超时")
    ∷ (codes "stalled", codes "卡住")
    ∷ (codes "cancelled", codes "已取消")
    ∷ (codes "verifying", codes "校验中")
    ∷ (codes "executing", codes "后置命令")
    ∷ (codes "stopped", codes "已停止")
    ∷ (codes "queued", codes "等待中转")
    ∷ (codes "sent", codes "已投递")
    ∷ (codes "unknown", codes "待核实")
    ∷ []

-- table[key] || key || "—", for a key that names nothing every object has; a missing status is
-- the empty text.
unfoldable pub label_in : List (Text × Text) → Text → Text
label_in [] key = if is_empty key then codes "—" else key
label_in (entry ∷ table) key =
    let rest = label_in table key in if text_eq entry.0 key then entry.1 else rest

unfoldable pub status_label : Text → Text
status_label status = label_in status_labels status

pub data Tone : Type 0 where
  muted ok bad run warn : Tone

abbrev is : String → Text → Bool
is name status = text_eq status (codes name)

unfoldable pub status_tone : Text → Tone
status_tone status =
    if is "completed" status || is "online" status
    then Tone.ok
    else if is "failed" status || (is "timeout" status || is "stopped" status)
    then Tone.bad
    else if is "running" status
        || (is "downloading" status || (is "dispatched" status || is "executing" status))
    then Tone.run
    else if is "stalled" status || is "verifying" status
    then Tone.warn
    else Tone.muted

-- Math.floor(t / 1000), and 0 where that is negative.
abbrev pub seconds : ℤ → ℕ
seconds (pos t) = t / 1000
seconds (negsuc t) = 0

unfoldable pub ago : ℕ → Text
ago s =
    if ltb s 60
    then show s ++ codes " 秒前"
    else if ltb s 3600
    then show (s / 60) ++ codes " 分钟前"
    else if ltb s 86400
    then show (s / 3600) ++ codes " 小时前"
    else show (s / 86400) ++ codes " 天前"

-- `date` is the time of a text, none where it is not a date; `now` is Date.now(). A missing text
-- is empty.
unfoldable pub time_ago : (Text → Option ℤ) → ℤ → Text → Text
time_ago date now iso =
    if is_empty iso
    then codes "—"
    else elim (date iso) as (λ x. Text) [ none ↦ iso | some t ↦ ago (seconds (now -ℤ t)) ]
