-- ===== src/Admin/Labels/Times.antt =====
-- What a label of a time says (`timeAgo` of frontend/src/lib/utils.ts).
use icpc_controller.Prelude.{
  ℕ, ◌+◌, ◌*◌, ◌/◌, ◌<◌, ◌≤◌, false, Option, some, ◌++◌, ◌≡◌, inl, inr, arith, ltb, is_empty,
  Bool-cases,
}
use icpc_controller.Prelude.Int.{ℤ, ◌-ℤ◌}
use icpc_controller.Prelude.Text.{Text, codes, show}
use icpc_controller.Admin.Labels.{ago, seconds, time_ago}

-- A label of `s` seconds: whole units that are over, of the largest unit that fits.
pub data IsAgo (s : ℕ) : Text → Type 0 where
  in_seconds : s < 60 → IsAgo s (show s ++ codes " 秒前")
  in_minutes :
      (n : ℕ) → 1 ≤ n → n < 60 → n * 60 ≤ s → s < (n + 1) * 60 → IsAgo s (show n ++ codes " 分钟前")
  in_hours :
      (n : ℕ)
      → 1 ≤ n
      → n < 24
      → n * 3600 ≤ s
      → s < (n + 1) * 3600
      → IsAgo s (show n ++ codes " 小时前")
  in_days : (n : ℕ) → 1 ≤ n → n * 86400 ≤ s → s < (n + 1) * 86400 → IsAgo s (show n ++ codes " 天前")

-- The label of a date says in whole units, of the largest unit that fits, how many seconds it is
-- over, none for one to come: below 60 seconds, 60 minutes or 24 hours, or any number of days.
pub time_ago-IsAgo :
    (date : Text → Option ℤ) (now t : ℤ) (iso : Text)
    → is_empty iso ≡ false
    → date iso ≡ some t
    → IsAgo (seconds (now -ℤ t)) (time_ago date now iso)
unfolding time_ago ago
time_ago-IsAgo date now t iso there e =
    let s = seconds (now -ℤ t) in
    rw (there, e)
      (elim (Bool-cases (ltb s 60)) [
        | inl less ↦ rw less (in_seconds (ground arith))
        | inr long ↦ elim (Bool-cases (ltb s 3600)) [
          | inl less ↦
              rw (long, less)
                (in_minutes (s / 60) (ground arith) (ground arith) (ground arith) (ground arith))
          | inr longer ↦ elim (Bool-cases (ltb s 86400)) [
            | inl less ↦
                rw (long, longer, less)
                  (in_hours (s / 3600) (ground arith) (ground arith) (ground arith) (ground arith))
            | inr longest ↦
                rw (long, longer, longest)
                  (in_days (s / 86400) (ground arith) (ground arith) (ground arith))
          ]
        ]
      ])
