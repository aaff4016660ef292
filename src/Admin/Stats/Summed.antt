-- ===== src/Admin/Stats/Summed.antt =====
-- What the statistics show in the view of all rooms (frontend/src/state.tsx).
use icpc_controller.Prelude.{Bool, true, not, ◌≡◌, refl, inl, inr, arith, Bool-cases}
use icpc_controller.Prelude.Sets.{text_eq}
use icpc_controller.Admin.Overview.{online_devices, total_devices}
use icpc_controller.Admin.Stats.{
  Stats, is_cloud, in_all, ask_status, refresh_rooms, draw_stats, first_stats, change_room,
  change_page, on_status, on_rooms, fail_rooms, on_stats, fail_stats, Step, room_changed,
  page_changed, refreshed, status_got, rooms_got, rooms_failed, stats_got, stats_failed, Reach,
  start, further,
}

-- No answer with the statistics of one room comes in the view of all rooms.
abbrev pub is_timely : {s t : Stats} → Step s t → Bool
is_timely {s} (stats_got online total k) = not (in_all s)
is_timely (room_changed id) = true
is_timely (page_changed page) = true
is_timely refreshed = true
is_timely (status_got mode connection k) = true
is_timely (rooms_got list k) = true
is_timely (rooms_failed k) = true
is_timely (stats_failed k) = true

abbrev pub AllTimely : {s : Stats} → Reach s → Type 0
AllTimely (start room_id page) = Unit
AllTimely (further r step) = AllTimely r × (is_timely step ≡ true)

-- The figures are the sums of the rooms.
pub record IsSum (s : Stats) : Type 0 where
  pub online : s.online ≡ online_devices s.rooms
  pub total : s.total ≡ total_devices s.rooms

abbrev pub IsSummed : Stats → Type 0
IsSummed s = in_all s ≡ true → IsSum s

draw_stats-IsSummed : (s : Stats) → IsSummed (draw_stats s)
unfolding draw_stats
draw_stats-IsSummed s = elim (Bool-cases (in_all s)) [
  | inl all ↦ rw all (λ h. record { online = refl; total = refl })
  | inr room ↦ rw room (λ h. absurd (ground arith))
]

refresh_rooms-IsSummed : (s : Stats) → IsSummed s → IsSummed (refresh_rooms s)
unfolding refresh_rooms
refresh_rooms-IsSummed s h = elim (Bool-cases (is_cloud s)) [
  | inl cloud ↦
      rw cloud (λ k. let e = h (ground arith) in record { online = e.online; total = e.total })
  | inr other ↦ rw other h
]

step-IsSummed : {s t : Stats} (step : Step s t) → is_timely step ≡ true → IsSummed s → IsSummed t
unfolding change_room change_page on_status on_rooms fail_rooms on_stats fail_stats
step-IsSummed {s} (room_changed id) k h = elim (Bool-cases (text_eq id s.room_id)) [
  | inl same ↦ rw same h
  | inr other ↦ rw other (draw_stats-IsSummed (ask_status (record s { room_id = id })))
]
step-IsSummed {s} (page_changed page) k h = elim (Bool-cases (text_eq page s.page)) [
  | inl same ↦ rw same h
  | inr other ↦ rw other (draw_stats-IsSummed (record s { page = page }))
]
step-IsSummed {s} refreshed k h = refresh_rooms-IsSummed s h
step-IsSummed {s} (status_got mode connection a) k h = elim (Bool-cases (text_eq mode s.mode)) [
  | inl same ↦ rw same (λ all. let e = h all in record { online = e.online; total = e.total })
  | inr other ↦ rw other (draw_stats-IsSummed _)
]
step-IsSummed {s} (rooms_got list a) k h = draw_stats-IsSummed _
step-IsSummed (rooms_failed a) k h =
    λ all. let e = h all in record { online = e.online; total = e.total }
step-IsSummed (stats_got online total a) k h = λ all. absurd (ground arith)
step-IsSummed (stats_failed a) k h =
    λ all. let e = h all in record { online = e.online; total = e.total }

-- In every run in which no answer with the statistics of one room comes while all rooms are shown,
-- in whatever order the mode, the rooms and the pages change otherwise: in the view of all rooms
-- the figures of the head are the numbers of the connected devices and of all devices of the rooms.
pub Reach-IsSummed : {s : Stats} (r : Reach s) → AllTimely r → IsSummed s
unfolding first_stats
Reach-IsSummed (start room_id page) k = draw_stats-IsSummed _
Reach-IsSummed (further r step) k = step-IsSummed step k.1 (Reach-IsSummed r k.0)
