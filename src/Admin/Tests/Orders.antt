-- ===== src/Admin/Tests/Orders.antt =====
-- Runs of the models of the statistics and of the snapshots (frontend/src/state.tsx,
-- components/snapshots.tsx) on concrete input.
use icpc_controller.Prelude.{ℕ, some, List, [], ◌∷◌, ◌≡◌, refl, arith}
use icpc_controller.Prelude.Text.{Text, codes}
use icpc_controller.Prelude.Sets.{text_eq}
use icpc_controller.Admin.Asked.{answered}
use icpc_controller.Admin.Stats.{
  Stats, first_stats, ask_status, draw_stats, on_status, status_got, start, further,
}
use icpc_controller.Admin.Stats.{Reach as StatsReach}
use icpc_controller.Admin.Stats.Summed.{IsSummed, Reach-IsSummed}
use icpc_controller.Admin.Tables.Work.{Op}
use icpc_controller.Admin.Snapshots.{
  Snap, Snapshots, first_snapshots, change_room, load, on_active, on_ops, active_got, ops_got,
  ask_for,
}
use icpc_controller.Admin.Snapshots
use icpc_controller.Admin.Snapshots.Listed.{IsListed, IsCrossed, Reach-IsListed}

abbrev in_cloud : Stats
in_cloud = on_status (codes "cloud") [] (first_stats [] (codes "rooms"))

asked_status : (first_stats [] (codes "rooms")).status_asked ≡ 1
unfolding first_stats draw_stats ask_status text_eq
asked_status = refl

in_cloud-Reach : StatsReach in_cloud
in_cloud-Reach =
    further (start [] (codes "rooms"))
      (status_got (codes "cloud") [] (let one = asked_status in omega arith))

Reach-IsSummed_example : IsSummed in_cloud
Reach-IsSummed_example =
    Reach-IsSummed
      (further (start [] (codes "rooms"))
        (status_got (codes "cloud") [] (let one = asked_status in omega arith)))
      (tt, refl)

abbrev snap : Snap
snap = record { id = 2; name = codes "final"; created_at = []; op_count = 1 }

abbrev op : Op
op = record { id = 9; kind = codes "wol"; summary = []; delivered = 0 }

abbrev IsOf : Text × ℕ → List Op → Type 0
IsOf d ops = d.1 ≡ 2

abbrev hall : Text
hall = codes "a"

abbrev active_state : Snapshots
active_state = on_active (some snap) (codes "room") (first_snapshots [] hall)

abbrev listed_state : Snapshots
listed_state = on_ops hall 2 (op ∷ []) active_state

Reach-IsListed_example : IsListed IsOf listed_state × IsCrossed IsOf listed_state
unfolding on_active first_snapshots load answered change_room text_eq
Reach-IsListed_example =
    Reach-IsListed IsOf
      (Snapshots.further
        (Snapshots.further (Snapshots.start [] hall) (active_got (some snap) (codes "room")))
        (ops_got hall 2 (op ∷ []) refl refl))
      ((tt, refl), refl)
