-- ===== src/Admin/Snapshots/Listed.antt =====
-- Whose operations are listed for the active snapshot (frontend/src/components/snapshots.tsx).
use icpc_controller.Prelude.{
  ℕ, Bool, true, false, none, some, List, [], ◌∷◌, ◌++◌, ◌≡◌, refl, ap, inl, inr, arith, Bool-cases,
  is_empty,
}
use icpc_controller.Prelude.Text.{Text, codes}
use icpc_controller.Prelude.Sets.{text_eq}
use icpc_controller.Admin.Asked.{
  is_first, last_or, last_or-append, IsDue, IsDue-append, IsDue-answered,
}
use icpc_controller.Admin.Commands.{trim}
use icpc_controller.Admin.Tables.Work.{Op}
use icpc_controller.Admin.Snapshots.{
  get_active, get_ops, Snap, Snapshots, load, change_room, on_active, on_ops, fail_ops, on_event,
  type_name, enable, finish_snapshot, remove_op, first_snapshots, Step, loaded, room_changed,
  active_got, ops_got, ops_failed, notified, name_typed, enabled, finished, op_removed, Reach,
  start, further,
}

module _ (IsOf : Text × ℕ → List Op → Type 0) where
  -- Operations are answered in the order in which they were asked for, and none of these fails.
  abbrev pub in_turn : {s t : Snapshots} → Step IsOf s t → Bool
  in_turn {s} (ops_got from id ops k o) = is_first (from, id) s.asked
  in_turn (ops_failed from id k) = false
  in_turn loaded = true
  in_turn (room_changed room) = true
  in_turn (active_got active scope) = true
  in_turn (notified name) = true
  in_turn (name_typed text) = true
  in_turn (enabled confirmed k) = true
  in_turn (finished confirmed snap k) = true
  in_turn (op_removed confirmed snap op k) = true

  abbrev pub AllInTurn : {s : Snapshots} → Reach IsOf s → Type 0
  AllInTurn (start before room) = Unit
  AllInTurn (further r step) = AllInTurn r × (in_turn step ≡ true)

  -- What is due for the active snapshot: the operations that the room which was shown when it came
  -- lists for its number.
  abbrev pub IsListed : Snapshots → Type 0
  IsListed s = (snap : Snap) → s.active ≡ some snap → IsDue IsOf s.asked s.ops (s.asked_in, snap.id)

  -- The active snapshot that a change of the room asks for is asked from the room before, and its
  -- operations then from the new room.
  abbrev pub IsCrossed : Snapshots → Type 0
  IsCrossed s =
      (room scope : Text) (snap : Snap)
      → ((on_active (some snap) scope (change_room room s)).requests
          ≡ (s.requests ++ (s.room, get_active) ∷ []) ++ (room, get_ops snap.id) ∷ [])
        × (last_or (s.room, snap.id) (on_active (some snap) scope (change_room room s)).asked
            ≡ (room, snap.id))

  on_active-IsCrossed : (s : Snapshots) → IsCrossed s
  unfolding change_room on_active load
  on_active-IsCrossed s room scope snap =
      (refl, last_or-append (s.room, snap.id) (room, snap.id) s.asked)

  -- The handlers that only make requests.
  enable-IsListed : (confirmed : Bool) (s : Snapshots) → IsListed s → IsListed (enable confirmed s)
  unfolding enable load
  enable-IsListed true s h = elim (Bool-cases (is_empty (trim s.name))) [
    | inl blank ↦ rw blank h
    | inr given ↦ rw given h
  ]
  enable-IsListed false s h = elim (Bool-cases (is_empty (trim s.name))) [
    | inl blank ↦ rw blank h
    | inr given ↦ rw given h
  ]

  on_event-IsListed : (name : Text) (s : Snapshots) → IsListed s → IsListed (on_event name s)
  unfolding on_event load
  on_event-IsListed name s h = elim (Bool-cases (text_eq name (codes "snapshot_updated"))) [
    | inl known ↦ rw known h
    | inr other ↦ rw other h
  ]

  step-IsListed :
      {s t : Snapshots} (step : Step IsOf s t) → in_turn step ≡ true → IsListed s → IsListed t
  unfolding load change_room on_active on_ops fail_ops type_name finish_snapshot remove_op
  step-IsListed loaded k h = h
  step-IsListed (room_changed room) k h = h
  step-IsListed (active_got none scope) k h = λ snap e. absurd (ground arith)
  step-IsListed {s} (active_got (some new) scope) k h = λ snap e.
      let number : new.id ≡ snap.id = ground arith in
      IsDue-append IsOf s.asked s.ops (s.room, new.id) (s.room, snap.id)
        (ap (λ n. (s.room, n)) number)
  step-IsListed {s} (ops_got from id ops a o) k h = λ snap e.
      IsDue-answered IsOf s.asked s.ops ops (from, id) (s.asked_in, snap.id) k o (h snap e)
  step-IsListed (ops_failed from id a) k h = absurd (ground arith)
  step-IsListed {s} (notified name) k h = on_event-IsListed name s h
  step-IsListed (name_typed text) k h = h
  step-IsListed {s} (enabled confirmed a) k h = enable-IsListed confirmed s h
  step-IsListed (finished true snap a) k h = h
  step-IsListed (finished false snap a) k h = h
  step-IsListed (op_removed true snap op a) k h = h
  step-IsListed (op_removed false snap op a) k h = h

  run-IsListed : {s : Snapshots} (r : Reach IsOf s) → AllInTurn r → IsListed s
  unfolding first_snapshots change_room load
  run-IsListed (start before room) k = λ snap e. absurd (ground arith)
  run-IsListed (further r step) k = step-IsListed step k.1 (run-IsListed r k.0)

  -- In every run, changes of the room included, in which the operations are answered in the order
  -- in which they were asked for, and none of those requests fails, however the answers with the
  -- active snapshot come: once nothing is asked for any more, the list has what the room that was
  -- shown when the active snapshot came lists for the snapshot's number, and while something is, the
  -- last answer that is due has it. That room need not be the snapshot's own: a change of the room
  -- asks the room before for the active snapshot and, where its answer is the next event, the new
  -- room for the operations of that number.
  pub Reach-IsListed : {s : Snapshots} (r : Reach IsOf s) → AllInTurn r → IsListed s × IsCrossed s
  Reach-IsListed {s} r k = (run-IsListed r k, on_active-IsCrossed s)
