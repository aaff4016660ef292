-- ===== src/Admin/Devices/Matched.antt =====
-- Whose events stand beside the device that is shown (frontend/src/pages/devices.tsx).
use icpc_controller.Prelude.{
  ℕ, Bool, true, false, Option, none, some, List, [], ◌∷◌, ◌≡◌, refl, sym, ap, ◌∙◌, arith, All,
  All-snoc, is_empty,
}
use icpc_controller.Prelude.Text.{Text}
use icpc_controller.Admin.Asked.{
  is_first, IsDue, IsDue-append, IsDue-answered, is_asked-All, answered-All,
}
use icpc_controller.Admin.Devices.{
  Event, Machine, Devices, Step, Reach, first, further, first_devices, change_room, open_device,
  on_device, on_events, fail_device, fail_events, close_detail, delete_shown, delete_record,
  reset_numbers, open_terminal, close_terminal, search_for, room_changed, opened, device_got,
  events_got, device_failed, events_failed, detail_closed, record_deleted, numbers_reset,
  terminal_opened, terminal_closed, searched,
}

none-All : {A : Type 0} (P : A → Type 0) (xs : List A) → is_empty xs ≡ true → All P xs
none-All P [] e = tt
none-All P (x ∷ xs) e = absurd (ground arith)

module _ {Number : Type 0} (IsOf : Text × ℕ → List Event → Type 0) where
  -- Events are answered in the order in which they were asked for, none of these requests fails,
  -- and the room changes only while no device itself is waited for.
  abbrev pub in_turn : {s t : Devices Number} → Step Number IsOf s t → Bool
  in_turn {s} (room_changed room) = is_empty s.asked
  in_turn {s} (events_got from id events k o) = is_first (from, id) s.asked_events
  in_turn (events_failed from id message k) = false
  in_turn (opened id) = true
  in_turn (device_got from id device k e) = true
  in_turn (device_failed from id message k) = true
  in_turn detail_closed = true
  in_turn (record_deleted confirmed) = true
  in_turn (numbers_reset confirmed) = true
  in_turn terminal_opened = true
  in_turn terminal_closed = true
  in_turn (searched query) = true

  abbrev pub AllInTurn : {s : Devices Number} → Reach Number IsOf s → Type 0
  AllInTurn (first room) = Unit
  AllInTurn (further r step) = AllInTurn r × (in_turn step ≡ true)

  -- The events are due for the device that is shown and the room that it is from, and the devices
  -- that are waited for were asked from the room of the moment.
  pub record IsMatched (s : Devices Number) : Type 0 where
    pub due :
        (m : Machine Number)
        → s.detail ≡ some m
        → IsDue IsOf s.asked_events s.events (s.shown_in, m.assigned_id)
    pub here : All (λ k. k.0 ≡ s.room) s.asked

  delete_shown-IsMatched :
      (shown : Option (Machine Number)) (confirmed : Bool) (s : Devices Number)
      → IsMatched s
      → IsMatched (delete_shown Number shown confirmed s)
  unfolding delete_shown
  delete_shown-IsMatched none confirmed s h = h
  delete_shown-IsMatched (some device) true s h = record {
    due = λ m eq. absurd (ground arith);
    here = h.here;
  }
  delete_shown-IsMatched (some device) false s h = h

  step-IsMatched :
      {s t : Devices Number} (step : Step Number IsOf s t)
      → in_turn step ≡ true
      → IsMatched s
      → IsMatched t
  unfolding change_room open_device on_device on_events fail_device fail_events close_detail
      delete_record delete_shown reset_numbers open_terminal close_terminal search_for
  step-IsMatched {s} (room_changed room) k h = record {
    due = h.due;
    here = none-All (λ x. x.0 ≡ room) s.asked k;
  }
  step-IsMatched {s} (opened id) k h = record {
    due = h.due;
    here = All-snoc (λ x. x.0 ≡ s.room) (s.room, id) s.asked refl h.here;
  }
  step-IsMatched {s} (device_got from id device a e) k h =
      let home = is_asked-All (λ x. x.0 ≡ s.room) (from, id) s.asked h.here a in
      record {
        due = λ m eq.
            let number : id ≡ m.assigned_id = ground arith in
            IsDue-append IsOf s.asked_events s.events (s.room, id) (from, m.assigned_id)
              (ap (λ r. (r, id)) (sym home) ∙ ap (λ n. (from, n)) number);
        here = answered-All (λ x. x.0 ≡ s.room) (from, id) s.asked h.here;
      }
  step-IsMatched {s} (events_got from id events a o) k h = record {
    due = λ m eq.
        IsDue-answered IsOf s.asked_events s.events events (from, id) (s.shown_in, m.assigned_id) k
          o (h.due m eq);
    here = h.here;
  }
  step-IsMatched {s} (device_failed from id message a) k h = record {
    due = h.due;
    here = answered-All (λ x. x.0 ≡ s.room) (from, id) s.asked h.here;
  }
  step-IsMatched (events_failed from id message a) k h = absurd (ground arith)
  step-IsMatched detail_closed k h = record { due = λ m eq. absurd (ground arith); here = h.here }
  step-IsMatched {s} (record_deleted confirmed) k h = delete_shown-IsMatched s.detail confirmed s h
  step-IsMatched (numbers_reset true) k h = record { due = h.due; here = h.here }
  step-IsMatched (numbers_reset false) k h = h
  step-IsMatched terminal_opened k h = record { due = h.due; here = h.here }
  step-IsMatched terminal_closed k h = record { due = h.due; here = h.here }
  step-IsMatched (searched query) k h = record { due = h.due; here = h.here }

  -- In every run, changes of the room included, in which the room changes only while no answer for
  -- a device itself is waited for, the events of devices are answered in the order in which they
  -- were asked for, and none of those requests fails: where a device is shown and no events are
  -- asked for any more, the events beside it are its own, of the room that the device is from, and
  -- while some are, the last answer that is due has them.
  pub Reach-IsMatched : {s : Devices Number} (r : Reach Number IsOf s) → AllInTurn r → IsMatched s
  unfolding first_devices
  Reach-IsMatched (first room) k = record { due = λ m eq. absurd (ground arith); here = tt }
  Reach-IsMatched (further r step) k = step-IsMatched step k.1 (Reach-IsMatched r k.0)
