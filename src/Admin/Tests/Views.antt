-- ===== src/Admin/Tests/Views.antt =====
-- Runs of the models of the application's state (frontend/src/state.tsx) on concrete input.
use icpc_controller.Prelude.{ℕ, true, some, [], ◌∷◌, ◌≡◌, refl, inl, arith}
use icpc_controller.Prelude.Sets.{text_eq}
use icpc_controller.Prelude.Text.{codes}
use icpc_controller.Admin.Routes.{room_from_path, after_prefix, segment}
use icpc_controller.Prelude.Uri.{decode, tokens, characters}
use icpc_controller.Admin.Address.{Address, set_room, first_address, enter_room}
use icpc_controller.Admin.Address.InSync.{
  InSync, hash_of, room_set, start, further, Reach, Reach-InSync, enter_room_lem,
}
use icpc_controller.Admin.Rooms.{
  change_room, set_cloud, first_rooms, effects, set_api_room, load_devices, loaded, deployed,
  room_changed,
}
use icpc_controller.Admin.Rooms.{Reach as RoomsReach, further as after_load}
use icpc_controller.Admin.Rooms.Routed.{IsRouted, Reach-IsRouted}
use icpc_controller.Admin.Notices.{
  Toast, Tone, Notices, toast, confirm, no_notices, After, here, later, toasted, confirmed,
  expire_all,
}
use icpc_controller.Admin.Notices.Settled.{expire_all-toasts}

abbrev at_start : Address
at_start = first_address (codes "/room/a") (codes "#power") (codes "a")

read_room : room_from_path (codes "/room/a") ≡ some (codes "a")
unfolding room_from_path after_prefix segment decode tokens characters
read_room = refl

started-Reach : Reach at_start
started-Reach =
    start (codes "/room/a") (codes "#power") (codes "a")
      (λ e. cc, (λ e. cc, (λ e. cc, (λ e. cc, (λ e. cc, (λ e. cc, (λ e. cc, tt)))))))
      (hash_of 112 (codes "ower")) read_room (inl (omega arith), tt)

Reach-InSync_example : InSync (set_room at_start.page [] at_start)
Reach-InSync_example = Reach-InSync (further started-Reach (room_set [] tt))

enter_room_lem_example :
    ((enter_room (codes "b") (codes "devices") at_start).page ≡ codes "devices")
    × ((enter_room (codes "b") (codes "devices") at_start).room_id ≡ codes "b")
    × (room_from_path (enter_room (codes "b") (codes "devices") at_start).path
        ≡ some at_start.room_id)
enter_room_lem_example =
    enter_room_lem (codes "b") (codes "devices") at_start (Reach-InSync started-Reach)
      (λ e. ground arith) (inl (omega arith), tt)

abbrev note : ℕ → Toast
note n = record { id = n; text = codes "done"; tone = Tone.ok }

abbrev asking : Notices
asking = confirm (toast (note 1) no_notices)

asking-After : After no_notices asking
asking-After = later (later here (toasted (note 1))) confirmed

expire_all-toasts_example : (expire_all asking.timers asking).toasts ≡ []
expire_all-toasts_example = expire_all-toasts asking-After

asking_first : asking.ask ≡ some 0
unfolding confirm toast
asking_first = refl

entered-Reach : RoomsReach (set_cloud true (first_rooms []))
entered-Reach = after_load (loaded []) (deployed true)

Reach-IsRouted_example : IsRouted (change_room (codes "b") (set_cloud true (first_rooms [])))
Reach-IsRouted_example = Reach-IsRouted (after_load entered-Reach (room_changed (codes "b")))

-- The request for the devices of a room that is entered from the view of all goes to none.
change_room_test : (change_room (codes "b") (set_cloud true (first_rooms []))).loads ≡ [] ∷ [] ∷ []
unfolding change_room set_cloud effects set_api_room load_devices first_rooms text_eq
change_room_test = refl
