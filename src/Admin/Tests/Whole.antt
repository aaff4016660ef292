-- ===== src/Admin/Tests/Whole.antt =====
-- Runs of the model of the application as a whole (frontend/src/state.tsx, App.tsx) on concrete
-- input.
use icpc_controller.Prelude.{◌≤◌, true, some, ◌≡◌, refl, inl, arith, map}
use icpc_controller.Prelude.Text.{codes}
use icpc_controller.Prelude.Sets.{includes, text_eq}
use icpc_controller.Prelude.Uri.{decode, tokens, characters}
use icpc_controller.Admin.Routes.{pages, room_from_path, after_prefix, segment}
use icpc_controller.Admin.Address.InSync.{hash_of}
use icpc_controller.Admin.Menu.{page_titles}
use icpc_controller.Admin.App.{
  App, enter, go_to, load_app, Reach, loaded, further, went, entered, router,
}
use icpc_controller.Admin.App.Parts.{IsSound, is_named, Reach-IsSound, Reach-page, drawn_page}
use icpc_controller.Admin.Socket.{
  mount, on_socket_close, clean_up, open_socket, After, here, later, socket_closed,
}
use icpc_controller.Admin.Socket
use icpc_controller.Admin.Socket.Ended.{browser_events, browser_events-clean_up}

read_room_a : room_from_path (codes "/room/a") ≡ some (codes "a")
unfolding room_from_path after_prefix segment decode tokens characters
read_room_a = refl

abbrev loaded_app : App
loaded_app = load_app (codes "/room/a") (codes "#power") (codes "a")

loaded-Reach : Reach loaded_app
loaded-Reach =
    loaded (codes "/room/a") (codes "#power") (codes "a")
      (λ e. cc, (λ e. cc, (λ e. cc, (λ e. cc, (λ e. cc, (λ e. cc, (λ e. cc, tt)))))))
      (hash_of 112 (codes "ower")) read_room_a (inl (omega arith), tt)

checkin_known : includes (codes "checkin") pages ≡ true
unfolding includes pages text_eq
checkin_known = refl

abbrev used_app : App
used_app = enter (codes "b") (go_to (codes "checkin") loaded_app)

used-Reach : Reach used_app
used-Reach =
    further (further loaded-Reach (went (codes "checkin") checkin_known))
      (entered (codes "b") (inl (omega arith), tt))

Reach-IsSound_example : IsSound used_app (is_named used-Reach)
Reach-IsSound_example = Reach-IsSound used-Reach

Reach-page_example :
    (includes used_app.address.page pages ≡ true)
    × (drawn_page (router used_app.address.page) ≡ used_app.address.page)
    × (includes used_app.address.page (map (λ entry. entry.0) page_titles) ≡ true)
Reach-page_example = Reach-page used-Reach

abbrev closing_run : After (clean_up mount) (on_socket_close (clean_up mount))
unfolding clean_up mount open_socket
closing_run = later here (socket_closed refl)

browser_events-clean_up_example : browser_events closing_run ≤ 1
browser_events-clean_up_example = browser_events-clean_up Socket.start closing_run
