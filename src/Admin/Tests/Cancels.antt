-- ===== src/Admin/Tests/Cancels.antt =====
-- A run of the model of the commands page over changes of the room (frontend/src/pages/
-- commands.tsx) on concrete input.
use icpc_controller.Prelude.{some, List, [], ◌∷◌, ◌≡◌, refl}
use icpc_controller.Prelude.Text.{codes}
use icpc_controller.Prelude.Sets.{text_eq}
use icpc_controller.Prelude.Maps.{set}
use icpc_controller.Admin.Commands.{Child, click_row, on_created, next_rows}
use icpc_controller.Admin.History.{
  get_presets, cancel_in, RoomRun, first_run, load_room, on_answer, cancel, answered, row_clicked,
  Reach, start, further,
}
use icpc_controller.Admin.History.Ends.{Ends}

abbrev answer : List Child
answer = record { id = 8; target_id = some 2; status = codes "dispatched"; error_output = [] } ∷ []

abbrev shown_run : RoomRun
shown_run = on_answer (codes "a") answer 1 (first_run (codes "a") [])

abbrev clicked_run : RoomRun
clicked_run = record shown_run { panel = click_row 2 shown_run.panel }

abbrev clicked-Reach : Reach clicked_run
clicked-Reach =
    further (further (start (codes "a") []) (answered (codes "a") answer 1)) (row_clicked 2)

-- Behind a change of the room the end of a command goes to the other room.
cancel_test :
    (cancel (load_room (codes "b") clicked_run)).sent
    ≡ ([], get_presets) ∷ (codes "a", get_presets) ∷ (codes "b", cancel_in (codes "a") 8) ∷ []
unfolding cancel load_room on_answer first_run click_row on_created next_rows set text_eq
cancel_test = refl
