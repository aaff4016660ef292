-- ===== src/Admin/Tests/Terminals.antt =====
-- A run of the model of the terminal (frontend/src/components/terminal-dialog.tsx) on concrete
-- input.
use icpc_controller.Prelude.{true, some, [], ◌∷◌, ◌≡◌, refl}
use icpc_controller.Prelude.Text.{codes}
use icpc_controller.Admin.Terminal.{
  Terminal, Input, open_session, on_link, send_input, set_up, show_device, first_terminal, link_up,
  device_shown, happened, Reach, start, further,
}
use icpc_controller.Admin.Terminal.Held.{IsHeld, Reach-IsHeld}

abbrev shown_state : Terminal
shown_state = show_device true (some 5) (first_terminal (codes "a"))

shown_current : shown_state.current ≡ some (open_session (codes "a") 5)
unfolding show_device first_terminal set_up
shown_current = refl

abbrev linked_state : Terminal
linked_state = record shown_state { current = some (on_link (open_session (codes "a") 5)) }

linked-Reach : Reach linked_state
linked-Reach =
    further (further (start (codes "a")) (device_shown true (some 5)))
      (happened shown_current (link_up (unfold open_session in refl)))

Reach-IsHeld_example : IsHeld (show_device true (some 6) linked_state)
Reach-IsHeld_example = Reach-IsHeld (further linked-Reach (device_shown true (some 6)))

-- What is typed goes to the socket only once it is open.
send_input_test :
    ((send_input (Input.typed_in (codes "ls")) (open_session (codes "a") 5)).sent ≡ [])
    × ((send_input (Input.typed_in (codes "ls")) (on_link (open_session (codes "a") 5))).sent
        ≡ Input.typed_in (codes "ls") ∷ [])
unfolding send_input open_session on_link
send_input_test = (refl, refl)
