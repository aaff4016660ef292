-- ===== src/Admin/Terminal.antt =====
-- The dialog with the terminal of a device (`TerminalDialog` of frontend/src/components/
-- terminal-dialog.tsx): its effect makes a terminal and a socket for each device and room.
pub mod Held
use icpc_controller.Prelude.{
  ℕ, Bool, true, false, ◌&&◌, Option, none, some, List, [], ◌∷◌, ◌++◌, ◌≡◌, ◌==◌, if◌then◌else◌,
}
use icpc_controller.Prelude.Text.{Text}
use icpc_controller.Prelude.Sets.{text_eq}
use icpc_controller.Admin.Socket.{Ready, is_closed, close}

-- What is written to the terminal: the line for a socket that opened, what came, and the line for
-- one that closed.
pub data Output : Type 0 where
  linked : ℕ → Output
  received : Text → Output
  cut_off : Output

-- What is sent: what was typed, and the size of the terminal in columns and rows.
pub data Input : Type 0 where
  typed_in : Text → Input
  resized_to : ℕ → ℕ → Input

-- What one run of the effect made.
pub record Session : Type 0 where
  pub device : ℕ
  pub room : Text
  pub ready : Ready
  pub listening : Bool
  pub disposed : Bool
  pub written : List Output
  pub sent : List Input

-- The dialog; `old` are the sessions that were cleaned up.
pub record Terminal : Type 0 where
  pub device : Option ℕ
  pub room : Text
  pub current : Option Session
  pub old : List Session

unfoldable pub open_session : Text → ℕ → Session
open_session room id = record {
  device = id;
  room = room;
  ready = Ready.connecting;
  listening = true;
  disposed = false;
  written = [];
  sent = [];
}

-- socket.readyState === WebSocket.OPEN
abbrev pub link_is_open : Ready → Bool
link_is_open Ready.connecting = false
link_is_open Ready.opened = true
link_is_open Ready.closing = false
link_is_open Ready.closed = false

abbrev pub closed_now : Ready → Ready
closed_now Ready.connecting = Ready.closing
closed_now Ready.opened = Ready.closing
closed_now Ready.closing = Ready.closing
closed_now Ready.closed = Ready.closed

unfoldable pub on_link : Session → Session
on_link s = record s { ready = Ready.opened; written = s.written ++ Output.linked s.device ∷ [] }

unfoldable pub on_received : Text → Session → Session
on_received text s = record s { written = s.written ++ Output.received text ∷ [] }

unfoldable pub on_cut : Session → Session
on_cut s = record s { ready = Ready.closed; written = s.written ++ Output.cut_off ∷ [] }

unfoldable pub send_input : Input → Session → Session
send_input input s = if link_is_open s.ready then record s { sent = s.sent ++ input ∷ [] } else s

-- The clean-up of the effect.
unfoldable pub dispose : Session → Session
dispose s = record s { listening = false; ready = closed_now s.ready; disposed = true }

abbrev pub disposed_one : Option Session → List Session
disposed_one none = []
disposed_one (some s) = dispose s ∷ []

abbrev pub session_for : Bool → Text → Option ℕ → Option Session
session_for host room none = none
session_for host room (some id) = if host then some (open_session room id) else none

-- The effect, for another device or room; `host` is whether its element is there by then.
unfoldable pub set_up : Bool → Terminal → Terminal
set_up host s = record s {
  current = session_for host s.room s.device;
  old = s.old ++ disposed_one s.current;
}

abbrev pub same_device : Option ℕ → Option ℕ → Bool
same_device none none = true
same_device none (some b) = false
same_device (some a) none = false
same_device (some a) (some b) = a == b

unfoldable pub show_device : Bool → Option ℕ → Terminal → Terminal
show_device host id s =
    if same_device id s.device then s else set_up host (record s { device = id })

unfoldable pub show_room : Bool → Text → Terminal → Terminal
show_room host room s = if text_eq room s.room then s else set_up host (record s { room = room })

unfoldable pub first_terminal : Text → Terminal
first_terminal room = record { device = none; room = room; current = none; old = [] }

-- What may happen to a session: its socket opens while it connects, gets messages while it is
-- open, and closes at any time before it is closed; the keyboard and the size of the window are
-- heard until the clean-up.
pub data Event (s : Session) : Session → Type 0 where
  link_up : s.ready ≡ Ready.connecting → Event s (on_link s)
  got : (text : Text) → link_is_open s.ready ≡ true → Event s (on_received text s)
  link_cut : is_closed (some s.ready) ≡ false → Event s (on_cut s)
  keyed : (text : Text) → s.disposed ≡ false → Event s (send_input (Input.typed_in text) s)
  resized :
      (cols rows : ℕ) → s.listening ≡ true → Event s (send_input (Input.resized_to cols rows) s)

-- An event of one of the sessions that were cleaned up.
pub data OldEvent : List Session → List Session → Type 0 where
  at_head : {s t : Session} {rest : List Session} → Event s t → OldEvent (s ∷ rest) (t ∷ rest)
  behind :
      {s : Session} {rest after : List Session}
      → OldEvent rest after
      → OldEvent (s ∷ rest) (s ∷ after)

pub data Step (s : Terminal) : Terminal → Type 0 where
  device_shown : (host : Bool) (id : Option ℕ) → Step s (show_device host id s)
  room_shown : (host : Bool) (room : Text) → Step s (show_room host room s)
  happened :
      {t u : Session} → s.current ≡ some t → Event t u → Step s (record s { current = some u })
  happened_late : {after : List Session} → OldEvent s.old after → Step s (record s { old = after })

pub data Reach : Terminal → Type 0 where
  start : (room : Text) → Reach (first_terminal room)
  further : {s t : Terminal} → Reach s → Step s t → Reach t
