-- ===== src/Admin/Terminal/Held.antt =====
-- Whom a terminal writes to over every run of the dialog (frontend/src/components/
-- terminal-dialog.tsx).
use icpc_controller.Prelude.{
  ℕ, Bool, true, false, Option, none, some, List, ◌≡◌, refl, sym, ap, subst, ◌∙◌, inl, inr, arith,
  All, All-append, Bool-cases,
}
use icpc_controller.Prelude.Sets.{text_eq}
use icpc_controller.Admin.Socket.{Ready}
use icpc_controller.Admin.Terminal.{
  Session, Terminal, open_session, link_is_open, closed_now, on_link, on_received, on_cut,
  send_input, dispose, disposed_one, session_for, set_up, same_device, show_device, show_room,
  first_terminal, Event, link_up, got, link_cut, keyed, resized, OldEvent, at_head, behind, Step,
  device_shown, room_shown, happened, happened_late, Reach, start, further,
}

abbrev pub may_open : Ready → Bool
may_open Ready.connecting = true
may_open Ready.opened = true
may_open Ready.closing = false
may_open Ready.closed = false

-- A session that was cleaned up: nothing is heard and its socket neither is open nor opens.
pub record IsOver (s : Session) : Type 0 where
  pub deaf : s.listening ≡ false
  pub gone : s.disposed ≡ true
  pub shut : may_open s.ready ≡ false

-- A session in use is for the device and the room that the dialog shows.
pub record IsFor (s : Terminal) (t : Session) : Type 0 where
  pub device : s.device ≡ some t.device
  pub room : t.room ≡ s.room
  pub hears : (t.listening ≡ true) × (t.disposed ≡ false)

pub record IsHeld (s : Terminal) : Type 0 where
  pub current : (t : Session) → s.current ≡ some t → IsFor s t
  pub old : All IsOver s.old

closed_now-may_open : (r : Ready) → may_open (closed_now r) ≡ false
closed_now-may_open Ready.connecting = refl
closed_now-may_open Ready.opened = refl
closed_now-may_open Ready.closing = refl
closed_now-may_open Ready.closed = refl

shut-link_is_open : (r : Ready) → may_open r ≡ false → link_is_open r ≡ false
shut-link_is_open Ready.connecting h = cc
shut-link_is_open Ready.opened h = cc
shut-link_is_open Ready.closing h = refl
shut-link_is_open Ready.closed h = refl

disposed_one-IsOver : (o : Option Session) → All IsOver (disposed_one o)
unfolding dispose
disposed_one-IsOver none = tt
disposed_one-IsOver (some s) =
    (record { deaf = refl; gone = refl; shut = closed_now-may_open s.ready }, tt)

event-IsOver : {s t : Session} → Event s t → IsOver s → IsOver t
unfolding on_link on_received on_cut
event-IsOver (link_up e) h = let shut = h.shut in absurd (ground arith)
event-IsOver (got text e) h = record { deaf = h.deaf; gone = h.gone; shut = h.shut }
event-IsOver (link_cut e) h = record { deaf = h.deaf; gone = h.gone; shut = refl }
event-IsOver (keyed text e) h = let gone = h.gone in absurd (ground arith)
event-IsOver (resized cols rows e) h = let deaf = h.deaf in absurd (ground arith)

old-IsOver : {ss ts : List Session} → OldEvent ss ts → All IsOver ss → All IsOver ts
old-IsOver (at_head e) h = (event-IsOver e h.0, h.1)
old-IsOver (behind e) h = (h.0, old-IsOver e h.1)

-- An event of a session keeps what it is for.
event-kept :
    {s t : Session}
    → Event s t
    → (t.device ≡ s.device)
      × (t.room ≡ s.room)
      × (t.listening ≡ s.listening)
      × (t.disposed ≡ s.disposed)
unfolding on_link on_received on_cut send_input
event-kept (link_up e) = (refl, refl, refl, refl)
event-kept (got text e) = (refl, refl, refl, refl)
event-kept (link_cut e) = (refl, refl, refl, refl)
event-kept {s} (keyed text e) = elim (Bool-cases (link_is_open s.ready)) [
  | inl open_now ↦ rw open_now (refl, refl, refl, refl)
  | inr other ↦ rw other (refl, refl, refl, refl)
]
event-kept {s} (resized cols rows e) = elim (Bool-cases (link_is_open s.ready)) [
  | inl open_now ↦ rw open_now (refl, refl, refl, refl)
  | inr other ↦ rw other (refl, refl, refl, refl)
]

session_for-IsFor :
    (host : Bool) (s : Terminal) (o : Option ℕ) (t : Session)
    → s.device ≡ o
    → session_for host s.room o ≡ some t
    → IsFor s t
unfolding open_session
session_for-IsFor host s none t d e = absurd (ground arith)
session_for-IsFor true s (some id) t d e =
    let same : open_session s.room id ≡ t = cc in
    subst (λ v. IsFor s v) same (record { device = d; room = refl; hears = (refl, refl) })
session_for-IsFor false s (some id) t d e = absurd (ground arith)

set_up-IsHeld : (host : Bool) (s : Terminal) → All IsOver s.old → IsHeld (set_up host s)
unfolding set_up
set_up-IsHeld host s h = record {
  current = λ t e.
      let f = session_for-IsFor host s s.device t refl e in
      record { device = f.device; room = f.room; hears = f.hears };
  old = All-append IsOver s.old (disposed_one s.current) h (disposed_one-IsOver s.current);
}

step-IsHeld : {s t : Terminal} → Step s t → IsHeld s → IsHeld t
unfolding show_device show_room
step-IsHeld {s} (device_shown host id) h = elim (Bool-cases (same_device id s.device)) [
  | inl same ↦ rw same h
  | inr other ↦ rw other (set_up-IsHeld host (record s { device = id }) h.old)
]
step-IsHeld {s} (room_shown host room) h = elim (Bool-cases (text_eq room s.room)) [
  | inl same ↦ rw same h
  | inr other ↦ rw other (set_up-IsHeld host (record s { room = room }) h.old)
]
step-IsHeld {s} (happened {t} {u} e event) h =
    let f = h.current t e in
    let (device, room, listening, disposed) = event-kept event in
    let next : IsFor s u = record {
      device = f.device ∙ ap some (sym device);
      room = room ∙ f.room;
      hears = (listening ∙ f.hears.0, disposed ∙ f.hears.1);
    } in
    record {
      current = λ v k.
          let same : u ≡ v = cc in
          let for = subst (λ w. IsFor s w) same next in
          record { device = for.device; room = for.room; hears = for.hears };
      old = h.old;
    }
step-IsHeld {s} (happened_late event) h = record {
  current =
      λ t e. let f = h.current t e in record { device = f.device; room = f.room; hears = f.hears };
  old = old-IsOver event h.old;
}

-- In every state of a run, whatever devices and rooms were shown before: the session in use is for
-- the device and the room that the dialog shows, and each one that was cleaned up hears nothing any
-- more, and its socket is closed or closing, so that nothing that is typed goes to another device.
pub Reach-IsHeld : {s : Terminal} → Reach s → IsHeld s
unfolding first_terminal
Reach-IsHeld (start room) = record { current = λ t e. absurd (ground arith); old = tt }
Reach-IsHeld (further r step) = step-IsHeld step (Reach-IsHeld r)
