-- ===== src/Admin/Socket.antt =====
-- The socket for events of `AppProvider` (the effect with `open` in frontend/src/state.tsx) and
-- the listeners that `onAdmin` adds.
pub mod Live
pub mod Ended
use icpc_controller.Prelude.{
  ℕ, suc, ◌+◌, Bool, true, false, Option, none, some, List, [], ◌∷◌, ◌++◌, ◌≡◌, ◌==◌, not, keep,
  if◌then◌else◌, any,
}

-- A socket that is closed by the page is closing until its event for it.
pub data Ready : Type 0 where
  connecting opened closing closed : Ready

-- The state of the effect: its socket, whether its timer is pending, whether it was cleaned up;
-- `connected` of the page; the listeners by number; how many sockets were made; and how many of
-- them were replaced before they were closed.
pub record Link : Type 0 where
  pub socket : Option Ready
  pub timer : Bool
  pub stopped : Bool
  pub connected : Bool
  pub listeners : List ℕ
  pub made : ℕ
  pub replaced : ℕ

abbrev pub is_closed : Option Ready → Bool
is_closed none = true
is_closed (some Ready.closed) = true
is_closed (some Ready.closing) = false
is_closed (some Ready.connecting) = false
is_closed (some Ready.opened) = false

unfoldable pub open_socket : Link → Link
open_socket s = if s.stopped then s else record s {
  socket = some Ready.connecting;
  made = suc s.made;
  replaced = if is_closed s.socket then s.replaced else suc s.replaced;
}

unfoldable pub on_socket_open : Link → Link
on_socket_open s = record s { socket = some Ready.opened; connected = true }

unfoldable pub on_socket_close : Link → Link
on_socket_close s = record s {
  socket = some Ready.closed;
  connected = false;
  timer = if s.stopped then s.timer else true;
}

-- The timer has run out.
unfoldable pub on_timer : Link → Link
on_timer s = open_socket (record s { timer = false })

-- socket?.close(); a socket that is closed stays so.
abbrev pub close : Option Ready → Option Ready
close none = none
close (some Ready.closed) = some Ready.closed
close (some Ready.closing) = some Ready.closing
close (some Ready.connecting) = some Ready.closing
close (some Ready.opened) = some Ready.closing

unfoldable pub clean_up : Link → Link
clean_up s = record s { stopped = true; timer = false; socket = close s.socket }

-- `onAdmin` adds a listener to the set; its result takes it out.
unfoldable pub add_listener : ℕ → Link → Link
add_listener fn s = record s {
  listeners = if any (λ x. fn == x) s.listeners then s.listeners else s.listeners ++ fn ∷ [];
}

unfoldable pub remove_listener : ℕ → Link → Link
remove_listener fn s = record s { listeners = keep (λ x. not (fn == x)) s.listeners }

unfoldable pub mount : Link
mount = open_socket (record {
  socket = none;
  timer = false;
  stopped = false;
  connected = false;
  listeners = [];
  made = 0;
  replaced = 0;
})

-- What the browser may do: a socket opens only while it connects, and closes at any time before
-- it is closed; the timer runs out only while it is pending.
pub data Step (s : Link) : Link → Type 0 where
  socket_opened : s.socket ≡ some Ready.connecting → Step s (on_socket_open s)
  socket_closed : is_closed s.socket ≡ false → Step s (on_socket_close s)
  timed_out : s.timer ≡ true → Step s (on_timer s)
  cleaned_up : Step s (clean_up s)
  listened : (fn : ℕ) → Step s (add_listener fn s)
  unlistened : (fn : ℕ) → Step s (remove_listener fn s)

pub data Reach : Link → Type 0 where
  start : Reach mount
  next : {s t : Link} → Reach s → Step s t → Reach t

-- A run on from a state.
pub data After (s : Link) : Link → Type 0 where
  here : After s s
  later : {t u : Link} → After s t → Step t u → After s u
