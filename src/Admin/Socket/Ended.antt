-- ===== src/Admin/Socket/Ended.antt =====
-- How the runs of the socket for events come to an end (frontend/src/state.tsx).
use icpc_controller.Prelude.{ℕ, ◌+◌, ◌≤◌, true, Option, none, some, ◌≡◌, refl, arith, if◌then◌else◌}
use icpc_controller.Admin.Socket.{
  Ready, Link, is_closed, open_socket, on_socket_open, on_socket_close, on_timer, close, clean_up,
  add_listener, remove_listener, Step, socket_opened, socket_closed, timed_out, cleaned_up,
  listened, unlistened, Reach, next, After, here, later,
}
use icpc_controller.Admin.Socket.Live.{IsLinked, Reach-IsLinked, After-IsLinked, After-made}

-- How many steps of a run are events of the browser.
abbrev pub of_browser : {s t : Link} → Step s t → ℕ
of_browser (socket_opened e) = 1
of_browser (socket_closed e) = 1
of_browser (timed_out e) = 1
of_browser cleaned_up = 0
of_browser (listened fn) = 0
of_browser (unlistened fn) = 0

abbrev pub browser_events : {s t : Link} → After s t → ℕ
browser_events here = 0
browser_events (later r step) = browser_events r + of_browser step

-- How many events a socket that was closed by the page has ahead.
abbrev rank : Option Ready → ℕ
rank o = if is_closed o then 0 else 1

rank-close : (o : Option Ready) → rank (close o) ≤ rank o
rank-close none = omega arith
rank-close (some Ready.connecting) = omega arith
rank-close (some Ready.opened) = omega arith
rank-close (some Ready.closing) = omega arith
rank-close (some Ready.closed) = omega arith

step-rank :
    {s t : Link} (step : Step s t)
    → IsLinked s
    → s.stopped ≡ true
    → of_browser step + rank t.socket ≤ rank s.socket
unfolding on_socket_open on_socket_close on_timer open_socket clean_up add_listener remove_listener
step-rank (socket_opened e) h k = let q = h.quiet k in absurd (ground arith)
step-rank (socket_closed e) h k = ground arith
step-rank (timed_out e) h k = let q = h.quiet k in absurd (ground arith)
step-rank {s} cleaned_up h k = let le = rank-close s.socket in omega arith
step-rank (listened fn) h k = omega arith
step-rank (unlistened fn) h k = omega arith

After-rank :
    {s t : Link} (run : After s t)
    → IsLinked s
    → s.stopped ≡ true
    → browser_events run + rank t.socket ≤ rank s.socket
After-rank here h k = omega arith
After-rank (later r step) h k =
    let before = After-rank r h k in
    let one = step-rank step (After-IsLinked r h) (After-made r h k).0 in omega arith

rank_one : (o : Option Ready) → rank o ≤ 1
rank_one o = ground arith

-- From the clean-up on, the browser has one event at most for the effect, however the listeners
-- come and go: the runs of its events end.
pub browser_events-clean_up :
    {s t : Link} → Reach s → (run : After (clean_up s) t) → browser_events run ≤ 1
unfolding clean_up
browser_events-clean_up {s} r run =
    let ranked = After-rank run (Reach-IsLinked (next r cleaned_up)) refl in
    let bound = rank_one (close s.socket) in omega arith
