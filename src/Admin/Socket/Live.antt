-- ===== src/Admin/Socket/Live.antt =====
-- What holds of the socket for events over every run (frontend/src/state.tsx).
use icpc_controller.Prelude.{
  Bool, true, false, not, Option, none, some, ◌≡◌, refl, inl, inr, arith, ◌∙◌, Bool-cases,
}
use icpc_controller.Admin.Socket.{
  Ready, Link, is_closed, open_socket, on_socket_open, on_socket_close, on_timer, close, clean_up,
  add_listener, remove_listener, mount, Step, socket_opened, socket_closed, timed_out, cleaned_up,
  listened, unlistened, Reach, start, next, After, here, later,
}

abbrev pub is_live : Option Ready → Bool
is_live none = false
is_live (some Ready.connecting) = true
is_live (some Ready.opened) = true
is_live (some Ready.closing) = false
is_live (some Ready.closed) = false

abbrev pub may_be_connected : Option Ready → Bool
may_be_connected none = false
may_be_connected (some Ready.connecting) = false
may_be_connected (some Ready.opened) = true
may_be_connected (some Ready.closing) = true
may_be_connected (some Ready.closed) = false

-- Before the clean-up either the socket is live or the timer is pending, and not both; after it
-- neither is the case. No socket was replaced before it was closed, and `connected` is true only
-- with a socket that opened and whose close event is not yet there.
pub record IsLinked (s : Link) : Type 0 where
  pub one_of : s.stopped ≡ false → is_live s.socket ≡ not s.timer
  pub settled : s.stopped ≡ false → is_closed s.socket ≡ s.timer
  pub quiet : s.stopped ≡ true → (s.timer ≡ false) × (is_live s.socket ≡ false)
  pub none_replaced : s.replaced ≡ 0
  pub truly_connected : s.connected ≡ true → may_be_connected s.socket ≡ true

close-connected : (o : Option Ready) → may_be_connected o ≡ true → may_be_connected (close o) ≡ true
close-connected none h = h
close-connected (some Ready.connecting) h = refl
close-connected (some Ready.opened) h = h
close-connected (some Ready.closing) h = h
close-connected (some Ready.closed) h = h

close-live : (o : Option Ready) → is_live (close o) ≡ false
close-live none = refl
close-live (some Ready.connecting) = refl
close-live (some Ready.opened) = refl
close-live (some Ready.closing) = refl
close-live (some Ready.closed) = refl

step-IsLinked : {s t : Link} → Step s t → IsLinked s → IsLinked t
unfolding on_socket_open on_socket_close on_timer open_socket clean_up add_listener remove_listener
step-IsLinked {s} (socket_opened e) h = record {
  one_of = ground arith;
  settled = ground arith;
  quiet = λ c. let q = h.quiet c in absurd (ground arith);
  none_replaced = h.none_replaced;
  truly_connected = λ c. refl;
}
step-IsLinked {s} (socket_closed e) h = record {
  one_of = λ c. ground arith;
  settled = λ c. ground arith;
  quiet = λ c. let q = h.quiet c in (ground arith, refl);
  none_replaced = h.none_replaced;
  truly_connected = λ c. cc;
}
step-IsLinked {s} (timed_out e) h = elim (Bool-cases s.stopped) [
  | inl off ↦ let q = h.quiet off in absurd (ground arith)
  | inr on ↦
      let free = h.settled on in
      let zero = h.none_replaced in
      let fresh = h.truly_connected in
      rw on (record {
        one_of = λ c. refl;
        settled = λ c. refl;
        quiet = λ c. cc;
        none_replaced = ground arith;
        truly_connected = λ c. ground arith;
      })
]
step-IsLinked {s} cleaned_up h = record {
  one_of = λ c. cc;
  settled = λ c. cc;
  quiet = λ c. (refl, close-live s.socket);
  none_replaced = h.none_replaced;
  truly_connected = λ c. close-connected s.socket (h.truly_connected c);
}
step-IsLinked {s} (listened fn) h = record {
  one_of = h.one_of;
  settled = h.settled;
  quiet = h.quiet;
  none_replaced = h.none_replaced;
  truly_connected = h.truly_connected;
}
step-IsLinked {s} (unlistened fn) h = record {
  one_of = h.one_of;
  settled = h.settled;
  quiet = h.quiet;
  none_replaced = h.none_replaced;
  truly_connected = h.truly_connected;
}

-- In every state of a run, before the clean-up either the socket is live or the timer is pending,
-- and not both, and afterwards neither; no socket was replaced before it was closed; and the page
-- counts as connected only with a socket that opened and has not closed.
pub Reach-IsLinked : {s : Link} → Reach s → IsLinked s
unfolding mount open_socket
Reach-IsLinked start = record {
  one_of = λ c. refl;
  settled = λ c. refl;
  quiet = λ c. cc;
  none_replaced = refl;
  truly_connected = λ c. cc;
}
Reach-IsLinked (next r step) = step-IsLinked step (Reach-IsLinked r)

step-made :
    {s t : Link} → Step s t → IsLinked s → s.stopped ≡ true → (t.stopped ≡ true) × (t.made ≡ s.made)
unfolding on_socket_open on_socket_close on_timer open_socket clean_up add_listener remove_listener
step-made (socket_opened e) h k = (k, refl)
step-made (socket_closed e) h k = (k, refl)
step-made (timed_out e) h k = let q = h.quiet k in (ground arith, ground arith)
step-made cleaned_up h k = (refl, refl)
step-made (listened fn) h k = (k, refl)
step-made (unlistened fn) h k = (k, refl)

pub After-IsLinked : {s t : Link} → After s t → IsLinked s → IsLinked t
After-IsLinked here h = h
After-IsLinked (later r step) h = step-IsLinked step (After-IsLinked r h)

pub After-made :
    {s t : Link}
    → After s t
    → IsLinked s
    → s.stopped ≡ true
    → (t.stopped ≡ true) × (t.made ≡ s.made)
After-made here h k = (k, refl)
After-made (later r step) h k =
    let (stopped, same) = After-made r h k in
    let (still, made) = step-made step (After-IsLinked r h) stopped in (still, made ∙ same)

-- From the clean-up on, whatever the browser does, no socket is made any more.
pub clean_up-made : {s t : Link} → Reach s → After (clean_up s) t → t.made ≡ s.made
unfolding clean_up
clean_up-made r after = (After-made after (step-IsLinked cleaned_up (Reach-IsLinked r)) refl).1
