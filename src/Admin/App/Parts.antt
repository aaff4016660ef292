-- ===== src/Admin/App/Parts.antt =====
-- A run of the application is a run of each of its parts (frontend/src/state.tsx, App.tsx).
use icpc_controller.Prelude.{
  Bool, true, false, some, List, [], ◌∷◌, map, ◌≡◌, ◌⊎◌, refl, sym, ap, ◌∙◌, subst, inl, inr, arith,
  All, Bool-cases,
}
use icpc_controller.Prelude.Text.{Text, codes}
use icpc_controller.Prelude.Sets.{includes, text_eq, text_eq→eq, Nodup}
use icpc_controller.Admin.Fleet.Selection.{toggle_fleet_lem, select_fleet_lem}
use icpc_controller.Admin.Routes.{pages, room_from_path}
use icpc_controller.Admin.Routes.Paths.{parse_page_lem}
use icpc_controller.Admin.Menu.{page_titles, menu_lem}
use icpc_controller.Admin.Address.{Address, go, set_room, arrived, first_address}
use icpc_controller.Admin.Address.InSync.{
  InSync, IsWritten, InSync-IsWritten, go-InSync, go-room_id, set_room-InSync, enter_room-IsWritten,
  enter_room-room_id,
}
use icpc_controller.Admin.Rooms
use icpc_controller.Admin.Rooms.Routed.{
  IsRouted, Reach-IsRouted, effects-room_id, load_devices-kept,
}
use icpc_controller.Admin.Socket
use icpc_controller.Admin.Socket.Live.{IsLinked, Reach-IsLinked}
use icpc_controller.Admin.Notices
use icpc_controller.Admin.Notices.Settled.{IsSettled, After-IsSettled}
use icpc_controller.Admin.App.{
  App, go_to, enter, move_room, follow, press, load_app, Step, went, entered, followed, pressed,
  deployed, notified, shown, toggled, selected, cleared, linked, noticed, Reach, loaded, further,
  Drawn, router,
}

set_room-room_id : (page id : Text) (s : Address) → (set_room page id s).room_id ≡ id
unfolding set_room
set_room-room_id page id s = refl

-- Whether the address was last written for one room: the buttons that enter a room and go to a page
-- write it for two.
abbrev pub names : {s t : App} → Step s t → Bool → Bool
names (went next k) named = true
names (entered id k) named = true
names (followed fresh path hash room p k is sc) named = true
names (pressed fresh room next sc k) named = false
names (deployed cloud) named = named
names (notified name) named = named
names shown named = named
names (toggled key on) named = named
names (selected keys) named = named
names cleared named = named
names (linked m) named = named
names (noticed m) named = named

abbrev pub is_named : {s : App} → Reach s → Bool
is_named (loaded path hash room p k is sc) = true
is_named (further r step) = names step (is_named r)

-- The parts of a state are reached by their own runs, and both that keep a room keep the same one.
record IsComposed (s : App) (named : Bool) : Type 0 where
  written : IsWritten s.address
  in_sync : named ≡ true → InSync s.address
  rooms_run : Rooms.Reach s.rooms
  link_run : Socket.Reach s.link
  notices_run : Notices.After Notices.no_notices s.notices
  one_room : s.rooms.room_id ≡ s.address.room_id
  distinct : Nodup s.fleet

on_device_event-room_id :
    (name : Text) (s : Rooms.Rooms) → (Rooms.on_device_event name s).room_id ≡ s.room_id
unfolding Rooms.on_device_event
on_device_event-room_id name s = elim (Bool-cases (includes name Rooms.device_events)) [
  | inl known ↦ rw known (load_devices-kept s).1
  | inr other ↦ rw other refl
]

-- A change of the room is a run of the rooms that ends in that room.
move_room-run :
    (fresh : Bool) (id : Text) (s : Rooms.Rooms)
    → Rooms.Reach s
    → Rooms.Reach (move_room fresh id s) × ((move_room fresh id s).room_id ≡ id)
unfolding Rooms.change_room Rooms.enter_page
move_room-run true id s r = (Rooms.further r (Rooms.page_entered id), effects-room_id _ _ _)
move_room-run false id s r = (Rooms.further r (Rooms.room_changed id), effects-room_id _ _ _)

-- A step of the rooms that keeps the room.
rooms_step-IsComposed :
    {s : App} {named : Bool} {r : Rooms.Rooms}
    → Rooms.Step s.rooms r
    → r.room_id ≡ s.rooms.room_id
    → IsComposed s named
    → IsComposed (record s { rooms = r }) named
rooms_step-IsComposed step e h = record {
  written = h.written;
  in_sync = h.in_sync;
  rooms_run = Rooms.further h.rooms_run step;
  link_run = h.link_run;
  notices_run = h.notices_run;
  one_room = e ∙ h.one_room;
  distinct = h.distinct;
}

with_fleet-IsComposed :
    {s : App} {named : Bool} {keys : List Text}
    → Nodup keys
    → IsComposed s named
    → IsComposed (record s { fleet = keys }) named
with_fleet-IsComposed d h = record {
  written = h.written;
  in_sync = h.in_sync;
  rooms_run = h.rooms_run;
  link_run = h.link_run;
  notices_run = h.notices_run;
  one_room = h.one_room;
  distinct = d;
}

-- An address that is in step, for rooms that are in its room.
moved-IsComposed :
    {s : App} {named : Bool} (address : Address) (rooms : Rooms.Rooms)
    → InSync address
    → Rooms.Reach rooms
    → rooms.room_id ≡ address.room_id
    → IsComposed s named
    → IsComposed (record s { address = address; rooms = rooms }) true
moved-IsComposed address rooms sync run e h = record {
  written = InSync-IsWritten sync;
  in_sync = λ k. sync;
  rooms_run = run;
  link_run = h.link_run;
  notices_run = h.notices_run;
  one_room = e;
  distinct = h.distinct;
}

step-IsComposed :
    {s t : App} {named : Bool} (step : Step s t)
    → IsComposed s named
    → IsComposed t (names step named)
unfolding go_to enter follow press Rooms.set_cloud
step-IsComposed {s} (went next k) h =
    moved-IsComposed (go s.address.room_id next s.address) s.rooms
      (go-InSync next s.address k h.written) h.rooms_run
      (h.one_room ∙ sym (go-room_id s.address.room_id next s.address)) h
step-IsComposed {s} (entered id k) h =
    let (run, e) = move_room-run false id s.rooms h.rooms_run in
    moved-IsComposed (set_room s.address.page id s.address) _
      (set_room-InSync id s.address k h.written) run
      (e ∙ sym (set_room-room_id s.address.page id s.address)) h
step-IsComposed {s} (followed fresh path hash room p k is sc) h =
    let (run, e) = move_room-run fresh room s.rooms h.rooms_run in
    moved-IsComposed (arrived path hash room s.address) _
      (record { page_of = refl; room_of = is; is_path = p; is_hash = k; scalar = sc }) run e h
step-IsComposed {s} (pressed fresh room next sc k) h =
    let (run, e) = move_room-run fresh room s.rooms h.rooms_run in
    record {
      written = enter_room-IsWritten room next s.address sc k h.written;
      in_sync = λ k. cc;
      rooms_run = run;
      link_run = h.link_run;
      notices_run = h.notices_run;
      one_room = e ∙ sym (enter_room-room_id room next s.address);
      distinct = h.distinct;
    }
step-IsComposed (deployed cloud) h =
    rooms_step-IsComposed (Rooms.deployed cloud) (effects-room_id _ _ _) h
step-IsComposed {s} (notified name) h =
    rooms_step-IsComposed (Rooms.notified name) (on_device_event-room_id name s.rooms) h
step-IsComposed {s} shown h = rooms_step-IsComposed Rooms.shown (load_devices-kept s.rooms).1 h
step-IsComposed {s} (toggled key on) h =
    with_fleet-IsComposed (toggle_fleet_lem key on s.fleet h.distinct).1 h
step-IsComposed (selected keys) h = with_fleet-IsComposed (select_fleet_lem keys).1 h
step-IsComposed cleared h = with_fleet-IsComposed tt h
step-IsComposed (linked m) h = record {
  written = h.written;
  in_sync = h.in_sync;
  rooms_run = h.rooms_run;
  link_run = Socket.next h.link_run m;
  notices_run = h.notices_run;
  one_room = h.one_room;
  distinct = h.distinct;
}
step-IsComposed (noticed m) h = record {
  written = h.written;
  in_sync = h.in_sync;
  rooms_run = h.rooms_run;
  link_run = h.link_run;
  notices_run = Notices.later h.notices_run m;
  one_room = h.one_room;
  distinct = h.distinct;
}

Reach-IsComposed : {s : App} (r : Reach s) → IsComposed s (is_named r)
unfolding load_app Rooms.first_rooms Rooms.set_api_room
Reach-IsComposed (loaded path hash room p k is sc) =
    let sync : InSync (first_address path hash room) = record {
      page_of = refl;
      room_of = is;
      is_path = p;
      is_hash = k;
      scalar = sc;
    } in
    record {
      written = InSync-IsWritten sync;
      in_sync = λ k. sync;
      rooms_run = unfold Rooms.first_rooms in Rooms.loaded room;
      link_run = Socket.start;
      notices_run = Notices.here;
      one_room = (load_devices-kept _).1;
      distinct = tt;
    }
Reach-IsComposed (further r step) = step-IsComposed step (Reach-IsComposed r)

-- What holds of the application as a whole.
pub record IsSound (s : App) (named : Bool) : Type 0 where
  pub address : IsWritten s.address
  pub rooms : IsRouted s.rooms
  pub link : IsLinked s.link
  pub notices : IsSettled s.notices
  pub fleet : Nodup s.fleet
  pub one_room : s.rooms.api_room ≡ s.address.room_id
  pub named_room : (named ≡ false) ⊎ (room_from_path s.address.path ≡ some s.rooms.api_room)

-- In every state that the application can reach, with rooms that are well-formed Unicode: the
-- address of the window names the page that is shown, and requests go to the room that is shown,
-- as events of devices do; where the last change of page or room was not by a button that enters a
-- room and goes to a page at once, the address names that room too; one of a live socket and its
-- timer is there; each toast has a timer and no question two answers; and no device is selected
-- twice.
pub Reach-IsSound : {s : App} (r : Reach s) → IsSound s (is_named r)
Reach-IsSound r =
    let h = Reach-IsComposed r in
    let rooms = Reach-IsRouted h.rooms_run in
    let one = rooms.routed ∙ h.one_room in
    record {
      address = h.written;
      rooms = rooms;
      link = Reach-IsLinked h.link_run;
      notices = After-IsSettled h.notices_run;
      fleet = h.distinct;
      one_room = one;
      named_room = elim (Bool-cases (is_named r)) [
        | inl k ↦ inr ((h.in_sync k).room_of ∙ ap some (sym one))
        | inr k ↦ inl k
      ];
    }

-- The page that a drawn component is for.
abbrev pub drawn_page : Drawn → Text
drawn_page Drawn.rooms = codes "rooms"
drawn_page Drawn.devices = codes "devices"
drawn_page Drawn.commands = codes "commands"
drawn_page Drawn.network = codes "network"
drawn_page Drawn.distribute = codes "distribute"
drawn_page Drawn.power = codes "power"
drawn_page Drawn.checkin = codes "checkin"
drawn_page Drawn.screen = codes "screen"
drawn_page Drawn.broadcast = codes "broadcast"
drawn_page Drawn.settings = codes "settings"
drawn_page Drawn.dashboard = codes "dashboard"

-- What holds of all members of a list holds of a text that the list includes.
includes-All :
    (P : Text → Type 0) (k : Text) (keys : List Text) → All P keys → includes k keys ≡ true → P k
unfolding includes
includes-All P k [] h e = cc
includes-All P k (x ∷ keys) h e = elim (Bool-cases (text_eq k x)) [
  | inl same ↦ subst P (sym (text_eq→eq k x same)) h.0
  | inr other ↦ includes-All P k keys h.1 (ground arith)
]

router-pages : All (λ page. drawn_page (router page) ≡ page) pages
unfolding router pages text_eq
router-pages =
    (refl, (refl, (refl, (refl, (refl, (refl, (refl, (refl, (refl, (refl, (refl, tt)))))))))))

-- In every state that the application can reach, its page is one of the type of pages, as the cast
-- of the text behind the number sign takes it to be: the component of that very page is drawn, and
-- the page has a title.
pub Reach-page :
    {s : App}
    → Reach s
    → (includes s.address.page pages ≡ true)
      × (drawn_page (router s.address.page) ≡ s.address.page)
      × (includes s.address.page (map (λ entry. entry.0) page_titles) ≡ true)
Reach-page {s} r =
    let sync = (Reach-IsSound r).address in
    let is : includes s.address.page pages ≡ true =
      subst (λ p. includes p pages ≡ true) sync.page_of (parse_page_lem s.address.hash).0 in
    (
      is,
      includes-All (λ page. drawn_page (router page) ≡ page) s.address.page pages router-pages is,
      subst (λ titles. includes s.address.page titles ≡ true) (sym (menu_lem true).1) is,
    )
