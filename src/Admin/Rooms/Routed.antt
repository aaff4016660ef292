-- ===== src/Admin/Rooms/Routed.antt =====
-- Which room the requests for devices go to (frontend/src/state.tsx).
use icpc_controller.Prelude.{
  Bool, true, false, not, ◌&&◌, ◌⊎◌, List, [], ◌∷◌, ◌++◌, ◌≡◌, ◌≢◌, refl, sym, ap, ◌∙◌, inl, inr,
  if◌then◌else◌, is_empty, Bool-cases, All,
}
use icpc_controller.Prelude.Text.{Text, codes}
use icpc_controller.Prelude.Sets.{includes, text_eq, text_eq→eq}
use icpc_controller.Admin.Rooms.{
  Rooms, cloud_all, load_devices, set_api_room, same_bool, effects, change_room, enter_page,
  set_cloud, device_events, on_device_event, first_rooms, Step, room_changed, page_entered,
  deployed, notified, shown, Reach, loaded, further,
}

-- The events that tell of devices.
abbrev pub watched : List Text
watched =
    codes "device_connected"
    ∷ codes "device_disconnected"
    ∷ codes "device_updated"
    ∷ codes "checkin_updated"
    ∷ codes "device_health"
    ∷ []

-- Behind all effects the variable is the room that is shown. An event of a device asks that room,
-- and no room in the view of all rooms; no other event asks. Where the room changes by itself, the
-- new one is not asked; with a new page it is the room from before that is asked, by the first
-- effect of the page.
pub record IsRouted (s : Rooms) : Type 0 where
  pub routed : s.api_room ≡ s.room_id
  pub noticed :
      All
        (λ name.
          (on_device_event name s).loads
          ≡ s.loads ++ (if s.cloud && is_empty s.room_id then [] else s.room_id ∷ []))
        watched
  pub ignored : (name : Text) → All (λ e. name ≢ e) watched → on_device_event name s ≡ s
  pub changed :
      (id : Text)
      → ((change_room id s).loads ≡ s.loads)
        ⊎ ((change_room id s).loads ≡ s.loads ++ s.room_id ∷ [])
  pub entered :
      (id : Text)
      → (enter_page id s).loads ≡ s.loads ++ (if s.cloud && is_empty id then [] else s.room_id ∷ [])

append_nil_ends : (xs : List Text) → xs ≡ xs ++ []
append_nil_ends [] = refl
append_nil_ends (x ∷ xs) = ap (λ l. x ∷ l) (append_nil_ends xs)

load_devices-loads :
    (s : Rooms) → (load_devices s).loads ≡ s.loads ++ (if cloud_all s then [] else s.api_room ∷ [])
unfolding load_devices
load_devices-loads s = elim (Bool-cases (cloud_all s)) [
  | inl all ↦ simp all (append_nil_ends s.loads)
  | inr one ↦ simp one refl
]

pub load_devices-kept :
    (s : Rooms) → ((load_devices s).api_room ≡ s.api_room) × ((load_devices s).room_id ≡ s.room_id)
unfolding load_devices
load_devices-kept s = elim (Bool-cases (cloud_all s)) [
  | inl all ↦ simp all (refl, refl)
  | inr one ↦ simp one (refl, refl)
]

pub effects-room_id : (room : Text) (b : Bool) (s : Rooms) → (effects room b s).room_id ≡ s.room_id
unfolding effects set_api_room
effects-room_id room true s = elim (Bool-cases (text_eq room s.room_id)) [
  | inl same ↦ rw same (load_devices-kept s).1
  | inr other ↦ rw other (load_devices-kept s).1
]
effects-room_id room false s = elim (Bool-cases (text_eq room s.room_id)) [
  | inl same ↦ rw same refl
  | inr other ↦ rw other refl
]

effects-api_room :
    (room : Text) (b : Bool) (s : Rooms)
    → s.api_room ≡ room
    → (effects room b s).api_room ≡ s.room_id
unfolding effects set_api_room
effects-api_room room true s e = elim (Bool-cases (text_eq room s.room_id)) [
  | inl same ↦ rw same ((load_devices-kept s).0 ∙ (e ∙ text_eq→eq room s.room_id same))
  | inr other ↦ rw other (load_devices-kept s).1
]
effects-api_room room false s e = elim (Bool-cases (text_eq room s.room_id)) [
  | inl same ↦ rw same (e ∙ text_eq→eq room s.room_id same)
  | inr other ↦ rw other refl
]

effects-routed :
    (room : Text) (b : Bool) (s : Rooms)
    → s.api_room ≡ room
    → (effects room b s).api_room ≡ (effects room b s).room_id
effects-routed room b s e = effects-api_room room b s e ∙ sym (effects-room_id room b s)

effects-loads :
    (room : Text) (b : Bool) (s : Rooms)
    → (effects room b s).loads
      ≡ (if b then s.loads ++ (if cloud_all s then [] else s.api_room ∷ []) else s.loads)
unfolding effects set_api_room
effects-loads room true s = elim (Bool-cases (text_eq room s.room_id)) [
  | inl same ↦ rw same (load_devices-loads s)
  | inr other ↦ rw other (load_devices-loads s)
]
effects-loads room false s = elim (Bool-cases (text_eq room s.room_id)) [
  | inl same ↦ rw same refl
  | inr other ↦ rw other refl
]

-- A request that may be made asks a room, or nobody.
asked-either :
    (b all : Bool) (loads : List Text) (room : Text)
    → ((if b then loads ++ (if all then [] else room ∷ []) else loads) ≡ loads)
      ⊎ ((if b then loads ++ (if all then [] else room ∷ []) else loads) ≡ loads ++ room ∷ [])
asked-either true true loads room = inl (sym (append_nil_ends loads))
asked-either true false loads room = inr refl
asked-either false all loads room = inl refl

includes-none :
    (name : Text) (names : List Text) → All (λ e. name ≢ e) names → includes name names ≡ false
unfolding includes
includes-none name [] h = refl
includes-none name (x ∷ names) h = elim (Bool-cases (text_eq name x)) [
  | inl same ↦ absurd (h.0 (text_eq→eq name x same))
  | inr other ↦ rw other (includes-none name names h.1)
]

on_device_event-loads :
    (name : Text) (s : Rooms)
    → s.api_room ≡ s.room_id
    → includes name device_events ≡ true
    → (on_device_event name s).loads
      ≡ s.loads ++ (if s.cloud && is_empty s.room_id then [] else s.room_id ∷ [])
unfolding on_device_event
on_device_event-loads name s e known =
    rw known (load_devices-loads s ∙ ap (λ r. s.loads ++ (if cloud_all s then [] else r ∷ [])) e)

on_device_event-ignored :
    (name : Text) (s : Rooms) → All (λ e. name ≢ e) watched → on_device_event name s ≡ s
unfolding on_device_event device_events
on_device_event-ignored name s h = let other = includes-none name watched h in rw other refl

change_room-loads :
    (id : Text) (s : Rooms)
    → s.api_room ≡ s.room_id
    → ((change_room id s).loads ≡ s.loads) ⊎ ((change_room id s).loads ≡ s.loads ++ s.room_id ∷ [])
unfolding change_room
change_room-loads id s e =
    let b = not (same_bool (cloud_all s) (s.cloud && is_empty id)) in
    let loads = effects-loads s.room_id b (record s { room_id = id }) in
    elim (asked-either b (s.cloud && is_empty id) s.loads s.api_room) [
      | inl nobody ↦ inl (loads ∙ nobody)
      | inr asked ↦ inr (loads ∙ (asked ∙ ap (λ r. s.loads ++ r ∷ []) e))
    ]

enter_page-loads :
    (id : Text) (s : Rooms)
    → s.api_room ≡ s.room_id
    → (enter_page id s).loads ≡ s.loads ++ (if s.cloud && is_empty id then [] else s.room_id ∷ [])
unfolding enter_page
enter_page-loads id s e =
    effects-loads s.room_id true (record s { room_id = id })
    ∙ ap (λ r. s.loads ++ (if s.cloud && is_empty id then [] else r ∷ [])) e

api_room-IsRouted : (s : Rooms) → s.api_room ≡ s.room_id → IsRouted s
unfolding includes device_events text_eq
api_room-IsRouted s e = record {
  routed = e;
  noticed = (
    on_device_event-loads _ s e refl,
    (
      on_device_event-loads _ s e refl,
      (
        on_device_event-loads _ s e refl,
        (on_device_event-loads _ s e refl, (on_device_event-loads _ s e refl, tt)),
      ),
    ),
  );
  ignored = λ name h. on_device_event-ignored name s h;
  changed = λ id. change_room-loads id s e;
  entered = λ id. enter_page-loads id s e;
}

step-routed : {s t : Rooms} → Step s t → s.api_room ≡ s.room_id → t.api_room ≡ t.room_id
unfolding change_room enter_page set_cloud on_device_event
step-routed (room_changed id) e = effects-routed _ _ _ e
step-routed (page_entered id) e = effects-routed _ _ _ e
step-routed (deployed cloud) e = effects-routed _ _ _ e
step-routed {s} (notified name) e = elim (Bool-cases (includes name device_events)) [
  | inl known ↦ rw known ((load_devices-kept s).0 ∙ (e ∙ sym (load_devices-kept s).1))
  | inr other ↦ rw other e
]
step-routed {s} shown e = (load_devices-kept s).0 ∙ (e ∙ sym (load_devices-kept s).1)

-- In every state behind the effects of a rendering, over every run in which rooms, pages and the
-- deployment change: requests go to the room that is shown. Each of the five events of devices asks
-- that room for its devices, and nobody in the view of all rooms; other events change nothing. A
-- change of the room by itself asks nobody or the room from before, never the new one, and a change
-- of the room with a new page asks the room from before.
pub Reach-IsRouted : {s : Rooms} → Reach s → IsRouted s
unfolding first_rooms set_api_room
Reach-IsRouted (loaded room) = api_room-IsRouted _ refl
Reach-IsRouted (further {s} {t} r step) =
    api_room-IsRouted t (step-routed step (Reach-IsRouted r).routed)
