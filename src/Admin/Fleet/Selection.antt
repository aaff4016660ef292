-- ===== src/Admin/Fleet/Selection.antt =====
-- The selection as a set: `toggleFleet` and `selectFleet` (frontend/src/state.tsx).
use icpc_controller.Prelude.{
  Bool, false, not, ◌||◌, ◌&&◌, Option, List, [], ◌∷◌, ◌++◌, ◌≡◌, refl, inl, inr, arith,
  if◌then◌else◌, keep, any, map, ap, ◌∙◌, Bool-cases,
}
use icpc_controller.Prelude.Text.{Text}
use icpc_controller.Prelude.Sets.{text_eq, includes, Nodup, text_eq→eq, text_eq-sym}
use icpc_controller.Admin.Fleet.{
  or_else, toggle_fleet, add_all, select_fleet, FleetDevice, Room, is_shown, shown, select_online,
  fleet_devices,
}

includes-append :
    (k : Text) (xs ys : List Text) → includes k (xs ++ ys) ≡ (includes k xs || includes k ys)
unfolding includes
includes-append k [] ys = refl
includes-append k (x ∷ xs) ys = ground (arith, includes-append k xs ys)

Nodup-snoc : (xs : List Text) (k : Text) → Nodup xs → includes k xs ≡ false → Nodup (xs ++ k ∷ [])
unfolding includes
Nodup-snoc [] k h n = (refl, tt)
Nodup-snoc (x ∷ xs) k h n = (
  ground (arith, includes-append x xs (k ∷ []), text_eq-sym k x),
  Nodup-snoc xs k h.1 (ground arith),
)

includes-without :
    (k key : Text) (xs : List Text)
    → includes k (keep (λ item. not (text_eq item key)) xs)
      ≡ (if text_eq k key then false else includes k xs)
unfolding includes
includes-without k key [] = ground arith
includes-without k key (x ∷ xs) =
    let rest = includes-without k key xs in
    elim (Bool-cases (text_eq x key)) [
      | inl eq ↦ let e = text_eq→eq x key eq in ground (arith, rest)
      | inr ne ↦ elim (Bool-cases (text_eq k x)) [
        | inl same ↦ let e = text_eq→eq k x same in ground (arith, rest)
        | inr other ↦ ground (arith, rest)
      ]
    ]

Nodup-without :
    (key : Text) (xs : List Text) → Nodup xs → Nodup (keep (λ item. not (text_eq item key)) xs)
Nodup-without key [] h = tt
Nodup-without key (x ∷ xs) h = elim (Bool-cases (text_eq x key)) [
  | inl eq ↦ rw eq (Nodup-without key xs h.1)
  | inr ne ↦ rw ne (ground (arith, includes-without x key xs), Nodup-without key xs h.1)
]

toggle_fleet-includes :
    (k key : Text) (on : Option Bool) (list : List Text)
    → includes k (toggle_fleet key on list)
      ≡ (if text_eq k key then or_else on (not (includes key list)) else includes k list)
unfolding toggle_fleet includes
toggle_fleet-includes k key on list =
    let snoc = includes-append k list (key ∷ []) in
    let without = includes-without k key list in
    elim (Bool-cases (text_eq k key)) [
      | inl eq ↦ let e = text_eq→eq k key eq in ground (arith, snoc, without)
      | inr ne ↦ ground (arith, snoc, without)
    ]

toggle_fleet-Nodup :
    (key : Text) (on : Option Bool) (list : List Text)
    → Nodup list
    → Nodup (toggle_fleet key on list)
unfolding toggle_fleet
toggle_fleet-Nodup key on list h =
    let snoc = Nodup-snoc list key h in
    let without = Nodup-without key list h in
    elim (Bool-cases (includes key list)) [
      | inl has ↦ elim (Bool-cases (or_else on (not (includes key list)))) [
        | inl next ↦ rw (next, has) h
        | inr next ↦ rw (next, has) without
      ]
      | inr has ↦ elim (Bool-cases (or_else on (not (includes key list)))) [
        | inl next ↦ rw (next, has) (snoc has)
        | inr next ↦ rw (next, has) h
      ]
    ]

-- Toggling a key changes whether that key is selected, to the wanted state or, where none is
-- given, to the other one; no other key changes, and a selection without a repetition stays so.
pub toggle_fleet_lem :
    (key : Text) (on : Option Bool) (list : List Text)
    → Nodup list
    → ((k : Text)
        → includes k (toggle_fleet key on list)
          ≡ (if text_eq k key then or_else on (not (includes key list)) else includes k list))
      × Nodup (toggle_fleet key on list)
toggle_fleet_lem key on list h =
    (λ k. toggle_fleet-includes k key on list, toggle_fleet-Nodup key on list h)

add_all-includes :
    (k : Text) (set keys : List Text)
    → includes k (add_all set keys) ≡ (includes k set || includes k keys)
unfolding add_all includes
add_all-includes k set [] = ground arith
add_all-includes k set (x ∷ keys) = elim (Bool-cases (includes x set)) [
  | inl has ↦ elim (Bool-cases (text_eq k x)) [
    | inl eq ↦ let e = text_eq→eq k x eq in rw has (ground (arith, add_all-includes k set keys))
    | inr ne ↦ rw has (ground (arith, add_all-includes k set keys))
  ]
  | inr new ↦
      let snoc = includes-append k set (x ∷ []) in
      rw new (ground (arith, snoc, add_all-includes k (set ++ x ∷ []) keys))
]

add_all-Nodup : (set keys : List Text) → Nodup set → Nodup (add_all set keys)
unfolding add_all
add_all-Nodup set [] h = h
add_all-Nodup set (x ∷ keys) h = elim (Bool-cases (includes x set)) [
  | inl has ↦ rw has (add_all-Nodup set keys h)
  | inr new ↦ rw new (add_all-Nodup (set ++ x ∷ []) keys (Nodup-snoc set x h new))
]

-- `selectFleet` selects exactly the keys that it is given, each of them once.
pub select_fleet_lem :
    (keys : List Text)
    → ((k : Text) → includes k (select_fleet keys) ≡ includes k keys) × Nodup (select_fleet keys)
unfolding select_fleet includes
select_fleet_lem keys = (λ k. add_all-includes k [] keys, add_all-Nodup [] keys tt)

abbrev pub is_online_key : Text → Text → (FleetDevice → Bool) → FleetDevice → Bool
is_online_key k room contains d = is_shown room contains d && d.device.connected && text_eq k d.key

includes-online :
    (k room : Text) (contains : FleetDevice → Bool) (ds : List FleetDevice)
    → includes k
        (map (λ d. d.key) (keep (λ d. d.device.connected) (keep (is_shown room contains) ds)))
      ≡ any (is_online_key k room contains) ds
unfolding includes
includes-online k room contains [] = refl
includes-online k room contains (d ∷ ds) =
    let rest = includes-online k room contains ds in
    elim (Bool-cases (is_shown room contains d)) [
      | inl seen ↦ elim (Bool-cases d.device.connected) [
        | inl up ↦ rw (seen, up) (ap (λ b. text_eq k d.key || b) rest)
        | inr down ↦ rw (seen, down) rest
      ]
      | inr hidden ↦ rw hidden rest
    ]

-- The button for the connected devices selects a key exactly if it is that of a connected device
-- that the filters show; and no key is selected twice.
pub select_online_lem :
    (room : Text) (contains : FleetDevice → Bool) (rooms : List Room)
    → ((k : Text)
        → includes k (select_online room contains rooms)
          ≡ any (is_online_key k room contains) (fleet_devices rooms))
      × Nodup (select_online room contains rooms)
unfolding select_online shown
select_online_lem room contains rooms =
    let online = map (λ d. d.key) (keep (λ d. d.device.connected) (shown room contains rooms)) in
    let (same, once) = select_fleet_lem online in
    (λ k. same k ∙ includes-online k room contains (fleet_devices rooms), once)
