-- ===== src/Admin/Fleet/Queue.antt =====
-- The request that `queueFleet` (frontend/src/components/fleet.tsx) makes of a selection: what
-- each room is sent.
use icpc_controller.Prelude.{
  ℕ, suc, ◌||◌, some, List, [], ◌∷◌, ◌++◌, map, ◌≡◌, refl, ap, ◌∙◌, ◌≢◌, inl, inr, sym, arith,
  if◌then◌else◌, All, Bool-cases, append_nil, append_assoc,
}
use icpc_controller.Prelude.Text.{Text, show}
use icpc_controller.Prelude.Sets.{text_eq, includes, Nodup, text_eq→eq, text_eq-sym}
use icpc_controller.Admin.Fleet.{
  device_key, index_of, take, drop, room_part, id_part, add_target, add_targets, queue_fleet,
}

-- A room whose identifier has no colon.
abbrev pub IsPlain : Text → Type 0
IsPlain room = All (λ c. c ≢ 58) room

index_of-key :
    (room rest : Text)
    → IsPlain room
    → (i : ℕ) × (index_of 58 (room ++ 58 ∷ rest) ≡ some i)
      × (take i (room ++ 58 ∷ rest) ≡ room)
      × (drop (suc i) (room ++ 58 ∷ rest) ≡ rest)
unfolding index_of
index_of-key [] rest h = (0, refl, refl, refl)
index_of-key (c ∷ cs) rest h =
    let (i, found, front, back) = index_of-key cs rest h.1 in
    (suc i, ground arith, ap (λ t. c ∷ t) front, back)

-- The two halves of a key.
room_part-device_key : (room : Text) (id : ℕ) → IsPlain room → room_part (device_key room id) ≡ room
unfolding device_key room_part
room_part-device_key room id h =
    let (i, found, front, back) = index_of-key room (show id) h in rw (room_part, found) front

id_part-device_key : (room : Text) (id : ℕ) → IsPlain room → id_part (device_key room id) ≡ show id
unfolding device_key id_part show
id_part-device_key room id h =
    let (i, found, front, back) = index_of-key room (show id) h in rw (id_part, found) back

-- What the request holds for a room.
unfoldable pub sent : {N : Type 0} → Text → List (Text × List N) → List N
sent room [] = []
sent room (t ∷ targets) = let rest = sent room targets in if text_eq room t.0 then t.1 else rest

-- The numbers of the selected devices of a room.
unfoldable pub chosen : Text → List (Text × ℕ) → List ℕ
chosen room [] = []
chosen room (d ∷ sel) = let rest = chosen room sel in if text_eq room d.0 then d.1 ∷ rest else rest

abbrev pub keys : List (Text × ℕ) → List Text
keys sel = map (λ d. device_key d.0 d.1) sel

module _ {N : Type 0} where
  sent-add_target :
      (r room : Text) (id : N) (ts : List (Text × List N))
      → sent r (add_target room id ts)
        ≡ (if text_eq r room then sent r ts ++ id ∷ [] else sent r ts)
  unfolding sent add_target
  sent-add_target r room id [] = ground arith
  sent-add_target r room id (t ∷ ts) =
      let rest = sent-add_target r room id ts in
      elim (Bool-cases (text_eq room t.0)) [
        | inl eq ↦ let e = text_eq→eq room t.0 eq in ground (arith)
        | inr ne ↦ elim (Bool-cases (text_eq r t.0)) [
          | inl same ↦ let e = text_eq→eq r t.0 same in ground (arith, text_eq-sym r room)
          | inr other ↦ ground (arith)
        ]
      ]

  rooms-add_target :
      (r room : Text) (id : N) (ts : List (Text × List N))
      → includes r (map (λ t. t.0) (add_target room id ts))
        ≡ (text_eq r room || includes r (map (λ t. t.0) ts))
  unfolding includes add_target
  rooms-add_target r room id [] = refl
  rooms-add_target r room id (t ∷ ts) =
      let rest = rooms-add_target r room id ts in
      elim (Bool-cases (text_eq room t.0)) [
        | inl eq ↦ let e = text_eq→eq room t.0 eq in ground (arith)
        | inr ne ↦ ground (arith)
      ]

  add_target-Nodup :
      (room : Text) (id : N) (ts : List (Text × List N))
      → Nodup (map (λ t. t.0) ts)
      → Nodup (map (λ t. t.0) (add_target room id ts))
  unfolding includes add_target
  add_target-Nodup room id [] h = (refl, tt)
  add_target-Nodup room id (t ∷ ts) h = elim (Bool-cases (text_eq room t.0)) [
    | inl eq ↦ rw eq h
    | inr ne ↦ rw ne (
      ground (arith, rooms-add_target t.0 room id ts, text_eq-sym room t.0),
      add_target-Nodup room id ts h.1,
    )
  ]

  module _ (number : Text → N) where
    add_targets-keys :
        (ts : List (Text × List N)) (room : Text) (id : ℕ) (sel : List (Text × ℕ))
        → IsPlain room
        → add_targets number ts (keys ((room, id) ∷ sel))
          ≡ add_targets number (add_target room (number (show id)) ts) (keys sel)
    unfolding add_targets
    add_targets-keys ts room id sel h =
        let key = device_key room id in
        ap (λ r. add_targets number (add_target r (number (id_part key)) ts) (keys sel))
          (room_part-device_key room id h)
        ∙ ap (λ t. add_targets number (add_target room (number t) ts) (keys sel))
            (id_part-device_key room id h)

    sent-add_targets :
        (r : Text) (ts : List (Text × List N)) (sel : List (Text × ℕ))
        → All (λ d. IsPlain d.0) sel
        → sent r (add_targets number ts (keys sel))
          ≡ sent r ts ++ map (λ id. number (show id)) (chosen r sel)
    unfolding add_targets chosen
    sent-add_targets r ts [] h = sym (append_nil _)
    sent-add_targets r ts ((room, id) ∷ sel) h =
        let all = sent-add_targets r (add_target room (number (show id)) ts) sel h.1 in
        let one = sent-add_target r room (number (show id)) ts in
        rw (add_targets-keys ts room id sel h.0, all, one)
          (elim (Bool-cases (text_eq r room)) [
            | inl eq ↦ rw eq (append_assoc (sent r ts) (number (show id) ∷ []) _)
            | inr ne ↦ rw ne refl
          ])

    rooms-add_targets :
        (r : Text) (ts : List (Text × List N)) (sel : List (Text × ℕ))
        → All (λ d. IsPlain d.0) sel
        → includes r (map (λ t. t.0) (add_targets number ts (keys sel)))
          ≡ (includes r (map (λ t. t.0) ts) || includes r (map (λ d. d.0) sel))
    unfolding add_targets includes
    rooms-add_targets r ts [] h = ground arith
    rooms-add_targets r ts ((room, id) ∷ sel) h =
        let all = rooms-add_targets r (add_target room (number (show id)) ts) sel h.1 in
        let one = rooms-add_target r room (number (show id)) ts in
        rw (add_targets-keys ts room id sel h.0) (ground (arith, all, one))

    add_targets-Nodup :
        (ts : List (Text × List N)) (selection : List Text)
        → Nodup (map (λ t. t.0) ts)
        → Nodup (map (λ t. t.0) (add_targets number ts selection))
    unfolding add_targets
    add_targets-Nodup ts [] h = h
    add_targets-Nodup ts (k ∷ selection) h =
        add_targets-Nodup (add_target _ _ ts) selection (add_target-Nodup _ _ ts h)

-- What each room is sent are the numbers of its selected devices, as `Number` reads them, in
-- the order of the selection; the rooms of the request are those of the selection, each once.
-- No room has a colon in its identifier.
pub queue_fleet_lem :
    {N : Type 0} (number : Text → N) (sel : List (Text × ℕ)) (operation : Text)
    → All (λ d. IsPlain d.0) sel
    → let request = queue_fleet number (keys sel) operation in
      ((room : Text)
        → (sent room request.targets ≡ map (λ id. number (show id)) (chosen room sel))
          × (includes room request.room_ids ≡ includes room (map (λ d. d.0) sel)))
      × Nodup request.room_ids
unfolding queue_fleet sent includes
queue_fleet_lem number sel operation h = (
  λ room. (sent-add_targets number room [] sel h, rooms-add_targets number room [] sel h),
  add_targets-Nodup number [] (keys sel) tt,
)
