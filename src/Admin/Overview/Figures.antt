-- ===== src/Admin/Overview/Figures.antt =====
-- The figures of all rooms agree with each other and with the table of devices
-- (frontend/src/pages/dashboard.tsx, checkin.tsx, commands.tsx).
use icpc_controller.Prelude.{
  ℕ, ◌+◌, ◌≤◌, ◌<◌, Bool, not, ◌||◌, List, [], ◌∷◌, map, ◌≡◌, refl, sym, ap, ◌∙◌, arith, subst,
  count_if, count_if-append, length, length-append, length-map, All,
}
use icpc_controller.Prelude.Int.{ℤ, pos, ◌-ℤ◌, ◌≤ℤ◌}
use icpc_controller.Prelude.Text.{Text}
use icpc_controller.Prelude.Sorting.{
  sort_latest, front, behind, IsDescending, front-behind, length-front, behind-short,
  IsDescending-split, sort_latest-IsDescending, sort_latest-count_if,
}
use icpc_controller.Admin.Fleet.{Device, Room, FleetDevice, fleet_device, fleet_devices}
use icpc_controller.Admin.Overview.{
  sum_rooms, total_devices, online_devices, has_status, checked_in, checked_out, checkin_stats,
  RecentCommand, recent_commands, latest_commands,
}

-- A sum of counts over the rooms counts the rows of the table of all devices.
count_if-room :
    (p : Device → Bool) (room : Room) (ds : List Device)
    → count_if (λ f. p f.device) (map (fleet_device room) ds) ≡ count_if p ds
unfolding fleet_device
count_if-room p room [] = refl
count_if-room p room (d ∷ ds) = let rest = count_if-room p room ds in ground arith

sum_rooms-count :
    (p : Device → Bool) (rooms : List Room)
    → sum_rooms (λ room. count_if p room.devices) rooms
      ≡ count_if (λ f. p f.device) (fleet_devices rooms)
unfolding sum_rooms fleet_devices
sum_rooms-count p [] = refl
sum_rooms-count p (room ∷ rooms) =
    let here = count_if-room p room room.devices in
    let rest = sum_rooms-count p rooms in
    omega (
      arith,
      count_if-append (λ f. p f.device) (map (fleet_device room) room.devices)
          (fleet_devices rooms),
    )

total_devices-length : (rooms : List Room) → total_devices rooms ≡ length (fleet_devices rooms)
unfolding total_devices sum_rooms fleet_devices
total_devices-length [] = refl
total_devices-length (room ∷ rooms) =
    let rest = total_devices-length rooms in
    let here = length-map (fleet_device room) room.devices in
    omega (arith, length-append (map (fleet_device room) room.devices) (fleet_devices rooms))

-- Two tests that never hold together.
count_if-parts :
    (fs : List FleetDevice)
    → length fs
      ≡ count_if (λ f. has_status 1 f.device) fs
        + count_if (λ f. has_status 2 f.device) fs
        + count_if (λ f. not (has_status 1 f.device || has_status 2 f.device)) fs
count_if-parts [] = refl
count_if-parts (f ∷ fs) = let rest = count_if-parts fs in ground arith

count_if-length : {A : Type 0} (p : A → Bool) (xs : List A) → count_if p xs ≤ length xs
count_if-length p [] = omega arith
count_if-length p (x ∷ xs) = let rest = count_if-length p xs in ground arith

sub_twice : (t a b n : ℕ) → t ≡ a + b + n → pos t -ℤ pos a -ℤ pos b ≡ pos n
unfolding ◌-ℤ◌
sub_twice t a b n h = ground arith

-- The figures are those of the table of all devices: as many devices as it has rows, as many
-- online as it shows online, which are no more, and those that have not checked in are the rest,
-- never less than none.
pub figures_lem :
    (rooms : List Room)
    → (total_devices rooms ≡ length (fleet_devices rooms))
      × (online_devices rooms ≡ count_if (λ f. f.device.connected) (fleet_devices rooms))
      × (online_devices rooms ≤ total_devices rooms)
      × ((checkin_stats rooms).not_checked
          ≡ pos (
              count_if
                (λ f. not (has_status 1 f.device || has_status 2 f.device))
                (fleet_devices rooms)))
unfolding online_devices checkin_stats checked_in checked_out
figures_lem rooms =
    let total = total_devices-length rooms in
    let online = sum_rooms-count (λ d. d.connected) rooms in
    let some_in = sum_rooms-count (has_status 1) rooms in
    let some_out = sum_rooms-count (has_status 2) rooms in
    let parts = count_if-parts (fleet_devices rooms) in
    let few = count_if-length (λ f. f.device.connected) (fleet_devices rooms) in
    (total, online, omega arith, sub_twice _ _ _ _ (omega arith))

-- What is shown of all commands, and what is left out.
pub record IsLatest (date : Text → ℤ) (limit : ℕ) (all shown : List RecentCommand) : Type 0 where
  pub bounded : length shown ≤ limit
  pub descending : IsDescending (λ c. date c.log.created_at) shown
  pub left_out : List RecentCommand
  pub complete :
      (p : RecentCommand → Bool) → count_if p shown + count_if p left_out ≡ count_if p all
  pub older : All (λ c. All (λ o. date o.log.created_at ≤ℤ date c.log.created_at) left_out) shown
  pub full : length shown < limit → left_out ≡ []

-- The latest commands are `limit` at most, in descending order of their times; each command of a
-- room is shown or left out, none that is left out is later than one that is shown, and none is
-- left out while there is room.
pub latest_commands-IsLatest :
    (date : Text → ℤ) (limit : ℕ) (rooms : List Room)
    → IsLatest date limit (recent_commands rooms) (latest_commands date limit rooms)
unfolding latest_commands
latest_commands-IsLatest date limit rooms =
    let key : RecentCommand → ℤ = λ c. date c.log.created_at in
    let all = sort_latest key (recent_commands rooms) in
    let whole = front-behind limit all in
    let sorted =
      subst (IsDescending key) (sym whole) (sort_latest-IsDescending key (recent_commands rooms)) in
    let (descending, older) = IsDescending-split key (front limit all) (behind limit all) sorted in
    record {
      bounded = length-front limit all;
      descending = descending;
      left_out = behind limit all;
      complete = λ p.
          sym (count_if-append p (front limit all) (behind limit all))
          ∙ (ap (count_if p) whole ∙ sort_latest-count_if key p (recent_commands rooms));
      older = older;
      full = behind-short limit all;
    }
