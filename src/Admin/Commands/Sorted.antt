-- ===== src/Admin/Commands/Sorted.antt =====
-- The rows as the commands page lists them (frontend/src/pages/commands.tsx): sorted by their
-- devices, with the failed ones that a repeated run is for.
use icpc_controller.Prelude.{
  ℕ, ◌≤◌, ◌<◌, ◌⊎◌, ◌↔◌, Bool, true, false, Option, none, some, List, [], ◌∷◌, map, ◌≡◌, ◌≢◌, refl,
  sym, ap, ◌∙◌, length-map, inl, inr, arith, ◌==◌, leb, if◌then◌else◌, All, All-imp, any, keep,
  length, Bool-cases,
}
use icpc_controller.Prelude.Text.{codes}
use icpc_controller.Prelude.Sets.{text_eq, text_eq→eq}
use icpc_controller.Prelude.Maps.{lookup}
use icpc_controller.Admin.Commands.{
  Row, Panel, insert_row, sort_rows, row_list, is_failed, is_done, failed, done,
}
use icpc_controller.Admin.Commands.Steps.{Reach}
use icpc_controller.Admin.Commands.Rows.{IsOwned, IsKept, Reach-IsKept}

-- Each row is of a greater device than the row before.
abbrev pub IsAscending : List Row → Type 0
IsAscending [] = Unit
IsAscending (r ∷ rs) = All (λ x. r.device_id < x.device_id) rs × IsAscending rs

-- The first row of a device.
abbrev pub row_of : ℕ → List Row → Option Row
row_of d [] = none
row_of d (r ∷ rs) = let rest = row_of d rs in if d == r.device_id then some r else rest

abbrev values : List (ℕ × Row) → List Row
values rows = map (λ p. p.1) rows

insert_row-All :
    (P : Row → Type 0) (r : Row) (rs : List Row) → P r → All P rs → All P (insert_row r rs)
unfolding insert_row
insert_row-All P r [] h k = (h, tt)
insert_row-All P r (x ∷ xs) h k = elim (Bool-cases (leb r.device_id x.device_id)) [
  | inl le ↦ rw le (h, k)
  | inr gt ↦ rw gt (k.0, insert_row-All P r xs h k.1)
]

insert_row-IsAscending :
    (r : Row) (rs : List Row)
    → All (λ x. x.device_id ≢ r.device_id) rs
    → IsAscending rs
    → IsAscending (insert_row r rs)
unfolding insert_row
insert_row-IsAscending r [] n h = (tt, tt)
insert_row-IsAscending r (x ∷ xs) n h = elim (Bool-cases (leb r.device_id x.device_id)) [
  | inl le ↦
      let lt : r.device_id < x.device_id = ground (arith, n.0) in
      rw le ((lt, All-imp (λ y k. omega arith) xs h.0), h)
  | inr gt ↦
      let lt : x.device_id < r.device_id = ground arith in
      rw gt (
        insert_row-All (λ y. x.device_id < y.device_id) r xs lt h.0,
        insert_row-IsAscending r xs n.1 h.1,
      )
]

row_of-insert_row :
    (d : ℕ) (r : Row) (rs : List Row)
    → row_of d (insert_row r rs) ≡ (if d == r.device_id then some r else row_of d rs)
unfolding insert_row
row_of-insert_row d r [] = refl
row_of-insert_row d r (x ∷ xs) = let rest = row_of-insert_row d r xs in ground arith

sort_rows-All : (P : Row → Type 0) (rs : List Row) → All P rs → All P (sort_rows rs)
unfolding sort_rows
sort_rows-All P [] h = tt
sort_rows-All P (r ∷ rs) h = insert_row-All P r (sort_rows rs) h.0 (sort_rows-All P rs h.1)

values-other :
    (k : ℕ) (known : List (ℕ × ℕ)) (rows : List (ℕ × Row))
    → All (IsOwned known) rows
    → lookup k rows ≡ none
    → All (λ x. x.device_id ≢ k) (values rows)
values-other k known [] h e = tt
values-other k known (p ∷ rows) h e = elim (Bool-cases (k == p.0)) [
  | inl same ↦ absurd (ground arith)
  | inr other ↦
      let own = h.0.own in (λ same. ground arith, values-other k known rows h.1 (ground arith))
]

sort_rows-IsAscending :
    (known : List (ℕ × ℕ)) (rows : List (ℕ × Row))
    → IsKept rows known
    → IsAscending (sort_rows (values rows))
unfolding sort_rows
sort_rows-IsAscending known [] h = tt
sort_rows-IsAscending known (p ∷ rows) h =
    let own : p.1.device_id ≡ p.0 = h.owned.0.own in
    let others = values-other p.0 known rows h.owned.1 h.distinct.0 in
    insert_row-IsAscending p.1 (sort_rows (values rows))
      (sort_rows-All (λ x. x.device_id ≢ p.1.device_id) (values rows)
        (All-imp (λ x k same. ground (arith, k)) (values rows) others))
      (sort_rows-IsAscending known rows (record { distinct = h.distinct.1; owned = h.owned.1 }))

row_of-sort_rows :
    (d : ℕ) (known : List (ℕ × ℕ)) (rows : List (ℕ × Row))
    → All (IsOwned known) rows
    → row_of d (sort_rows (values rows)) ≡ lookup d rows
unfolding sort_rows
row_of-sort_rows d known [] h = refl
row_of-sort_rows d known (p ∷ rows) h =
    let own = h.0.own in
    let rest = row_of-sort_rows d known rows h.1 in
    ground (arith, row_of-insert_row d p.1 (sort_rows (values rows)))

-- In every state that the page can reach, the list is ascending by device, so that no device is
-- listed twice, and it shows for each device the row that the device has.
pub Reach-IsAscending :
    {s : Panel}
    → Reach s
    → IsAscending (row_list s) × ((d : ℕ) → row_of d (row_list s) ≡ lookup d s.rows)
Reach-IsAscending {s} r =
    let h = Reach-IsKept r in
    (sort_rows-IsAscending s.known s.rows h, λ d. row_of-sort_rows d s.known s.rows h.owned)

abbrev has_failed : Option Row → Bool
has_failed none = false
has_failed (some r) = is_failed r

row_of-below : (d : ℕ) (rs : List Row) → All (λ x. d < x.device_id) rs → row_of d rs ≡ none
row_of-below d [] h = refl
row_of-below d (r ∷ rs) h = let below = h.0 in let rest = row_of-below d rs h.1 in ground arith

keep-failed :
    (d : ℕ) (rs : List Row)
    → IsAscending rs
    → any (λ x. d == x) (map (λ r. r.device_id) (keep is_failed rs)) ≡ has_failed (row_of d rs)
keep-failed d [] h = refl
keep-failed d (r ∷ rs) h =
    let rest = keep-failed d rs h.1 in
    elim (Bool-cases (is_failed r)) [
      | inl bad ↦ elim (Bool-cases (d == r.device_id)) [
        | inl same ↦ rw (bad, same) (sym bad)
        | inr other ↦ rw (bad, other) rest
      ]
      | inr good ↦ elim (Bool-cases (d == r.device_id)) [
        | inl same ↦
            let is : d ≡ r.device_id = ground arith in
            let below = row_of-below d rs (All-imp (λ x k. omega arith) rs h.0) in
            rw (good, same) (rest ∙ (ap has_failed below ∙ sym good))
        | inr other ↦ rw (good, other) rest
      ]
    ]

keep-done : (rs : List Row) → length (keep is_failed rs) ≤ length (keep is_done rs)
keep-done [] = omega arith
keep-done (r ∷ rs) = let rest = keep-done rs in ground arith

keep-length : (p : Row → Bool) (rs : List Row) → length (keep p rs) ≤ length rs
keep-length p [] = omega arith
keep-length p (r ∷ rs) = let rest = keep-length p rs in ground arith

-- There is a row, and its status is one of the two.
pub record HasFailed (row : Option Row) : Type 0 where
  pub shown : Row
  pub is_row : row ≡ some shown
  pub ended : (shown.status ≡ codes "failed") ⊎ (shown.status ≡ codes "timeout")

is_failed-ended :
    (r : Row) → is_failed r ≡ true → (r.status ≡ codes "failed") ⊎ (r.status ≡ codes "timeout")
is_failed-ended r h = elim (Bool-cases (text_eq r.status (codes "failed"))) [
  | inl bad ↦ inl (text_eq→eq r.status (codes "failed") bad)
  | inr other ↦ inr (text_eq→eq r.status (codes "timeout") (ground arith))
]

ended-is_failed :
    (r : Row) → (r.status ≡ codes "failed") ⊎ (r.status ≡ codes "timeout") → is_failed r ≡ true
unfolding text_eq
ended-is_failed r (inl e) = rw e refl
ended-is_failed r (inr e) = rw e refl

has_failed_iff : (row : Option Row) → (has_failed row ≡ true) ↔ HasFailed row
has_failed_iff none = (λ h. cc, λ h. let e = h.is_row in cc)
has_failed_iff (some r) = (
  λ h. record { shown = r; is_row = refl; ended = is_failed-ended r h },
  λ h. ap has_failed h.is_row ∙ ended-is_failed h.shown h.ended,
)

-- In every state that the page can reach, the devices that a repeated run is for are exactly
-- those whose row has the status failed or timeout, and the counts are in order: no more rows
-- failed than are done, and no more are done than are listed.
pub Reach-failed :
    {s : Panel}
    → Reach s
    → ((d : ℕ) → (any (λ x. d == x) (failed s) ≡ true) ↔ HasFailed (lookup d s.rows))
      × (length (failed s) ≤ done s)
      × (done s ≤ length (row_list s))
unfolding failed done
Reach-failed {s} r =
    let (ascending, shown) = Reach-IsAscending r in
    (
      λ d.
          let e = keep-failed d (row_list s) ascending ∙ ap has_failed (shown d) in
          let (to, from) = has_failed_iff (lookup d s.rows) in
          (λ h. to (sym e ∙ h), λ h. e ∙ from h),
      rw (length-map (λ r. r.device_id) (keep is_failed (row_list s))) (keep-done (row_list s)),
      keep-length is_done (row_list s),
    )
