-- ===== src/Admin/Commands/Runs.antt =====
-- The request of a run (`run` of frontend/src/pages/commands.tsx): whom it reaches, and what
-- is shown when it is answered.
use icpc_controller.Prelude.{
  ℕ, Bool, true, false, Option, none, some, List, [], ◌∷◌, ◌++◌, ◌≡◌, refl, inl, inr, ◌⊎◌, ◌≢◌,
  arith, ◌==◌, if◌then◌else◌, is_empty, Bool-cases, Option-cases,
}
use icpc_controller.Prelude.Text.{Text}
use icpc_controller.Prelude.Maps.{lookup, lookup-set, set}
use icpc_controller.Admin.Fleet.{Device}
use icpc_controller.Admin.Commands.{
  Row, Target, Request, Toast, Panel, is_space, trim, online_ids, run_targets, run_target, run,
  Child, child_row, next_rows, on_created,
}

-- The devices that the server gives a command to: those that are connected, or those of a list.
abbrev pub reached : Target → List Device → List ℕ
reached Target.broadcast ds = online_ids ds
reached (Target.target_list ids) ds = ids

run_target-reached :
    (ids : Option (List ℕ)) (s : Panel) → reached (run_target ids s) s.devices ≡ run_targets ids s
unfolding run_target run_targets
run_target-reached none s = ground arith
run_target-reached (some ids) s = refl

-- A text that does not begin with white space.
abbrev pub begins_plain : Text → Bool
begins_plain [] = true
begins_plain (c ∷ cs) = if is_space c then false else true

-- What a run did: it refused with one message and made no request, for a blank command or for
-- want of targets, or it made one request and is busy.
pub data HasRun (ids : Option (List ℕ)) (s t : Panel) : Type 0 where
  refused :
      (trim s.command ≡ []) ⊎ (run_targets ids s ≡ [])
      → t.requests ≡ s.requests
      → (message : Text) → t.toasts ≡ s.toasts ++ Toast.bad message ∷ []
      → t.busy ≡ s.busy
      → HasRun ids s t
  posted :
      (target : Target)
      → trim s.command ≢ []
      → reached target s.devices ≡ run_targets ids s
      → run_targets ids s ≢ []
      → t.requests ≡ s.requests ++ Request.post_command target (trim s.command) ∷ []
      → t.toasts ≡ s.toasts
      → t.busy ≡ true
      → HasRun ids s t

is_empty→eq : {A : Type 0} → (xs : List A) → is_empty xs ≡ true → xs ≡ []
is_empty→eq [] h = refl
is_empty→eq (x ∷ xs) h = cc

is_empty→ne : {A : Type 0} → (xs : List A) → is_empty xs ≡ false → xs ≢ []
is_empty→ne [] h e = cc
is_empty→ne (x ∷ xs) h e = cc

-- A run either refuses, without a request, or makes exactly one request; the request then
-- reaches exactly the targets that are chosen, of which there is one at least, and its command
-- is not blank.
pub run_lem : (ids : Option (List ℕ)) (s : Panel) → HasRun ids s (run ids s)
unfolding run
run_lem ids s = elim (Bool-cases (is_empty (trim s.command))) [
  | inl blank ↦ rw blank (HasRun.refused (inl (is_empty→eq _ blank)) refl _ refl refl)
  | inr text ↦ elim (Bool-cases (is_empty (run_targets ids s))) [
    | inl nobody ↦ rw (text, nobody) (HasRun.refused (inr (is_empty→eq _ nobody)) refl _ refl refl)
    | inr chosen ↦
        rw (text, chosen)
          (HasRun.posted (run_target ids s) (is_empty→ne _ text) (run_target-reached ids s)
            (is_empty→ne _ chosen) refl refl refl)
  ]
]

-- The last command of an answer for a device.
unfoldable pub last_child : ℕ → List Child → Option Child
last_child d [] = none
last_child d (c ∷ cs) =
    let rest = last_child d cs in
    elim rest as (λ x. Option Child) [
      | none ↦ elim c.target_id as (λ x. Option Child) [
        | none ↦ none
        | some t ↦ if d == t then some c else none
      ]
      | some later ↦ some later
    ]

abbrev pub row_for : ℕ → Option Child → Option Row → Option Row
row_for d none old = old
row_for d (some c) old = some (child_row c d)

next_rows-lookup :
    (d : ℕ) (cs : List Child) (rows : List (ℕ × Row))
    → lookup d (next_rows cs rows) ≡ row_for d (last_child d cs) (lookup d rows)
unfolding next_rows last_child
next_rows-lookup d [] rows = refl
next_rows-lookup d (c ∷ cs) rows = elim (Option-cases c.target_id) [
  | inl gone ↦ let rest = next_rows-lookup d cs rows in rw (next_rows, gone) (ground (arith, rest))
  | inr found ↦
      let (t, is) = found in
      let rest = next_rows-lookup d cs (set t (child_row c t) rows) in
      elim (Bool-cases (d == t)) [
        | inl same ↦
            let e : d ≡ t = ground arith in
            rw is (ground (arith, rest, lookup-set d t (child_row c t) rows))
        | inr other ↦ rw is (ground (arith, rest, lookup-set d t (child_row c t) rows))
      ]
]

-- The answer to a run puts a fresh row for each device that it lists, by the last command for
-- that device, and drops all others; the page is no longer busy and no row is open.
pub on_created-rows :
    (children : List Child) (count : ℕ) (s : Panel)
    → ((d : ℕ)
        → lookup d (on_created children count s).rows ≡ row_for d (last_child d children) none)
      × ((on_created children count s).busy ≡ false)
      × ((on_created children count s).active ≡ none)
unfolding on_created
on_created-rows children count s = (λ d. next_rows-lookup d children [], refl, refl)
