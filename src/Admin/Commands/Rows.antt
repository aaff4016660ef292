-- ===== src/Admin/Commands/Rows.antt =====
-- The rows of the current run over every run of the commands page
-- (frontend/src/pages/commands.tsx): whose they are, and that their output only grows.
use icpc_controller.Prelude.{
  ℕ, true, false, Option, some, List, [], ◌∷◌, ◌++◌, ◌≡◌, refl, sym, inl, inr, arith, ◌==◌, All,
  All-imp, Bool-cases, Option-cases, append_nil,
}
use icpc_controller.Prelude.Text.{Text}
use icpc_controller.Prelude.Maps.{
  lookup, set, lookup-set, Distinct, set-Distinct, set-All, lookup-All,
}
use icpc_controller.Admin.Commands.{
  Row, Panel, AdminEvent, EventKind, on_admin, on_kind, put_row, current_row, output_row,
  result_row, error_lines, is_known, Child, child_row, next_rows, next_known, on_created,
  on_run_error, run, click_row,
}
use icpc_controller.Admin.Commands.Steps.{
  Step, event, ran, created, errored, edited, moded, toggled, chosen, clicked, loaded, Reach, start,
  next,
}

-- A row stands under its device, and its command is one of the current run.
pub record IsOwned (known : List (ℕ × ℕ)) (p : ℕ × Row) : Type 0 where
  pub own : p.1.device_id ≡ p.0
  pub target : ℕ
  pub of_run : lookup p.1.command_id known ≡ some target

pub record IsKept (rows : List (ℕ × Row)) (known : List (ℕ × ℕ)) : Type 0 where
  pub distinct : Distinct rows
  pub owned : All (IsOwned known) rows

set-IsOwned :
    (rows : List (ℕ × Row)) (known : List (ℕ × ℕ)) (id d : ℕ)
    → All (IsOwned known) rows
    → All (IsOwned (set id d known)) rows
set-IsOwned rows known id d h =
    All-imp
      (λ p k. elim (Bool-cases (p.1.command_id == id)) [
        | inl same ↦ record {
          own = k.own;
          target = d;
          of_run = rw (lookup-set p.1.command_id id d known, same) refl;
        }
        | inr other ↦ record {
          own = k.own;
          target = k.target;
          of_run = rw (lookup-set p.1.command_id id d known, other) k.of_run;
        }
      ])
      rows h

next-IsKept :
    (cs : List Child) (rows : List (ℕ × Row)) (known : List (ℕ × ℕ))
    → IsKept rows known
    → IsKept (next_rows cs rows) (next_known cs known)
unfolding next_rows next_known
next-IsKept [] rows known h = h
next-IsKept (c ∷ cs) rows known h = elim (Option-cases c.target_id) [
  | inl gone ↦ rw gone (next-IsKept cs rows known h)
  | inr found ↦
      let (d, is) = found in
      rw is (
        next-IsKept cs (set d (child_row c d) rows) (set c.id d known) (record {
          distinct = set-Distinct d (child_row c d) rows h.distinct;
          owned =
              set-All (IsOwned (set c.id d known)) d (child_row c d) rows
                (record {
                  own = refl;
                  target = d;
                  of_run = ground (arith, lookup-set c.id c.id d known);
                })
                (set-IsOwned rows known c.id d h.owned);
        }))
]

current_row-IsOwned :
    (e : AdminEvent) (s : Panel)
    → is_known e.command_id s ≡ true
    → IsKept s.rows s.known
    → IsOwned s.known (e.device_id, current_row e s)
unfolding current_row is_known
current_row-IsOwned e s k h = elim (Option-cases (lookup e.device_id s.rows)) [
  | inl new ↦
      rw (current_row, new)
        (elim (Option-cases (lookup e.command_id s.known)) [
          | inl gone ↦ absurd (ground arith)
          | inr found ↦ record { own = refl; target = found.0; of_run = found.1 }
        ])
  | inr found ↦
      let (row, is) = found in
      rw (current_row, is) (lookup-All (IsOwned s.known) e.device_id s.rows row h.owned is)
]

put_row-IsKept :
    (e : AdminEvent) (row : Row) (s : Panel)
    → IsOwned s.known (e.device_id, row)
    → IsKept s.rows s.known
    → IsKept (put_row e row s).rows s.known
unfolding put_row
put_row-IsKept e row s k h = record {
  distinct = set-Distinct e.device_id row s.rows h.distinct;
  owned = set-All (IsOwned s.known) e.device_id row s.rows k h.owned;
}

on_kind-IsKept :
    (kind : EventKind) (e : AdminEvent) (s : Panel)
    → is_known e.command_id s ≡ true
    → IsKept s.rows s.known
    → IsKept (on_kind kind e s).rows (on_kind kind e s).known
unfolding output_row result_row put_row
on_kind-IsKept EventKind.command_output e s k h =
    let o = current_row-IsOwned e s k h in
    put_row-IsKept e (output_row e (current_row e s)) s
      (record { own = o.own; target = o.target; of_run = o.of_run }) h
on_kind-IsKept EventKind.command_result e s k h =
    let o = current_row-IsOwned e s k h in
    put_row-IsKept e (result_row e (current_row e s)) s
      (record { own = o.own; target = o.target; of_run = o.of_run }) h
on_kind-IsKept EventKind.other e s k h = h

on_admin-IsKept :
    (e : AdminEvent) (s : Panel)
    → IsKept s.rows s.known
    → IsKept (on_admin e s).rows (on_admin e s).known
unfolding on_admin
on_admin-IsKept e s h = elim (Bool-cases (is_known e.command_id s)) [
  | inl k ↦ rw k (on_kind-IsKept e.kind e s k h)
  | inr k ↦ rw k h
]

-- `run` waits for its answer with the rows as they are.
run-rows :
    (ids : Option (List ℕ)) (s : Panel)
    → ((run ids s).rows ≡ s.rows) × ((run ids s).known ≡ s.known)
unfolding run
run-rows ids s = ground arith

pub step-IsKept : {s t : Panel} → Step s t → IsKept s.rows s.known → IsKept t.rows t.known
unfolding on_created on_run_error click_row
step-IsKept (event e) h = on_admin-IsKept e _ h
step-IsKept {s} (ran ids) h = let (rows, known) = run-rows ids s in rw (rows, known) h
step-IsKept (created children count) h =
    next-IsKept children [] [] (record { distinct = tt; owned = tt })
step-IsKept (errored message) h = h
step-IsKept (edited command) h = h
step-IsKept (moded mode) h = h
step-IsKept (toggled id) h = h
step-IsKept (chosen ids) h = h
step-IsKept (clicked d) h = h
step-IsKept (loaded devices) h = h

-- In every state that the page can reach, each device has at most one row, which stands under
-- that device, and its command is one of those that the last answer listed.
pub Reach-IsKept : {s : Panel} → Reach s → IsKept s.rows s.known
Reach-IsKept start = record { distinct = tt; owned = tt }
Reach-IsKept (next r step) = step-IsKept step (Reach-IsKept r)

-- What an event leaves of a row: its command, and its output with some text behind it.
pub record IsGrown (row row' : Row) : Type 0 where
  pub same_command : row'.command_id ≡ row.command_id
  pub added : Text
  pub grown : row'.output ≡ row.output ++ added

same-IsGrown : (row : Row) → IsGrown row row
same-IsGrown row = record { same_command = refl; added = []; grown = sym (append_nil row.output) }

put_row-IsGrown :
    (e : AdminEvent) (s : Panel) (d : ℕ) (row : Row) (change : Row → Row)
    → ((r : Row) → IsGrown r (change r))
    → lookup d s.rows ≡ some row
    → (row' : Row) × (lookup d (put_row e (change (current_row e s)) s).rows ≡ some row')
      × IsGrown row row'
      × ((d == e.device_id) ≡ false → row' ≡ row)
unfolding put_row
put_row-IsGrown e s d row change grows found = elim (Bool-cases (d == e.device_id)) [
  | inl same ↦
      let is : d ≡ e.device_id = ground arith in
      let current : current_row e s ≡ row = unfold current_row in ground arith in
      (
        change row,
        rw (lookup-set d e.device_id (change (current_row e s)) s.rows, same, current) refl,
        grows row,
        λ other. absurd (ground arith),
      )
  | inr other ↦ (
    row,
    rw (lookup-set d e.device_id (change (current_row e s)) s.rows, other) found,
    same-IsGrown row,
    λ h. refl,
  )
]

on_kind-IsGrown :
    (kind : EventKind) (e : AdminEvent) (s : Panel) (d : ℕ) (row : Row)
    → lookup d s.rows ≡ some row
    → (row' : Row) × (lookup d (on_kind kind e s).rows ≡ some row')
      × IsGrown row row'
      × ((d == e.device_id) ≡ false → row' ≡ row)
unfolding output_row result_row
on_kind-IsGrown EventKind.command_output e s d row found =
    put_row-IsGrown e s d row (output_row e)
      (λ r. record { same_command = refl; added = e.line ++ 10 ∷ []; grown = refl }) found
on_kind-IsGrown EventKind.command_result e s d row found =
    put_row-IsGrown e s d row (result_row e)
      (λ r. record { same_command = refl; added = error_lines e.error_output; grown = refl }) found
on_kind-IsGrown EventKind.other e s d row found = (row, found, same-IsGrown row, λ h. refl)

-- An event loses no row and no output: every row keeps its command, its output is extended at
-- its end at most, and the rows of other devices stay as they are.
pub on_admin-IsGrown :
    (e : AdminEvent) (s : Panel) (d : ℕ) (row : Row)
    → lookup d s.rows ≡ some row
    → (row' : Row) × (lookup d (on_admin e s).rows ≡ some row')
      × IsGrown row row'
      × ((d == e.device_id) ≡ false → row' ≡ row)
unfolding on_admin
on_admin-IsGrown e s d row found = elim (Bool-cases (is_known e.command_id s)) [
  | inl k ↦ rw k (on_kind-IsGrown e.kind e s d row found)
  | inr k ↦ rw k (row, found, same-IsGrown row, λ h. refl)
]
