-- ===== src/Admin/Actions/Aimed.antt =====
-- Whom the actions of the network, power and distribution pages are for
-- (frontend/src/pages/network.tsx, power.tsx, distribute.tsx).
use icpc_controller.Prelude.{
  ℕ, Bool, true, false, Option, none, some, List, [], ◌∷◌, ◌++◌, ◌≡◌, ◌↔◌, refl, inl, inr, arith,
  is_empty, All, Bool-cases,
}
use icpc_controller.Prelude.Text.{Text}
use icpc_controller.Admin.Commands.{Target, is_online, trim}
use icpc_controller.Admin.Actions.{
  Rule, Choice, Request, clean, Kind, saving, queue_kind, act_ids, act, mode_target, nobody_picked,
  wake, power_command, schedule, start_distribution, cloud_command,
}

abbrev pub has_target : Target → Bool
has_target Target.broadcast = true
has_target (Target.target_list []) = false
has_target (Target.target_list (i ∷ is)) = true

-- Whether a request is for somebody: a list or a selection names one device at least.
abbrev pub is_aimed : Request → Bool
is_aimed (Request.put_rules rules) = true
is_aimed (Request.queue [] operation rules) = false
is_aimed (Request.queue (k ∷ ks) operation rules) = true
is_aimed (Request.post path target) = has_target target

abbrev pub AllAimed : List Request → Type 0
AllAimed = All (λ r. is_aimed r ≡ true)

queue-aimed :
    (fleet : List Text) (operation : Text) (rules : Option (List Rule))
    → is_empty fleet ≡ false
    → is_aimed (Request.queue fleet operation rules) ≡ true
queue-aimed [] operation rules h = cc
queue-aimed (k ∷ ks) operation rules h = refl

list-aimed : (ids : List ℕ) → is_empty ids ≡ false → has_target (Target.target_list ids) ≡ true
list-aimed [] h = cc
list-aimed (i ∷ is) h = refl

mode-aimed : (c : Choice) → nobody_picked c ≡ false → has_target (mode_target c) ≡ true
mode-aimed c h = elim (Bool-cases (is_online c.mode)) [
  | inl online ↦ rw online refl
  | inr picked ↦ rw picked (list-aimed c.picked (ground arith))
]

wake-aimed : (c : Choice) → AllAimed (wake c)
unfolding wake
wake-aimed c = elim (Bool-cases c.cloud_all) [
  | inl cloud ↦ elim (Bool-cases (is_empty c.fleet)) [
    | inl nobody ↦ rw (cloud, nobody) tt
    | inr some_one ↦ rw (cloud, some_one) (queue-aimed c.fleet _ _ some_one, tt)
  ]
  | inr room ↦ elim (Bool-cases (nobody_picked c)) [
    | inl nobody ↦ rw (room, nobody) tt
    | inr some_one ↦ rw (room, some_one) (mode-aimed c some_one, tt)
  ]
]

schedule-aimed : (run_at : Text) (c : Choice) → AllAimed (schedule run_at c)
unfolding schedule
schedule-aimed [] c = tt
schedule-aimed (t ∷ ts) c = elim (Bool-cases c.cloud_all) [
  | inl cloud ↦ elim (Bool-cases (is_empty c.fleet)) [
    | inl nobody ↦ rw (cloud, nobody) tt
    | inr some_one ↦ rw (cloud, some_one) (queue-aimed c.fleet _ _ some_one, tt)
  ]
  | inr room ↦ elim (Bool-cases (nobody_picked c)) [
    | inl nobody ↦ rw (room, nobody) tt
    | inr some_one ↦ rw (room, some_one) (mode-aimed c some_one, tt)
  ]
]

distribution-aimed :
    (files : List Text) (c : Choice) (confirmed : Bool)
    → AllAimed (start_distribution files c confirmed)
unfolding start_distribution
distribution-aimed [] c confirmed = tt
distribution-aimed (f ∷ fs) c confirmed = elim (Bool-cases c.cloud_all) [
  | inl cloud ↦ elim (Bool-cases (is_empty c.fleet)) [
    | inl nobody ↦ rw (cloud, nobody) tt
    | inr some_one ↦ elim (Bool-cases confirmed) [
      | inl ok ↦ rw (cloud, some_one, ok) (queue-aimed c.fleet _ _ some_one, tt)
      | inr cancelled ↦ rw (cloud, some_one, cancelled) tt
    ]
  ]
  | inr room ↦ elim (Bool-cases (nobody_picked c)) [
    | inl nobody ↦ rw (room, nobody) tt
    | inr some_one ↦ rw (room, some_one) (mode-aimed c some_one, tt)
  ]
]

saving-aimed :
    (kind : Kind) (rules : List Rule) (rs : List Request)
    → AllAimed rs
    → AllAimed (saving kind rules ++ rs)
saving-aimed Kind.apply rules rs h = (refl, h)
saving-aimed Kind.remove rules rs h = h

queue_kind-aimed :
    (kind : Kind) (fleet : List Text) (rules : List Rule)
    → is_empty fleet ≡ false
    → is_aimed (queue_kind kind fleet rules) ≡ true
queue_kind-aimed Kind.apply fleet rules h = queue-aimed fleet _ _ h
queue_kind-aimed Kind.remove fleet rules h = queue-aimed fleet _ _ h

act-aimed :
    (kind : Kind) (rules : List Rule) (c : Choice) (confirmed : Bool)
    → AllAimed (act kind rules c confirmed)
unfolding act
act-aimed kind rules c confirmed = elim (Bool-cases c.cloud_all) [
  | inl cloud ↦ elim (Bool-cases (is_empty c.fleet)) [
    | inl nobody ↦ rw (cloud, nobody) tt
    | inr some_one ↦ elim (Bool-cases confirmed) [
      | inl ok ↦
          rw (cloud, some_one, ok)
            (saving-aimed kind rules _ (queue_kind-aimed kind c.fleet rules some_one, tt))
      | inr cancelled ↦ rw (cloud, some_one, cancelled) (saving-aimed kind rules [] tt)
    ]
  ]
  | inr room ↦ elim (Bool-cases (is_empty (act_ids c))) [
    | inl nobody ↦ simp (room, nobody) tt
    | inr some_one ↦ elim (Bool-cases (is_online c.mode)) [
      | inl online ↦ simp (room, some_one, online) (saving-aimed kind rules _ (refl, tt))
      | inr picked ↦
          simp (room, some_one, picked)
            (saving-aimed kind rules _ (list-aimed (act_ids c) some_one, tt))
    ]
  ]
]

cloud_command-aimed :
    (command : Text) (c : Choice) (confirmed : Bool) → AllAimed (cloud_command command c confirmed)
unfolding cloud_command
cloud_command-aimed command c confirmed = elim (Bool-cases (is_empty (trim command))) [
  | inl blank ↦ rw blank tt
  | inr given ↦ elim (Bool-cases (is_empty c.fleet)) [
    | inl nobody ↦ rw (given, nobody) tt
    | inr some_one ↦ elim (Bool-cases confirmed) [
      | inl sure ↦ rw (given, some_one, sure) (queue-aimed c.fleet _ _ some_one, tt)
      | inr cancelled ↦ rw (given, some_one, cancelled) tt
    ]
  ]
]

-- Neither waking, nor a schedule, nor a distribution, nor an action of the network page, nor a
-- command for all rooms makes a request for an empty list of devices or an empty selection.
pub actions-AllAimed :
    (c : Choice) (confirmed : Bool) (run_at : Text) (files : List Text) (kind : Kind)
    (rules : List Rule) (command : Text)
    → AllAimed (wake c)
      × AllAimed (schedule run_at c)
      × AllAimed (start_distribution files c confirmed)
      × AllAimed (act kind rules c confirmed)
      × AllAimed (cloud_command command c confirmed)
actions-AllAimed c confirmed run_at files kind rules command = (
  wake-aimed c,
  schedule-aimed run_at c,
  distribution-aimed files c confirmed,
  act-aimed kind rules c confirmed,
  cloud_command-aimed command c confirmed,
)

aimed-list : (ids : List ℕ) → has_target (Target.target_list ids) ≡ true → is_empty ids ≡ false
aimed-list [] h = cc
aimed-list (i ∷ is) h = refl

mode-aimed_iff : (c : Choice) → (has_target (mode_target c) ≡ true) ↔ (nobody_picked c ≡ false)
mode-aimed_iff c = (
  λ h. elim (Bool-cases (is_online c.mode)) [
    | inl online ↦ rw online refl
    | inr picked ↦
        let aimed : has_target (Target.target_list c.picked) ≡ true = ground arith in
        rw picked (aimed-list c.picked aimed)
  ],
  mode-aimed c,
)

-- Of the confirmed power commands in a room, those are for somebody that are for all devices or
-- for a list with one device at least; the page does not refuse the others.
pub power_command-aimed_iff :
    (c : Choice) → c.cloud_all ≡ false → AllAimed (power_command c true) ↔ (nobody_picked c ≡ false)
unfolding power_command
power_command-aimed_iff c room =
    let (to, from) = mode-aimed_iff c in rw room (λ h. to h.0, λ h. (from h, tt))

abbrev pub saved_rules : List Request → List Rule
saved_rules [] = []
saved_rules (Request.put_rules rules ∷ rs) = rules
saved_rules (Request.queue fleet operation rules ∷ rs) = saved_rules rs
saved_rules (Request.post path target ∷ rs) = saved_rules rs

abbrev pub or_no_rules : Option (List Rule) → List Rule
or_no_rules none = []
or_no_rules (some rules) = rules

abbrev pub queued_rules : List Request → List Rule
queued_rules [] = []
queued_rules (Request.put_rules rules ∷ rs) = queued_rules rs
queued_rules (Request.queue fleet operation rules ∷ rs) = or_no_rules rules
queued_rules (Request.post path target ∷ rs) = queued_rules rs

-- Across rooms, with a selection and a confirmed question, applying the rules sends the rooms
-- the rules that it has just saved exactly if these are as they stand in the editor: if no value
-- has white space around it and none is blank.
pub act-rules_iff :
    (rules : List Rule) (c : Choice)
    → c.cloud_all ≡ true
    → is_empty c.fleet ≡ false
    → (queued_rules (act Kind.apply rules c true) ≡ saved_rules (act Kind.apply rules c true))
      ↔ (rules ≡ clean rules)
unfolding act
act-rules_iff rules c cloud some_one = rw (cloud, some_one) (λ h. h, λ h. h)
