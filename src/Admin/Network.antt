-- ===== src/Admin/Network.antt =====
-- Editing the rules of the network page (frontend/src/pages/network.tsx); applying them is with the
-- actions of the other pages (Admin.Actions).
pub mod Stored
use icpc_controller.Prelude.{ℕ, zero, suc, List, [], ◌∷◌, ◌++◌}
use icpc_controller.Prelude.Text.{Text, codes}
use icpc_controller.Admin.Actions.{Rule, clean}

-- The rules that are shown, and those that were sent, the latest at the end.
pub record Network : Type 0 where
  pub rules : List Rule
  pub sent : List (List Rule)

-- rules.map((item, i) => i === index ? change(item) : item)
unfoldable pub change_rule : (Rule → Rule) → ℕ → List Rule → List Rule
change_rule change index [] = []
change_rule change zero (rule ∷ rules) = change rule ∷ rules
change_rule change (suc index) (rule ∷ rules) = rule ∷ change_rule change index rules

-- rules.filter((_, i) => i !== index)
unfoldable pub drop_rule : ℕ → List Rule → List Rule
drop_rule index [] = []
drop_rule zero (rule ∷ rules) = rules
drop_rule (suc index) (rule ∷ rules) = rule ∷ drop_rule index rules

-- `save`, up to its request, and its answer.
unfoldable pub save_rules : List Rule → Network → Network
save_rules next s = record s { sent = s.sent ++ clean next ∷ [] }

unfoldable pub on_rules : List Rule → Network → Network
on_rules answer s = record s { rules = answer }

unfoldable pub type_rule : ℕ → Text → Network → Network
type_rule index kind s = record s {
  rules = change_rule (λ item. record item { kind = kind }) index s.rules;
}

unfoldable pub value_rule : ℕ → Text → Network → Network
value_rule index value s = record s {
  rules = change_rule (λ item. record item { value = value }) index s.rules;
}

-- Leaving the field of a rule, and the button that deletes a rule.
unfoldable pub blur_rule : Network → Network
blur_rule s = save_rules s.rules s

unfoldable pub delete_rule : ℕ → Network → Network
delete_rule index s = save_rules (drop_rule index s.rules) s

unfoldable pub add_rule : Network → Network
add_rule s = record s {
  rules = s.rules ++ record { kind = codes "DOMAIN-SUFFIX"; value = [] } ∷ [];
}

pub data Step (s : Network) : Network → Type 0 where
  answered : (answer : List Rule) → Step s (on_rules answer s)
  typed : (index : ℕ) (kind : Text) → Step s (type_rule index kind s)
  valued : (index : ℕ) (value : Text) → Step s (value_rule index value s)
  blurred : Step s (blur_rule s)
  deleted : (index : ℕ) → Step s (delete_rule index s)
  added : Step s (add_rule s)

abbrev pub no_rules : Network
no_rules = record { rules = []; sent = [] }

pub data Reach : Network → Type 0 where
  begun : Reach no_rules
  further : {s t : Network} → Reach s → Step s t → Reach t
