-- ===== src/Admin/Network/Stored.antt =====
-- Which rules are sent (frontend/src/pages/network.tsx).
use icpc_controller.Prelude.{
  true, List, [], ◌∷◌, ◌≡◌, refl, sym, ap, ◌∙◌, inl, inr, arith, is_empty, All, All-snoc,
  Bool-cases,
}
use icpc_controller.Prelude.Text.{Text}
use icpc_controller.Admin.Commands.{trim, trim_start, trim_end}
use icpc_controller.Admin.Checkin.Forms.{begins, ends, trim_lem}
use icpc_controller.Admin.Actions.{Rule, clean}
use icpc_controller.Admin.Network.{
  Network, save_rules, on_rules, type_rule, value_rule, blur_rule, delete_rule, add_rule, drop_rule,
  Step, answered, typed, valued, blurred, deleted, added, Reach, begun, further,
}

trim_start-id : (t : Text) → begins t ≡ true → trim_start t ≡ t
unfolding trim_start
trim_start-id [] h = refl
trim_start-id (c ∷ cs) h = ground arith

trim_end-id : (t : Text) → ends t ≡ true → trim_end t ≡ t
unfolding trim_end
trim_end-id [] h = refl
trim_end-id (c ∷ []) h = ground arith
trim_end-id (c ∷ d ∷ ds) h = let rest = trim_end-id (d ∷ ds) h in ground arith

is_empty-nil : (t : Text) → is_empty t ≡ true → t ≡ []
is_empty-nil [] h = refl
is_empty-nil (c ∷ cs) h = cc

-- Trimming a trimmed text changes nothing.
pub trim-trim : (t : Text) → trim (trim t) ≡ trim t
unfolding trim_start trim_end
trim-trim t = elim (Bool-cases (is_empty (trim t))) [
  | inl blank ↦ let e = is_empty-nil (trim t) blank in ap (λ x. trim x) e ∙ sym e
  | inr there ↦
      let (starts, stops) = trim_lem t there in
      ap trim_end (trim_start-id (trim t) starts) ∙ trim_end-id (trim t) stops
]

-- Cleaning the rules twice is cleaning them once: what is sent has no blank rule and no white
-- space around a value.
pub clean-clean : (rules : List Rule) → clean (clean rules) ≡ clean rules
unfolding clean
clean-clean [] = refl
clean-clean (r ∷ rules) = elim (Bool-cases (is_empty (trim r.value))) [
  | inl blank ↦ simp blank (clean-clean rules)
  | inr there ↦
      let e = trim-trim r.value in
      simp there (
        simp (e, there)
          (ap (λ l. record { kind = r.kind; value = trim r.value } ∷ l) (clean-clean rules)))
]

abbrev pub AllClean : Network → Type 0
AllClean s = All (λ rules. clean rules ≡ rules) s.sent

save_rules-AllClean : (next : List Rule) (s : Network) → AllClean s → AllClean (save_rules next s)
unfolding save_rules
save_rules-AllClean next s h =
    All-snoc (λ rules. clean rules ≡ rules) (clean next) s.sent (clean-clean next) h

step-AllClean : {s t : Network} → Step s t → AllClean s → AllClean t
unfolding on_rules type_rule value_rule blur_rule delete_rule add_rule
step-AllClean (answered answer) h = h
step-AllClean (typed index kind) h = h
step-AllClean (valued index value) h = h
step-AllClean {s} blurred h = save_rules-AllClean s.rules s h
step-AllClean {s} (deleted index) h = save_rules-AllClean (drop_rule index s.rules) s h
step-AllClean added h = h

-- Over every run of the page, the rules that are sent are clean.
pub Reach-AllClean : {s : Network} → Reach s → AllClean s
Reach-AllClean begun = tt
Reach-AllClean (further r step) = step-AllClean step (Reach-AllClean r)
