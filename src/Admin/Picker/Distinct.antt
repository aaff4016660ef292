-- ===== src/Admin/Picker/Distinct.antt =====
-- No device is picked twice (frontend/src/components/targets.tsx).
use icpc_controller.Prelude.{
  ℕ, Bool, false, List, [], ◌∷◌, ◌++◌, keep, any, ◌≡◌, refl, inl, inr, arith, ◌==◌, Bool-cases,
}
use icpc_controller.Admin.Fleet.{Device}
use icpc_controller.Admin.Commands.{toggle_picked}
use icpc_controller.Admin.Picker.{
  found, set_online, set_found, IsDistinct, ids_of, Step, toggled, online_set, found_set, cleared,
  Reach, begun, further,
}

any-keep : (p q : ℕ → Bool) (xs : List ℕ) → any p xs ≡ false → any p (keep q xs) ≡ false
any-keep p q [] h = refl
any-keep p q (x ∷ xs) h = let rest = any-keep p q xs in ground arith

keep-IsDistinct : (q : ℕ → Bool) (xs : List ℕ) → IsDistinct xs → IsDistinct (keep q xs)
keep-IsDistinct q [] h = tt
keep-IsDistinct q (x ∷ xs) h = elim (Bool-cases (q x)) [
  | inl stays ↦ rw stays (any-keep (λ y. x == y) q xs h.0, keep-IsDistinct q xs h.1)
  | inr goes ↦ rw goes (keep-IsDistinct q xs h.1)
]

any-snoc :
    (x id : ℕ) (xs : List ℕ)
    → any (λ y. x == y) xs ≡ false
    → (id == x) ≡ false
    → any (λ y. x == y) (xs ++ id ∷ []) ≡ false
any-snoc x id [] h k = ground arith
any-snoc x id (y ∷ xs) h k = let rest = any-snoc x id xs in ground arith

snoc-IsDistinct :
    (id : ℕ) (xs : List ℕ)
    → any (λ x. id == x) xs ≡ false
    → IsDistinct xs
    → IsDistinct (xs ++ id ∷ [])
snoc-IsDistinct id [] h k = (refl, tt)
snoc-IsDistinct id (x ∷ xs) h k =
    (any-snoc x id xs k.0 (ground arith), snoc-IsDistinct id xs (ground arith) k.1)

any-ids_of :
    (id : ℕ) (p : Device → Bool) (ds : List Device)
    → any (λ x. id == x) (ids_of ds) ≡ false
    → any (λ x. id == x) (ids_of (keep p ds)) ≡ false
any-ids_of id p [] h = refl
any-ids_of id p (d ∷ ds) h = let rest = any-ids_of id p ds in ground arith

ids_of-IsDistinct :
    (p : Device → Bool) (ds : List Device)
    → IsDistinct (ids_of ds)
    → IsDistinct (ids_of (keep p ds))
ids_of-IsDistinct p [] h = tt
ids_of-IsDistinct p (d ∷ ds) h = elim (Bool-cases (p d)) [
  | inl stays ↦ rw stays (any-ids_of d.assigned_id p ds h.0, ids_of-IsDistinct p ds h.1)
  | inr goes ↦ rw goes (ids_of-IsDistinct p ds h.1)
]

step-IsDistinct : {s t : List ℕ} → Step s t → IsDistinct s → IsDistinct t
unfolding toggle_picked set_online set_found found
step-IsDistinct {s} (toggled id) h = elim (Bool-cases (any (λ x. id == x) s)) [
  | inl there ↦ rw there (keep-IsDistinct _ s h)
  | inr new ↦ rw new (snoc-IsDistinct id s new h)
]
step-IsDistinct (online_set matches devices k) h =
    ids_of-IsDistinct (λ d. d.connected) _ (ids_of-IsDistinct matches devices k)
step-IsDistinct (found_set matches devices k) h = ids_of-IsDistinct matches devices k
step-IsDistinct cleared h = tt

-- Over every run of the picker, no device is picked twice.
pub Reach-IsDistinct : {s : List ℕ} → Reach s → IsDistinct s
Reach-IsDistinct begun = tt
Reach-IsDistinct (further r step) = step-IsDistinct step (Reach-IsDistinct r)
