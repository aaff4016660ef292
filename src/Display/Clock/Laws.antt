-- ===== src/Display/Clock/Laws.antt =====
-- What the clock and the countdown show, read back as numbers
-- (internal/server/web/broadcast/display.js).
use icpc_controller.Prelude.{
  ℕ, String, zero, suc, ◌+◌, ◌-◌, ◌*◌, ◌/◌, ◌%◌, ◌<◌, true, false, some, List, [], ◌∷◌, ◌++◌, ◌≡◌,
  refl, ap, length, All, arith, ltb, ltb→lt, ◌==◌, Bool-cases, inl, inr,
}
use mathlib.Core.Path.{ap₂, subst, sym}
use icpc_controller.Prelude.Int.{ℤ, pos, negsuc, pos_part}
use icpc_controller.Prelude.Text.{
  Text, show, read, read-show, IsDigit, show-IsDigit, length-show-small, length-show-large,
}
use icpc_controller.Display.Host.{Host}
use icpc_controller.Display.State.{Display}
use icpc_controller.Display.Clock.{
  pad, pad_start, joined, time_str, remaining_text, remaining, countdown_text,
}

-- The numbers between the colons of a text.
abbrev pub fields_from : ℕ → Text → List ℕ
fields_from acc [] = acc ∷ []
fields_from acc (c ∷ cs) = elim (c == b':') [
  | true ↦ acc ∷ fields_from 0 cs
  | false ↦ fields_from (acc * 10 + (c - 48)) cs
]

abbrev pub fields : Text → List ℕ
fields = fields_from 0

fields_from-digits : (acc : ℕ) (xs : Text) → All IsDigit xs → fields_from acc xs ≡ read acc xs ∷ []
unfolding read
fields_from-digits acc [] h = refl
fields_from-digits acc (x ∷ xs) h = ground (arith, fields_from-digits (acc * 10 + (x - 48)) xs h.1)

fields_from-colon :
    (acc : ℕ) (xs ys : Text)
    → All IsDigit xs
    → fields_from acc (xs ++ b':' ∷ ys) ≡ read acc xs ∷ fields ys
unfolding read
fields_from-colon acc [] ys h = refl
fields_from-colon acc (x ∷ xs) ys h =
    ground (arith, fields_from-colon (acc * 10 + (x - 48)) xs ys h.1)

pad-IsDigit : (n : ℕ) → All IsDigit (pad n)
unfolding pad
pad-IsDigit n = elim (Bool-cases (ltb n 10)) [
  | inl small ↦ rw small ((omega arith, omega arith), show-IsDigit n)
  | inr large ↦ rw large (show-IsDigit n)
]

read-pad : (n : ℕ) → read 0 (pad n) ≡ n
unfolding pad read
read-pad n = ground (arith, read-show n)

fields-joined : (h m s : ℕ) → fields (joined (pad h) (pad m) (pad s)) ≡ h ∷ m ∷ s ∷ []
unfolding joined
fields-joined h m s = rw (
  fields_from-colon 0 (pad h) (pad m ++ (b':' ∷ pad s)) (pad-IsDigit h),
  fields_from-colon 0 (pad m) (pad s) (pad-IsDigit m),
  fields_from-digits 0 (pad s) (pad-IsDigit s),
  read-pad h,
  read-pad m,
  read-pad s,
)

-- `padStart(2, '0')` and `pad` write a number alike.
pad_start-eq-pad : (n : ℕ) → pad_start 2 (show n) ≡ pad n
unfolding pad_start pad
pad_start-eq-pad n = elim (Bool-cases (ltb n 10)) [
  | inl small ↦ let one = length-show-small n (ltb→lt n 10 small) in rw (small, one) refl
  | inr large ↦
      let two = length-show-large n (ground arith) in
      let none_left : 2 - length (show n) ≡ 0 = omega arith in rw (large, none_left) refl
]

-- The clock shows the hours, the minutes and the seconds of the local time, each by `pad`, and they
-- can be read back from it.
pub time_str-fields :
    (h m s : ℕ)
    → (time_str h m s ≡ joined (pad h) (pad m) (pad s)) × (fields (time_str h m s) ≡ h ∷ m ∷ s ∷ [])
unfolding time_str
time_str-fields h m s =
    let e =
      ap₂ (λ t u. t u) (ap₂ joined (pad_start-eq-pad h) (pad_start-eq-pad m))
        (pad_start-eq-pad s) in
    (e, rw e (fields-joined h m s))

remaining_text-fields :
    (t : ℤ)
    → (h m s : ℕ) × (fields (remaining_text (some t)) ≡ h ∷ m ∷ s ∷ [])
      × (h * 3600 + m * 60 + s ≡ pos_part t / 1000)
      × (m < 60)
      × (s < 60)
unfolding remaining_text
remaining_text-fields (pos zero) = (0, 0, 0, refl, refl, omega arith, omega arith)
remaining_text-fields (negsuc n) = (0, 0, 0, refl, refl, omega arith, omega arith)
remaining_text-fields (pos (suc n)) = (
  suc n / 3600000,
  suc n % 3600000 / 60000,
  suc n % 60000 / 1000,
  fields-joined _ _ _,
  omega arith,
  omega arith,
  omega arith,
)

countdown_text-some :
    (host : Host) (now : ℤ) (s : Display) (target : String)
    → s.countdown_target ≡ some target
    → countdown_text host now s ≡ remaining_text (remaining host now s)
unfolding countdown_text
countdown_text-some host now s target set = ground arith

-- With a target and a time left `t`, the countdown shows hours, minutes and seconds that make up
-- the whole seconds of `t`, or 0 where the target is past, with minutes and seconds below 60.
pub countdown_text-fields :
    (host : Host) (now : ℤ) (s : Display) (target : String) (t : ℤ)
    → s.countdown_target ≡ some target
    → remaining host now s ≡ some t
    → (h m sec : ℕ) × (fields (countdown_text host now s) ≡ h ∷ m ∷ sec ∷ [])
      × (h * 3600 + m * 60 + sec ≡ pos_part t / 1000)
      × (m < 60)
      × (sec < 60)
countdown_text-fields host now s target t set known =
    subst
      (λ text.
        (h m sec : ℕ) × (fields text ≡ h ∷ m ∷ sec ∷ [])
        × (h * 3600 + m * 60 + sec ≡ pos_part t / 1000)
        × (m < 60)
        × (sec < 60))
      (sym shows) (remaining_text-fields t)
  where
    shows : countdown_text host now s ≡ remaining_text (some t)
    shows = cc (countdown_text-some host now s target set, ap remaining_text known)
