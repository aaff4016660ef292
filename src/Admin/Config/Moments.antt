-- ===== src/Admin/Config/Moments.antt =====
-- The value of the field for the countdown (frontend/src/pages/broadcast.tsx).
use icpc_controller.Prelude.{
  ℕ, ◌+◌, ◌*◌, ◌-◌, Bool, false, Option, some, List, [], ◌∷◌, ◌++◌, ◌≡◌, refl, ap, ◌∙◌, arith, All,
  if◌then◌else◌, leb, ◌&&◌, is_empty,
}
use icpc_controller.Prelude.Text.{Text, show, read, read-show, IsDigit, show-IsDigit}
use icpc_controller.Admin.Settings.{pad_two}
use icpc_controller.Admin.Config.{Local, local_text, to_local}

-- The numbers of a text, with one character of another kind between two.
abbrev pub is_digit : ℕ → Bool
is_digit c = leb 48 c && leb c 57

abbrev pub numbers_from : ℕ → Text → List ℕ
numbers_from acc [] = acc ∷ []
numbers_from acc (c ∷ cs) =
    let digit = numbers_from (acc * 10 + (c - 48)) cs in
    let other = numbers_from 0 cs in if is_digit c then digit else acc ∷ other

digits-last : (acc : ℕ) (xs : Text) → All IsDigit xs → numbers_from acc xs ≡ read acc xs ∷ []
unfolding read
digits-last acc [] h = refl
digits-last acc (x ∷ xs) h = ground (arith, digits-last (acc * 10 + (x - 48)) xs h.1)

digits-then :
    (c acc : ℕ) (xs ys : Text)
    → is_digit c ≡ false
    → All IsDigit xs
    → numbers_from acc (xs ++ c ∷ ys) ≡ read acc xs ∷ numbers_from 0 ys
unfolding read
digits-then c acc [] ys k h = rw k refl
digits-then c acc (x ∷ xs) ys k h = ground (arith, digits-then c (acc * 10 + (x - 48)) xs ys k h.1)

pad_two-digits : (t : Text) → All IsDigit t → All IsDigit (pad_two t)
unfolding pad_two
pad_two-digits [] h = ((omega arith, omega arith), ((omega arith, omega arith), tt))
pad_two-digits (c ∷ []) h = ((omega arith, omega arith), h)
pad_two-digits (c ∷ d ∷ cs) h = h

read-pad_two : (t : Text) → read 0 (pad_two t) ≡ read 0 t
unfolding pad_two read
read-pad_two [] = refl
read-pad_two (c ∷ []) = refl
read-pad_two (c ∷ d ∷ cs) = refl

-- The digits of a number, padded.
padded-last : (n : ℕ) → numbers_from 0 (pad_two (show n)) ≡ n ∷ []
padded-last n =
    digits-last 0 (pad_two (show n)) (pad_two-digits (show n) (show-IsDigit n))
    ∙ ap (λ k. k ∷ []) (read-pad_two (show n) ∙ read-show n)

padded-then :
    (c n : ℕ) (ys : Text)
    → is_digit c ≡ false
    → numbers_from 0 (pad_two (show n) ++ c ∷ ys) ≡ n ∷ numbers_from 0 ys
padded-then c n ys k =
    digits-then c 0 (pad_two (show n)) ys k (pad_two-digits (show n) (show-IsDigit n))
    ∙ ap (λ m. m ∷ numbers_from 0 ys) (read-pad_two (show n) ∙ read-show n)

five_numbers :
    (y m d h mi : ℕ)
    → numbers_from 0 (
        show y
        ++ (b'-'
            ∷ (pad_two (show m)
                ++ (b'-'
                    ∷ (pad_two (show d)
                        ++ (b'T' ∷ (pad_two (show h) ++ (b':' ∷ pad_two (show mi)))))))))
      ≡ y ∷ m ∷ d ∷ h ∷ mi ∷ []
five_numbers y m d h mi =
    rw
      (
        digits-then b'-' 0 (show y) _ refl (show-IsDigit y),
        padded-then b'-' m _ refl,
        padded-then b'T' d _ refl,
        padded-then b':' h _ refl,
        padded-last mi,
        read-show y,
      )
      refl

local_text-numbers :
    (date : Local)
    → numbers_from 0 (local_text date)
      ≡ date.year ∷ date.month ∷ date.day ∷ date.hours ∷ date.minutes ∷ []
unfolding local_text
local_text-numbers date = five_numbers date.year date.month date.day date.hours date.minutes

-- The numbers in the value of the field are the year, the month, the day, the hours and the
-- minutes of the local time, in that order.
pub to_local-numbers :
    (local : Text → Option Local) (iso : Text) (date : Local)
    → is_empty iso ≡ false
    → local iso ≡ some date
    → numbers_from 0 (to_local local iso)
      ≡ date.year ∷ date.month ∷ date.day ∷ date.hours ∷ date.minutes ∷ []
unfolding to_local
to_local-numbers local iso date given known = simp given (simp known (local_text-numbers date))
