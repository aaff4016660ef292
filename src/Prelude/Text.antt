-- ===== src/Prelude/Text.antt =====
-- Text as code points, for what the program builds and reads character by character, and the
-- decimal notation of a number.
use Prim.Native.Nat.{ℕ, zero, suc, ◌+◌, ◌-◌, ◌*◌, ◌/◌, ◌%◌, ◌<◌, ◌≤◌}
use Prim.Native.Char.{code}
use Prim.Native.String.{String}
use mathlib.Core.Bool.{true, false}
use mathlib.Core.Path.{◌≡◌, refl, ap}
use mathlib.Core.List.{List, [], ◌∷◌, ◌++◌}
use mathlib.Core.Logic.{inl, inr}
use native.Mathlib.Omega.{arith}
use icpc_controller.Prelude.Tests.{ltb, ltb→lt, lt→ltb, Bool-cases}
use icpc_controller.Prelude.Lists.{length, All, All-append, length-append}

abbrev pub Text : Type 0
Text = List ℕ

-- The code points of a native text, which has its own `[]` and `∷`.
abbrev pub codes : String → Text
codes String.[] = []
codes (String.◌∷◌ c s) = code c ∷ codes s

-- `String(n)`: the decimal digits of a whole number, with fuel for their number.
show_fuel : ℕ → ℕ → Text
show_fuel zero n = []
show_fuel (suc f) n = elim (ltb n 10) [
  | true ↦ (48 + n) ∷ []
  | false ↦ show_fuel f (n / 10) ++ (48 + n % 10) ∷ []
]

unfoldable pub show : ℕ → Text
unfolding show_fuel
show n = show_fuel (suc n) n

-- The number that digits denote, behind those that gave `acc`.
unfoldable pub read : ℕ → Text → ℕ
read acc [] = acc
read acc (c ∷ cs) = read (acc * 10 + (c - 48)) cs

read-append : (acc : ℕ) (xs ys : Text) → read acc (xs ++ ys) ≡ read (read acc xs) ys
unfolding read
read-append acc [] ys = refl
read-append acc (x ∷ xs) ys = read-append (acc * 10 + (x - 48)) xs ys

read-show_fuel : (f n : ℕ) → n < f → read 0 (show_fuel f n) ≡ n
unfolding show_fuel read
read-show_fuel zero n h = absurd (omega arith)
read-show_fuel (suc f) n h =
    ground
      (arith, read-show_fuel f (n / 10), read-append 0 (show_fuel f (n / 10)) ((48 + n % 10) ∷ []))

-- Reading the decimal notation gives the number back.
pub read-show : (n : ℕ) → read 0 (show n) ≡ n
unfolding show
read-show n = read-show_fuel (suc n) n (omega arith)

abbrev pub IsDigit : ℕ → Type 0
IsDigit c = (48 ≤ c) × (c < 58)

show_fuel-small : (f n : ℕ) → ltb n 10 ≡ true → show_fuel (suc f) n ≡ (48 + n) ∷ []
unfolding show_fuel
show_fuel-small f n h = ground arith

show_fuel-large :
    (f n : ℕ) → ltb n 10 ≡ false → show_fuel (suc f) n ≡ show_fuel f (n / 10) ++ (48 + n % 10) ∷ []
unfolding show_fuel
show_fuel-large f n h = ground arith

show_fuel-IsDigit : (f n : ℕ) → All IsDigit (show_fuel f n)
show_fuel-IsDigit zero n = unfold show_fuel in tt
show_fuel-IsDigit (suc f) n = elim (Bool-cases (ltb n 10)) [
  | inl small ↦ rw (show_fuel-small f n small) ((omega arith, omega (arith, ltb→lt n 10 small)), tt)
  | inr large ↦
      rw (show_fuel-large f n large)
        (All-append IsDigit _ _ (show_fuel-IsDigit f (n / 10)) ((omega arith, omega arith), tt))
]

pub show-IsDigit : (n : ℕ) → All IsDigit (show n)
unfolding show
show-IsDigit n = show_fuel-IsDigit (suc n) n

show_fuel-length_pos : (f n : ℕ) → n < f → 0 < length (show_fuel f n)
show_fuel-length_pos zero n h = absurd (omega arith)
show_fuel-length_pos (suc f) n h = elim (Bool-cases (ltb n 10)) [
  | inl small ↦ rw (show_fuel-small f n small) (omega arith)
  | inr large ↦ rw (show_fuel-large f n large, length-append) (omega arith)
]

-- One digit is written for a number below 10, and two or more for any other.
pub length-show-small : (n : ℕ) → n < 10 → length (show n) ≡ 1
unfolding show
length-show-small n h = ap length (show_fuel-small n n (lt→ltb n 10 h))

pub length-show-large : (n : ℕ) → 10 ≤ n → 2 ≤ length (show n)
unfolding show
length-show-large n h = elim (Bool-cases (ltb n 10)) [
  | inl small ↦ absurd (omega (arith, ltb→lt n 10 small))
  | inr large ↦
      rw (show_fuel-large n n large, length-append)
        (omega (arith, show_fuel-length_pos n (n / 10) (omega arith)))
]

-- JavaScript's a || b
abbrev pub or_text : Text → Text → Text
or_text [] b = b
or_text (c ∷ cs) b = c ∷ cs
