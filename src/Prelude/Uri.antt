-- ===== src/Prelude/Uri.antt =====
-- `encodeURIComponent` and `decodeURIComponent` on texts of Unicode scalar values.
pub mod Undo
use Prim.Native.Nat.{ℕ, zero, suc, ◌+◌, ◌-◌, ◌*◌, ◌/◌, ◌%◌, ◌<◌, ◌≤◌}
use mathlib.Core.Bool.{Bool, true, false, not, ◌&&◌, ◌||◌}
use mathlib.Core.List.{List, [], ◌∷◌, ◌++◌, map}
use mathlib.Core.Logic.{◌⊎◌}
use mathlib.Core.Option.{Option, none, some}
use icpc_controller.Prelude.Tests.{ltb, leb, ◌==◌, if◌then◌else◌}
use icpc_controller.Prelude.Text.{Text}

-- Letters, digits and - _ . ! ~ * ' ( ) stand for themselves.
unfoldable pub is_plain : ℕ → Bool
is_plain c =
    (leb 65 c && leb c 90)
    || (leb 97 c && leb c 122)
    || (leb 48 c && leb c 57)
    || (leb 39 c && leb c 42)
    || (leb 45 c && leb c 46)
    || c == 95
    || c == 33
    || c == 126

unfoldable pub hex_digit : ℕ → ℕ
hex_digit n = if ltb n 10 then 48 + n else 55 + n

abbrev pub percent : ℕ → Text
percent b = 37 ∷ hex_digit (b / 16) ∷ hex_digit (b % 16) ∷ []

abbrev pub percents : List ℕ → Text
percents [] = []
percents (b ∷ bs) = percent b ++ percents bs

unfoldable pub utf8 : ℕ → List ℕ
utf8 c =
    if ltb c 128
    then c ∷ []
    else if ltb c 2048
    then (192 + c / 64) ∷ (128 + c % 64) ∷ []
    else if ltb c 65536
    then (224 + c / 4096) ∷ (128 + c / 64 % 64) ∷ (128 + c % 64) ∷ []
    else (240 + c / 262144) ∷ (128 + c / 4096 % 64) ∷ (128 + c / 64 % 64) ∷ (128 + c % 64) ∷ []

abbrev pub encode_char : ℕ → Text
encode_char c = if is_plain c then c ∷ [] else percents (utf8 c)

unfoldable pub encode : Text → Text
encode [] = []
encode (c ∷ cs) = encode_char c ++ encode cs

-- A scalar value is a code point that is no surrogate.
abbrev pub IsScalar : ℕ → Type 0
IsScalar c = (c < 55296) ⊎ ((57344 ≤ c) × (c < 1114112))

-- What decoding reads: a character, or a byte of an escape.
pub data Token : Type 0 where
  char : ℕ → Token
  byte : ℕ → Token

-- Hexadecimal digits of either case.
unfoldable pub hex_value : ℕ → Option ℕ
hex_value c =
    if leb 48 c && leb c 57
    then some (c - 48)
    else if leb 65 c && leb c 70
    then some (c - 55)
    else if leb 97 c && leb c 102
    then some (c - 87)
    else none

-- The place in an escape: none, behind the sign, or behind its first digit.
pub data Escape : Type 0 where
  outside sign : Escape
  digit : ℕ → Escape

abbrev pub with_digit : Option ℕ → Option (Escape × List Token)
with_digit none = none
with_digit (some n) = some (Escape.digit n, [])

abbrev pub with_byte : ℕ → Option ℕ → Option (Escape × List Token)
with_byte hi none = none
with_byte hi (some lo) = some (Escape.outside, Token.byte (hi * 16 + lo) ∷ [])

abbrev pub escape_step : Escape → ℕ → Option (Escape × List Token)
escape_step Escape.outside c =
    if c == 37 then some (Escape.sign, []) else some (Escape.outside, Token.char c ∷ [])
escape_step Escape.sign c = with_digit (hex_value c)
escape_step (Escape.digit hi) c = with_byte hi (hex_value c)

abbrev pub prepend : {A : Type 0} → List A → Option (List A) → Option (List A)
prepend xs none = none
prepend xs (some ys) = some (xs ++ ys)

abbrev pub end_escape : Escape → Option (List Token)
end_escape Escape.outside = some []
end_escape Escape.sign = none
end_escape (Escape.digit n) = none

unfoldable pub tokens : Escape → Text → Option (List Token)
tokens s [] = end_escape s
tokens s (c ∷ cs) = elim (escape_step s c) as (λ x. Option (List Token)) [
  | none ↦ none
  | some r ↦ prepend r.1 (tokens r.0 cs)
]

-- The place in a sequence of bytes: `more left low value` wants `left + 1` bytes yet, for a value
-- of at least `low`.
pub data Place : Type 0 where
  between : Place
  more : ℕ → ℕ → ℕ → Place

abbrev pub is_scalar : ℕ → ℕ → Bool
is_scalar low v = leb low v && (ltb v 55296 || (leb 57344 v && ltb v 1114112))

abbrev pub first_byte : ℕ → Option (Place × Text)
first_byte b =
    if ltb b 128
    then some (Place.between, b ∷ [])
    else if ltb b 192
    then none
    else if ltb b 224
    then some (Place.more 0 128 (b - 192), [])
    else if ltb b 240
    then some (Place.more 1 2048 (b - 224), [])
    else if ltb b 248
    then some (Place.more 2 65536 (b - 240), [])
    else none

abbrev pub next_byte : ℕ → ℕ → ℕ → Option (Place × Text)
next_byte zero low v = if is_scalar low v then some (Place.between, v ∷ []) else none
next_byte (suc left) low v = some (Place.more left low v, [])

abbrev pub byte_step : Place → Token → Option (Place × Text)
byte_step Place.between (Token.char c) = some (Place.between, c ∷ [])
byte_step Place.between (Token.byte b) = first_byte b
byte_step (Place.more left low v) (Token.char c) = none
byte_step (Place.more left low v) (Token.byte b) =
    if leb 128 b && ltb b 192 then next_byte left low (v * 64 + (b - 128)) else none

abbrev pub end_bytes : Place → Option Text
end_bytes Place.between = some []
end_bytes (Place.more left low v) = none

unfoldable pub characters : Place → List Token → Option Text
characters s [] = end_bytes s
characters s (t ∷ ts) = elim (byte_step s t) as (λ x. Option Text) [
  | none ↦ none
  | some r ↦ prepend r.1 (characters r.0 ts)
]

-- none where it throws.
unfoldable pub decode : Text → Option Text
decode text = elim (tokens Escape.outside text) as (λ x. Option Text) [
  | none ↦ none
  | some ts ↦ characters Place.between ts
]
