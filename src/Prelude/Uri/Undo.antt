-- ===== src/Prelude/Uri/Undo.antt =====
-- Decoding gives the encoded text back, and an encoded text has neither slashes nor number signs.
use Prim.Native.Nat.{ℕ, ◌+◌, ◌*◌, ◌/◌, ◌%◌, ◌<◌}
use mathlib.Core.Bool.{true, false}
use mathlib.Core.Path.{◌≡◌, refl, ap, ◌∙◌, sym}
use mathlib.Core.List.{List, [], ◌∷◌, ◌++◌, map}
use mathlib.Core.Logic.{inl, inr, ◌≢◌}
use mathlib.Core.Option.{Option, none, some}
use native.Mathlib.Omega.{arith}
use icpc_controller.Prelude.Tests.{◌==◌, Bool-cases}
use icpc_controller.Prelude.Lists.{All, All-append, is_empty, append_assoc}
use icpc_controller.Prelude.Text.{Text}
use icpc_controller.Prelude.Uri.{
  is_plain, hex_digit, percent, percents, utf8, encode_char, encode, IsScalar, Token, hex_value,
  Escape, prepend, tokens, Place, characters, decode,
}

hex_value-hex_digit : (n : ℕ) → n < 16 → hex_value (hex_digit n) ≡ some n
unfolding hex_value hex_digit
hex_value-hex_digit n h = ground arith

prepend_twice :
    {A : Type 0} (xs ys : List A) (o : Option (List A))
    → prepend xs (prepend ys o) ≡ prepend (xs ++ ys) o
prepend_twice xs ys none = refl
prepend_twice xs ys (some zs) = ap some (sym (append_assoc xs ys zs))

prepend_nil : {A : Type 0} (o : Option (List A)) → prepend [] o ≡ o
prepend_nil none = refl
prepend_nil (some xs) = refl

-- An escape is read as its byte.
tokens-percent :
    (b : ℕ) (rest : Text)
    → b < 256
    → tokens Escape.outside (percent b ++ rest)
      ≡ prepend (Token.byte b ∷ []) (tokens Escape.outside rest)
unfolding tokens
tokens-percent b rest h =
    let hi = hex_value-hex_digit (b / 16) (omega arith) in
    let lo = hex_value-hex_digit (b % 16) (omega arith) in
    let whole : b / 16 * 16 + b % 16 ≡ b = omega arith in
    rw (hi, lo, whole) (prepend_nil _ ∙ prepend_nil _)

tokens-percents :
    (bs : List ℕ) (rest : Text)
    → All (λ b. b < 256) bs
    → tokens Escape.outside (percents bs ++ rest)
      ≡ prepend (map Token.byte bs) (tokens Escape.outside rest)
tokens-percents [] rest h = sym (prepend_nil _)
tokens-percents (b ∷ bs) rest h =
    let assoc = append_assoc (percent b) (percents bs) rest in
    ap (tokens Escape.outside) assoc
    ∙ (tokens-percent b (percents bs ++ rest) h.0
        ∙ (ap (prepend (Token.byte b ∷ [])) (tokens-percents bs rest h.1)
            ∙ prepend_twice (Token.byte b ∷ []) (map Token.byte bs) (tokens Escape.outside rest)))

plain-ne : (c : ℕ) → is_plain c ≡ true → (c == 37) ≡ false
unfolding is_plain
plain-ne c h = ground arith

plain-IsPartChar : (c : ℕ) → is_plain c ≡ true → (c ≢ 47) × (c ≢ 35)
unfolding is_plain
plain-IsPartChar c h = (λ e. ground arith, λ e. ground arith)

utf8-byte : (c : ℕ) → IsScalar c → All (λ b. b < 256) (utf8 c)
unfolding utf8
utf8-byte c h = ground arith

-- The bytes of a scalar value are read as that value.
characters-utf8 :
    (c : ℕ) (rest : List Token)
    → IsScalar c
    → characters Place.between (map Token.byte (utf8 c) ++ rest)
      ≡ prepend (c ∷ []) (characters Place.between rest)
unfolding characters utf8
characters-utf8 c rest h = ground arith

tokens-char :
    (c : ℕ) (rest : Text)
    → (c == 37) ≡ false
    → tokens Escape.outside (c ∷ rest) ≡ prepend (Token.char c ∷ []) (tokens Escape.outside rest)
unfolding tokens
tokens-char c rest h = rw (tokens, h) refl

-- What the tokens of a text are, and that they are read as that text.
record IsRead (text : Text) : Type 0 where
  read_as : List Token
  tokenized : tokens Escape.outside (encode text) ≡ some read_as
  decoded : characters Place.between read_as ≡ some text

cons-IsRead : (c : ℕ) (cs : Text) → IsScalar c → IsRead cs → IsRead (c ∷ cs)
unfolding encode tokens characters
cons-IsRead c cs h r = elim (Bool-cases (is_plain c)) [
  | inl plain ↦
      let other : (c == 37) ≡ false = plain-ne c plain in
      record {
        read_as = Token.char c ∷ r.read_as;
        tokenized =
            rw plain
              (tokens-char c (encode cs) other ∙ ap (prepend (Token.char c ∷ [])) r.tokenized);
        decoded = rw r.decoded refl;
      }
  | inr escaped ↦ record {
    read_as = map Token.byte (utf8 c) ++ r.read_as;
    tokenized = rw escaped (
        tokens-percents (utf8 c) (encode cs) (utf8-byte c h)
        ∙ ap (prepend (map Token.byte (utf8 c))) r.tokenized);
    decoded = characters-utf8 c r.read_as h ∙ ap (prepend (c ∷ [])) r.decoded;
  }
]

encode-IsRead : (text : Text) → All IsScalar text → IsRead text
unfolding encode tokens characters
encode-IsRead [] h = record { read_as = []; tokenized = refl; decoded = refl }
encode-IsRead (c ∷ cs) h = cons-IsRead c cs h.0 (encode-IsRead cs h.1)

-- Decoding undoes encoding.
pub decode-encode : (text : Text) → All IsScalar text → decode (encode text) ≡ some text
unfolding decode
decode-encode text h = let r = encode-IsRead text h in rw (decode, r.tokenized) r.decoded

-- Neither a slash nor a number sign.
abbrev pub IsPartChar : ℕ → Type 0
IsPartChar c = (c ≢ 47) × (c ≢ 35)

hex_digit-IsPartChar : (n : ℕ) → n < 16 → IsPartChar (hex_digit n)
unfolding hex_digit
hex_digit-IsPartChar n h = (λ e. ground arith, λ e. ground arith)

percents-IsPartChar : (bs : List ℕ) → All (λ b. b < 256) bs → All IsPartChar (percents bs)
percents-IsPartChar [] h = tt
percents-IsPartChar (b ∷ bs) h = (
  (λ e. omega arith, λ e. omega arith),
  (
    hex_digit-IsPartChar (b / 16) (omega (arith, h.0)),
    (hex_digit-IsPartChar (b % 16) (omega arith), percents-IsPartChar bs h.1),
  ),
)

pub encode-IsPartChar : (text : Text) → All IsScalar text → All IsPartChar (encode text)
unfolding encode
encode-IsPartChar [] h = tt
encode-IsPartChar (c ∷ cs) h =
    All-append IsPartChar (encode_char c) (encode cs)
      (elim (Bool-cases (is_plain c)) [
        | inl plain ↦ rw plain (plain-IsPartChar c plain, tt)
        | inr escaped ↦ rw escaped (percents-IsPartChar (utf8 c) (utf8-byte c h.0))
      ])
      (encode-IsPartChar cs h.1)

-- A text that is not empty is encoded as one that is not.
pub encode-is_empty : (c : ℕ) (cs : Text) → is_empty (encode (c ∷ cs)) ≡ false
unfolding encode utf8
encode-is_empty c cs = ground arith
