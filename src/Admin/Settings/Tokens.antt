-- ===== src/Admin/Settings/Tokens.antt =====
-- What the forms of the settings send (frontend/src/pages/settings.tsx).
use icpc_controller.Prelude.{
  ℕ, ◌+◌, ◌-◌, ◌*◌, ◌/◌, ◌%◌, ◌<◌, Bool, true, false, not, ◌||◌, ◌&&◌, List, [], ◌∷◌, ◌++◌, ◌≡◌,
  refl, ap, inl, inr, arith, if◌then◌else◌, ltb, leb, any, length, All, All-snoc, Bool-cases,
}
use icpc_controller.Prelude.Text.{Text}
use icpc_controller.Admin.Settings.{
  hex_digit, to_hex, pad_two, token_of, Request, Settings, generate, save_deployment, save_prefix,
  name_row, command_row, delete_row, add_row, is_blank, save_presets, on_presets, save_password,
  on_password, Step, deployment_typed, generated, deployment_saved, prefix_typed, prefix_saved,
  row_named, row_commanded, row_deleted, row_added, presets_saved, presets_answered, old_typed,
  new_typed, password_saved, password_answered, load_settings, Reach, opened, further,
}

-- An independent reader of pairs of hexadecimal digits.
abbrev pub digit_value : ℕ → ℕ
digit_value c = if ltb c 58 then c - 48 else c - 87

abbrev pub read_bytes : Text → List ℕ
read_bytes [] = []
read_bytes (c ∷ []) = []
read_bytes (c ∷ d ∷ cs) = (16 * digit_value c + digit_value d) ∷ read_bytes cs

abbrev pub is_hex : ℕ → Bool
is_hex c = (leb 48 c && ltb c 58) || (leb 97 c && ltb c 103)

abbrev pub IsByte : ℕ → Type 0
IsByte b = b < 256

-- A byte is written as two digits.
pub data IsPair (b : ℕ) : Text → Type 0 where
  pair :
      (c d : ℕ)
      → is_hex c ≡ true
      → is_hex d ≡ true
      → 16 * digit_value c + digit_value d ≡ b
      → IsPair b (c ∷ d ∷ [])

hex_digit-is_hex : (n : ℕ) → n < 16 → is_hex (hex_digit n) ≡ true
hex_digit-is_hex n h = ground arith

digit_value-hex_digit : (n : ℕ) → n < 16 → digit_value (hex_digit n) ≡ n
digit_value-hex_digit n h = ground arith

pad_two-IsPair : (b : ℕ) → IsByte b → IsPair b (pad_two (to_hex b))
unfolding pad_two to_hex
pad_two-IsPair b h = elim (Bool-cases (ltb b 16)) [
  | inl one ↦
      let low : b < 16 = ground arith in
      let e = digit_value-hex_digit b low in
      rw one (pair 48 (hex_digit b) refl (hex_digit-is_hex b low) (rw e (omega arith)))
  | inr two ↦
      let high : b / 16 < 16 = omega arith in
      let low : b % 16 < 16 = omega arith in
      let e = digit_value-hex_digit (b / 16) high in
      let f = digit_value-hex_digit (b % 16) low in
      rw two (
        pair (hex_digit (b / 16)) (hex_digit (b % 16)) (hex_digit-is_hex _ high)
          (hex_digit-is_hex _ low) (rw (e, f) (omega arith)))
]

-- The token of any bytes has two digits for each of them, all of them hexadecimal, and the bytes
-- can be read back, so that no two lists of bytes have the same token.
pub read_bytes-token_of :
    (bytes : List ℕ)
    → All IsByte bytes
    → (read_bytes (token_of bytes) ≡ bytes)
      × (length (token_of bytes) ≡ 2 * length bytes)
      × All (λ c. is_hex c ≡ true) (token_of bytes)
unfolding token_of
read_bytes-token_of [] h = (refl, refl, tt)
read_bytes-token_of (b ∷ bs) h =
    let (back, long, digits) = read_bytes-token_of bs h.1 in
    elim (pad_two-IsPair b h.0)
      as (λ t p.
        (read_bytes (t ++ token_of bs) ≡ b ∷ bs)
        × (length (t ++ token_of bs) ≡ 2 * length (b ∷ bs))
        × All (λ c. is_hex c ≡ true) (t ++ token_of bs)) [
          | pair c d p q e ↦ (rw (e, back) refl, omega arith, (p, (q, digits)))
        ]

-- What a request may send.
abbrev pub is_proper : Request → Bool
is_proper (Request.post_deployment d) = true
is_proper (Request.post_prefix text) = true
is_proper (Request.put_presets rows) = not (any is_blank rows)
is_proper (Request.post_password old next) = true

abbrev pub AllFilled : Settings → Type 0
AllFilled s = All (λ r. is_proper r ≡ true) s.requests

step-AllFilled : {s t : Settings} → Step s t → AllFilled s → AllFilled t
unfolding generate save_deployment save_prefix name_row command_row delete_row add_row save_presets
    on_presets save_password on_password
step-AllFilled (deployment_typed d) h = h
step-AllFilled (generated bytes) h = h
step-AllFilled {s} (deployment_saved true) h =
    All-snoc (λ r. is_proper r ≡ true) _ s.requests refl h
step-AllFilled (deployment_saved false) h = h
step-AllFilled (prefix_typed text) h = h
step-AllFilled {s} prefix_saved h = All-snoc (λ r. is_proper r ≡ true) _ s.requests refl h
step-AllFilled (row_named index text) h = h
step-AllFilled (row_commanded index text) h = h
step-AllFilled (row_deleted index) h = h
step-AllFilled row_added h = h
step-AllFilled {s} presets_saved h = elim (Bool-cases (any is_blank s.rows)) [
  | inl blank ↦ rw blank h
  | inr filled ↦
      rw filled (
        All-snoc (λ r. is_proper r ≡ true) (Request.put_presets s.rows) s.requests (ap not filled)
          h)
]
step-AllFilled (presets_answered answer) h = h
step-AllFilled (old_typed text) h = h
step-AllFilled (new_typed text) h = h
step-AllFilled {s} password_saved h = All-snoc (λ r. is_proper r ≡ true) _ s.requests refl h
step-AllFilled password_answered h = h

-- Over every run of the settings, the presets that are sent all have a name and a command with
-- something other than white space.
pub Reach-AllFilled : {s : Settings} → Reach s → AllFilled s
unfolding load_settings
Reach-AllFilled (opened deployment prefix presets) = tt
Reach-AllFilled (further r step) = step-AllFilled step (Reach-AllFilled r)
