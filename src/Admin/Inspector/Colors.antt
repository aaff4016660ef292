-- ===== src/Admin/Inspector/Colors.antt =====
-- The value of the field for a colour (frontend/src/pages/broadcast.tsx).
use icpc_controller.Prelude.{true, ◌≡◌, refl, inl, inr, arith, Bool-cases}
use icpc_controller.Prelude.Text.{Text, codes}
use icpc_controller.Admin.Inspector.{is_color, to_color, is_hex_code}

white-is_color : is_color (codes "#ffffff") ≡ true
unfolding is_color is_hex_code
white-is_color = refl

-- What the field gets is always a number sign with six hexadecimal digits, and it is the colour of
-- the item wherever that is one; so asking twice changes nothing.
pub to_color_lem :
    (value : Text)
    → (is_color (to_color value) ≡ true)
      × (is_color value ≡ true → to_color value ≡ value)
      × (to_color (to_color value) ≡ to_color value)
unfolding to_color
to_color_lem value = elim (Bool-cases (is_color value)) [
  | inl is ↦ rw (is, is) (refl, λ h. refl, refl)
  | inr other ↦ rw (other, white-is_color) (refl, λ h. absurd (ground arith), refl)
]
