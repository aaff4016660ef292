-- ===== src/Display/Keys.antt =====
-- The keys that the fullscreen lock takes away (`blockKeys` of
-- internal/server/web/broadcast/display.js).
use text.Mathlib.Text.{◌==◌ as str_eq}
use icpc_controller.Prelude.{
  ℕ, String, Bool, true, false, ◌&&◌, ◌||◌, ◌≡◌, refl, arith, ◌==◌, if◌then◌else◌,
}

-- The fields of a keyboard event; a missing text is empty.
pub record KeyEvent : Type 0 where
  pub key : String
  pub code : String
  pub key_code : ℕ
  pub ctrl : Bool
  pub shift : Bool
  pub alt : Bool

-- e.key || e.code || ""
abbrev pub key_name : KeyEvent → String
key_name e = if str_eq e.key "" then e.code else e.key

unfoldable pub is_leave_key : KeyEvent → Bool
is_leave_key e =
    let k = key_name e in
    str_eq k "Escape" || str_eq k "F11" || e.key_code == 27 || e.key_code == 122

unfoldable pub is_window_key : KeyEvent → Bool
is_window_key e =
    let k = key_name e in
    str_eq k "w"
    || str_eq k "W"
    || str_eq k "t"
    || str_eq k "T"
    || str_eq k "n"
    || str_eq k "N"
    || e.key_code == 87
    || e.key_code == 84
    || e.key_code == 78

unfoldable pub is_tab_key : KeyEvent → Bool
is_tab_key e = str_eq (key_name e) "Tab" || e.key_code == 9

unfoldable pub is_close_key : KeyEvent → Bool
is_close_key e = str_eq (key_name e) "F4" || e.key_code == 115

unfoldable pub is_meta_key : KeyEvent → Bool
is_meta_key e =
    let k = key_name e in str_eq k "Meta" || str_eq k "OS" || e.key_code == 91 || e.key_code == 92

-- Whether the event is stopped.
unfoldable pub block_keys : KeyEvent → Bool
block_keys e =
    if is_leave_key e
    then true
    else if e.ctrl && is_window_key e
    then true
    else if e.ctrl && (e.shift && is_tab_key e)
    then true
    else if e.alt && is_close_key e
    then true
    else is_meta_key e

-- The same key with other modifiers.
abbrev pub with_modifiers : Bool → Bool → Bool → KeyEvent → KeyEvent
with_modifiers c s a e = record e { ctrl = c; shift = s; alt = a }

-- The tests of the key alone.
record SameKey (e f : KeyEvent) : Type 0 where
  leave : is_leave_key f ≡ is_leave_key e
  window : is_window_key f ≡ is_window_key e
  tab : is_tab_key f ≡ is_tab_key e
  close : is_close_key f ≡ is_close_key e
  meta : is_meta_key f ≡ is_meta_key e

same_key : (e : KeyEvent) (c s a : Bool) → SameKey e (with_modifiers c s a e)
unfolding is_leave_key is_window_key is_tab_key is_close_key is_meta_key
same_key e c s a = record { leave = refl; window = refl; tab = refl; close = refl; meta = refl }

more_modifiers :
    (e f : KeyEvent) (c s a : Bool)
    → SameKey e f
    → f.ctrl ≡ (e.ctrl || c)
    → f.shift ≡ (e.shift || s)
    → f.alt ≡ (e.alt || a)
    → block_keys e ≡ true
    → block_keys f ≡ true
unfolding block_keys
more_modifiers e f c s a k p q r h = ground arith

-- Pressing more modifiers never frees a key: a key that is stopped with some is stopped with any
-- further ones.
pub block_keys_mono :
    (e : KeyEvent) (c s a : Bool)
    → block_keys e ≡ true
    → block_keys (with_modifiers (e.ctrl || c) (e.shift || s) (e.alt || a) e) ≡ true
block_keys_mono e c s a h =
    more_modifiers e _ c s a (same_key e (e.ctrl || c) (e.shift || s) (e.alt || a)) refl refl refl h

bare_modifiers :
    (e f : KeyEvent)
    → SameKey e f
    → f.ctrl ≡ false
    → f.alt ≡ false
    → block_keys f ≡ (is_leave_key e || is_meta_key e)
unfolding block_keys
bare_modifiers e f k p q = ground arith

-- Without Ctrl and Alt exactly the keys that leave the full screen and the Meta keys are stopped,
-- whether or not Shift is held.
pub block_keys-bare :
    (e : KeyEvent) (s : Bool)
    → block_keys (with_modifiers false s false e) ≡ (is_leave_key e || is_meta_key e)
block_keys-bare e s = bare_modifiers e _ (same_key e false s false) refl refl
