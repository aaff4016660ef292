-- ===== src/Admin/Settings.antt =====
-- The forms of the settings (frontend/src/pages/settings.tsx).
pub mod Tokens
use icpc_controller.Prelude.{
  ℕ, zero, suc, ◌+◌, ◌-◌, ◌/◌, ◌%◌, Bool, true, false, not, ◌||◌, Option, none, some, List, [], ◌∷◌,
  ◌++◌, ◌≡◌, ◌==◌, if◌then◌else◌, ltb, is_empty, any, length,
}
use icpc_controller.Prelude.Text.{Text, codes}
use icpc_controller.Admin.Commands.{trim}

-- value.toString(16) of a byte
abbrev pub hex_digit : ℕ → ℕ
hex_digit n = if ltb n 10 then 48 + n else 87 + n

unfoldable pub to_hex : ℕ → Text
to_hex b = if ltb b 16 then hex_digit b ∷ [] else hex_digit (b / 16) ∷ hex_digit (b % 16) ∷ []

-- text.padStart(2, "0")
unfoldable pub pad_two : Text → Text
pad_two [] = 48 ∷ 48 ∷ []
pad_two (c ∷ []) = 48 ∷ c ∷ []
pad_two (c ∷ d ∷ cs) = c ∷ d ∷ cs

-- The text of a new token, from the random bytes.
unfoldable pub token_of : List ℕ → Text
token_of [] = []
token_of (b ∷ bs) = pad_two (to_hex b) ++ token_of bs

-- The fields that the form edits.
pub record Deployment : Type 0 where
  pub mode : Text
  pub room_name : Text
  pub cloud_url : Text
  pub device_id_start : ℕ
  pub advertise_ip : Text
  pub allow_insecure : Bool
  pub token : Text

pub record Preset : Type 0 where
  pub name : Text
  pub desc : Text
  pub command : Text
  pub color : Text

-- The requests of the page.
pub data Request : Type 0 where
  post_deployment : Deployment → Request
  post_prefix : Text → Request
  put_presets : List Preset → Request
  post_password : Text → Text → Request

-- The states of the forms, one beside the other, and the requests that were made; `refusals`
-- counts the messages in place of a request.
pub record Settings : Type 0 where
  pub deployment : Deployment
  pub prefix : Text
  pub rows : List Preset
  pub old_password : Text
  pub new_password : Text
  pub requests : List Request
  pub refusals : ℕ

abbrev pub request : Request → Settings → Settings
request r s = record s { requests = s.requests ++ r ∷ [] }

-- The button for a new token, with 32 random bytes.
unfoldable pub generate : List ℕ → Settings → Settings
generate bytes s = record s { deployment = record s.deployment { token = token_of bytes } }

-- The button of the deployment, with the user's answer.
unfoldable pub save_deployment : Bool → Settings → Settings
save_deployment confirmed s =
    if confirmed then request (Request.post_deployment s.deployment) s else s

unfoldable pub save_prefix : Settings → Settings
save_prefix s = request (Request.post_prefix (trim s.prefix)) s

-- rows.map((item, i) => i === index ? change(item) : item)
unfoldable pub change_at : (Preset → Preset) → ℕ → List Preset → List Preset
change_at change index [] = []
change_at change zero (row ∷ rows) = change row ∷ rows
change_at change (suc index) (row ∷ rows) = row ∷ change_at change index rows

-- rows.filter((_, i) => i !== index)
unfoldable pub drop_at : ℕ → List Preset → List Preset
drop_at index [] = []
drop_at zero (row ∷ rows) = rows
drop_at (suc index) (row ∷ rows) = row ∷ drop_at index rows

unfoldable pub name_row : ℕ → Text → Settings → Settings
name_row index text s = record s {
  rows = change_at (λ item. record item { name = text }) index s.rows;
}

unfoldable pub command_row : ℕ → Text → Settings → Settings
command_row index text s = record s {
  rows = change_at (λ item. record item { command = text }) index s.rows;
}

unfoldable pub delete_row : ℕ → Settings → Settings
delete_row index s = record s { rows = drop_at index s.rows }

unfoldable pub add_row : Settings → Settings
add_row s = record s {
  rows = s.rows ++ record { name = []; desc = []; command = []; color = codes "primary" } ∷ [];
}

abbrev pub is_blank : Preset → Bool
is_blank row = is_empty (trim row.name) || is_empty (trim row.command)

-- The button of the presets; the answer takes the place of the rows (`on_presets`).
unfoldable pub save_presets : Settings → Settings
save_presets s =
    if any is_blank s.rows
    then record s { refusals = suc s.refusals }
    else request (Request.put_presets s.rows) s

unfoldable pub on_presets : List Preset → Settings → Settings
on_presets answer s = record s { rows = answer }

-- The button of the password, and its answer.
unfoldable pub save_password : Settings → Settings
save_password s = request (Request.post_password s.old_password s.new_password) s

unfoldable pub on_password : Settings → Settings
on_password s = record s { old_password = []; new_password = [] }

pub data Step (s : Settings) : Settings → Type 0 where
  deployment_typed : (d : Deployment) → Step s (record s { deployment = d })
  generated : (bytes : List ℕ) → Step s (generate bytes s)
  deployment_saved : (confirmed : Bool) → Step s (save_deployment confirmed s)
  prefix_typed : (text : Text) → Step s (record s { prefix = text })
  prefix_saved : Step s (save_prefix s)
  row_named : (index : ℕ) (text : Text) → Step s (name_row index text s)
  row_commanded : (index : ℕ) (text : Text) → Step s (command_row index text s)
  row_deleted : (index : ℕ) → Step s (delete_row index s)
  row_added : Step s (add_row s)
  presets_saved : Step s (save_presets s)
  presets_answered : (answer : List Preset) → Step s (on_presets answer s)
  old_typed : (text : Text) → Step s (record s { old_password = text })
  new_typed : (text : Text) → Step s (record s { new_password = text })
  password_saved : Step s (save_password s)
  password_answered : Step s (on_password s)

-- The forms of settings that were loaded.
unfoldable pub load_settings : Deployment → Text → List Preset → Settings
load_settings deployment prefix presets = record {
  deployment = record deployment { token = [] };
  prefix = prefix;
  rows = presets;
  old_password = [];
  new_password = [];
  requests = [];
  refusals = 0;
}

pub data Reach : Settings → Type 0 where
  opened :
      (deployment : Deployment) (prefix : Text) (presets : List Preset)
      → Reach (load_settings deployment prefix presets)
  further : {s t : Settings} → Reach s → Step s t → Reach t
