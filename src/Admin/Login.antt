-- ===== src/Admin/Login.antt =====
-- The login (frontend/src/pages/login.tsx), with the answers of `api` (Admin.Api).
pub mod Ends
use icpc_controller.Prelude.{ℕ, ◌+◌, ◌-◌, ◌<◌, Bool, true, false, not, ◌&&◌, [], ◌≡◌, is_empty}
use icpc_controller.Prelude.Text.{Text}
use icpc_controller.Admin.Api.{Json, Outcome, data_of, api_error, syntax_error}

-- `open_requests` counts the attempts that have not ended; `left` says that the browser was sent
-- to the application.
pub record Login : Type 0 where
  pub password : Text
  pub error : Text
  pub busy : Bool
  pub open_requests : ℕ
  pub left : Bool

-- The button, and with it the form, is disabled while an attempt is open or without a password.
unfoldable pub can_submit : Login → Bool
can_submit s = not s.busy && not (is_empty s.password)

-- `onSubmit`, up to its request.
unfoldable pub submit : Login → Login
submit s = record s { busy = true; error = []; open_requests = s.open_requests + 1 }

-- The catch block, with the message of the error, and the block behind it.
unfoldable pub on_error : Text → Login → Login
on_error message s = record s { error = message; busy = false; open_requests = s.open_requests - 1 }

module _ (J : Json) where
  -- `onSubmit`, from the end of its request on; `reader` is the message of an error of JSON.parse.
  unfoldable pub on_end : Text → Outcome J → Login → Login
  on_end reader (data_of result) s = record s {
    left = true;
    busy = false;
    open_requests = s.open_requests - 1;
  }
  on_end reader (api_error status message) s = on_error message s
  on_end reader syntax_error s = on_error reader s

  -- `unreached` is a request that no response ends.
  pub data Step (reader : Text) (s : Login) : Login → Type 0 where
    typed : (password : Text) → Step reader s (record s { password = password })
    submitted : can_submit s ≡ true → Step reader s (submit s)
    ended : (outcome : Outcome J) → 0 < s.open_requests → Step reader s (on_end reader outcome s)
    unreached : (message : Text) → 0 < s.open_requests → Step reader s (on_error message s)

  abbrev pub first_login : Login
  first_login = record { password = []; error = []; busy = false; open_requests = 0; left = false }

  pub data Reach (reader : Text) : Login → Type 0 where
    begun : Reach reader first_login
    further : {s t : Login} → Reach reader s → Step reader s t → Reach reader t
