-- ===== src/Admin/Api.antt =====
-- Requests to the server and their answers (`api` of frontend/src/lib/api.ts). Where a request
-- goes is in Admin.Routes.
pub mod Answers
use icpc_controller.Prelude.{
  ℕ, Bool, true, false, not, ◌&&◌, ◌||◌, Option, none, some, List, [], ◌∷◌, ◌==◌, if◌then◌else◌,
  is_empty,
}
use icpc_controller.Prelude.Text.{or_text, Text, codes}
use icpc_controller.Admin.Routes.{after_prefix}

-- What the page takes from the browser: `parse` is JSON.parse, none where it throws, and `error`
-- the field of that name, empty where the value has no such text.
pub record Json : Type 1 where
  pub Value : Type 0
  pub parse : Text → Option Value
  pub error : Value → Text

-- The bodies of requests, as far as their type matters, and whether the caller sets a type.
pub data Body : Type 0 where
  no_body form_data : Body
  text_body : Text → Body

pub record Init : Type 0 where
  pub body : Body
  pub has_type : Bool

-- init.body && !(init.body instanceof FormData)
abbrev pub is_typed : Body → Bool
is_typed no_body = false
is_typed form_data = false
is_typed (text_body t) = not (is_empty t)

-- Whether `api` sets the type of the content to that of JSON.
unfoldable pub sets_json : Init → Bool
sets_json init = is_typed init.body && not init.has_type

-- `ok` is whether the status is one of success.
pub record Response : Type 0 where
  pub status : ℕ
  pub ok : Bool
  pub status_text : Text
  pub text : Text

abbrev pub starts_with : Text → Text → Bool
starts_with prefix text = elim (after_prefix prefix text) as (λ x. Bool) [
  | none ↦ false
  | some rest ↦ true
]

-- Whether the browser is sent to the page for the login.
unfoldable pub leaves : Text → Response → Bool
leaves pathname response = response.status == 401 && not (starts_with (codes "/login") pathname)

module _ (J : Json) where
  open J use {Value, parse, error}

  -- How a request ends: with its data, with an `ApiError`, or with what `JSON.parse` throws.
  pub data Outcome : Type 0 where
    data_of : Option Value → Outcome
    api_error : ℕ → Text → Outcome
    syntax_error : Outcome

  -- text ? JSON.parse(text) : null; none where it throws.
  unfoldable pub data_in : Text → Option (Option Value)
  data_in text =
      if is_empty text then some none else elim (parse text) as (λ x. Option (Option Value)) [
        | none ↦ none
        | some value ↦ some (some value)
      ]

  -- data?.error
  abbrev pub error_of : Option Value → Text
  error_of none = []
  error_of (some value) = error value

  unfoldable pub message : Option Value → Response → Text
  message result response = or_text (error_of result) (or_text response.status_text (codes "请求失败"))

  unfoldable pub end_of : Option (Option Value) → Response → Outcome
  end_of none response = syntax_error
  end_of (some result) response =
      if response.ok then data_of result else api_error response.status (message result response)

  -- `api`, from the response on.
  unfoldable pub answer : Response → Outcome
  answer response = end_of (data_in response.text) response
