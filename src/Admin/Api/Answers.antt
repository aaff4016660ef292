-- ===== src/Admin/Api/Answers.antt =====
-- How a request ends (`api` of frontend/src/lib/api.ts).
use icpc_controller.Prelude.{
  true, false, Option, none, some, ◌≡◌, ◌≢◌, refl, inl, inr, arith, is_empty, Bool-cases,
  Option-cases,
}
use icpc_controller.Prelude.Text.{Text}
use icpc_controller.Admin.Api.{
  Json, Response, Outcome, data_of, api_error, syntax_error, data_in, message, end_of, answer,
}

module _ (J : Json) where
  -- A response with its end: only one of success gives data, that of its text; any other whose
  -- text can be read gives an error of its status with a message that is not empty; a text that
  -- cannot be read is an error of its own, whatever the status.
  pub data IsEnd (r : Response) : Outcome J → Type 0 where
    returned :
        (result : Option J.Value)
        → r.ok ≡ true
        → data_in J r.text ≡ some result
        → IsEnd r (data_of result)
    failed :
        (message : Text)
        → r.ok ≡ false
        → data_in J r.text ≢ none
        → is_empty message ≡ false
        → IsEnd r (api_error r.status message)
    unread : is_empty r.text ≡ false → J.parse r.text ≡ none → IsEnd r syntax_error

  message-is_empty :
      (result : Option J.Value) (r : Response) → is_empty (message J result r) ≡ false
  unfolding message
  message-is_empty result r = ground arith

  data_in-none :
      (text : Text) → data_in J text ≡ none → (is_empty text ≡ false) × (J.parse text ≡ none)
  unfolding data_in
  data_in-none text e = elim (Bool-cases (is_empty text)) [
    | inl blank ↦
        let read : data_in J text ≡ some none = rw (data_in, blank) refl in absurd (ground arith)
    | inr there ↦ elim (Option-cases (J.parse text)) [
      | inl bad ↦ (there, bad)
      | inr good ↦
          let read : data_in J text ≡ some (some good.0) = rw (data_in, there, good.1) refl in
          absurd (ground arith)
    ]
  ]

  -- Every response ends a request by one rule: with the data of its text where it is one of
  -- success, with its status and a message that is not empty where it is not, and with the error of
  -- the reader where its text is not empty and cannot be read.
  pub answer-IsEnd : (r : Response) → IsEnd r (answer J r)
  unfolding answer end_of
  answer-IsEnd r = elim (Option-cases (data_in J r.text)) [
    | inl bad ↦
        let (there, unreadable) = data_in-none r.text bad in rw bad (unread there unreadable)
    | inr good ↦ elim (Bool-cases r.ok) [
      | inl ok ↦ simp (good.1, ok) (returned good.0 ok good.1)
      | inr wrong ↦
          simp (good.1, wrong)
            (failed (message J good.0 r) wrong (λ e. absurd (ground arith))
              (message-is_empty good.0 r))
    ]
  ]
