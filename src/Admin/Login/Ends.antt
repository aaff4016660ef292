-- ===== src/Admin/Login/Ends.antt =====
-- How an attempt to log in ends (frontend/src/pages/login.tsx).
use icpc_controller.Prelude.{
  true, false, ◌⊎◌, ◌≡◌, refl, inl, inr, arith, is_empty, if◌then◌else◌, ◌++◌,
}
use icpc_controller.Prelude.Text.{Text, codes}
use icpc_controller.Admin.Routes.{after_prefix}
use icpc_controller.Admin.Api.{
  Json, Response, Outcome, data_of, api_error, syntax_error, leaves, answer,
}
use icpc_controller.Admin.Api.Answers.{IsEnd, returned, failed, unread, answer-IsEnd}
use icpc_controller.Admin.Login.{
  Login, can_submit, submit, on_error, on_end, Step, typed, submitted, ended, unreached, Reach,
  begun, further,
}

module _ (J : Json) where
  -- One attempt at most is open, and the form is busy exactly while one is.
  abbrev pub IsSingle : Login → Type 0
  IsSingle s = s.open_requests ≡ (if s.busy then 1 else 0)

  step-IsSingle : {reader : Text} {s t : Login} → Step J reader s t → IsSingle s → IsSingle t
  unfolding can_submit submit on_error on_end
  step-IsSingle (typed password) h = h
  step-IsSingle {reader} {s} (submitted k) h = ground arith
  step-IsSingle {reader} {s} (ended (data_of result) k) h = ground arith
  step-IsSingle {reader} {s} (ended (api_error status message) k) h = ground arith
  step-IsSingle {reader} {s} (ended syntax_error k) h = ground arith
  step-IsSingle {reader} {s} (unreached message k) h = ground arith

  -- Over every run of the login one attempt at most is open, and the form is busy while it is.
  pub Reach-IsSingle : {reader : Text} {s : Login} → Reach J reader s → IsSingle s
  Reach-IsSingle begun = refl
  Reach-IsSingle (further r step) = step-IsSingle step (Reach-IsSingle r)

  end-shown :
      (reader : Text) (r : Response) (s : Login) (o : Outcome J)
      → is_empty reader ≡ false
      → s.left ≡ false
      → IsEnd J r o
      → (((on_end J reader o s).left ≡ true) × (r.ok ≡ true))
        ⊎ (((on_end J reader o s).left ≡ false) × (is_empty (on_end J reader o s).error ≡ false))
  unfolding on_end on_error
  end-shown reader r s _ k l (returned result ok e) = inl (refl, ok)
  end-shown reader r s _ k l (failed m wrong e there) = inr (l, there)
  end-shown reader r s _ k l (unread there e) = inr (l, k)

  -- While the login is shown, at an address whose path begins with /login, a response never sends
  -- the browser there again, and it ends the attempt in one of two ways: a response of success
  -- leaves for the application, or the login stays and shows a message that is not empty, where
  -- the message of the reader of JSON is not.
  pub on_end-answer :
      (reader rest : Text) (r : Response) (s : Login)
      → is_empty reader ≡ false
      → s.left ≡ false
      → (leaves (codes "/login" ++ rest) r ≡ false)
        × ((((on_end J reader (answer J r) s).left ≡ true) × (r.ok ≡ true))
            ⊎ (((on_end J reader (answer J r) s).left ≡ false)
                × (is_empty (on_end J reader (answer J r) s).error ≡ false)))
  unfolding leaves after_prefix
  on_end-answer reader rest r s k l =
      (ground arith, end-shown reader r s (answer J r) k l (answer-IsEnd J r))
