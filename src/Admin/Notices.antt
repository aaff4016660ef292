-- ===== src/Admin/Notices.antt =====
-- The toasts and the question of `AppProvider` (`toast`, `confirm` and the dialog of
-- frontend/src/state.tsx).
pub mod Settled
use icpc_controller.Prelude.{
  ℕ, suc, Bool, true, false, not, Option, none, some, List, [], ◌∷◌, ◌++◌, ◌≡◌, ◌==◌, if◌then◌else◌,
  keep, any,
}
use icpc_controller.Prelude.Text.{Text}

pub data Tone : Type 0 where
  info ok bad : Tone

pub record Toast : Type 0 where
  pub id : ℕ
  pub text : Text
  pub tone : Tone

-- The timers that are pending, by the toast that each removes; the question, by the number of
-- its promise; how many promises were made; and the answers that were given.
pub record Notices : Type 0 where
  pub toasts : List Toast
  pub timers : List ℕ
  pub ask : Option ℕ
  pub asked : ℕ
  pub answers : List (ℕ × Bool)

unfoldable pub toast : Toast → Notices → Notices
toast t s = record s { toasts = s.toasts ++ t ∷ []; timers = s.timers ++ t.id ∷ [] }

-- A timer that has run out is no longer pending.
unfoldable pub remove_one : ℕ → List ℕ → List ℕ
remove_one x [] = []
remove_one x (y ∷ ys) = let rest = remove_one x ys in if x == y then ys else y ∷ rest

unfoldable pub expire : ℕ → Notices → Notices
expire id s = record s {
  toasts = keep (λ item. not (item.id == id)) s.toasts;
  timers = remove_one id s.timers;
}

unfoldable pub confirm : Notices → Notices
confirm s = record s { ask = some s.asked; asked = suc s.asked }

-- ask?.resolve(ok); setAsk(null)
abbrev pub answer_to : Option ℕ → Bool → Notices → Notices
answer_to none sure s = s
answer_to (some n) sure s = record s { ask = none; answers = s.answers ++ (n, sure) ∷ [] }

unfoldable pub answer : Bool → Notices → Notices
answer sure s = answer_to s.ask sure s

pub data Step (s : Notices) : Notices → Type 0 where
  toasted : (t : Toast) → Step s (toast t s)
  expired : (id : ℕ) → any (λ x. id == x) s.timers ≡ true → Step s (expire id s)
  confirmed : Step s (confirm s)
  answered : (sure : Bool) → Step s (answer sure s)

abbrev pub no_notices : Notices
no_notices = record { toasts = []; timers = []; ask = none; asked = 0; answers = [] }

pub data After (s : Notices) : Notices → Type 0 where
  here : After s s
  later : {t u : Notices} → After s t → Step t u → After s u

-- The timers run out one after the other.
unfoldable pub expire_all : List ℕ → Notices → Notices
expire_all [] s = s
expire_all (id ∷ ids) s = expire_all ids (expire id s)
