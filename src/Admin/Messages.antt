-- ===== src/Admin/Messages.antt =====
-- The messages of the socket for events and their listeners (`socket.onmessage` and `onAdmin` of
-- frontend/src/state.tsx).
use icpc_controller.Prelude.{
  Bool, true, false, Option, none, some, List, [], ◌∷◌, ◌++◌, ◌≡◌, refl, inl, inr, if◌then◌else◌,
  Bool-cases,
}
use icpc_controller.Prelude.Text.{Text}

-- A listener of messages `M` changes the state that the pages share, and says whether it threw.
abbrev pub Listener : Type 0 → Type 0 → Type 0
Listener S M = M → S → S × Bool

module _ {S M : Type 0} where
  -- listeners.forEach((fn) => fn(msg)): an error ends it, with what was changed until then.
  unfoldable pub notify : List (Listener S M) → M → S → S × Bool
  notify [] m s = (s, false)
  notify (fn ∷ fns) m s =
      let (t, threw) = fn m s in let rest = notify fns m t in if threw then (t, true) else rest

  -- `socket.onmessage`: a text that cannot be read, and an error of a listener, are ignored.
  unfoldable pub on_text : (Text → Option M) → List (Listener S M) → Text → S → S
  on_text parse fns text s = elim (parse text) as (λ x. S) [
    | none ↦ s
    | some m ↦ (notify fns m s).0
  ]

  -- Listeners get a message one group after the other; those behind one that throws get nothing.
  pub notify-append :
      (fns more : List (Listener S M)) (m : M) (s : S)
      → notify (fns ++ more) m s
        ≡ (if (notify fns m s).1 then notify fns m s else notify more m (notify fns m s).0)
  unfolding notify
  notify-append [] more m s = refl
  notify-append (fn ∷ fns) more m s = elim (Bool-cases (fn m s).1) [
    | inl threw ↦ rw threw refl
    | inr fine ↦ rw fine (notify-append fns more m (fn m s).0)
  ]
