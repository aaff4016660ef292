-- ===== src/Admin/Notices/Settled.antt =====
-- Toasts go away, and a question is answered once at most (frontend/src/state.tsx).
use icpc_controller.Prelude.{
  ℕ, ◌+◌, ◌<◌, ◌≤◌, Bool, true, false, not, ◌||◌, Option, none, some, List, [], ◌∷◌, ◌++◌, ◌≡◌, ◌≢◌,
  refl, ◌∙◌, subst, inl, inr, arith, ◌==◌, if◌then◌else◌, keep, any, count_if, count_if-append, All,
  All-append, All-imp, Bool-cases,
}
use icpc_controller.Admin.Notices.{
  Toast, Notices, toast, remove_one, expire, confirm, answer, answer_to, Step, toasted, expired,
  confirmed, answered, no_notices, After, here, later, expire_all,
}

abbrev pub has_timer : List ℕ → Toast → Bool
has_timer timers t = any (λ x. t.id == x) timers

-- Whether a promise has an answer.
abbrev pub times_answered : ℕ → List (ℕ × Bool) → ℕ
times_answered n answers = count_if (λ a. a.0 == n) answers

-- Every toast has a timer that removes it. No promise is answered twice; one that is yet to be
-- made has no answer, nor has the one of the question that is open.
pub record IsSettled (s : Notices) : Type 0 where
  pub timed : All (λ t. has_timer s.timers t ≡ true) s.toasts
  pub once : (n : ℕ) → times_answered n s.answers ≤ 1
  pub made : (n : ℕ) → s.asked ≤ n → times_answered n s.answers ≡ 0
  pub open_made : (n : ℕ) → s.ask ≡ some n → n < s.asked
  pub unanswered : (n : ℕ) → s.ask ≡ some n → times_answered n s.answers ≡ 0

any-append : (p : ℕ → Bool) (xs ys : List ℕ) → any p (xs ++ ys) ≡ (any p xs || any p ys)
any-append p [] ys = refl
any-append p (x ∷ xs) ys = ground (arith, any-append p xs ys)

any-remove_one :
    (k x : ℕ) (xs : List ℕ)
    → (k == x) ≡ false
    → any (λ y. k == y) (remove_one x xs) ≡ any (λ y. k == y) xs
unfolding remove_one
any-remove_one k x [] h = refl
any-remove_one k x (y ∷ ys) h = let rest = any-remove_one k x ys h in ground arith

expire-timed :
    (id : ℕ) (timers : List ℕ) (ts : List Toast)
    → All (λ t. has_timer timers t ≡ true) ts
    → All (λ t. has_timer (remove_one id timers) t ≡ true) (keep (λ item. not (item.id == id)) ts)
expire-timed id timers [] h = tt
expire-timed id timers (t ∷ ts) h = elim (Bool-cases (t.id == id)) [
  | inl same ↦ rw same (expire-timed id timers ts h.1)
  | inr other ↦
      rw other ((any-remove_one t.id id timers other ∙ h.0), expire-timed id timers ts h.1)
]

times_answered-append :
    (n k : ℕ) (sure : Bool) (answers : List (ℕ × Bool))
    → times_answered k (answers ++ (n, sure) ∷ [])
      ≡ times_answered k answers + (if n == k then 1 else 0)
times_answered-append n k sure answers =
    count_if-append (λ a. a.0 == k) answers ((n, sure) ∷ []) ∙ ground arith

answers_once :
    (n k : ℕ) (sure : Bool) (answers : List (ℕ × Bool))
    → times_answered n answers ≡ 0
    → times_answered k answers ≤ 1
    → times_answered k (answers ++ (n, sure) ∷ []) ≤ 1
answers_once n k sure answers fresh before =
    rw (times_answered-append n k sure answers) (elim (Bool-cases (n == k)) [
      | inl same ↦
          let e : n ≡ k = ground arith in
          let none_yet = subst (λ x. times_answered x answers ≡ 0) e fresh in rw same (omega arith)
      | inr other ↦ rw other (omega arith)
    ])

answer_to-IsSettled :
    (o : Option ℕ) (sure : Bool) (s : Notices)
    → s.ask ≡ o
    → IsSettled s
    → IsSettled (answer_to o sure s)
answer_to-IsSettled none sure s e h = h
answer_to-IsSettled (some n) sure s e h = record {
  timed = h.timed;
  once = λ k.
      let before = h.once k in
      let fresh = h.unanswered n e in answers_once n k sure s.answers fresh before;
  made = λ k above.
      let below = h.open_made n e in
      rw (times_answered-append n k sure s.answers) (let before = h.made k above in ground arith);
  open_made = λ k same. cc;
  unanswered = λ k same. cc;
}

-- A promise that is made, but neither open nor answered.
record IsLost (n : ℕ) (s : Notices) : Type 0 where
  made : n < s.asked
  replaced : s.ask ≢ some n
  never : times_answered n s.answers ≡ 0

answer_to-IsLost :
    (n : ℕ) (o : Option ℕ) (sure : Bool) (s : Notices)
    → s.ask ≡ o
    → IsLost n s
    → IsLost n (answer_to o sure s)
answer_to-IsLost n none sure s e h = h
answer_to-IsLost n (some k) sure s e h = record {
  made = h.made;
  replaced = λ same. cc;
  never =
      let other = h.replaced in
      rw (times_answered-append k n sure s.answers) (let before = h.never in ground arith);
}

step-IsSettled : {s t : Notices} → Step s t → IsSettled s → IsSettled t
unfolding toast expire confirm answer
step-IsSettled {s} (toasted t) h = record {
  timed =
      All-append (λ x. has_timer (s.timers ++ t.id ∷ []) x ≡ true) s.toasts (t ∷ [])
        (All-imp (λ x k. ground (arith, any-append (λ y. x.id == y) s.timers (t.id ∷ []))) s.toasts
          h.timed)
        (ground (arith, any-append (λ y. t.id == y) s.timers (t.id ∷ [])), tt);
  once = h.once;
  made = h.made;
  open_made = h.open_made;
  unanswered = h.unanswered;
}
step-IsSettled {s} (expired id k) h = record {
  timed = expire-timed id s.timers s.toasts h.timed;
  once = h.once;
  made = h.made;
  open_made = h.open_made;
  unanswered = h.unanswered;
}
step-IsSettled {s} confirmed h = record {
  timed = h.timed;
  once = h.once;
  made = λ n k. h.made n (omega arith);
  open_made = λ n k. ground arith;
  unanswered = λ n k. h.made n (ground arith);
}
step-IsSettled {s} (answered sure) h = answer_to-IsSettled s.ask sure s refl h

-- In every state that the application can reach, each toast has a timer that removes it, and no
-- question has been answered twice, nor one that is yet open.
pub After-IsSettled : {s : Notices} → After no_notices s → IsSettled s
After-IsSettled here = record {
  timed = tt;
  once = λ n. omega arith;
  made = λ n k. refl;
  open_made = λ n k. cc;
  unanswered = λ n k. cc;
}
After-IsSettled (later r step) = step-IsSettled step (After-IsSettled r)

untimed : (ts : List Toast) → All (λ t. has_timer [] t ≡ true) ts → ts ≡ []
untimed [] h = refl
untimed (t ∷ ts) h = let bad = h.0 in absurd (ground arith)

keep-expire_all :
    (ids : List ℕ) (s : Notices) → s.timers ≡ ids → IsSettled s → (expire_all ids s).toasts ≡ []
unfolding expire_all
keep-expire_all [] s e h =
    untimed s.toasts (subst (λ ts. All (λ t. has_timer ts t ≡ true) s.toasts) e h.timed)
keep-expire_all (id ∷ ids) s e h =
    let first : any (λ x. id == x) s.timers ≡ true = rw e (ground arith) in
    let rest : remove_one id s.timers ≡ ids = unfold remove_one in rw e (ground arith) in
    keep-expire_all ids (expire id s) (unfold expire in rest) (step-IsSettled (expired id first) h)

-- In every state that the application can reach: once all the timers that are pending have run
-- out, no toast is left.
pub expire_all-toasts : {s : Notices} → After no_notices s → (expire_all s.timers s).toasts ≡ []
expire_all-toasts {s} r = keep-expire_all s.timers s refl (After-IsSettled r)

step-IsLost : {s t : Notices} (n : ℕ) → Step s t → IsLost n s → IsLost n t
unfolding toast expire confirm answer
step-IsLost n (toasted t) h = record { made = h.made; replaced = h.replaced; never = h.never }
step-IsLost n (expired id k) h = record { made = h.made; replaced = h.replaced; never = h.never }
step-IsLost {s} n confirmed h = record {
  made = let m = h.made in omega arith;
  replaced = λ e. let m = h.made in ground arith;
  never = h.never;
}
step-IsLost {s} n (answered sure) h = answer_to-IsLost n s.ask sure s refl h

After-IsLost : {s t : Notices} (n : ℕ) → After s t → IsLost n s → IsLost n t
After-IsLost n here h = h
After-IsLost n (later r step) h = step-IsLost n step (After-IsLost n r h)

-- A question that is asked while another is open takes its place: whatever happens afterwards,
-- the first one is never answered.
pub confirm-lost :
    {s t : Notices} (n : ℕ)
    → After no_notices s
    → s.ask ≡ some n
    → After (confirm s) t
    → times_answered n t.answers ≡ 0
unfolding confirm
confirm-lost {s} n r e after =
    let h = After-IsSettled r in
    let made = h.open_made n e in
    (After-IsLost n after
      (record { made = omega arith; replaced = λ k. ground arith; never = h.unanswered n e })).never
