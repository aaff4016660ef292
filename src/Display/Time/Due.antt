-- ===== src/Display/Time/Due.antt =====
-- The page that `calcSyncedPageIndex` finds is the one whose share of the cycle holds the moment
-- (internal/server/web/broadcast/display.js).
use icpc_controller.Prelude.{
  ℕ, zero, suc, ◌+◌, ◌≤◌, ◌<◌, some, List, [], ◌∷◌, ◌≡◌, length, All, arith, Bool-cases, inl, inr,
  ◌⊎◌,
}
use icpc_controller.Prelude.Int.{
  ℤ, pos, ◌+ℤ◌, ◌%ℤ◌, ◌≤ℤ◌, ◌<ℤ◌, ltb_ℤ, +ℤ_parts, %ℤ_bounds, ltb_ℤ→lt, ltb_ℤ→ge,
}
use icpc_controller.Display.Page.{Page}
use icpc_controller.Display.Time.{page_ms, total_ms, find_page, locate}

-- The time from `acc` through the first `i` pages.
abbrev pub prefix_ms : ℤ → List Page → ℕ → ℤ
prefix_ms acc pages zero = acc
prefix_ms acc [] (suc i) = acc
prefix_ms acc (page ∷ pages) (suc i) = prefix_ms (acc +ℤ page_ms page) pages i

-- The moment lies in the share of page `j`, and in that of no page before it.
pub record IsDue (cycle acc : ℤ) (pages : List Page) (j : ℕ) : Type 0 where
  pub within : j < length pages
  pub ends : cycle <ℤ prefix_ms acc pages (suc j)
  pub begun : (k : ℕ) → k ≤ j → prefix_ms acc pages k ≤ℤ cycle

IsDue-zero :
    (cycle acc : ℤ) (page : Page) (pages : List Page)
    → acc ≤ℤ cycle
    → cycle <ℤ (acc +ℤ page_ms page)
    → IsDue cycle acc (page ∷ pages) 0
IsDue-zero cycle acc page pages h k = record { within = omega arith; ends = k; begun = first }
  where
    first : (i : ℕ) → i ≤ 0 → prefix_ms acc (page ∷ pages) i ≤ℤ cycle
    first zero _ = h
    first (suc i) l = absurd (omega arith)

IsDue-suc :
    (cycle acc : ℤ) (page : Page) (pages : List Page) (j : ℕ)
    → acc ≤ℤ cycle
    → IsDue cycle (acc +ℤ page_ms page) pages j
    → IsDue cycle acc (page ∷ pages) (suc j)
IsDue-suc cycle acc page pages j h d = record { within = omega arith; ends = d.ends; begun = all }
  where
    all : (i : ℕ) → i ≤ suc j → prefix_ms acc (page ∷ pages) i ≤ℤ cycle
    all zero _ = h
    all (suc i) l = d.begun i (omega arith)

pub find_page-IsDue :
    (cycle acc : ℤ) (n : ℕ) (pages : List Page)
    → acc ≤ℤ cycle
    → cycle <ℤ total_ms acc pages
    → (i : ℕ) × (find_page cycle acc n pages ≡ some (n + i, prefix_ms acc pages (suc i)))
      × IsDue cycle acc pages i
unfolding find_page total_ms
find_page-IsDue cycle acc n [] h k = absurd (omega arith)
find_page-IsDue cycle acc n (page ∷ pages) h k =
    let acc' = acc +ℤ page_ms page in
    elim (Bool-cases (ltb_ℤ cycle acc')) [
      | inl now ↦ (0, ground (arith), IsDue-zero cycle acc page pages h (ltb_ℤ→lt cycle acc' now))
      | inr later ↦
          let (i, found, due) =
            find_page-IsDue cycle acc' (suc n) pages (ltb_ℤ→ge cycle acc' later) k in
          (suc i, ground (arith), IsDue-suc cycle acc page pages i h due)
    ]

-- From 0 the shares of the pages with positive durations do not overlap.
prefix_ms-ge :
    (acc : ℤ) (pages : List Page) (i : ℕ)
    → All (λ page. pos 0 <ℤ page_ms page) pages
    → acc ≤ℤ prefix_ms acc pages i
prefix_ms-ge acc pages zero h = omega arith
prefix_ms-ge acc [] (suc i) h = omega arith
prefix_ms-ge acc (page ∷ pages) (suc i) h =
    omega (arith, +ℤ_parts acc (page_ms page), prefix_ms-ge (acc +ℤ page_ms page) pages i h.1, h.0)

prefix_ms_mono :
    (acc : ℤ) (pages : List Page) (i j : ℕ)
    → All (λ page. pos 0 <ℤ page_ms page) pages
    → i ≤ j
    → prefix_ms acc pages i ≤ℤ prefix_ms acc pages j
prefix_ms_mono acc pages zero j h l = prefix_ms-ge acc pages j h
prefix_ms_mono acc pages (suc i) zero h l = absurd (omega arith)
prefix_ms_mono acc [] (suc i) (suc j) h l = omega arith
prefix_ms_mono acc (page ∷ pages) (suc i) (suc j) h l =
    prefix_ms_mono (acc +ℤ page_ms page) pages i j h.1 (omega arith)

-- The page that is due, for the moment `e` after the start.
abbrev pub cycle_ms : ℤ → List Page → ℤ
cycle_ms e pages = e %ℤ total_ms (pos 0) pages

pub locate-IsDue :
    (pages : List Page) (e : ℤ)
    → pos 0 ≤ℤ e
    → pos 0 <ℤ total_ms (pos 0) pages
    → (j : ℕ) × (locate pages e ≡ some (j, prefix_ms (pos 0) pages (suc j)))
      × IsDue (cycle_ms e pages) (pos 0) pages j
unfolding locate
locate-IsDue pages e h k =
    let (low, high) = %ℤ_bounds e (total_ms (pos 0) pages) h k in
    let (j, found, due) = find_page-IsDue (cycle_ms e pages) (pos 0) 0 pages low high in
    (j, ground (arith), due)

pub IsDue-of_interval :
    (cycle acc : ℤ) (pages : List Page) (j : ℕ)
    → All (λ page. pos 0 <ℤ page_ms page) pages
    → j < length pages
    → prefix_ms acc pages j ≤ℤ cycle
    → cycle <ℤ prefix_ms acc pages (suc j)
    → IsDue cycle acc pages j
IsDue-of_interval cycle acc pages j h l low high = record {
  within = l;
  ends = high;
  begun = λ k m. omega (arith, prefix_ms_mono acc pages k j h m);
}

pub IsDue-unique :
    (cycle acc : ℤ) (pages : List Page) (i j : ℕ)
    → IsDue cycle acc pages i
    → IsDue cycle acc pages j
    → i ≡ j
IsDue-unique cycle acc pages i j p q = elim (le_total (suc i) j) [
  | inl before ↦ absurd (omega (arith, p.ends, q.begun (suc i) before))
  | inr other ↦ elim (le_total (suc j) i) [
    | inl after ↦ absurd (omega (arith, q.ends, p.begun (suc j) after))
    | inr same ↦ omega arith
  ]
]
  where
    le_total : (a b : ℕ) → (a ≤ b) ⊎ (b < a)
    le_total a b = grind arith

pub total_ms-pos :
    (page : Page) (pages : List Page) (acc : ℤ)
    → pos 0 ≤ℤ acc
    → All (λ p. pos 0 <ℤ page_ms p) (page ∷ pages)
    → pos 0 <ℤ total_ms acc (page ∷ pages)
unfolding total_ms
total_ms-pos page [] acc h a = omega (arith, +ℤ_parts acc (page_ms page), a.0)
total_ms-pos page (q ∷ pages) acc h a =
    total_ms-pos q pages (acc +ℤ page_ms page) (omega (arith, +ℤ_parts acc (page_ms page), a.0)) a.1

find_page-lt :
    (cycle acc : ℤ) (n : ℕ) (pages : List Page) (j : ℕ) (a : ℤ)
    → find_page cycle acc n pages ≡ some (j, a)
    → j < n + length pages
unfolding find_page
find_page-lt cycle acc n [] j a h = cc
find_page-lt cycle acc n (page ∷ pages) j a h =
    ground (arith, find_page-lt cycle (acc +ℤ page_ms page) (suc n) pages j a)

pub locate-lt :
    (pages : List Page) (e : ℤ) (j : ℕ) (a : ℤ) → locate pages e ≡ some (j, a) → j < length pages
unfolding locate
locate-lt pages e j a h = ground (arith, find_page-lt (cycle_ms e pages) (pos 0) 0 pages j a)
