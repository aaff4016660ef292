-- ===== src/Admin/Pages/Order.antt =====
-- Moving a page of the broadcast editor and the selection of a page
-- (frontend/src/pages/broadcast.tsx).
use icpc_controller.Prelude.{
  ℕ, zero, suc, ◌+◌, ◌<◌, ◌≤◌, Bool, Option, none, some, List, [], ◌∷◌, map, ◌≡◌, refl, ap, ◌∙◌,
  inl, inr, arith, ltb, ltb→lt, length, get_elem?, get_elem?-lt, count_if, Bool-cases,
}
use icpc_controller.Prelude.Int.{ℤ, pos, negsuc, ◌+ℤ◌}
use icpc_controller.Admin.Pages.{remove_at, insert_at, numbered, moved, move_to, move}

remove_at-insert_at : (i y : ℕ) (xs : List ℕ) → i ≤ length xs → remove_at i (insert_at i y xs) ≡ xs
unfolding remove_at insert_at
remove_at-insert_at zero y xs h = refl
remove_at-insert_at (suc i) y [] h = absurd (omega arith)
remove_at-insert_at (suc i) y (x ∷ xs) h =
    ap (λ l. x ∷ l) (remove_at-insert_at i y xs (omega arith))

get_elem?-insert_at :
    (i y : ℕ) (xs : List ℕ) → i ≤ length xs → get_elem? (insert_at i y xs) i ≡ some y
unfolding insert_at
get_elem?-insert_at zero y xs h = refl
get_elem?-insert_at (suc i) y [] h = absurd (omega arith)
get_elem?-insert_at (suc i) y (x ∷ xs) h = get_elem?-insert_at i y xs (omega arith)

insert_at-remove_at :
    (i y : ℕ) (xs : List ℕ) → get_elem? xs i ≡ some y → insert_at i y (remove_at i xs) ≡ xs
unfolding remove_at insert_at
insert_at-remove_at i y [] h = cc
insert_at-remove_at zero y (x ∷ xs) h = ground arith
insert_at-remove_at (suc i) y (x ∷ xs) h = ap (λ l. x ∷ l) (insert_at-remove_at i y xs h)

length-remove_at : (i : ℕ) (xs : List ℕ) → i < length xs → suc (length (remove_at i xs)) ≡ length xs
unfolding remove_at
length-remove_at i [] h = absurd (omega arith)
length-remove_at zero (x ∷ xs) h = refl
length-remove_at (suc i) (x ∷ xs) h = ap suc (length-remove_at i xs (omega arith))

length-insert_at : (i y : ℕ) (xs : List ℕ) → length (insert_at i y xs) ≡ suc (length xs)
unfolding insert_at
length-insert_at zero y xs = refl
length-insert_at (suc i) y [] = refl
length-insert_at (suc i) y (x ∷ xs) = ap suc (length-insert_at i y xs)

count_if-insert_at :
    (p : ℕ → Bool) (i y : ℕ) (xs : List ℕ) → count_if p (insert_at i y xs) ≡ count_if p (y ∷ xs)
unfolding insert_at
count_if-insert_at p zero y xs = refl
count_if-insert_at p (suc i) y [] = refl
count_if-insert_at p (suc i) y (x ∷ xs) = ground (arith, count_if-insert_at p i y xs)

count_if-remove_at :
    (p : ℕ → Bool) (i y : ℕ) (xs : List ℕ)
    → get_elem? xs i ≡ some y
    → count_if p (y ∷ remove_at i xs) ≡ count_if p xs
unfolding remove_at
count_if-remove_at p i y [] h = cc
count_if-remove_at p zero y (x ∷ xs) h = ground arith
count_if-remove_at p (suc i) y (x ∷ xs) h = ground (arith, count_if-remove_at p i y xs h)

moved-eq :
    (i j y : ℕ) (xs : List ℕ)
    → get_elem? xs i ≡ some y
    → moved i j xs ≡ insert_at j y (remove_at i xs)
moved-eq i j y xs h = unfold moved in rw (moved, h) refl

map-numbered : (k : ℕ) (xs : List ℕ) → map (λ e. e.0) (numbered k xs) ≡ xs
unfolding numbered
map-numbered k [] = refl
map-numbered k (x ∷ xs) = ap (λ l. x ∷ l) (map-numbered (suc k) xs)

get_elem?-numbered :
    (k i y : ℕ) (xs : List ℕ)
    → get_elem? xs i ≡ some y
    → get_elem? (numbered k xs) i ≡ some (y, k + i)
unfolding numbered
get_elem?-numbered k i y [] h = cc
get_elem?-numbered k zero y (x ∷ xs) h =
    let same : x ≡ y = ground arith in
    let order : k ≡ k + 0 = omega arith in ap some (ap (λ a. (a, k)) same ∙ ap (λ b. (y, b)) order)
get_elem?-numbered k (suc i) y (x ∷ xs) h =
    let order : suc k + i ≡ k + suc i = omega arith in
    get_elem?-numbered (suc k) i y xs h ∙ ap (λ b. some (y, b)) order

-- Moving a page to another place of the list and then from there to where it was restores the
-- order.
pub moved-moved :
    (i j : ℕ) (xs : List ℕ) → i < length xs → j < length xs → moved j i (moved i j xs) ≡ xs
moved-moved i j xs h k =
    let (y, at) = get_elem?-lt xs i h in
    let len = length-remove_at i xs h in
    let fits : j ≤ length (remove_at i xs) = omega arith in
    rw (moved-eq i j y xs at) (
      moved-eq j i y (insert_at j y (remove_at i xs))
        (get_elem?-insert_at j y (remove_at i xs) fits)
      ∙ (ap (insert_at i y) (remove_at-insert_at j y (remove_at i xs) fits)
          ∙ insert_at-remove_at i y xs at))

-- The numbers from `k` on, `n` of them.
abbrev pub count_from : ℕ → ℕ → List ℕ
count_from k zero = []
count_from k (suc n) = k ∷ count_from (suc k) n

orders-numbered : (k : ℕ) (xs : List ℕ) → map (λ e. e.1) (numbered k xs) ≡ count_from k (length xs)
unfolding numbered
orders-numbered k [] = refl
orders-numbered k (x ∷ xs) = ap (λ l. k ∷ l) (orders-numbered (suc k) xs)

-- The page of place `i` stands at place `j` of the body, the other pages stand in their old
-- order, each page as often as before, and the orders count from 0.
pub record IsMove (i j : ℕ) (pages : List ℕ) (body : List (ℕ × ℕ)) : Type 0 where
  pub page : ℕ
  pub before : get_elem? pages i ≡ some page
  pub after : get_elem? body j ≡ some (page, j)
  pub others : remove_at j (map (λ e. e.0) body) ≡ remove_at i pages
  pub same_pages : (p : ℕ → Bool) → count_if p (map (λ e. e.0) body) ≡ count_if p pages
  pub orders : map (λ e. e.1) body ≡ count_from 0 (length pages)

moved-IsMove :
    (i j : ℕ) (pages : List ℕ)
    → i < length pages
    → j < length pages
    → IsMove i j pages (numbered 0 (moved i j pages))
moved-IsMove i j pages h k =
    let (y, at) = get_elem?-lt pages i h in
    let len = length-remove_at i pages h in
    let rest = remove_at i pages in
    let fits : j ≤ length rest = omega arith in
    rw (moved-eq i j y pages at) (record {
      page = y;
      before = at;
      after =
          let order : 0 + j ≡ j = omega arith in
          get_elem?-numbered 0 j y (insert_at j y rest) (get_elem?-insert_at j y rest fits)
          ∙ ap (λ b. some (y, b)) order;
      others =
          ap (remove_at j) (map-numbered 0 (insert_at j y rest))
          ∙ remove_at-insert_at j y rest fits;
      same_pages = λ p.
          ap (count_if p) (map-numbered 0 (insert_at j y rest))
          ∙ (count_if-insert_at p j y rest ∙ count_if-remove_at p i y pages at);
      orders =
          orders-numbered 0 (insert_at j y rest)
          ∙ ap (count_from 0) (length-insert_at j y rest ∙ len);
    })

-- What `move` does with the place that it computes.
pub data HasMoved (i : ℕ) (pages : List ℕ) : ℤ → Option (List (ℕ × ℕ)) → Type 0 where
  above : {n : ℕ} → HasMoved i pages (negsuc n) none
  below : {j : ℕ} → length pages ≤ j → HasMoved i pages (pos j) none
  done :
      {j : ℕ} {body : List (ℕ × ℕ)}
      → j < length pages
      → IsMove i j pages body
      → HasMoved i pages (pos j) (some body)

move_to-HasMoved :
    (i : ℕ) (j : ℤ) (pages : List ℕ) → i < length pages → HasMoved i pages j (move_to i j pages)
move_to-HasMoved i (negsuc n) pages h = HasMoved.above
move_to-HasMoved i (pos j) pages h = elim (Bool-cases (ltb j (length pages))) [
  | inl fits ↦ rw fits (
      HasMoved.done (ltb→lt j (length pages) fits)
        (moved-IsMove i j pages h (ltb→lt j (length pages) fits)))
  | inr out ↦ rw out (HasMoved.below (ground arith))
]

-- Moving a page of the list makes no request where its new place is above or below the list, and
-- otherwise one that has the page at its new place, the other pages in their old order, and
-- orders that count from 0.
pub move_lem :
    (i : ℕ) (delta : ℤ) (pages : List ℕ)
    → i < length pages
    → HasMoved i pages (pos i +ℤ delta) (move i delta pages)
unfolding move
move_lem i delta pages h = move_to-HasMoved i (pos i +ℤ delta) pages h
