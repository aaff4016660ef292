-- ===== src/Display/Player/Nodes.antt =====
-- The page elements in the container over a whole run of the display
-- (`renderCurrentPage` and `showEmpty` of internal/server/web/broadcast/display.js).
use icpc_controller.Prelude.{
  ℕ, ◌≤◌, Bool, true, false, ◌||◌, List, [], ◌∷◌, ◌++◌, map, ◌≡◌, ◌≢◌, refl, arith, Bool-cases, inl,
  inr, any, count_if, count_if-append, All, All-append, ◌==◌,
}
use icpc_controller.Display.Page.{View}
use icpc_controller.Display.State.{PageNode, Container}
use icpc_controller.Display.Screen.{show_page, deactivate, old_page, remove_node, drop_first}

abbrev pub is_active_node : PageNode → Bool
is_active_node n = n.active

-- A page element is the active one, or a timer is pending that removes it.
abbrev pub is_kept : List ℕ → PageNode → Bool
is_kept removals n = n.active || any (λ i. i == n.node) removals

pub record IsTidy (c : Container) : Type 0 where
  pub one_active : count_if is_active_node c.nodes ≤ 1
  pub kept : All (λ n. is_kept c.removals n ≡ true) c.nodes

any-append-left :
    (k : ℕ) (xs ys : List ℕ) → any (λ i. i == k) xs ≡ true → any (λ i. i == k) (xs ++ ys) ≡ true
any-append-left k [] ys h = cc
any-append-left k (x ∷ xs) ys h = ground (arith, any-append-left k xs ys)

any-append-right :
    (k : ℕ) (xs ys : List ℕ) → any (λ i. i == k) ys ≡ true → any (λ i. i == k) (xs ++ ys) ≡ true
any-append-right k [] ys h = h
any-append-right k (x ∷ xs) ys h = ground (arith, any-append-right k xs ys)

is_kept-append : (n : PageNode) (xs ys : List ℕ) → is_kept xs n ≡ true → is_kept (xs ++ ys) n ≡ true
is_kept-append n xs ys h = ground (arith, any-append-left n.node xs ys)

kept-append :
    (nodes : List PageNode) (xs ys : List ℕ)
    → All (λ n. is_kept xs n ≡ true) nodes
    → All (λ n. is_kept (xs ++ ys) n ≡ true) nodes
kept-append [] xs ys h = tt
kept-append (n ∷ nodes) xs ys h = (is_kept-append n xs ys h.0, kept-append nodes xs ys h.1)

pub count-deactivate :
    (nodes : List PageNode)
    → count_if is_active_node nodes ≤ 1
    → count_if is_active_node (deactivate nodes) ≡ 0
unfolding deactivate
count-deactivate [] h = refl
count-deactivate (n ∷ nodes) h = ground (arith, count-deactivate nodes)

abbrev pub AllKept : List ℕ → List PageNode → Type 0
AllKept removals = All (λ n. is_kept removals n ≡ true)

kept-deactivate_cons :
    (node : ℕ) (active : Bool) (view : View) (nodes : List PageNode) (xs : List ℕ)
    → let n : PageNode = record { node = node; active = active; view = view } in
      is_kept xs n ≡ true
      → AllKept xs nodes
      → AllKept (xs ++ old_page nodes) (deactivate nodes)
      → AllKept (xs ++ old_page (n ∷ nodes)) (deactivate (n ∷ nodes))
unfolding deactivate old_page
kept-deactivate_cons node true view nodes xs h hs ih =
    (any-append-right node xs (node ∷ []) (ground arith), kept-append nodes xs (node ∷ []) hs)
kept-deactivate_cons node false view nodes xs h hs ih =
    (is_kept-append (record { node = node; active = false; view = view }) xs (old_page nodes) h, ih)

kept-deactivate :
    (nodes : List PageNode) (xs : List ℕ)
    → AllKept xs nodes
    → AllKept (xs ++ old_page nodes) (deactivate nodes)
kept-deactivate [] xs h = unfold deactivate in tt
kept-deactivate (n ∷ nodes) xs h =
    kept-deactivate_cons n.node n.active n.view nodes xs h.0 h.1 (kept-deactivate nodes xs h.1)

pub show_page-IsTidy : (view : View) (c : Container) → IsTidy c → IsTidy (show_page view c)
unfolding show_page
show_page-IsTidy view c t = record {
  one_active = omega (
    arith,
    count_if-append is_active_node (deactivate c.nodes)
        (record { node = c.next_node; active = true; view = view } ∷ []),
    count-deactivate c.nodes t.one_active,
  );
  kept = All-append _ _ _ (kept-deactivate c.nodes c.removals t.kept) (refl, tt);
}

pub count-remove_node :
    (k : ℕ) (nodes : List PageNode)
    → count_if is_active_node (remove_node k nodes) ≤ count_if is_active_node nodes
unfolding remove_node
count-remove_node k [] = omega arith
count-remove_node k (n ∷ nodes) = ground (arith, count-remove_node k nodes)

any-drop_first :
    (k m : ℕ) (xs : List ℕ)
    → m ≢ k
    → any (λ i. i == m) xs ≡ true
    → any (λ i. i == m) (drop_first k xs) ≡ true
unfolding drop_first
any-drop_first k m [] e h = cc
any-drop_first k m (x ∷ xs) e h = ground (arith, any-drop_first k m xs e)

pub kept-remove_node :
    (k : ℕ) (nodes : List PageNode) (xs : List ℕ)
    → AllKept xs nodes
    → AllKept (drop_first k xs) (remove_node k nodes)
unfolding remove_node
kept-remove_node k [] xs h = tt
kept-remove_node k (n ∷ nodes) xs h = elim (Bool-cases (n.node == k)) [
  | inl same ↦ rw same (kept-remove_node k nodes xs h.1)
  | inr other ↦
      rw other (ground (arith, any-drop_first k n.node xs, h.0), kept-remove_node k nodes xs h.1)
]

-- What keeps the identities of the nodes and which is active keeps the container in order.
abbrev pub Alike : (PageNode → PageNode) → Type 0
Alike f = (n : PageNode) → ((f n).node ≡ n.node) × ((f n).active ≡ n.active)

count-map :
    (f : PageNode → PageNode)
    → Alike f
    → (nodes : List PageNode)
    → count_if is_active_node (map f nodes) ≡ count_if is_active_node nodes
count-map f a [] = refl
count-map f a (n ∷ nodes) = ground (arith, a n, count-map f a nodes)

kept-map :
    (f : PageNode → PageNode)
    → Alike f
    → (nodes : List PageNode) (xs : List ℕ) → AllKept xs nodes
    → AllKept xs (map f nodes)
kept-map f a [] xs h = tt
kept-map f a (n ∷ nodes) xs h = (ground (arith, a n, h.0), kept-map f a nodes xs h.1)

pub map-IsTidy :
    (f : PageNode → PageNode)
    → Alike f
    → (c : Container) → IsTidy c
    → IsTidy (record c { nodes = map f c.nodes })
map-IsTidy f a c t = record {
  one_active = omega (arith, count-map f a c.nodes, t.one_active);
  kept = kept-map f a c.nodes c.removals t.kept;
}
