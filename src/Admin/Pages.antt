-- ===== src/Admin/Pages.antt =====
-- The pages of the broadcast editor (frontend/src/pages/broadcast.tsx): which page is selected,
-- the order of the pages, and the requests that publish them.
pub mod Order
pub mod Publish
use icpc_controller.Prelude.{
  ℕ, zero, suc, ◌+◌, String, Bool, true, false, Option, none, some, List, [], ◌∷◌, ◌++◌, map, ◌==◌,
  ltb, if◌then◌else◌, any, is_empty, length, get_elem?, not, ◌||◌,
}
use icpc_controller.Prelude.Int.{ℤ, pos, negsuc, ◌+ℤ◌}
use icpc_controller.Prelude.Text.{Text, codes}
use icpc_controller.Prelude.Sets.{includes, text_eq}
use icpc_controller.Admin.Commands.{Target}

-- The identifiers of the pages stand for the pages; none is null.
abbrev pub first_id : List ℕ → Option ℕ
first_id [] = none
first_id (p ∷ ps) = some p

-- The selected page after `load(keep)`.
unfoldable pub keep_page : Option ℕ → List ℕ → Option ℕ
keep_page none pages = first_id pages
keep_page (some id) pages = if any (λ p. p == id) pages then some id else first_id pages

-- copy.splice(index, 1) and copy.splice(next, 0, row)
unfoldable pub remove_at : ℕ → List ℕ → List ℕ
remove_at i [] = []
remove_at zero (x ∷ xs) = xs
remove_at (suc i) (x ∷ xs) = x ∷ remove_at i xs

unfoldable pub insert_at : ℕ → ℕ → List ℕ → List ℕ
insert_at zero y xs = y ∷ xs
insert_at (suc i) y [] = y ∷ []
insert_at (suc i) y (x ∷ xs) = x ∷ insert_at i y xs

-- copy.map((entry, order) => ({ id: entry.id, sort_order: order })), with the first order.
unfoldable pub numbered : ℕ → List ℕ → List (ℕ × ℕ)
numbered order [] = []
numbered order (id ∷ ids) = (id, order) ∷ numbered (suc order) ids

unfoldable pub moved : ℕ → ℕ → List ℕ → List ℕ
moved i j pages = elim (get_elem? pages i) as (λ x. List ℕ) [
  | none ↦ pages
  | some row ↦ insert_at j row (remove_at i pages)
]

-- The body of the request of `move`; none where it returns before.
abbrev pub move_to : ℕ → ℤ → List ℕ → Option (List (ℕ × ℕ))
move_to i (negsuc n) pages = none
move_to i (pos j) pages = if ltb j (length pages) then some (numbered 0 (moved i j pages)) else none

unfoldable pub move : ℕ → ℤ → List ℕ → Option (List (ℕ × ℕ))
move i delta pages = move_to i (pos i +ℤ delta) pages

pub data Action : Type 0 where
  sync start stop reset : Action

pub data Request : Type 0 where
  publish_to : List Text → Action → Text → Request
  -- the fields `sync_reset` and `pushed_state` of the configuration; none is left out
  put_config : Option Text → Option Text → Request
  post_command : Target → Text → Request

-- `publish`, with the user's answer to its question.
unfoldable pub publish : Bool → List Text → Action → Text → Bool → Option Request
publish dirty targets action mode confirmed =
    if dirty
    then none
    else if is_empty targets
    then none
    else if confirmed
    then some (Request.publish_to targets action mode)
    else none

-- url.replace(/\/$/, "")
unfoldable pub strip_slash : Text → Text
strip_slash [] = []
strip_slash (c ∷ cs) =
    let rest = strip_slash cs in if is_empty cs then (if c == 47 then [] else c ∷ []) else c ∷ rest

abbrev pub base_url : Text → Text
base_url [] = codes "http://icpc-server.local:8082"
base_url (c ∷ cs) = c ∷ cs

-- The requests of `localPush`, where none fails.
unfoldable pub local_push : Bool → Text → Text → List Request
local_push true mode url =
    Request.put_config (some mode) (some mode)
    ∷ Request.post_command Target.broadcast (
        codes "full-firefox kill; full-firefox '"
        ++ (strip_slash (base_url url) ++ (codes "/broadcast/" ++ (mode ++ codes "'"))))
    ∷ []
local_push false mode url =
    Request.put_config none (some [])
    ∷ Request.post_command Target.broadcast (codes "full-firefox kill")
    ∷ []
