-- ===== src/Admin/Routes.antt =====
-- Which page and room an address names, and where a request goes (`parsePage`, `roomFromPath` of
-- frontend/src/lib/utils.ts; `resolve` of frontend/src/lib/api.ts; the address that `setRoom` of
-- frontend/src/state.tsx writes).
pub mod Paths
use icpc_controller.Prelude.{
  ℕ, zero, suc, String, Bool, true, false, ◌&&◌, ◌||◌, Option, none, some, List, [], ◌∷◌, ◌++◌,
  ◌==◌, if◌then◌else◌, is_empty, any, not,
}
use icpc_controller.Prelude.Text.{Text, codes}
use icpc_controller.Prelude.Uri.{encode, decode}
use icpc_controller.Prelude.Sets.{includes}

unfoldable pub pages : List Text
pages =
    codes "rooms"
    ∷ codes "dashboard"
    ∷ codes "devices"
    ∷ codes "screen"
    ∷ codes "commands"
    ∷ codes "network"
    ∷ codes "distribute"
    ∷ codes "power"
    ∷ codes "checkin"
    ∷ codes "broadcast"
    ∷ codes "settings"
    ∷ []

-- text.replace(/^c/, "")
unfoldable pub strip_first : ℕ → Text → Text
strip_first c [] = []
strip_first c (x ∷ xs) = if x == c then xs else x ∷ xs

unfoldable pub parse_page : Text → Text
parse_page hash =
    let page = strip_first 35 hash in if includes page pages then page else codes "dashboard"

-- What follows a prefix; none where the text does not start with it.
unfoldable pub after_prefix : Text → Text → Option Text
after_prefix [] text = some text
after_prefix (p ∷ ps) [] = none
after_prefix (p ∷ ps) (c ∷ cs) = let rest = after_prefix ps cs in if p == c then rest else none

-- ([^/]+)\/?$ : the text up to its first slash, where nothing follows that slash.
unfoldable pub segment : Text → Option Text
segment [] = none
segment (c ∷ cs) =
    let rest = segment cs in
    if c == 47
    then none
    else if is_empty cs
    then some (c ∷ [])
    else elim rest as (λ x. Option Text) [
      | none ↦ elim cs as (λ x. Option Text) [
        | [] ↦ none
        | ◌∷◌ d ds ↦ if d == 47 && is_empty ds then some (c ∷ []) else none
      ]
      | some s ↦ some (c ∷ s)
    ]

-- An address that does not match names no room, the empty text; none is an error of
-- `decodeURIComponent`, which is not caught.
unfoldable pub room_from_path : Text → Option Text
room_from_path path = elim (after_prefix (codes "/room/") path) as (λ x. Option Text) [
  | none ↦ some []
  | some rest ↦ elim (segment rest) as (λ x. Option Text) [ none ↦ some [] | some s ↦ decode s ]
]

-- The path of the address that `setRoom` and `go` write.
unfoldable pub room_path : Text → Text
room_path [] = codes "/"
room_path (c ∷ cs) = codes "/room/" ++ encode (c ∷ cs)

-- (\/|$)
abbrev pub at_boundary : Option Text → Bool
at_boundary none = false
at_boundary (some []) = true
at_boundary (some (c ∷ cs)) = c == 47

unfoldable pub proxied_heads : List Text
proxied_heads =
    codes "devices"
    ∷ codes "commands"
    ∷ codes "stats"
    ∷ codes "checkin"
    ∷ codes "network"
    ∷ codes "power"
    ∷ codes "presets"
    ∷ codes "distribution"
    ∷ codes "snapshots"
    ∷ codes "settings/presets"
    ∷ codes "settings/checkin"
    ∷ []

-- PROXIED.test(head)
unfoldable pub is_proxied : Text → Bool
is_proxied head = any (λ p. at_boundary (after_prefix p head)) proxied_heads

-- The parts before and from the first question mark.
unfoldable pub head_of : Text → Text
head_of [] = []
head_of (c ∷ cs) = let rest = head_of cs in if c == 63 then [] else c ∷ rest

unfoldable pub query_of : Text → Text
query_of [] = []
query_of (c ∷ cs) = let rest = query_of cs in if c == 63 then c ∷ cs else rest

unfoldable pub raw_path : Text → Text
raw_path path = elim (after_prefix (codes "/api/") path) as (λ x. Text) [
  | none ↦ strip_first 47 path
  | some rest ↦ rest
]

abbrev pub starts_with_slash : Text → Bool
starts_with_slash [] = false
starts_with_slash (c ∷ cs) = c == 47

unfoldable pub resolve : Text → Text → Text
resolve room path =
    let raw = raw_path path in
    if not (is_empty room) && is_proxied (head_of raw)
    then codes "/api/cluster/rooms/"
      ++ (encode room ++ (codes "/proxy/" ++ (head_of raw ++ query_of raw)))
    else if starts_with_slash path
    then path
    else codes "/api/" ++ raw
