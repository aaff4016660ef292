-- ===== src/Display/Time.antt =====
-- Which page is due, and for how long (`serverNow`, `calcSyncedPageIndex`, `calcNextSwitchMs` of
-- internal/server/web/broadcast/display.js).
-- A time or a difference of times is none where JavaScript has NaN, which passes no comparison.
pub mod Due
pub mod Synced
use text.Mathlib.Text.{◌==◌}
use icpc_controller.Prelude.{
  ℕ, zero, suc, String, Bool, true, false, not, ◌&&◌, ◌||◌, Option, none, some, List, [], ◌∷◌, ltb,
  length, get_elem?, if◌then◌else◌,
}
use icpc_controller.Prelude.Int.{ℤ, pos, negsuc, ◌+ℤ◌, ◌-ℤ◌, ◌%ℤ◌, ltb_ℤ, leb_ℤ}
use icpc_controller.Display.Host.{Host}
use icpc_controller.Display.Page.{Page}
use icpc_controller.Display.State.{Display}

-- A text or a missing value as a condition.
abbrev pub truthy : Option String → Bool
truthy none = false
truthy (some s) = not (s == "")

-- `pages[i].duration_ms || 10000`
unfoldable pub page_ms : Page → ℤ
page_ms page = elim page.duration_ms [
  | none ↦ pos 10000
  | some (pos zero) ↦ pos 10000
  | some (pos (suc n)) ↦ pos (suc n)
  | some (negsuc n) ↦ negsuc n
]

abbrev pub sub_time : Option ℤ → Option ℤ → Option ℤ
sub_time (some a) (some b) = some (a -ℤ b)
sub_time _ _ = none

unfoldable pub server_now : ℤ → Display → Option ℤ
server_now now s = sub_time (some now) s.server_time_offset

-- `new Date(text).getTime()`; the date of a missing value is not a number here.
unfoldable pub date_of : Host → Option String → Option ℤ
date_of host none = none
date_of host (some text) = host.parse_date text

-- serverNow() - new Date(syncStartedAt).getTime()
unfoldable pub elapsed : Host → ℤ → Display → Option ℤ
unfolding server_now date_of
elapsed host now s = sub_time (server_now now s) (date_of host s.sync_started_at)

-- The first loop: `total` from the value that it has.
unfoldable pub total_ms : ℤ → List Page → ℤ
total_ms total [] = total
total_ms total (page ∷ pages) = total_ms (total +ℤ page_ms page) pages

-- The second loop: the index `j` and the value of `acc` at which it returns.
unfoldable pub find_page : ℤ → ℤ → ℕ → List Page → Option (ℕ × ℤ)
find_page cycle acc j [] = none
find_page cycle acc j (page ∷ pages) =
    let acc' = acc +ℤ page_ms page in
    let rest = find_page cycle acc' (suc j) pages in
    if ltb_ℤ cycle acc' then some (j, acc') else rest

-- The two loops, for a total that is positive.
unfoldable pub locate : List Page → ℤ → Option (ℕ × ℤ)
unfolding total_ms find_page
locate pages e =
    let total = total_ms (pos 0) pages in
    if ltb_ℤ (pos 0) total then find_page (e %ℤ total) (pos 0) 0 pages else none

-- The synchronised branch of `calcSyncedPageIndex`, none where it falls through.
unfoldable pub synced_page : Host → ℤ → Display → Option ℕ
synced_page host now s = elim (elapsed host now s) [
  | none ↦ none
  | some e ↦
      if truthy s.sync_started_at && ltb 1 (length s.pages) && leb_ℤ (pos 0) e
      then elim (locate s.pages e) [ none ↦ none | some (j, acc) ↦ some j ]
      else none
]

abbrev pub in_range : ℤ → List Page → Bool
in_range (pos i) pages = ltb i (length pages)
in_range (negsuc i) pages = false

unfoldable pub calc_synced_page_index : Host → ℤ → Display → ℤ
calc_synced_page_index host now s = elim (synced_page host now s) [
  | some j ↦ pos j
  | none ↦ if in_range s.current_idx s.pages then s.current_idx else pos 0
]

-- `pages[i]`
abbrev pub page_at : List Page → ℤ → Option Page
page_at pages (pos i) = get_elem? pages i
page_at pages (negsuc i) = none

-- The synchronised branch of `calcNextSwitchMs`, which has no test of the sign.
unfoldable pub synced_wait : Host → ℤ → Display → Option ℤ
synced_wait host now s = elim (elapsed host now s) [
  | none ↦ none
  | some e ↦
      if truthy s.sync_started_at && ltb 1 (length s.pages)
      then elim (locate s.pages e) [
        | none ↦ none
        | some (j, acc) ↦ some (acc -ℤ (e %ℤ total_ms (pos 0) s.pages))
      ]
      else none
]

unfoldable pub calc_next_switch_ms : Host → ℤ → Display → ℤ
calc_next_switch_ms host now s = elim (synced_wait host now s) [
  | some ms ↦ ms
  | none ↦ elim (page_at s.pages s.current_idx) [ none ↦ pos 10000 | some page ↦ page_ms page ]
]
