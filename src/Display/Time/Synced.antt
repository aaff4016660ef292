-- ===== src/Display/Time/Synced.antt =====
-- When `calcSyncedPageIndex` gives which page
-- (internal/server/web/broadcast/display.js).
use icpc_controller.Prelude.{
  ℕ, suc, ◌<◌, true, some, List, [], ◌∷◌, ◌≡◌, ◌↔◌, length, All, arith, inl, inr, ap, ◌∙◌,
  Option-cases, sym,
}
use icpc_controller.Prelude.Int.{ℤ, pos, ◌≤ℤ◌, ◌<ℤ◌}
use mathlib.Core.Path.{subst}
use icpc_controller.Display.Host.{Host}
use icpc_controller.Display.Page.{Page}
use icpc_controller.Display.State.{Display}
use icpc_controller.Display.Time.{
  truthy, page_ms, elapsed, total_ms, locate, synced_page, calc_synced_page_index, in_range,
}
use icpc_controller.Display.Time.Due.{
  prefix_ms, IsDue, cycle_ms, locate-IsDue, IsDue-of_interval, IsDue-unique, total_ms-pos,
  locate-lt,
}

-- Once the broadcast has started (a start time that can be read, two pages or more, a total
-- duration above 0), `calcSyncedPageIndex` gives an index of the list, of the page whose share of
-- the cycle holds the time elapsed since the start, modulo the cycle.
pub calc_synced_page_index-IsDue :
    (host : Host) (now : ℤ) (s : Display) (e : ℤ)
    → truthy s.sync_started_at ≡ true
    → 1 < length s.pages
    → elapsed host now s ≡ some e
    → pos 0 ≤ℤ e
    → pos 0 <ℤ total_ms (pos 0) s.pages
    → (j : ℕ) × (calc_synced_page_index host now s ≡ pos j)
      × IsDue (cycle_ms e s.pages) (pos 0) s.pages j
unfolding calc_synced_page_index synced_page
calc_synced_page_index-IsDue host now s e started many known after total =
    let (j, found, due) = locate-IsDue s.pages e after total in (j, ground (arith), due)

-- Where every duration is positive, page `j` is the one that `calcSyncedPageIndex` gives exactly
-- during its own share of the cycle, from the end of the page before it up to its own end. The
-- broadcast has a start time that is not in the future, and two pages or more.
pub calc_synced_page_index_iff :
    (host : Host) (now : ℤ) (s : Display) (e : ℤ) (j : ℕ)
    → truthy s.sync_started_at ≡ true
    → 1 < length s.pages
    → elapsed host now s ≡ some e
    → pos 0 ≤ℤ e
    → All (λ page. pos 0 <ℤ page_ms page) s.pages
    → (calc_synced_page_index host now s ≡ pos j) ↔ (
        (j < length s.pages)
        × (prefix_ms (pos 0) s.pages j ≤ℤ cycle_ms e s.pages)
        × (cycle_ms e s.pages <ℤ prefix_ms (pos 0) s.pages (suc j)))
calc_synced_page_index_iff host now s e j started many known after positive =
    let total = positive_total s.pages many positive in
    let (i, found, due) =
      calc_synced_page_index-IsDue host now s e started many known after total in
    (
      λ same.
          let e : i ≡ j = pos_inj (sym found ∙ same) in
          subst (λ k. Share k) e (due.within, due.begun i (omega arith), due.ends),
      λ share.
          let d = IsDue-of_interval _ _ s.pages j positive share.0 share.1 share.2 in
          found ∙ ap pos (IsDue-unique _ _ s.pages i j due d),
    )
  where
    Share : ℕ → Type 0
    Share k =
        (k < length s.pages)
        × (prefix_ms (pos 0) s.pages k ≤ℤ cycle_ms e s.pages)
        × (cycle_ms e s.pages <ℤ prefix_ms (pos 0) s.pages (suc k))

    pos_inj : {a b : ℕ} → pos a ≡ pos b → a ≡ b
    pos_inj h = cc

    positive_total :
        (pages : List Page)
        → 1 < length pages
        → All (λ page. pos 0 <ℤ page_ms page) pages
        → pos 0 <ℤ total_ms (pos 0) pages
    positive_total [] l a = absurd (omega arith)
    positive_total (p ∷ ps) l a = total_ms-pos p ps (pos 0) (omega arith) a

synced_page-lt :
    (host : Host) (now : ℤ) (s : Display) (j : ℕ)
    → synced_page host now s ≡ some j
    → j < length s.pages
unfolding synced_page
synced_page-lt host now s j h = elim (Option-cases (elapsed host now s)) [
  | inl missing ↦ ground arith
  | inr (e, known) ↦ elim (Option-cases (locate s.pages e)) [
    | inl nowhere ↦ ground arith
    | inr ((k, a), found) ↦
        let l = locate-lt s.pages e k a found in let same : k ≡ j = ground arith in rw (← same) l
  ]
]

-- Whatever the clock says, the index is that of a page, unless there is none.
pub calc_synced_page_index-in_range :
    (host : Host) (now : ℤ) (s : Display)
    → 0 < length s.pages
    → in_range (calc_synced_page_index host now s) s.pages ≡ true
unfolding calc_synced_page_index
calc_synced_page_index-in_range host now s h = elim (Option-cases (synced_page host now s)) [
  | inl missing ↦ ground arith
  | inr (j, found) ↦ ground (arith, synced_page-lt host now s j found)
]
