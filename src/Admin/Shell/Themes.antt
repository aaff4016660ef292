-- ===== src/Admin/Shell/Themes.antt =====
-- The theme over every run of the frame, and the room that it names (frontend/src/components/
-- shell.tsx, frontend/index.html).
use icpc_controller.Prelude.{
  Bool, true, false, not, some, ◌≡◌, refl, ap, sym, ◌∙◌, ◌⊎◌, inl, inr, Bool-cases,
}
use icpc_controller.Prelude.Sets.{text_eq}
use icpc_controller.Admin.Shell.{
  Shell, is_dark, restored, load_shell, next_theme, toggle_theme, logout, open_menu, close_menu,
  toggled, logged_out, menu_opened, menu_closed, reloaded, Reach, loaded, further,
}

-- Whether the last switch since the document was loaded was stored, as it is where there was none.
abbrev pub is_stored : {s : Shell} → Reach s → Bool
is_stored (loaded stored) = true
is_stored (further r (toggled stores)) = stores
is_stored (further r (logged_out confirmed)) = is_stored r
is_stored (further r menu_opened) = is_stored r
is_stored (further r menu_closed) = is_stored r
is_stored (further r reloaded) = true

-- The switch shows the theme that is stored; the document has that one too, or, where the last
-- switch was not stored, the other one.
record IsThemed (s : Shell) (kept : Bool) : Type 0 where
  shown : s.dark ≡ is_dark (restored s.stored)
  same : kept ≡ true → s.attribute ≡ restored s.stored
  other : kept ≡ false → s.attribute ≡ some (next_theme s.dark)

next_theme-restored : (dark : Bool) → restored (some (next_theme dark)) ≡ some (next_theme dark)
unfolding restored text_eq
next_theme-restored true = refl
next_theme-restored false = refl

next_theme-is_dark : (dark : Bool) → is_dark (some (next_theme dark)) ≡ not dark
unfolding text_eq
next_theme-is_dark true = refl
next_theme-is_dark false = refl

toggle_theme-IsThemed :
    (stores kept : Bool) (s : Shell) → IsThemed s kept → IsThemed (toggle_theme stores s) stores
unfolding toggle_theme
toggle_theme-IsThemed true kept s h = record {
  shown = sym (next_theme-is_dark s.dark) ∙ ap is_dark (sym (next_theme-restored s.dark));
  same = λ e. sym (next_theme-restored s.dark);
  other = λ e. cc;
}
toggle_theme-IsThemed false kept s h = record { shown = h.shown; same = λ e. cc; other = λ e. refl }

Reach-IsThemed : {s : Shell} (r : Reach s) → IsThemed s (is_stored r)
unfolding load_shell open_menu close_menu logout
Reach-IsThemed (loaded stored) = record { shown = refl; same = λ e. refl; other = λ e. cc }
Reach-IsThemed (further {s} r (toggled stores)) =
    toggle_theme-IsThemed stores (is_stored r) s (Reach-IsThemed r)
Reach-IsThemed (further r (logged_out true)) =
    let h = Reach-IsThemed r in record { shown = h.shown; same = h.same; other = h.other }
Reach-IsThemed (further r (logged_out false)) = Reach-IsThemed r
Reach-IsThemed (further r menu_opened) =
    let h = Reach-IsThemed r in record { shown = h.shown; same = h.same; other = h.other }
Reach-IsThemed (further r menu_closed) =
    let h = Reach-IsThemed r in record { shown = h.shown; same = h.same; other = h.other }
Reach-IsThemed (further r reloaded) = record { shown = refl; same = λ e. refl; other = λ e. cc }

-- In every run, whether the storage takes what is stored or throws, and whatever stood in it
-- before: loading the document anew shows the switch as it stands. Where the last switch was
-- stored, the document has the theme that the switch shows, and loading it anew keeps that; where
-- storing it threw, the document has the other theme.
pub Reach-load_shell :
    {s : Shell} (r : Reach s)
    → ((load_shell s.stored).dark ≡ s.dark)
      × (((is_stored r ≡ true)
            × (is_dark s.attribute ≡ s.dark)
            × ((load_shell s.stored).attribute ≡ s.attribute))
          ⊎ ((is_stored r ≡ false) × (is_dark s.attribute ≡ not s.dark)))
unfolding load_shell
Reach-load_shell {s} r =
    let h = Reach-IsThemed r in
    (
      sym h.shown,
      elim (Bool-cases (is_stored r)) [
        | inl e ↦ inl (e, ap is_dark (h.same e) ∙ sym h.shown, sym (h.same e))
        | inr e ↦ inr (e, ap is_dark (h.other e) ∙ next_theme-is_dark s.dark)
      ],
    )
