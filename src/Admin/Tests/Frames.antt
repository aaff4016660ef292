-- ===== src/Admin/Tests/Frames.antt =====
-- Runs of the models of the frame and of the broadcast editor (frontend/src/components/shell.tsx,
-- pages/broadcast.tsx) on concrete input.
use icpc_controller.Prelude.{true, false, not, Option, none, some, ◌⊎◌, [], ◌∷◌, ◌≡◌, refl}
use icpc_controller.Prelude.Text.{Text, codes}
use icpc_controller.Prelude.Sets.{text_eq}
use icpc_controller.Admin.Shell.{
  Shell, load_shell, restored, toggle_theme, is_dark, Reach, loaded, further, toggled,
}
use icpc_controller.Admin.Shell.Themes.{is_stored, Reach-load_shell}
use icpc_controller.Admin.Config.{Local, to_local}
use icpc_controller.Admin.Config.Moments.{numbers_from, to_local-numbers}

abbrev toggled_shell : Shell
toggled_shell = toggle_theme true (load_shell (some (codes "dark")))

abbrev toggled-Reach : Reach toggled_shell
toggled-Reach = further (loaded (some (codes "dark"))) (toggled true)

Reach-load_shell_example :
    ((load_shell toggled_shell.stored).dark ≡ toggled_shell.dark)
    × (((is_stored toggled-Reach ≡ true)
          × (is_dark toggled_shell.attribute ≡ toggled_shell.dark)
          × ((load_shell toggled_shell.stored).attribute ≡ toggled_shell.attribute))
        ⊎ ((is_stored toggled-Reach ≡ false)
            × (is_dark toggled_shell.attribute ≡ not toggled_shell.dark)))
Reach-load_shell_example = Reach-load_shell toggled-Reach

-- Where the storage throws, the switch is not shown and the document is.
thrown_test :
    ((toggle_theme false (load_shell none)).dark ≡ false)
    × ((toggle_theme false (load_shell none)).attribute ≡ some (codes "dark"))
unfolding toggle_theme load_shell restored
thrown_test = (refl, refl)

toggled_test : toggled_shell.stored ≡ some (codes "light")
unfolding toggle_theme load_shell restored text_eq
toggled_test = refl

abbrev noon : Local
noon = record { year = 2026; month = 4; day = 5; hours = 12; minutes = 0 }

abbrev local : Text → Option Local
local iso = some noon

to_local_test :
    numbers_from 0 (to_local local (codes "2026-04-05T04:00:59Z")) ≡ 2026 ∷ 4 ∷ 5 ∷ 12 ∷ 0 ∷ []
to_local_test = to_local-numbers local (codes "2026-04-05T04:00:59Z") noon refl refl
