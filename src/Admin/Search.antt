-- ===== src/Admin/Search.antt =====
-- The search in the texts of a row, as the tables of devices have it (frontend/src/pages/
-- devices.tsx, frontend/src/components/fleet.tsx, targets.tsx).
pub mod Parts
pub mod Words
pub mod Rows
use icpc_controller.Prelude.{Bool, true, false, List, [], ◌∷◌, ◌++◌, ◌&&◌, ◌||◌, is_empty, ◌==◌}
use icpc_controller.Prelude.Text.{Text}
use icpc_controller.Admin.Commands.{trim}

-- text.includes(part)
abbrev pub begins_with : Text → Text → Bool
begins_with [] text = true
begins_with (c ∷ cs) [] = false
begins_with (c ∷ cs) (d ∷ ds) = (c == d) && begins_with cs ds

unfoldable pub has_part : Text → Text → Bool
has_part part [] = begins_with part []
has_part part (c ∷ cs) = begins_with part (c ∷ cs) || has_part part cs

-- texts.join(" ")
abbrev pub join_texts : List Text → Text
join_texts [] = []
join_texts (t ∷ []) = t
join_texts (t ∷ u ∷ ts) = t ++ (32 ∷ join_texts (u ∷ ts))

-- `lower` is toLowerCase; a blank query finds every row.
unfoldable pub finds : (Text → Text) → Text → Text → Bool
finds lower query text = let q = lower (trim query) in is_empty q || has_part q (lower text)
