-- ===== src/Admin/Tables.antt =====
-- The tables of the administrators' pages (frontend/src/pages, frontend/src/components) as their
-- cells with the texts that stand in them. The children have the tables by page.
pub mod Runs
pub mod Work
pub mod People
pub mod Shape
use icpc_controller.Prelude.{
  ℕ, ◌+◌, ◌≡◌, String, Bool, true, false, Option, none, some, List, [], ◌∷◌, ◌++◌, map, length,
  is_empty, if◌then◌else◌, All,
}
use icpc_controller.Prelude.Text.{Text, codes}
use icpc_controller.Admin.Labels.{Tone}

-- <td>: its texts, a button's among them, the tone of its badge, and colSpan.
pub record Cell : Type 0 where
  pub texts : List Text
  pub tone : Option Tone
  pub span : ℕ

pub record Grid : Type 0 where
  pub head : List Text
  pub rows : List (List Cell)

abbrev pub td : List Text → Cell
td texts = record { texts = texts; tone = none; span = 1 }

abbrev pub badge : Tone → Text → Cell
badge tone text = record { texts = text ∷ []; tone = some tone; span = 1 }

-- The row in place of the others where there are none.
abbrev pub blank : ℕ → String → List (List Cell)
blank span text = (record { texts = codes text ∷ []; tone = none; span = span } ∷ []) ∷ []

-- The rows of a list, and what stands there where it is empty.
abbrev pub rows_or : {A : Type 0} → List (List Cell) → (A → List Cell) → List A → List (List Cell)
rows_or empty row [] = empty
rows_or empty row (x ∷ xs) = map row (x ∷ xs)

abbrev pub width : List Cell → ℕ
width [] = 0
width (c ∷ cs) = c.span + width cs

-- Each row is as wide as the head.
abbrev pub IsEven : Grid → Type 0
IsEven g = All (λ row. width row ≡ length g.head) g.rows
