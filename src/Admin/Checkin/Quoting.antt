-- ===== src/Admin/Checkin/Quoting.antt =====
-- What the export of the check-ins (`exportCheckin` of frontend/src/pages/checkin.tsx) is read as.
use icpc_controller.Prelude.{
  false, List, [], ◌∷◌, ◌++◌, map, ◌≡◌, refl, sym, ap, ◌∙◌, arith, ◌==◌, any, All, All-append,
}
use icpc_controller.Prelude.Text.{Text}
use icpc_controller.Admin.Fleet.{Device, Room}
use icpc_controller.Admin.Export.{escape, cell, join, line}
use icpc_controller.Admin.Export.Reader.{read_rows, IsFilled, read_rows-lines}
use icpc_controller.Admin.Checkin.{
  checkin_headings, checkin_row, checkin_rows, plain_cell, plain_line, export_checkin,
}

-- No quote in a text.
abbrev pub IsUnquoted : Text → Type 0
IsUnquoted value = any (λ c. c == 34) value ≡ false

escape-id : (value : Text) → IsUnquoted value → escape value ≡ value
unfolding escape
escape-id [] h = refl
escape-id (c ∷ cs) h = ground (arith, escape-id cs)

plain_cells : (row : List Text) → All IsUnquoted row → map plain_cell row ≡ map cell row
unfolding plain_cell cell
plain_cells [] h = refl
plain_cells (v ∷ row) h =
    ap (λ t. (34 ∷ (t ++ 34 ∷ [])) ∷ map plain_cell row) (sym (escape-id v h.0))
    ∙ ap (λ cells. cell v ∷ cells) (plain_cells row h.1)

plain_lines :
    (rows : List (List Text)) → All (All IsUnquoted) rows → map plain_line rows ≡ map line rows
unfolding plain_line line
plain_lines [] h = refl
plain_lines (row ∷ rows) h =
    ap (λ cells. join (44 ∷ []) cells ∷ map plain_line rows) (plain_cells row h.0)
    ∙ ap (λ lines. line row ∷ lines) (plain_lines rows h.1)

checkin_row-IsFilled : (room : Room) (ds : List Device) → All IsFilled (map (checkin_row room) ds)
unfolding checkin_row
checkin_row-IsFilled room [] = tt
checkin_row-IsFilled room (d ∷ ds) = ((_, _, refl), checkin_row-IsFilled room ds)

checkin_rows-IsFilled : (rooms : List Room) → All IsFilled (checkin_rows rooms)
unfolding checkin_rows
checkin_rows-IsFilled [] = tt
checkin_rows-IsFilled (room ∷ rooms) =
    All-append IsFilled _ _ (checkin_row-IsFilled room room.devices) (checkin_rows-IsFilled rooms)

headings-IsUnquoted : All IsUnquoted checkin_headings
unfolding checkin_headings
headings-IsUnquoted = (refl, (refl, (refl, (refl, (refl, tt)))))

-- The export of the check-ins is read back as its headings and rows where no value has a quote.
pub read_rows-export_checkin :
    (rooms : List Room)
    → All (All IsUnquoted) (checkin_rows rooms)
    → read_rows (export_checkin rooms) ≡ checkin_headings ∷ checkin_rows rooms
unfolding export_checkin checkin_headings
read_rows-export_checkin rooms h =
    ap (λ lines. read_rows (65279 ∷ join (13 ∷ 10 ∷ []) lines))
      (plain_lines (checkin_headings ∷ checkin_rows rooms) (headings-IsUnquoted, h))
    ∙ read_rows-lines _ _ (checkin_rows rooms) (checkin_rows-IsFilled rooms)
