-- ===== src/Admin/Export/Reader.antt =====
-- An independent reader of comma separated values with quoted fields (RFC 4180), and what it
-- reads in the file that `exportFleet` writes.
use icpc_controller.Prelude.{
  ℕ, List, [], ◌∷◌, ◌++◌, map, ◌≡◌, refl, sym, ap, ◌∙◌, subst, inl, inr, arith, ◌==◌, if◌then◌else◌,
  All, All-append, Bool-cases, append_nil, append_assoc,
}
use icpc_controller.Prelude.Text.{Text}
use icpc_controller.Admin.Fleet.{Room, Device}
use icpc_controller.Admin.Export.{
  escape, cell, join, line, headings, device_row, device_rows, export_fleet,
}

-- Where the reader stands: in a field without quotes or before one, within quotes, or behind a
-- quote that ends the field unless another follows.
pub data Place : Type 0 where
  plain quoted closing : Place

pub record Reader : Type 0 where
  pub place : Place
  pub field : Text
  pub row : List Text
  pub rows : List (List Text)

abbrev pub end_field : Reader → Reader
end_field r = record { place = Place.plain; field = []; row = r.row ++ r.field ∷ []; rows = r.rows }

abbrev pub end_row : Reader → Reader
end_row r = record {
  place = Place.plain;
  field = [];
  row = [];
  rows = r.rows ++ (r.row ++ r.field ∷ []) ∷ [];
}

abbrev pub put : Place → ℕ → Reader → Reader
put p c r = record r { place = p; field = r.field ++ c ∷ [] }

-- Outside quotes commas and line breaks separate; the carriage return of a line break is dropped.
abbrev pub outside : ℕ → Reader → Reader
outside c r =
    if c == 44
    then end_field r
    else if c == 10
    then end_row r
    else if c == 13
    then r
    else put Place.plain c r

abbrev pub feed_at : Place → ℕ → Reader → Reader
feed_at Place.plain c r = if c == 34 then record r { place = Place.quoted } else outside c r
feed_at Place.quoted c r =
    if c == 34 then record r { place = Place.closing } else put Place.quoted c r
feed_at Place.closing c r = if c == 34 then put Place.quoted 34 r else outside c r

unfoldable pub feed : Text → Reader → Reader
feed [] r = r
feed (c ∷ cs) r = feed cs (feed_at r.place c r)

abbrev pub reader_at : Place → Text → List Text → List (List Text) → Reader
reader_at p f row rows = record { place = p; field = f; row = row; rows = rows }

abbrev pub finish : Reader → List (List Text)
finish r = r.rows ++ (r.row ++ r.field ∷ []) ∷ []

-- A byte order mark in front is skipped.
unfoldable pub read_rows : Text → List (List Text)
read_rows [] = []
read_rows (c ∷ cs) =
    finish (feed (if c == 65279 then cs else c ∷ cs) (reader_at Place.plain [] [] []))

feed-append : (xs ys : Text) (r : Reader) → feed (xs ++ ys) r ≡ feed ys (feed xs r)
unfolding feed
feed-append [] ys r = refl
feed-append (x ∷ xs) ys r = feed-append xs ys _

feed-escape :
    (value rest f : Text) (row : List Text) (rows : List (List Text))
    → feed (escape value ++ rest) (reader_at Place.quoted f row rows)
      ≡ feed rest (reader_at Place.quoted (f ++ value) row rows)
unfolding feed escape
feed-escape [] rest f row rows = rw (append_nil f) refl
feed-escape (c ∷ cs) rest f row rows =
    let step = feed-escape cs rest (f ++ c ∷ []) row rows in
    let same = append_assoc f (c ∷ []) cs in
    elim (Bool-cases (c == 34)) [
      | inl eq ↦ let e : c ≡ 34 = ground arith in rw e (ground (arith, step, same))
      | inr ne ↦ rw ne (ground (arith, step, same))
    ]

-- A cell is read as its value.
feed-cell :
    (value rest : Text) (row : List Text) (rows : List (List Text))
    → feed (cell value ++ rest) (reader_at Place.plain [] row rows)
      ≡ feed rest (reader_at Place.closing value row rows)
unfolding feed cell
feed-cell value rest row rows =
    rw (append_assoc (escape value) (34 ∷ []) rest) (feed-escape value (34 ∷ rest) [] row rows)

-- A line is read as its cells.
feed-line :
    (v : Text) (vs : List Text) (rest : Text) (row : List Text) (rows : List (List Text))
    → (f : Text) × (front : List Text) × (feed
          (line (v ∷ vs) ++ rest)
          (reader_at Place.plain [] row rows)
        ≡ feed rest (reader_at Place.closing f front rows))
      × (front ++ f ∷ [] ≡ row ++ v ∷ vs)
unfolding feed line join
feed-line v [] rest row rows = (v, row, feed-cell v rest row rows, refl)
feed-line v (w ∷ vs) rest row rows =
    let (f, front, fed, whole) = feed-line w vs rest (row ++ v ∷ []) rows in
    let after = join (44 ∷ []) (map cell (w ∷ vs)) in
    let assoc = append_assoc (cell v) (44 ∷ after) rest in
    let step = feed-cell v (44 ∷ after ++ rest) row rows in
    (
      f,
      front,
      ap (λ t. feed t (reader_at Place.plain [] row rows)) assoc ∙ (step ∙ fed),
      whole ∙ append_assoc row (v ∷ []) (w ∷ vs),
    )

abbrev pub IsFilled : List Text → Type 0
IsFilled row = (v : Text) × (vs : List Text) × (row ≡ v ∷ vs)

-- Lines are read as rows.
feed-lines :
    (v : Text) (vs : List Text) (rs rows : List (List Text))
    → All IsFilled rs
    → finish
        (feed (join (13 ∷ 10 ∷ []) (map line ((v ∷ vs) ∷ rs))) (reader_at Place.plain [] [] rows))
      ≡ rows ++ (v ∷ vs) ∷ rs
unfolding feed join
feed-lines v vs [] rows h =
    let (f, front, fed, whole) = feed-line v vs [] [] rows in
    ap (λ t. finish (feed t (reader_at Place.plain [] [] rows))) (sym (append_nil (line (v ∷ vs))))
    ∙ (ap finish fed ∙ ap (λ row. rows ++ row ∷ []) whole)
feed-lines v vs (r ∷ rs) rows h =
    let (w, ws, same) = h.0 in
    let after = join (13 ∷ 10 ∷ []) (map line ((w ∷ ws) ∷ rs)) in
    let (f, front, fed, whole) = feed-line v vs (13 ∷ 10 ∷ after) [] rows in
    let all = feed-lines w ws rs (rows ++ (v ∷ vs) ∷ []) h.1 in
    let Reads : List Text → Type 0 = λ row.
      finish (
        feed (join (13 ∷ 10 ∷ []) (map line ((v ∷ vs) ∷ row ∷ rs)))
          (reader_at Place.plain [] [] rows))
      ≡ rows ++ (v ∷ vs) ∷ row ∷ rs in
    subst Reads (sym same) (
      ap finish fed
      ∙ (ap (λ row. finish (feed after (reader_at Place.plain [] [] (rows ++ row ∷ [])))) whole
          ∙ (all ∙ append_assoc rows ((v ∷ vs) ∷ []) ((w ∷ ws) ∷ rs))))

-- A file of filled rows is read as those rows.
pub read_rows-lines :
    (v : Text) (vs : List Text) (rs : List (List Text))
    → All IsFilled rs
    → read_rows (65279 ∷ join (13 ∷ 10 ∷ []) (map line ((v ∷ vs) ∷ rs))) ≡ (v ∷ vs) ∷ rs
unfolding read_rows
read_rows-lines v vs rs h = feed-lines v vs rs [] h

device_row-IsFilled : (room : Room) (ds : List Device) → All IsFilled (map (device_row room) ds)
unfolding device_row
device_row-IsFilled room [] = tt
device_row-IsFilled room (d ∷ ds) = ((_, _, refl), device_row-IsFilled room ds)

device_rows-IsFilled : (rooms : List Room) → All IsFilled (device_rows rooms)
unfolding device_rows
device_rows-IsFilled [] = tt
device_rows-IsFilled (room ∷ rooms) =
    All-append IsFilled _ _ (device_row-IsFilled room room.devices) (device_rows-IsFilled rooms)

-- Reading the exported file gives the headings and one row for each device back, whatever
-- quotes, commas and line breaks the names hold.
pub read_rows-export_fleet :
    (rooms : List Room) → read_rows (export_fleet rooms) ≡ headings ∷ device_rows rooms
unfolding export_fleet headings
read_rows-export_fleet rooms = read_rows-lines _ _ (device_rows rooms) (device_rows-IsFilled rooms)
