-- ===== src/Admin/Address/InSync.antt =====
-- The address of the window and the state say the same (frontend/src/state.tsx), and where they
-- come apart.
use icpc_controller.Prelude.{
  ℕ, true, false, none, some, [], ◌∷◌, ◌++◌, ◌≡◌, ◌≢◌, refl, sym, ap, ◌∙◌, subst, inl, inr, arith,
  All, All-append, All-imp, any, ◌==◌, append_nil, Bool-cases,
}
use icpc_controller.Prelude.Text.{Text, codes, or_text}
use icpc_controller.Prelude.Uri.{IsScalar, encode}
use icpc_controller.Prelude.Uri.Undo.{encode-IsPartChar}
use icpc_controller.Prelude.Sets.{text_eq, text_eq→eq, includes}
use icpc_controller.Admin.Routes.{pages, strip_first, parse_page, room_from_path, room_path}
use icpc_controller.Admin.Routes.Paths.{parse_page_lem, room_from_path-room_path}
use icpc_controller.Admin.Address.{
  Address, push_state, go, set_room, sync, arrived, load_address, first_address, enter_room,
}

-- `location.pathname` has no number sign.
abbrev pub IsPath : Text → Type 0
IsPath path = All (λ c. c ≢ 35) path

-- `location.hash` is empty, or a number sign with more behind it.
pub data IsHash : Text → Type 0 where
  no_hash : IsHash []
  hash_of : (c : ℕ) (cs : Text) → IsHash (35 ∷ c ∷ cs)

-- The address names the page that is shown, and some room in its way of writing.
pub record IsWritten (s : Address) : Type 0 where
  pub page_of : parse_page s.hash ≡ s.page
  pub is_path : IsPath s.path
  pub is_hash : IsHash s.hash
  pub scalar : All IsScalar s.room_id

pub record InSync (s : Address) : Type 0 where
  pub page_of : parse_page s.hash ≡ s.page
  pub room_of : room_from_path s.path ≡ some s.room_id
  pub is_path : IsPath s.path
  pub is_hash : IsHash s.hash
  pub scalar : All IsScalar s.room_id

-- What may happen to the address: a handler of the last rendering, or a navigation of the user,
-- to an address whose room is well-formed.
pub data Step (s : Address) : Address → Type 0 where
  went : (next : Text) → includes next pages ≡ true → Step s (go s.room_id next s)
  room_set : (id : Text) → All IsScalar id → Step s (set_room s.page id s)
  navigated :
      (path hash room : Text)
      → IsPath path
      → IsHash hash
      → room_from_path path ≡ some room
      → All IsScalar room
      → Step s (arrived path hash room s)

pub data Reach : Address → Type 0 where
  start :
      (path hash room : Text)
      → IsPath path
      → IsHash hash
      → room_from_path path ≡ some room
      → All IsScalar room
      → Reach (first_address path hash room)
  further : {s t : Address} → Reach s → Step s t → Reach t

page-hash : (page : Text) → includes page pages ≡ true → parse_page (35 ∷ page) ≡ page
page-hash page h = (parse_page_lem page).1.1 h

unsigned-IsPath : (s : Text) → any (λ c. c == 35) s ≡ false → IsPath s
unsigned-IsPath [] h = tt
unsigned-IsPath (c ∷ cs) h = (λ e. ground arith, unsigned-IsPath cs (ground arith))

room_path-IsPath : (room : Text) → All IsScalar room → IsPath (room_path room)
unfolding room_path
room_path-IsPath [] h = ((λ e. omega arith), tt)
room_path-IsPath (c ∷ cs) h =
    All-append (λ c. c ≢ 35) (codes "/room/") (encode (c ∷ cs))
      (unsigned-IsPath (codes "/room/") refl)
      (All-imp (λ x p. p.1) (encode (c ∷ cs)) (encode-IsPartChar (c ∷ cs) h))

-- The part before the first number sign is determined by the whole.
split_path :
    (xs ys : Text) {us vs : Text}
    → IsPath xs
    → IsPath ys
    → xs ++ 35 ∷ us ≡ ys ++ 35 ∷ vs
    → (xs ≡ ys) × (us ≡ vs)
split_path [] [] h k e = (refl, ground arith)
split_path [] (y ∷ ys) h k e = absurd (let n = k.0 in ground arith)
split_path (x ∷ xs) [] h k e = absurd (let n = h.0 in ground arith)
split_path (x ∷ xs) (y ∷ ys) {us} {vs} h k e =
    let tail : xs ++ 35 ∷ us ≡ ys ++ 35 ∷ vs = ground arith in
    let head : x ≡ y = ground arith in
    let (same, rest) = split_path xs ys h.1 k.1 tail in
    (ap (λ a. a ∷ xs) head ∙ ap (λ l. y ∷ l) same, rest)

no_sign : (xs ys vs : Text) → IsPath xs → xs ≢ ys ++ 35 ∷ vs
no_sign [] [] vs h e = cc
no_sign [] (y ∷ ys) vs h e = cc
no_sign (x ∷ xs) [] vs h e = let n = h.0 in ground arith
no_sign (x ∷ xs) (y ∷ ys) vs h e =
    let tail : xs ≡ ys ++ 35 ∷ vs = ground arith in no_sign xs ys vs h.1 tail

-- A page's name is not empty.
IsHash-page : (page : Text) → includes page pages ≡ true → IsHash (35 ∷ page)
unfolding includes pages text_eq
IsHash-page [] h = cc
IsHash-page (c ∷ cs) h = IsHash.hash_of c cs

go-same :
    (next path hash room : Text)
    → IsPath path
    → IsHash hash
    → All IsScalar room
    → path ++ hash ≡ room_path room ++ 35 ∷ next
    → (path ≡ room_path room) × (hash ≡ 35 ∷ next)
go-same next path hash room p IsHash.no_hash h e =
    absurd (no_sign path (room_path room) next p (sym (append_nil path) ∙ e))
go-same next path hash room p (IsHash.hash_of c cs) h e =
    let (same, rest) = split_path path (room_path room) p (room_path-IsPath room h) e in
    (same, ap (λ t. 35 ∷ t) rest)

-- `go` for any room writes an address that names the page and that room.
pub go-IsWritten :
    (room next : Text) (s : Address)
    → All IsScalar room
    → includes next pages ≡ true
    → IsWritten s
    → IsWritten (go room next s) × ((go room next s).path ≡ room_path room)
unfolding go push_state
go-IsWritten room next s sc k h =
    elim (Bool-cases (text_eq (s.path ++ s.hash) (room_path room ++ 35 ∷ next))) [
      | inl same ↦
          let (path, hash) =
            go-same next s.path s.hash room h.is_path h.is_hash sc (text_eq→eq _ _ same) in
          rw same (
            record {
              page_of = ap parse_page hash ∙ page-hash next k;
              is_path = h.is_path;
              is_hash = h.is_hash;
              scalar = h.scalar;
            },
            path,
          )
      | inr new ↦ rw new (
        record {
          page_of = page-hash next k;
          is_path = room_path-IsPath room sc;
          is_hash = IsHash-page next k;
          scalar = h.scalar;
        },
        refl,
      )
    ]

pub go-room_id : (room next : Text) (s : Address) → (go room next s).room_id ≡ s.room_id
unfolding go push_state
go-room_id room next s =
    elim (Bool-cases (text_eq (s.path ++ s.hash) (room_path room ++ 35 ∷ next))) [
      | inl same ↦ rw same refl
      | inr other ↦ rw other refl
    ]

pub go-InSync :
    (next : Text) (s : Address)
    → includes next pages ≡ true
    → IsWritten s
    → InSync (go s.room_id next s)
go-InSync next s k h =
    let (written, path) = go-IsWritten s.room_id next s h.scalar k h in
    record {
      page_of = written.page_of;
      room_of =
          ap room_from_path path
          ∙ (room_from_path-room_path s.room_id h.scalar
              ∙ ap some (sym (go-room_id s.room_id next s)));
      is_path = written.is_path;
      is_hash = written.is_hash;
      scalar = written.scalar;
    }

-- What `setRoom` writes behind the number sign names the page that is shown.
kept_page :
    (hash page : Text)
    → IsHash hash
    → parse_page hash ≡ page
    → (parse_page (35 ∷ or_text (strip_first 35 hash) page) ≡ page)
      × IsHash (35 ∷ or_text (strip_first 35 hash) page)
unfolding strip_first
kept_page hash page IsHash.no_hash e =
    let is = subst (λ p. includes p pages ≡ true) e (parse_page_lem []).0 in
    (page-hash page is, IsHash-page page is)
kept_page hash page (IsHash.hash_of c cs) e = (e, IsHash.hash_of c cs)

pub set_room-InSync :
    (id : Text) (s : Address) → All IsScalar id → IsWritten s → InSync (set_room s.page id s)
unfolding set_room push_state
set_room-InSync id s k h =
    let (page, is) = kept_page s.hash s.page h.is_hash h.page_of in
    record {
      page_of = page;
      room_of = room_from_path-room_path id k;
      is_path = room_path-IsPath id k;
      is_hash = is;
      scalar = k;
    }

pub InSync-IsWritten : {s : Address} → InSync s → IsWritten s
InSync-IsWritten h = record {
  page_of = h.page_of;
  is_path = h.is_path;
  is_hash = h.is_hash;
  scalar = h.scalar;
}

step-InSync : {s t : Address} → Step s t → InSync s → InSync t
step-InSync {s} (went next k) h = go-InSync next s k (InSync-IsWritten h)
step-InSync {s} (room_set id k) h = set_room-InSync id s k (InSync-IsWritten h)
step-InSync {s} (navigated path hash room p k is sc) h = record {
  page_of = refl;
  room_of = is;
  is_path = p;
  is_hash = k;
  scalar = sc;
}

-- In every state that the application can reach by single handlers and navigations, with rooms
-- that are well-formed Unicode, the address of the window names the page and the room that are
-- shown.
pub Reach-InSync : {s : Address} → Reach s → InSync s
Reach-InSync (start path hash room p k is sc) = record {
  page_of = refl;
  room_of = is;
  is_path = p;
  is_hash = k;
  scalar = sc;
}
Reach-InSync (further r step) = step-InSync step (Reach-InSync r)

-- The rule for following an address and for loading it: where the room can be read, the state is
-- the one of the run; where it cannot, an address that is followed sets the page and keeps the
-- room, and one that is loaded has no state.
pub sync_lem :
    (path hash : Text) (s : Address)
    → ((room : Text)
        → room_from_path path ≡ some room
        → (sync path hash s ≡ arrived path hash room s)
          × (load_address path hash ≡ some (first_address path hash room)))
      × (room_from_path path ≡ none
          → ((sync path hash s).page ≡ parse_page hash)
            × ((sync path hash s).room_id ≡ s.room_id)
            × (load_address path hash ≡ none))
unfolding sync load_address
sync_lem path hash s = (
  λ room e. (rw (sync, e) refl, rw (load_address, e) refl),
  λ e. (rw (sync, e) refl, rw (sync, e) refl, rw (load_address, e) refl),
)

room_path_inj : (a b : Text) → All IsScalar a → All IsScalar b → room_path a ≡ room_path b → a ≡ b
room_path_inj a b h k e =
    let back =
      sym (room_from_path-room_path a h) ∙ (ap room_from_path e ∙ room_from_path-room_path b k) in
    ground arith

-- Where the address names the room that is shown, a button that enters another room, a well-formed
-- one, shows its page and that room, but the address that it leaves names the room from before.
pub enter_room_lem :
    (room page : Text) (s : Address)
    → InSync s
    → room ≢ s.room_id
    → All IsScalar room
    → ((enter_room room page s).page ≡ page)
      × ((enter_room room page s).room_id ≡ room)
      × (room_from_path (enter_room room page s).path ≡ some s.room_id)
unfolding enter_room go set_room push_state
enter_room_lem room page s h other sc =
    let kept = or_text (strip_first 35 s.hash) s.page in
    elim (Bool-cases (text_eq (room_path room ++ 35 ∷ kept) (room_path s.room_id ++ 35 ∷ page))) [
      | inl same ↦
          let split =
            split_path (room_path room) (room_path s.room_id) (room_path-IsPath room sc)
              (room_path-IsPath s.room_id h.scalar) (text_eq→eq _ _ same) in
          absurd (other (room_path_inj room s.room_id sc h.scalar split.0))
      | inr new ↦ rw new (refl, refl, room_from_path-room_path s.room_id h.scalar)
    ]

-- A button that enters a room writes an address that names the page that it goes to.
pub enter_room-IsWritten :
    (room page : Text) (s : Address)
    → All IsScalar room
    → includes page pages ≡ true
    → IsWritten s
    → IsWritten (enter_room room page s)
unfolding enter_room
enter_room-IsWritten room page s sc k h =
    let written = InSync-IsWritten (set_room-InSync room s sc h) in
    (go-IsWritten s.room_id page (set_room s.page room s) h.scalar k written).0

pub enter_room-room_id : (room page : Text) (s : Address) → (enter_room room page s).room_id ≡ room
unfolding enter_room set_room
enter_room-room_id room page s = go-room_id s.room_id page (set_room s.page room s)
