-- ===== src/Admin/Routes/Paths.antt =====
-- The addresses of rooms and pages are read back (frontend/src/lib/utils.ts,
-- frontend/src/state.tsx), and requests go the same way however they are written
-- (frontend/src/lib/api.ts).
use icpc_controller.Prelude.{
  ℕ, true, false, none, some, [], ◌∷◌, ◌++◌, ◌≡◌, ◌≢◌, ◌↔◌, refl, subst, ◌∙◌, sym, inl, inr, arith,
  ◌==◌, All, All-imp, is_empty, Option, none, Bool-cases,
}
use icpc_controller.Prelude.Text.{Text, codes}
use icpc_controller.Prelude.Uri.{IsScalar, encode, decode}
use icpc_controller.Prelude.Uri.Undo.{IsPartChar, encode-is_empty, encode-IsPartChar, decode-encode}
use icpc_controller.Prelude.Sets.{text_eq, includes}
use icpc_controller.Admin.Routes.{
  pages, strip_first, parse_page, after_prefix, segment, room_from_path, room_path, raw_path,
  starts_with_slash, resolve,
}

dashboard-included : includes (codes "dashboard") pages ≡ true
unfolding includes pages text_eq
dashboard-included = refl

-- The page of an address is always one of the pages; and "#" with a text behind it gives that
-- text back exactly if it is a page.
pub parse_page_lem :
    (hash : Text)
    → (includes (parse_page hash) pages ≡ true)
      × ((parse_page (35 ∷ hash) ≡ hash) ↔ (includes hash pages ≡ true))
unfolding parse_page strip_first
parse_page_lem hash = (
  elim (Bool-cases (includes (strip_first 35 hash) pages)) [
    | inl page ↦ rw page page
    | inr other ↦ rw other dashboard-included
  ],
  (
    elim (Bool-cases (includes hash pages)) [
      | inl page ↦ λ e. page
      | inr other ↦
          rw other (λ e. sym other ∙ subst (λ x. includes x pages ≡ true) e dashboard-included)
    ],
    λ page. rw page refl,
  ),
)

segment-plain : (c : ℕ) (cs : Text) → All (λ d. d ≢ 47) (c ∷ cs) → segment (c ∷ cs) ≡ some (c ∷ cs)
unfolding segment
segment-plain c [] h = let n = h.0 in ground arith
segment-plain c (d ∷ ds) h = let n = h.0 in let rest = segment-plain d ds h.1 in ground arith

segment-whole : (s : Text) → is_empty s ≡ false → All IsPartChar s → segment s ≡ some s
segment-whole [] h k = cc
segment-whole (c ∷ cs) h k = segment-plain c cs (All-imp (λ x p. p.0) (c ∷ cs) k)

-- The address of a room names that room, for a room whose identifier is well-formed Unicode.
pub room_from_path-room_path :
    (room : Text) → All IsScalar room → room_from_path (room_path room) ≡ some room
unfolding room_from_path room_path after_prefix
room_from_path-room_path [] h = refl
room_from_path-room_path (c ∷ cs) h =
    let whole =
      segment-whole (encode (c ∷ cs)) (encode-is_empty c cs) (encode-IsPartChar (c ∷ cs) h) in
    subst (λ t. elim t as (λ x. Option Text) [ none ↦ some [] | some s ↦ decode s ] ≡ some (c ∷ cs))
      (sym whole) (decode-encode (c ∷ cs) h)

-- A request goes to the same place whether its path is written with "/api/" in front or without.
-- The path that follows does not start with a slash.
pub resolve-api :
    (room raw : Text)
    → starts_with_slash raw ≡ false
    → resolve room (codes "/api/" ++ raw) ≡ resolve room raw
unfolding resolve raw_path after_prefix strip_first
resolve-api room [] h = refl
resolve-api room (c ∷ cs) h =
    let other : (47 == c) ≡ false = ground arith in
    let raw : raw_path (c ∷ cs) ≡ c ∷ cs = rw (raw_path, after_prefix, other, h) refl in
    rw (raw, h) refl
