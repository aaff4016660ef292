-- ===== src/Admin/Devices/Found.antt =====
-- What the table of devices shows, and the address that is read for a device (frontend/src/pages/
-- devices.tsx, frontend/src/lib/utils.ts).
use icpc_controller.Prelude.{
  false, some, List, [], ◌∷◌, ◌++◌, ◌≡◌, inl, inr, refl, arith, if◌then◌else◌, is_empty, Bool-cases,
}
use icpc_controller.Prelude.Text.{Text, codes}
use icpc_controller.Admin.Devices.Table.{
  Json, Items, Browser, is_truthy, member, first_hit, parse_ip,
}

module _ {Number : Type 0} (B : Browser Number) where
  -- All values that count as true under the names of addresses, in the order of the array and of
  -- the names.
  abbrev pub given : Json Number → List (Json Number)
  given value = if is_truthy B value then value ∷ [] else []

  abbrev pub addresses : Items Number → List (Json Number)
  addresses Items.no_items = []
  addresses (Items.item_then item items) =
      given (member B (codes "addr") item)
      ++ given (member B (codes "ip") item)
      ++ given (member B (codes "ipv4") item)
      ++ addresses items

  abbrev pub first_or : Json Number → List (Json Number) → Json Number
  first_or default [] = default
  first_or default (x ∷ xs) = x

  -- Only an object has members.
  falsy_member :
      (name : Text) (item : Json Number) → is_truthy B item ≡ false → member B name item ≡ Json.null
  falsy_member name Json.null h = refl
  falsy_member name (Json.bool b) h = refl
  falsy_member name (Json.number n) h = refl
  falsy_member name (Json.string t) h = refl
  falsy_member name (Json.array items) h = refl
  falsy_member name (Json.object fields) h = cc

  first_hit-addresses :
      (items : Items Number) → first_hit B items ≡ first_or (Json.string []) (addresses items)
  unfolding first_hit
  first_hit-addresses Items.no_items = refl
  first_hit-addresses (Items.item_then item items) =
      let rest = first_hit-addresses items in
      elim (Bool-cases (is_truthy B item)) [
        | inl there ↦ ground arith
        | inr nothing ↦
            rw
              (
                falsy_member (codes "addr") item nothing,
                falsy_member (codes "ip") item nothing,
                falsy_member (codes "ipv4") item nothing,
              )
              (ground arith)
      ]

  -- For a text that is the notation of an array, `parseIP` gives the first of all values that
  -- count as true under addr, ip or ipv4 of its entries, in the order of the entries and then of
  -- the names, and the empty text where there is none.
  pub parse_ip-addresses :
      (raw : Text) (items : Items Number)
      → is_empty raw ≡ false
      → B.parse raw ≡ some (Json.array items)
      → parse_ip B raw ≡ first_or (Json.string []) (addresses items)
  unfolding parse_ip
  parse_ip-addresses raw items given_text e = simp given_text (simp e (first_hit-addresses items))
