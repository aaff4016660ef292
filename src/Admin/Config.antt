-- ===== src/Admin/Config.antt =====
-- The configuration of the broadcast and the rooms that it is for (`Broadcast` and `toLocal` of
-- frontend/src/pages/broadcast.tsx), where no request fails.
pub mod Moments
use icpc_controller.Prelude.{
  ℕ, suc, Bool, true, false, not, Option, none, some, List, [], ◌∷◌, ◌++◌, map, ◌≡◌, if◌then◌else◌,
  keep, is_empty, length,
}
use icpc_controller.Prelude.Text.{Text, codes, show}
use icpc_controller.Prelude.Sets.{text_eq, includes}
use icpc_controller.Admin.Commands.{trim}
use icpc_controller.Admin.Settings.{pad_two}

-- const MODES
unfoldable pub modes : List (Text × Text)
modes =
    (codes "before", codes "赛前")
    ∷ (codes "contesting", codes "赛中")
    ∷ (codes "after", codes "赛后")
    ∷ []

-- The fields of the configuration that are sent, each alone.
pub data Change : Type 0 where
  sync_reset active_font countdown_target base_url : Text → Change

pub data Request : Type 0 where
  put_config : Change → Request
  -- the mode, the title, the place in the order, the duration, the background, the transition
  post_page : Text → Text → ℕ → ℕ → Text → Text → Request
  post_font : Request

-- What the page did: `loads` are the pages that `load` was called to keep, none for null.
pub record Config : Type 0 where
  pub mode : Text
  pub page_id : Option ℕ
  pub page_count : ℕ
  pub targets : List Text
  pub requests : List Request
  pub loads : List (Option ℕ)
  pub toasts : List Text

unfoldable pub first_targets : Text → List Text
first_targets room_id = if is_empty room_id then [] else room_id ∷ []

-- The check of a room, and the button for all.
unfoldable pub toggle_target : Text → Config → Config
toggle_target id s = record s {
  targets =
      if includes id s.targets
      then keep (λ room. not (text_eq room id)) s.targets
      else s.targets ++ id ∷ [];
}

unfoldable pub all_targets : List Text → Config → Config
all_targets rooms s = record s { targets = rooms }

abbrev pub put_change : Change → Config → Config
put_change change s = record s { requests = s.requests ++ Request.put_config change ∷ [] }

abbrev pub reload : Option ℕ → Config → Config
reload keep_id s = record s { loads = s.loads ++ keep_id ∷ [] }

-- The button that sets the turns of the pages back, in a room.
unfoldable pub reset_turns : Config → Config
reset_turns s =
    let t = put_change (Change.sync_reset s.mode) s in
    record t { toasts = t.toasts ++ codes "轮播已复位" ∷ [] }

-- The button that makes a page, with the identifier of the answer.
unfoldable pub create_page : ℕ → Config → Config
create_page created s = reload (some created) (record s {
  requests =
      s.requests
      ++ Request.post_page s.mode (codes "新页面") s.page_count 10000 (codes "#000000") (codes "fade")
        ∷ [];
})

unfoldable pub choose_font : Text → Config → Config
choose_font value s = reload s.page_id (put_change (Change.active_font value) s)

-- The file of a font; nothing is done where none is picked.
unfoldable pub upload_font : Bool → Config → Config
upload_font picked s =
    if picked
    then reload s.page_id (record s { requests = s.requests ++ Request.post_font ∷ [] })
    else s

unfoldable pub blur_base_url : Text → Config → Config
blur_base_url value s = put_change (Change.base_url (trim value)) s

-- The local time of a date: its year, month, day, hours and minutes.
pub record Local : Type 0 where
  pub year : ℕ
  pub month : ℕ
  pub day : ℕ
  pub hours : ℕ
  pub minutes : ℕ

unfoldable pub local_text : Local → Text
local_text date =
    show date.year
    ++ (b'-'
        ∷ (pad_two (show date.month)
            ++ (b'-'
                ∷ (pad_two (show date.day)
                    ++ (b'T'
                        ∷ (pad_two (show date.hours) ++ (b':' ∷ pad_two (show date.minutes))))))))

-- `toLocal`; `local` is the local time of a text, none where it is not a date.
unfoldable pub to_local : (Text → Option Local) → Text → Text
to_local local iso =
    if is_empty iso
    then []
    else elim (local iso) as (λ x. Text) [ none ↦ [] | some date ↦ local_text date ]

-- The field of the countdown loses the focus; `to_iso` is `toISOString` of the date that a value
-- of the field is.
unfoldable pub countdown_value : (Text → Text) → Text → Text
countdown_value to_iso value = if is_empty value then [] else to_iso value

unfoldable pub blur_countdown : (Text → Text) → Text → Config → Config
blur_countdown to_iso value s =
    put_change (Change.countdown_target (countdown_value to_iso value)) s

-- The state that the page shows behind its buttons.
unfoldable pub state_text : Bool → Text → Text
state_text dirty pushed =
    (if dirty then codes "有未保存的修改" else codes "已保存")
    ++ (if is_empty pushed then [] else codes " · 当前推送 " ++ pushed)
