-- ===== src/Admin/Menu.antt =====
-- The menu of the pages (`NAV` and `Shell` of frontend/src/components/shell.tsx, `PAGE_TITLE` of
-- frontend/src/lib/utils.ts).
use icpc_controller.Prelude.{
  Bool, true, false, not, ◌&&◌, ◌||◌, List, [], ◌∷◌, ◌++◌, map, ◌≡◌, refl, if◌then◌else◌, keep,
}
use icpc_controller.Prelude.Text.{Text, codes}
use icpc_controller.Prelude.Sets.{text_eq}
use icpc_controller.Admin.Routes.{pages}

pub record Entry : Type 0 where
  pub id : Text
  pub group : Text
  pub cloud_only : Bool

unfoldable pub nav : List Entry
nav =
    record { id = codes "rooms"; group = codes "监控"; cloud_only = true }
    ∷ record { id = codes "dashboard"; group = codes "监控"; cloud_only = false }
    ∷ record { id = codes "devices"; group = codes "监控"; cloud_only = false }
    ∷ record { id = codes "screen"; group = codes "监控"; cloud_only = false }
    ∷ record { id = codes "commands"; group = codes "运维"; cloud_only = false }
    ∷ record { id = codes "network"; group = codes "运维"; cloud_only = false }
    ∷ record { id = codes "distribute"; group = codes "运维"; cloud_only = false }
    ∷ record { id = codes "power"; group = codes "运维"; cloud_only = false }
    ∷ record { id = codes "checkin"; group = codes "比赛"; cloud_only = false }
    ∷ record { id = codes "broadcast"; group = codes "比赛"; cloud_only = false }
    ∷ record { id = codes "settings"; group = codes "系统"; cloud_only = false }
    ∷ []

unfoldable pub groups : List Text
groups = codes "监控" ∷ codes "运维" ∷ codes "比赛" ∷ codes "系统" ∷ []

unfoldable pub group_entries : Bool → Text → List Entry
group_entries cloud group =
    keep (λ item. text_eq item.group group && (not item.cloud_only || cloud)) nav

abbrev pub menu_of : Bool → List Text → List Entry
menu_of cloud [] = []
menu_of cloud (group ∷ rest) = group_entries cloud group ++ menu_of cloud rest

unfoldable pub menu : Bool → List Entry
menu cloud = menu_of cloud groups

unfoldable pub page_titles : List (Text × Text)
page_titles =
    (codes "rooms", codes "机房")
    ∷ (codes "dashboard", codes "总览")
    ∷ (codes "devices", codes "设备")
    ∷ (codes "screen", codes "屏幕")
    ∷ (codes "commands", codes "命令")
    ∷ (codes "network", codes "网络")
    ∷ (codes "distribute", codes "分发")
    ∷ (codes "power", codes "电源")
    ∷ (codes "checkin", codes "签到")
    ∷ (codes "broadcast", codes "广播")
    ∷ (codes "settings", codes "设置")
    ∷ []

-- The menu offers every page once, in the order of the pages, that of the rooms in the cloud only,
-- and every page has a title.
pub menu_lem :
    (cloud : Bool)
    → (map (λ item. item.id) (menu cloud)
        ≡ (if cloud then pages else keep (λ page. not (text_eq page (codes "rooms"))) pages))
      × (map (λ entry. entry.0) page_titles ≡ pages)
unfolding menu groups group_entries nav pages text_eq page_titles
menu_lem true = (refl, refl)
menu_lem false = (refl, refl)
