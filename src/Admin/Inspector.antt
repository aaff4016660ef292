-- ===== src/Admin/Inspector.antt =====
-- What the inspector of the broadcast editor sends (`Inspector`, `pickImage`, `label` and `toColor`
-- of frontend/src/pages/broadcast.tsx), where no request fails.
pub mod Colors
use icpc_controller.Prelude.{
  ℕ, suc, ◌+◌, Bool, true, false, not, ◌&&◌, ◌||◌, Option, none, some, List, [], ◌∷◌, ◌++◌, ◌≡◌,
  ◌==◌, leb, if◌then◌else◌, is_empty, length,
}
use icpc_controller.Prelude.Text.{Text, codes, show, or_text}
use icpc_controller.Prelude.Sets.{text_eq}

-- A page as it is sent; the identifiers stand for its items, and the duration, which may have a sign
-- or a fraction, is as JSON writes it.
pub record Page : Type 0 where
  pub id : ℕ
  pub mode : Text
  pub title : Text
  pub sort_order : ℕ
  pub duration_ms : Text
  pub bg_color : Text
  pub transition : Text
  pub items : List ℕ

-- A new item; all other fields are the same for each.
pub record NewItem : Type 0 where
  pub page_id : ℕ
  pub item_type : Text
  pub content : Text
  pub pos_x : ℕ
  pub pos_y : ℕ
  pub width : ℕ
  pub height : ℕ
  pub font_size : Text
  pub font_color : Text
  pub font_weight : Text
  pub text_align : Text
  pub bg_color : Text
  pub border_radius : Text
  pub animation : Text
  pub z_index : ℕ
  pub extra_json : Text

pub data Request : Type 0 where
  put_page : ℕ → Page → Request
  post_item : NewItem → Request
  duplicate_page : ℕ → Request
  delete_page : ℕ → Request
  delete_item : ℕ → Request
  upload_image : Request

-- What the inspector did: its requests, the calls of `onReload`, and `dirty` of the page.
pub record Inspector : Type 0 where
  pub dirty : Bool
  pub requests : List Request
  pub reloads : ℕ

-- A request with `onReload` behind it.
unfoldable pub send_and_load : Request → Inspector → Inspector
send_and_load request s = record s {
  requests = s.requests ++ request ∷ [];
  reloads = suc s.reloads;
}

-- The field of the title loses the focus.
unfoldable pub blur_title : Text → Page → Inspector → Inspector
blur_title value page s =
    send_and_load
      (Request.put_page page.id (record page { title = value; transition = codes "fade" })) s

-- The field of the duration loses the focus; `milliseconds` is what JSON.stringify writes for
-- (Number(value) || 10) * 1000.
unfoldable pub blur_duration : (Text → Text) → Text → Page → Inspector → Inspector
blur_duration milliseconds value page s =
    send_and_load
      (Request.put_page page.id
        (record page { duration_ms = milliseconds value; transition = codes "fade" }))
      s

unfoldable pub change_background : Text → Page → Inspector → Inspector
change_background value page s =
    send_and_load
      (Request.put_page page.id (record page { bg_color = value; transition = codes "fade" })) s

unfoldable pub item_types : List Text
item_types =
    codes "text" ∷ codes "image" ∷ codes "clock" ∷ codes "countdown" ∷ codes "scrolling_notice" ∷ []

unfoldable pub first_content : Text → Text
first_content kind =
    if text_eq kind (codes "text")
    then codes "文本"
    else if text_eq kind (codes "scrolling_notice")
    then codes "通知"
    else []

unfoldable pub new_item : ℕ → Text → Text → NewItem
new_item page_id kind content = record {
  page_id = page_id;
  item_type = kind;
  content = content;
  pos_x = 10;
  pos_y = 10;
  width = 30;
  height = 16;
  font_size = codes "4";
  font_color = codes "#ffffff";
  font_weight = codes "500";
  text_align = codes "center";
  bg_color = codes "transparent";
  border_radius = codes "0";
  animation = [];
  z_index = 10;
  extra_json = codes "{}";
}

-- `pickImage`: none where no file is picked, or else the address that the answer has.
unfoldable pub pick_image : Option Text → Inspector → Text × Inspector
pick_image none s = ([], s)
pick_image (some url) s = (url, record s { requests = s.requests ++ Request.upload_image ∷ [] })

abbrev pub post_content : ℕ → Text → Text × Inspector → Inspector
post_content page_id kind picked =
    if is_empty picked.0
    then picked.1
    else send_and_load (Request.post_item (new_item page_id kind picked.0)) picked.1

-- The button that adds an item of a type, with the image that is picked.
unfoldable pub add_item : Option Text → Text → ℕ → Inspector → Inspector
add_item image kind page_id s =
    if text_eq kind (codes "image")
    then post_content page_id kind (pick_image image s)
    else send_and_load (Request.post_item (new_item page_id kind (first_content kind))) s

unfoldable pub duplicate : ℕ → Inspector → Inspector
duplicate page_id s = send_and_load (Request.duplicate_page page_id) s

-- The buttons that delete, with the user's answers.
unfoldable pub remove_page : Bool → ℕ → Inspector → Inspector
remove_page confirmed page_id s =
    if confirmed then send_and_load (Request.delete_page page_id) s else s

unfoldable pub remove_item : Bool → ℕ → Inspector → Inspector
remove_item confirmed item_id s =
    if confirmed
    then send_and_load (Request.delete_item item_id) (record s { dirty = false })
    else s

-- The content has a field of its own.
unfoldable pub has_content_field : Text → Bool
has_content_field kind = not (text_eq kind (codes "image")) && not (text_eq kind (codes "clock"))

-- `label`
unfoldable pub label : Text → Text → Text
label kind content =
    if text_eq kind (codes "clock")
    then codes "00:00:00"
    else if text_eq kind (codes "countdown")
    then codes "倒计时"
    else or_text content kind

-- [0-9a-fA-F]
unfoldable pub is_hex_code : ℕ → Bool
is_hex_code c = (leb 48 c && leb c 57) || (leb 97 c && leb c 102) || (leb 65 c && leb c 70)

abbrev pub all_hex : Text → Bool
all_hex [] = true
all_hex (c ∷ cs) = is_hex_code c && all_hex cs

-- /^#[0-9a-fA-F]{6}$/.test(value)
unfoldable pub is_color : Text → Bool
is_color [] = false
is_color (c ∷ cs) = (c == 35) && (length cs == 6) && all_hex cs

unfoldable pub to_color : Text → Text
to_color value = if is_color value then value else codes "#ffffff"
