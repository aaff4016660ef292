-- ===== src/Display/Player/Frame.antt =====
-- What the handlers of the display leave alone
-- (internal/server/web/broadcast/display.js).
use icpc_controller.Prelude.{
  String, Bool, true, false, Option, none, some, List, ◌≡◌, refl, arith, is_empty, if◌then◌else◌,
  ◌&&◌, not, Bool-cases, inl, inr,
}
use icpc_controller.Prelude.Int.{ℤ, pos, eqb_ℤ}
use icpc_controller.Display.Host.{Host}
use icpc_controller.Display.Page.{Page}
use icpc_controller.Display.State.{Display, Clocks}
use icpc_controller.Display.Screen.{done, settle, render_current_page, show_empty}
use icpc_controller.Display.Font.{load_font}
use icpc_controller.Display.Time.{in_range, calc_synced_page_index}
use icpc_controller.Display.Player.{
  Message, Topic, PagesReply, sync_clocks, on_pages_updated, on_page_switch, on_sync_reset,
  on_topic, topic_of, handle_ws_message, set_pages, set_index, set_started, on_message,
  on_pages_reply, fetch_countdown,
}

-- Rendering a page leaves the connection, the pages and the index as they are.
pub render-conn : (host : Host) (s : Display) → (settle (render_current_page host s)).conn ≡ s.conn
unfolding render_current_page
render-conn host s = ground arith

pub render-ws_carousel :
    (host : Host) (s : Display)
    → ((settle (render_current_page host s)).pages ≡ s.pages)
      × ((settle (render_current_page host s)).current_idx ≡ s.current_idx)
unfolding render_current_page
render-ws_carousel host s = ground arith

-- Where rendering leads from states in `P` to states in `Q`, the handlers of messages and answers
-- lead to `Q`, if the changes that they make before they render, or in place of it, lead to `P` and
-- to `Q`.
module _ {ℓ} (host : Host) (P Q : Display → Type ℓ)
    (renders : (s : Display) → P s → Q (settle (render_current_page host s))) where
  if_renders :
      (b : Bool) (s t : Display)
      → (b ≡ true → Q s)
      → (b ≡ false → P t)
      → Q (settle (if b then done s else render_current_page host t))
  if_renders true s t p q = p refl
  if_renders false s t p q = renders t (q refl)

  pub pages_updated-leads :
      (pages : List Page) (s : Display)
      → (is_empty pages ≡ true → Q (show_empty (set_pages pages (fetch_countdown (load_font s)))))
      → (is_empty pages ≡ false
          → P (
              set_index
                (if in_range s.current_idx pages then s.current_idx else pos 0)
                (set_pages pages (fetch_countdown (load_font s)))))
      → Q (settle (on_pages_updated host pages s))
  unfolding on_pages_updated fetch_countdown load_font
  pages_updated-leads pages s p q = if_renders (is_empty pages) _ _ p q

  pub page_switch-leads :
      (index : Option ℤ) (s : Display)
      → Q s
      → ((idx : ℤ) → in_range idx s.pages ≡ true → P (set_index idx s))
      → Q (settle (on_page_switch host index s))
  unfolding on_page_switch
  page_switch-leads none s p q = p
  page_switch-leads (some idx) s p q =
      elim (Bool-cases (in_range idx s.pages && not (eqb_ℤ idx s.current_idx))) [
        | inl moves ↦ rw moves (renders _ (q idx (and-left _ _ moves)))
        | inr stays ↦ rw stays p
      ]
    where
      and-left : (a b : Bool) → (a && b) ≡ true → a ≡ true
      and-left true b h = refl
      and-left false b h = cc

  pub sync_reset-leads :
      (started_at : Option String) (s : Display)
      → (is_empty s.pages ≡ true → Q (set_started started_at s))
      → (is_empty s.pages ≡ false → P (set_index (pos 0) (set_started started_at s)))
      → Q (settle (on_sync_reset host started_at s))
  unfolding on_sync_reset
  sync_reset-leads started_at s p q = if_renders (is_empty s.pages) _ _ p q

  pub pages_reply-leads :
      (now : ℤ) (reply : Option PagesReply) (s : Display)
      → Q s
      → ((pages : List Page) (r : PagesReply)
          → is_empty pages ≡ true
          → Q (show_empty (set_pages pages (sync_clocks host now r.server_time r.started_at s))))
      → ((pages : List Page) (r : PagesReply)
          → is_empty pages ≡ false
          → let t = set_pages pages (sync_clocks host now r.server_time r.started_at s) in
            P (set_index (calc_synced_page_index host now t) t))
      → Q (settle (on_pages_reply host now reply s))
  unfolding on_pages_reply
  pages_reply-leads now none s z p q = z
  pages_reply-leads now (some reply) s z p q =
      let pages : List Page = elim reply.pages [ none ↦ reply.body | some pages ↦ pages ] in
      if_renders (is_empty pages) _ _ (p pages reply) (q pages reply)

-- A message, for a property of states that the clocks do not bear on.
module _ {ℓ} (host : Host) (Q : Display → Type ℓ)
    (topics : (msg : Message) (t : Topic) (s : Display) → Q s → Q (settle (on_topic host msg t s)))
    (clocks : (c : Clocks) (s : Display) → Q s → Q (record s { clocks = c })) where
  pub message-leads :
      (now : ℤ) (msg : Option Message) (s : Display) → Q s → Q (on_message host now msg s)
  unfolding on_message handle_ws_message sync_clocks
  message-leads now none s p = p
  message-leads now (some msg) s p = topics msg (topic_of msg) _ (clocks _ s p)
