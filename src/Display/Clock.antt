-- ===== src/Display/Clock.antt =====
-- The clock and the countdown (`initGlobalClock`, `updateAllCountdownEls` and `pad` of
-- internal/server/web/broadcast/display.js).
pub mod Laws
use icpc_controller.Prelude.{
  ℕ, zero, suc, ◌+◌, ◌-◌, ◌*◌, ◌/◌, ◌%◌, String, Bool, true, false, ◌&&◌, Option, none, some, List,
  [], ◌∷◌, ◌++◌, map, length, ltb, if◌then◌else◌,
}
use icpc_controller.Prelude.Int.{ℤ, pos, negsuc}
use icpc_controller.Prelude.Text.{Text, codes, show}
use icpc_controller.Display.Host.{Host}
use icpc_controller.Display.Item.{Element, childless}
use icpc_controller.Display.Item.Laws.{has_class}
use icpc_controller.Display.Page.{View}
use icpc_controller.Display.State.{PageNode, Display}
use icpc_controller.Display.Time.{sub_time, date_of}

unfoldable pub pad : ℕ → Text
pad n = if ltb n 10 then b'0' ∷ show n else show n

abbrev zeros : ℕ → Text
zeros zero = []
zeros (suc n) = b'0' ∷ zeros n

-- `String(n).padStart(width, '0')`
unfoldable pub pad_start : ℕ → Text → Text
pad_start width t = zeros (width - length t) ++ t

-- Three fields with colons between them.
unfoldable pub joined : Text → Text → Text → Text
joined h m s = h ++ (b':' ∷ (m ++ (b':' ∷ s)))

-- `timeStr`, from the hours, minutes and seconds of the local time.
unfoldable pub time_str : ℕ → ℕ → ℕ → Text
unfolding pad_start joined
time_str h m s = joined (pad_start 2 (show h)) (pad_start 2 (show m)) (pad_start 2 (show s))

-- The text for the milliseconds that remain; none is NaN, of which `pad` prints the name.
unfoldable pub remaining_text : Option ℤ → Text
unfolding pad joined
remaining_text none = codes "NaN:NaN:NaN"
remaining_text (some (pos zero)) = codes "00:00:00"
remaining_text (some (negsuc r)) = codes "00:00:00"
remaining_text (some (pos (suc n))) =
    let r = suc n in joined (pad (r / 3600000)) (pad (r % 3600000 / 60000)) (pad (r % 60000 / 1000))

unfoldable pub remaining : Host → ℤ → Display → Option ℤ
unfolding date_of
remaining host now s =
    sub_time (date_of host s.countdown_target) (sub_time (some now) s.countdown_offset)

unfoldable pub countdown_text : Host → ℤ → Display → Text
countdown_text host now s = elim s.countdown_target [
  | none ↦ codes "--:--:--"
  | some target ↦ remaining_text (remaining host now s)
]

-- `el.textContent = text` for the elements that pass a test.
unfoldable pub write_text : (Element → Bool) → Text → List Element → List Element
write_text test t [] = []
write_text test t (el ∷ els) =
    (if test el then record el { text = t; child = childless } else el) ∷ write_text test t els

abbrev pub is_clock_val : Element → Bool
is_clock_val = has_class "bc-clock-val"

abbrev pub is_countdown : Element → Bool
is_countdown el = has_class "broadcast-item" el && has_class "countdown" el

abbrev pub tick_node : Text → Text → PageNode → PageNode
tick_node time left n = record n {
  view = record (n.view) {
    elements = write_text is_countdown left (write_text is_clock_val time n.view.elements);
  };
}

-- The callback of the clock's interval, at the local time `h`, `m`, `sec`.
unfoldable pub on_tick : Host → ℤ → ℕ → ℕ → ℕ → Display → Display
unfolding time_str countdown_text
on_tick host now h m sec s =
    let time = time_str h m sec in
    record s {
      clocks = record (s.clocks) { global_clock = time };
      container = record (s.container) {
        nodes = map (tick_node time (countdown_text host now s)) s.nodes;
      };
    }
