-- ===== src/Display/Host.antt =====
-- What display.js takes from the browser and cannot be computed from its own text: dates,
-- floating point numbers and parsed JSON enter as functions of the text that is parsed.
use icpc_controller.Prelude.{String, Option}
use icpc_controller.Prelude.Int.{ℤ}
use icpc_controller.Prelude.Text.{Text}

-- `JSON.parse(it.extra_json)`: it throws, or gives `null`, or a value with its `scroll_speed` as
-- JavaScript prints it, where that is neither missing nor 0.
pub data Extra : Type 0 where
  malformed null_value : Extra
  value : Option Text → Extra

pub record Host : Type 0 where
  -- `new Date(text).getTime()`; none is NaN
  pub parse_date : String → Option ℤ
  -- `parseFloat(text)` as JavaScript prints it; none where it is NaN or 0
  pub parse_float : Text → Option Text
  pub parse_extra : String → Extra
