-- ===== src/Display/Player/Turns.antt =====
-- Every event keeps the carousel of the display in order
-- (internal/server/web/broadcast/display.js).
use icpc_controller.Display.Host.{Host}
use icpc_controller.Display.Page.{Page}
use icpc_controller.Display.State.{Display}
