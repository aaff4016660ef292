-- ===== src/Display.antt =====
-- The broadcast display page (internal/server/web/broadcast/display.js). The children model its
-- functions, from the items of a page to the connection with the server.
pub mod Host
pub mod Item
pub mod Page
pub mod State
pub mod Time
pub mod Screen
pub mod Font
pub mod Clock
pub mod Keys
pub mod Player
mod Tests
