-- ===== src/Admin.antt =====
-- The administrators' web frontend (frontend/src). The children model the state and the handlers
-- of its pages.
pub mod Asked
pub mod Fleet
pub mod Labels
pub mod Search
pub mod Export
pub mod Commands
pub mod Socket
pub mod Pages
pub mod Actions
pub mod Routes
pub mod Api
pub mod Network
pub mod Messages
pub mod Login
pub mod Picker
pub mod Screen
pub mod Menu
pub mod Address
pub mod Rooms
pub mod Notices
pub mod App
pub mod Devices
pub mod Shell
pub mod Inspector
pub mod Config
pub mod Tables
pub mod Terminal
pub mod Sizes
pub mod History
pub mod Stats
pub mod Snapshots
pub mod Overview
pub mod Checkin
pub mod Stage
pub mod Editor
pub mod Settings
pub mod Distribution
mod Tests
