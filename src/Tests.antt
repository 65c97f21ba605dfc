-- ===== src/Tests.antt =====
-- Runs of the theorems at concrete inputs.
pub mod Frames
pub mod Messages
pub mod Slots
pub mod Commands
pub mod Sessions
pub mod Tls
pub mod Hub
pub mod Actions
pub mod Reconnects
pub mod Capabilities
pub mod Scenes
