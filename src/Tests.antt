-- ===== src/Tests.antt =====
-- Runs of the modelled code and instances of the theorems at concrete inputs.
pub mod Locks
pub mod Queues
pub mod Sessions
pub mod Control
pub mod Codec
pub mod Limits
pub mod Interests
pub mod Rooms
pub mod Frames
pub mod Bootstraps
