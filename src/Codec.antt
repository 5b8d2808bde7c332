-- ===== src/Codec.antt =====
-- internal/codec: the compact wire form of the ephemeral events.
pub mod Wire
pub mod Payload
pub mod Ink
pub mod Relay
pub mod Client
