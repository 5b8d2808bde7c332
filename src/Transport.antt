-- ===== src/Transport.antt =====
-- internal/transport: the buffers before a connection's writer.
pub mod Queues
