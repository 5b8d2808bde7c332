-- ===== src/Lib.antt =====
-- Verification of the realtime canvas backend, a Go server that relays the live traffic of a shared
-- canvas: cursors, ink, block moves and their locks, over WebSocket and WebTransport.
--
-- The parts and the files that model them:
--   * Permission: internal/domain/permission.go. A permission is its text, as in the source.
--   * Connection: the identity part of the interface in internal/domain/connection.go.
--   * Envelope: internal/domain/envelope.go. `classify_event` is ClassifyEvent, `may_publish` is
--     MayPublish (with `may_publish_class` for its switch), `stamp` is Stamp. A payload is a text that
--     is never read. Envelope/Publishing compares MayPublish with a rule by event names.
--   * Transport/Queues: internal/transport/queues.go, the buffers before a connection's writer. The
--     record has the struct's fields; the wake channel is the number of nudges in it, and the
--     `closed` channel a Bool. `shed` is the loop of pushEphemeral, `collect` that of
--     takeEphemeralBatch. Frames and Coalescing give the list of pending frames that the map and the
--     order stand for; Push, Take and Reliable are about the methods.
--   * Lock and Lock/Store: internal/domain/lock.go and internal/infrastructure/memory_lock_store.go.
--     `acquire`, `renew`, `release`, `release_all`, `sweep_expired` and `holder` are the methods;
--     `acquire_cell` and the like are their bodies after the read of the block's lease. Store/Cells
--     is about single calls, and Counting, History, Ceiling and Protection about sequences of calls.
--   * Lock/Service: internal/application/block_lock_service.go, leases in the name of a connection.
--   * Lock/Handler: internal/transport/block_lock_handler.go, with Notify and Announce of
--     internal/application/room_service.go as messages appended to a list.
--   * Session and Session/Tickets: internal/domain/session.go, internal/domain/ticket.go and the two
--     stores internal/infrastructure/memory_session_store.go and memory_ticket_store.go.
--   * Session/Service: internal/application/session_service.go over both stores. RefreshSession is
--     `refresh_read` then `refresh_write`, since the store is unlocked in between.
--   * Security/Hmac: internal/security/hmac_request_validator.go, the signature check of control calls
--     with its nonce cache.
--   * Codec: internal/codec/binary_ephemeral_codec.go. Codec/Wire has the writer, the reader and the
--     header over lists of bytes (Varint and Fields are about its round trips); Codec/Payload has
--     pointers and transforms, Codec/Ink strokes, and Codec/Relay whole frames with the trailer that
--     carries the server's stamp, Codec/Client the frames of browsers. The aggregate is left out.
--   * Security/RateLimiter: internal/security/rate_limiter.go, the token bucket and the three buckets of
--     a connection; Allowance is about sequences of calls. Security/BootstrapLimiter:
--     internal/security/bootstrap_limiter.go, a bucket for each address and each user; Sweeping is
--     about the discarding of full ones, Answers about sequences of requests.
--   * Observability: internal/observability/metrics.go, the counters that the parts here write;
--     Closes is about the count by reason.
--   * Interest: internal/domain/interest.go, a viewport and its grid cells (Viewport: the points near
--     it; Growth: their number). Interest/Index: internal/infrastructure/memory_interest_index.go, with
--     Calls for sequences of calls, Cells for single changes, Size for the growth by a report and
--     Synced for the index as a whole. Where Cells panics, the index is left as far as it was written;
--     what the panic does to the caller is not in the model. Interest/Service:
--     internal/application/interest_service.go.
--   * Room: internal/infrastructure/memory_room_store.go and the methods of a connection in
--     internal/transport/ws_connection.go. A connection is an object that the rooms share, so `peers`
--     is the heap of the objects and a room holds their ids. Room/Service, Room/Relay and Room/Drain:
--     internal/application/room_service.go (`relay`, `relay_to_peer`, `join`, `leave`, `begin_drain`,
--     `wait_for_reliable_drain` are its methods; `announce_to` and `notify_one` are Announce and
--     Notify). Room/Store, Delivery, FanOut, Isolation, Reach and Revocation are about them.
--   * HistoryPreviews: internal/application/history_previews.go; Permits is about its methods.
--   * ClientFrame: internal/transport/client_frames.go and the handlers in
--     internal/transport/webtransport_handler.go. `handle_client_frame` in Admission is
--     handleClientFrame: the guards in order, then `dispatch` in Dispatch. Privacy and Containment are
--     about them.
--   * Control: the signed calls of internal/transport/handlers.go and
--     internal/transport/history_previews.go; Control/Bootstrap: the bootstrap endpoint of the former,
--     less the addresses in its response. Rejection, Demotion and Throttled are about them.
--   * Prelude: shared names, Go's maps as association lists (Dict), nested maps (Table) with the
--     snapshot that a nested range loop visits (Snapshot). Tests: runs at concrete inputs.
--
-- How the parts meet: a frame of a client is checked by MayPublish, consumed by the lock handler or
-- tested by the geometry guard, which both call the lock service over the one lock store. A session
-- service issues the tickets that connections redeem; what it validated becomes the connection's
-- identity, and the lock service copies that identity into each lease. A frame that is not for the
-- server goes to the room service, which asks the interest index for each recipient of an ephemeral
-- frame and puts the frame into the queues of the connections. A control call changes the sessions and
-- then reaches the live connections through the room service. The lock handler runs with an empty list
-- of messages, and the room service then delivers them.
--
-- Conventions: every method that holds a mutex is one step, a function of the state; concurrency is
-- any sequence of such steps. Instants are natural numbers of nanoseconds, an argument `now` being
-- what the clock reads at the call. Only the skew test meets instants before 1970 and int64 overflow,
-- and it works on integers with the wrap of time.Unix, the saturation of Sub and the wrap of a negation
-- written out. The conversion of a coordinate to an int and the number of cells that Cells allocates are
-- int64 too, with the least int64 for a coordinate that is none and the limit of make, 2 ^ 44 cells, of a
-- 64-bit Linux on amd64. The
-- drop counters are uint64, modulo 2 ^ 64. Lengths and counts of maps are unbounded. All loops are
-- structural recursions over the list they visit, but for the two loops of
-- a varint: five turns, which is the reader's own bound, and 35 bits, more than a uint32 has; and the
-- wait for the reliable queues, which has as fuel the number of its looks: one more than the waits
-- before its context is done. A float64 token is counted in shares of 1/60,000,000,000, so a refill by a
-- rate per minute over nanoseconds is a whole number; a float64 coordinate is a whole number of 1024ths
-- of a canvas unit. The rounding of float64 is not in the model. A fresh id is the id source's answer to
-- the number of ids minted before it. Metrics are numbers without a bound.
--
-- Parameters: JSON decoding and encoding of a payload, the hash, the signature and number formats of a
-- control call, the text functions of the client's address, the answer of the token validator, the
-- source of ids and the random ticket value are arguments, and so are the quantisation of a float64,
-- the JSON form of a payload and the bytes of a text.
--
-- Not modelled: the codec's aggregate frames, configuration, the origin check,
-- token validation (a third-party library), the pumps between the queues and the sockets, HTTP
-- routing, the snapshot of the metrics, the server's and the load test's main.
pub mod Prelude
pub mod Permission
pub mod Connection
pub mod Envelope
pub mod Transport
pub mod Security
pub mod Session
pub mod Lock
pub mod Codec
pub mod Observability
pub mod Interest
pub mod Room
pub mod HistoryPreviews
pub mod ClientFrame
pub mod Control
pub mod Tests
