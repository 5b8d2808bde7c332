-- ===== src/ClientFrame.antt =====
-- internal/transport/client_frames.go and the handlers that internal/transport/webtransport_handler.go
-- gives it: one inbound client message, from its bytes to what it changes. The backend is all the state
-- that a frame reaches; `h` is the id of the connection that sent it. Logging is left out.
-- Package json and the token validator are arguments: `none` is a text that does not decode, a token
-- that is refused, or a value that does not encode.
pub mod Dispatch
pub mod Admission
pub mod Privacy
pub mod Containment
use my_pol_go_backend.Prelude.{
  ℕ, ◌+◌, ◌/◌, String, Bool, true, false, not, ◌&&◌, ◌||◌, Option, none, some, ◌==◌, if◌then◌else◌,
  get_or,
}
use my_pol_go_backend.Prelude.Lists.{length}
use my_pol_go_backend.Prelude.Int.{ℤ, pos, leb_ℤ}
use my_pol_go_backend.Prelude.Dict.{Dict, lookup}
use my_pol_go_backend.Permission.{Permission}
use my_pol_go_backend.Connection.{Connection}
use my_pol_go_backend.Envelope.{Envelope, envelope_version, classify_event, may_publish}
use my_pol_go_backend.Transport.Queues.{should_touch}
use my_pol_go_backend.Security.RateLimiter.{RateLimits, allow_class}
use my_pol_go_backend.Session.{CanvasSession, touch}
use my_pol_go_backend.Session.Service.{SessionService, CanvasClaims, Outcome, ok, err}
use my_pol_go_backend.Lock.Handler.{Arbiter, BlockLockRequest}
use my_pol_go_backend.HistoryPreviews.{HistoryPreviewPermit, PreviewLibrary}
use my_pol_go_backend.Interest.Service.{InterestUpdatePayload}
use my_pol_go_backend.Observability.{Metrics}
use my_pol_go_backend.Codec.Wire.{Bytes, is_binary_frame}
use my_pol_go_backend.Room.{Peer, enable_binary_frames}
use my_pol_go_backend.Room.Service.{RoomLibrary, RoomService, write_peer}

-- The payload of a reply to the sender.
pub data Reply : Type 0 where
  heartbeat_ack : (server_time : ℕ) → Reply
  auth_rejected : (reason : String) → Reply
  auth_refreshed : (session_id : String) → Permission → (expires_at : ℕ) → Reply

pub record FrameLibrary : Type 0 where
  pub rooms : RoomLibrary
  pub previews : PreviewLibrary
  -- `codec.DecodeClientFrame`, with its own arguments given
  pub decode_binary : Bytes → Option Envelope
  pub decode_envelope : Bytes → Option Envelope
  pub decode_lock : String → BlockLockRequest × Bool
  pub transform_subject : String → String
  pub decode_interest : String → Option InterestUpdatePayload
  pub decode_capability : String → Option ℤ
  pub decode_token : String → Option String
  pub validate : String → ℕ → Option CanvasClaims
  pub marshal_reply : Reply → Option String

-- `draining` is the health's flag, which admission reads.
pub record Backend : Type 0 where
  pub draining : Bool
  pub rooms : RoomService
  pub sessions : SessionService
  pub arbiter : Arbiter
  pub permits : Dict HistoryPreviewPermit

-- A second, in nanoseconds.
abbrev pub session_touch_interval : ℕ
session_touch_interval = 1_000_000_000

abbrev pub with_rooms : RoomService → Backend → Backend
with_rooms rooms b = record b { rooms = rooms }

abbrev pub with_metrics : Metrics → Backend → Backend
with_metrics m b = with_rooms (record b.rooms { metrics = m }) b

unfoldable pub count_frame : Bytes → Backend → Backend
count_frame frame b =
    with_metrics
      (record b.rooms.metrics {
        messages_in = b.rooms.metrics.messages_in + 1;
        incoming_bytes = b.rooms.metrics.incoming_bytes + length frame;
      })
      b

abbrev named_envelope : Option Envelope → Option Envelope
named_envelope none = none
named_envelope (some e) = if e.event == "" then none else some e

abbrev proved_binary : String → Option Envelope → Backend → Backend
proved_binary h none b = b
proved_binary h (some e) b = with_rooms (write_peer h enable_binary_frames b.rooms) b

-- The touch of a live connection, at most one in an interval; an unknown session is ignored.
abbrev touched : Bool → Connection → ℕ → Backend → Backend
touched false c now b = b
touched true c now b = record b {
  sessions = record b.sessions { sessions = (touch c.session_id now b.sessions.sessions).1 };
}

unfoldable pub touch_session : String → ℕ → Option Peer → Backend → Backend
unfolding write_peer should_touch touch
touch_session h now none b = b
touch_session h now (some p) b =
    let (due, q) = should_touch now session_touch_interval p.queues in
    touched due p.connection now
      (with_rooms (write_peer h (λ x. record x { queues = q }) b.rooms) b)

module _ (lib : FrameLibrary) where
  -- The message of a frame, if it has one, and the proof of binary support that it gives.
  unfoldable pub parse_frame : String → Bytes → Backend → Option Envelope × Backend
  unfolding is_binary_frame
  parse_frame h frame b =
      if is_binary_frame frame
      then (lib.decode_binary frame, proved_binary h (lib.decode_binary frame) b)
      else (named_envelope (lib.decode_envelope frame), b)
