-- ===== src/ClientFrame/Admission.antt =====
-- internal/transport/client_frames.go: the guards of a frame, in their order.
use my_pol_go_backend.Prelude.{ℕ, String, Option, none, some, if◌then◌else◌}
use my_pol_go_backend.Prelude.Dict.{lookup}
use my_pol_go_backend.Envelope.{Envelope, classify_event, may_publish}
use my_pol_go_backend.Security.RateLimiter.{RateLimits, allow_class}
use my_pol_go_backend.Codec.Wire.{Bytes}
use my_pol_go_backend.Room.{Peer}
use my_pol_go_backend.ClientFrame.{FrameLibrary, Backend, count_frame, parse_frame, touch_session}
use my_pol_go_backend.ClientFrame.Dispatch.{dispatch}

module _ (lib : FrameLibrary) where
  abbrev pub publish_allowed : Option Peer → Envelope → ℕ → Backend → Backend
  publish_allowed none e now b = b
  publish_allowed (some p) e now b =
      if may_publish p.connection.permission e.event then dispatch lib p.connection e now b else b

  abbrev pub limited : String → Envelope → ℕ → RateLimits → Backend → RateLimits × Backend
  limited h e now limits b =
      let (allowed, limits') = allow_class (classify_event e.event) now limits in
      (limits', if allowed then publish_allowed (lookup h b.rooms.peers) e now b else b)

  abbrev pub parsed : String → ℕ → RateLimits → Option Envelope × Backend → RateLimits × Backend
  parsed h now limits (none, b) = (limits, b)
  parsed h now limits (some e, b) =
      limited h e now limits (touch_session h now (lookup h b.rooms.peers) b)

  -- `handleClientFrame`; the rate limits are the connection's own.
  unfoldable pub handle_client_frame :
      String → ℕ → RateLimits → Bytes → Backend → RateLimits × Backend
  unfolding count_frame parse_frame touch_session allow_class may_publish dispatch
  handle_client_frame h now limits frame b =
      if b.draining
      then (limits, b)
      else parsed h now limits (parse_frame lib h frame (count_frame frame b))
