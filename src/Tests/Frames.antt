-- ===== src/Tests/Frames.antt =====
-- internal/transport: client frames, history previews and control calls, at concrete inputs.
use my_pol_go_backend.Prelude.{ℕ, true, false, none, some, [], ◌∷◌, ◌≡◌, refl, arith}
use my_pol_go_backend.Prelude.Lists.{elem}
use my_pol_go_backend.Prelude.Dict.{lookup, insert, delete, delete_where, modify}
use my_pol_go_backend.Permission.{can_draw}
use my_pol_go_backend.Envelope.{
  Envelope, classify_event, has_prefix_of, may_publish, may_publish_class,
}
use my_pol_go_backend.Security.RateLimiter.{RateLimits, new_rate_limits}
use my_pol_go_backend.Security.Hmac.{new_hmac_validator, configured}
use my_pol_go_backend.Session.Tickets.{ConnectionTicket, Redemption, is_expired, consume}
use my_pol_go_backend.Session.Service.{SessionService, consume_ticket, update_session_permission}
use my_pol_go_backend.Transport.Queues.{new_outbound_queues}
use my_pol_go_backend.Observability.{new_metrics}
use my_pol_go_backend.HistoryPreviews.{
  HistoryPreviewPermit, PreviewLibrary, register, revoke, resolve, delete_expired, is_invalid,
}
use my_pol_go_backend.HistoryPreviews.Permits.{register_keeps_live, resolve-revoke}
use my_pol_go_backend.Codec.Wire.{is_binary_frame}
use my_pol_go_backend.Room.{Peer, new_peer}
use my_pol_go_backend.Room.Service.{RoomService}
use my_pol_go_backend.ClientFrame.{FrameLibrary, Backend, count_frame, parse_frame}
use my_pol_go_backend.ClientFrame.Dispatch.{dispatch}
use my_pol_go_backend.ClientFrame.Admission.{handle_client_frame}
use my_pol_go_backend.ClientFrame.Privacy.{queues_at, dispatch_private}
use my_pol_go_backend.ClientFrame.Containment.{SameBut, handle_refused}
use my_pol_go_backend.Control.{
  ControlPlane, ControlLibrary, revoke_session_call, authenticate_internal, control,
}
use my_pol_go_backend.Control.Rejection.{Untouched, control_rejected}
use my_pol_go_backend.Control.Demotion.{consume_ticket-update_session_permission}

-- What a run of the handlers computes with.
frame_runs : ℕ
unfolding elem is_expired lookup insert delete delete_where modify can_draw classify_event
    has_prefix_of may_publish may_publish_class new_rate_limits new_hmac_validator configured
    consume consume_ticket new_outbound_queues register revoke resolve delete_expired is_invalid
    is_binary_frame new_peer count_frame parse_frame authenticate_internal control
frame_runs = 0

abbrev ticket : ConnectionTicket
ticket = record {
  value = "tk";
  session_id = "s1";
  user_id = "u1";
  note_id = "n1";
  permission = "view";
  expires_at = 100;
  created_at = 0;
}

abbrev viewer : Peer
viewer = new_peer "c1" ticket 4 2 0

abbrev other : Peer
other = new_peer "c2" ticket 4 2 0

abbrev rooms : RoomService
rooms = record {
  rooms = ("n1", ("c1", "c1") ∷ ("c2", "c2") ∷ []) ∷ [];
  peers = ("c1", viewer) ∷ ("c2", other) ∷ [];
  interest = none;
  metrics = new_metrics;
  max_webrtc_peers = 6;
  delta_seq = 0;
  draining = false;
  minted = 0;
}

abbrev sessions : SessionService
sessions = record { sessions = []; tickets = ("tk", ticket) ∷ []; ticket_ttl = 30 }

abbrev permit : HistoryPreviewPermit
permit = record { id = "x"; note_id = "n1"; user_id = "u1"; expires_at = 20; payload = "{}" }

abbrev backend : Backend
backend = record {
  draining = false;
  rooms = rooms;
  sessions = sessions;
  arbiter = record {
    locks = none;
    settings = record { lease = 5_000_000_000; max_per_session = 2 };
    draining = false;
    denied_count = 0;
    active = 0;
    sent = [];
  };
  permits = ("x", permit) ∷ [];
}

abbrev previews : PreviewLibrary
previews = record {
  text_length = λ text. 2;
  valid = λ text. true;
  decode = λ raw. some (record { permit_id = "x"; request_id = "r"; ordinal = 1; redo = false });
  encode = λ answer. some answer.preview;
}

abbrev points : Envelope
points = record {
  v = 2;
  message_id = "";
  session_id = "";
  channel = "";
  event = "ink.points";
  actor_id = none;
  origin = none;
  seq = none;
  sent_at = 0;
  payload = "{}";
}

abbrev lib : FrameLibrary
lib = record {
  rooms = record {
    new_id = λ n. "m";
    marshal = λ p. some "{}";
    location = λ payload. none;
    target = λ payload. some payload;
    subject = λ payload. none;
    format_uint = λ n. "1";
  };
  previews = previews;
  decode_binary = λ frame. none;
  decode_envelope = λ frame. some points;
  decode_lock = λ payload. (record { block_id = ""; lock_id = "" }, true);
  transform_subject = λ payload. "";
  decode_interest = λ payload. none;
  decode_capability = λ payload. none;
  decode_token = λ payload. some "token";
  validate = λ token now. none;
  marshal_reply = λ reply. some "{}";
}

abbrev limits : RateLimits
limits =
    new_rate_limits
      (record {
        ephemeral_per_second = 1;
        ephemeral_burst = 60_000_000_000;
        reliable_per_second = 1;
        reliable_burst = 60_000_000_000;
        signaling_per_second = 1;
        signaling_burst = 60_000_000_000;
      })
      0

-- A viewer may not draw.
handle_refused_example :
    SameBut "c1" backend (handle_client_frame lib "c1" 5 limits (123 ∷ 125 ∷ []) backend).1
unfolding frame_runs
handle_refused_example =
    handle_refused lib "c1" viewer.connection points 5 limits (123 ∷ 125 ∷ []) backend refl refl
      refl

dispatch_private_example :
    queues_at "c2"
      (dispatch lib viewer.connection (record points { event = "auth.refresh" }) 5 backend).rooms
    ≡ some other.queues
unfolding frame_runs
dispatch_private_example =
    dispatch_private lib viewer.connection (record points { event = "auth.refresh" }) 5 "c2" backend
      refl refl

register_keeps_live_example :
    lookup "x" (register previews (record permit { user_id = "u2" }) 5 backend.permits).1
    ≡ some permit
unfolding frame_runs
register_keeps_live_example =
    register_keeps_live previews (record permit { user_id = "u2" }) "x" permit 5 backend.permits
      (record { distinct = (refl, tt); bounded = omega arith }) refl (omega arith)

resolve-revoke_example :
    resolve previews
      (record viewer.connection { permission = "edit" })
      "{}"
      5
      (revoke "n1" "" backend.permits)
    ≡ none
unfolding frame_runs
resolve-revoke_example =
    resolve-revoke previews "n1" "" "{}" (record viewer.connection { permission = "edit" }) 5
      backend.permits (record { distinct = (refl, tt); bounded = omega arith }) refl refl

-- Without the revocation the permit is used.
resolved :
    resolve previews (record viewer.connection { permission = "edit" }) "{}" 5 backend.permits
    ≡ some "{}"
unfolding frame_runs
resolved = refl

abbrev control_plane : ControlPlane
control_plane = record {
  hmac =
      new_hmac_validator (record { key_id = ""; secret = "" }) (record { key_id = ""; secret = "" })
        5;
  sessions = sessions;
  rooms = rooms;
  permits = [];
}

abbrev control_lib : ControlLibrary
control_lib = record {
  signing = record {
    hash_body = λ body. body;
    sign = λ secret canonical. canonical;
    to_upper = λ text. text;
    format_int = λ n. "0";
    parse_int = λ text. none;
  };
  previews = previews;
  decode_session = λ body. some body;
  decode_update = λ body. none;
  decode_permit = λ body. none;
}

-- A control plane without a key refuses every call.
control_rejected_example :
    Untouched control_plane (control control_lib revoke_session_call none 5 control_plane).1
unfolding frame_runs
control_rejected_example =
    control_rejected control_lib revoke_session_call none 5 control_plane refl

-- A ticket of an editor, who is then demoted.
abbrev drawing : ConnectionTicket
drawing = record ticket { permission = "edit" }

abbrev drawing_sessions : SessionService
drawing_sessions = record sessions { tickets = ("tk", drawing) ∷ [] }

consume_ticket-update_session_permission_example :
    ((consume_ticket "tk" 5 (update_session_permission "s1" "view" drawing_sessions).1).0
      ≡ Redemption.redeemed drawing)
    × ((new_peer "c9" drawing 4 2 5).connection.permission ≡ "edit")
unfolding frame_runs
consume_ticket-update_session_permission_example =
    consume_ticket-update_session_permission "s1" "tk" "c9" "view" 5 4 2 drawing drawing_sessions
      refl
