-- ===== src/ClientFrame/Dispatch.antt =====
-- internal/transport/client_frames.go and internal/transport/webtransport_handler.go: what a frame that
-- was admitted does. Events for the server are consumed; the rest is stamped and relayed.
use Prim.Native.String.{◌++◌ as ◌<>◌}
use my_pol_go_backend.Prelude.{
  ℕ, ◌+◌, ◌/◌, String, Bool, not, Option, none, some, [], ◌==◌, if◌then◌else◌,
}
use my_pol_go_backend.Prelude.Int.{ℤ, pos, leb_ℤ}
use my_pol_go_backend.Connection.{Connection}
use my_pol_go_backend.Envelope.{Envelope, envelope_version, stamp}
use my_pol_go_backend.Session.{CanvasSession}
use my_pol_go_backend.Session.Service.{Outcome, ok, err, refresh_session}
use my_pol_go_backend.Lock.Handler.{Arbiter, block_lock_handler, transform_guard}
use my_pol_go_backend.HistoryPreviews.{resolve}
use my_pol_go_backend.Interest.Service.{update_interest}
use my_pol_go_backend.Room.{enable_binary_aggregates}
use my_pol_go_backend.Room.Service.{RoomService, write_peer, send_to, apply_permission}
use my_pol_go_backend.Room.Relay.{relay, deliver_all}
use my_pol_go_backend.ClientFrame.{
  Reply, heartbeat_ack, auth_rejected, auth_refreshed, FrameLibrary, Backend, with_rooms,
}

module _ (lib : FrameLibrary) where
  unfoldable pub reply_envelope : Connection → String → String → ℕ → ℕ → Envelope
  reply_envelope c event payload now minted = record {
    v = envelope_version;
    message_id = lib.rooms.new_id minted;
    session_id = c.session_id;
    channel = "note:" <> c.note_id;
    event = event;
    actor_id = none;
    origin = none;
    seq = none;
    sent_at = now / 1000000;
    payload = payload;
  }

  abbrev pub send_reply : Connection → String → Option String → ℕ → ℕ → RoomService → RoomService
  send_reply c event none now minted s = s
  send_reply c event (some payload) now minted s =
      (send_to (reply_envelope c event payload now minted) c.id s).1

  -- The id is minted before the payload is encoded; an error of the send is ignored.
  unfoldable pub reply : Connection → String → Reply → ℕ → RoomService → RoomService
  unfolding reply_envelope send_to
  reply c event payload now s =
      send_reply c event (lib.marshal_reply payload) now s.minted
        (record s { minted = s.minted + 1 })

  abbrev pub reject_refresh : Connection → String → ℕ → Backend → Backend
  reject_refresh c reason now b =
      let counted : RoomService = record b.rooms {
        metrics = record b.rooms.metrics {
          auth_refresh_rejected = b.rooms.metrics.auth_refresh_rejected + 1;
        };
      } in
      with_rooms (reply c "auth.rejected" (auth_rejected reason) now counted) b

  abbrev pub accept_refresh : Connection → CanvasSession → ℕ → RoomService → RoomService
  accept_refresh c session now s =
      let applied =
        if not (session.permission == c.permission)
        then (apply_permission session.id session.permission s).1
        else s in
      reply c "auth.refreshed"
        (auth_refreshed session.id session.permission (session.expires_at / 1000000)) now
        (record applied {
          metrics = record applied.metrics {
            auth_refresh_accepted = applied.metrics.auth_refresh_accepted + 1;
          };
        })

  abbrev pub refresh_answer : Connection → Outcome CanvasSession → ℕ → Backend → Backend
  refresh_answer c (err e) now b = reject_refresh c "rejected" now b
  refresh_answer c (ok session) now b = with_rooms (accept_refresh c session now b.rooms) b

  abbrev pub refresh_with : Connection → Option String → ℕ → Backend → Backend
  refresh_with c none now b = reject_refresh c "missing-token" now b
  refresh_with c (some token) now b =
      if token == ""
      then reject_refresh c "missing-token" now b
      else (let (outcome, d) =
            refresh_session c.session_id (lib.validate token now) now b.sessions.sessions in
          refresh_answer c outcome now (record b { sessions = record b.sessions { sessions = d } }))

  -- `newAuthRefreshHandler`
  unfoldable pub auth_refresh : Connection → String → ℕ → Backend → Backend
  unfolding reply refresh_session apply_permission
  auth_refresh c payload now b = refresh_with c (lib.decode_token payload) now b

  abbrev pub with_capability : String → Option ℤ → Backend → Backend
  with_capability h none b = b
  with_capability h (some v) b =
      if leb_ℤ (pos 1) v then with_rooms (write_peer h enable_binary_aggregates b.rooms) b else b

  unfoldable pub protocol_capabilities : String → String → Backend → Backend
  unfolding write_peer enable_binary_aggregates
  protocol_capabilities h payload b = with_capability h (lib.decode_capability payload) b

  -- `newInterestUpdateHandler`: it counts a report also where there is no index.
  unfoldable pub interest_update : Connection → String → Backend → Backend
  unfolding update_interest
  interest_update c payload b =
      with_rooms
        (record b.rooms {
          interest = update_interest c (lib.decode_interest payload) b.rooms.interest;
          metrics = record b.rooms.metrics {
            interest_updates_total = b.rooms.metrics.interest_updates_total + 1;
          };
        })
        b

  -- The lock handler works on its own state, with an empty list of messages; the room service then sends
  -- them.
  abbrev pub ready : Backend → Arbiter
  ready b = record b.arbiter { draining = b.rooms.draining; sent = [] }

  unfoldable pub settle : Arbiter → ℕ → Backend → Backend
  unfolding deliver_all
  settle a now b = record b { arbiter = a; rooms = deliver_all lib.rooms a.sent now b.rooms }

  -- Identity and channel are the connection's.
  unfoldable pub stamped : Connection → Envelope → ℕ → ℕ → Envelope
  unfolding stamp
  stamped c e now minted =
      let s = stamp c.session_id c.id c.user_id (now / 1000000) e in
      record s {
        channel = "note:" <> c.note_id;
        message_id = if s.message_id == "" then lib.rooms.new_id minted else s.message_id;
      }

  unfoldable pub stamp_and_relay : Connection → Envelope → ℕ → Backend → Backend
  unfolding stamped relay
  stamp_and_relay c e now b =
      let minted = if e.message_id == "" then b.rooms.minted + 1 else b.rooms.minted in
      with_rooms
        (relay lib.rooms c (stamped c e now b.rooms.minted) (record b.rooms { minted = minted })) b

  abbrev pub relay_preview : Connection → Envelope → Option String → ℕ → Backend → Backend
  relay_preview c e none now b = b
  relay_preview c e (some payload) now b = stamp_and_relay c (record e { payload = payload }) now b

  -- A history preview goes out with the permit's payload, or not at all.
  unfoldable pub publish : Connection → Envelope → ℕ → Backend → Backend
  unfolding stamp_and_relay resolve
  publish c e now b =
      if e.event == "history.preview"
      then relay_preview c e (resolve lib.previews c e.payload now b.permits) now b
      else stamp_and_relay c e now b

  abbrev pub guarded : Connection → Envelope → ℕ → Bool × Arbiter → Backend → Backend
  guarded c e now (passes, a) b =
      if passes then publish c e now (settle a now b) else settle a now b

  abbrev pub locked : Connection → Envelope → ℕ → Bool × Arbiter → Backend → Backend
  locked c e now (consumed, a) b =
      let settled = settle a now b in
      if consumed
      then settled
      else guarded c e now
          (transform_guard lib.transform_subject c e.event e.payload now (ready settled)) settled

  -- What follows admission.
  unfoldable pub dispatch : Connection → Envelope → ℕ → Backend → Backend
  unfolding reply auth_refresh protocol_capabilities interest_update block_lock_handler
      transform_guard settle publish
  dispatch c e now b =
      if e.event == "heartbeat"
      then with_rooms (reply c "heartbeat.ack" (heartbeat_ack (now / 1000000)) now b.rooms) b
      else if e.event == "auth.refresh"
      then auth_refresh c e.payload now b
      else if e.event == "protocol.capabilities"
      then protocol_capabilities c.id e.payload b
      else if e.event == "interest.update"
      then interest_update c e.payload b
      else locked c e now (block_lock_handler lib.decode_lock c e.event e.payload now (ready b)) b
