-- ===== src/Room/Service.antt =====
-- internal/application/room_service.go: membership, presence and the relay. The store, the connections'
-- objects and the counters are one state; a method that calls another goroutine's code does so in steps
-- of its own, so each function here is a run of one method with nothing between.
-- Package json, strconv and the source of ids are arguments.
use Prim.Native.String.{◌++◌ as ◌<>◌}
use my_pol_go_backend.Prelude.{
  ℕ, ◌+◌, ◌/◌, String, Bool, false, not, ◌&&◌, ◌||◌, Option, none, some, List, [], ◌∷◌, ◌==◌, ltb,
  if◌then◌else◌, get_or,
}
use my_pol_go_backend.Prelude.Lists.{length}
use my_pol_go_backend.Prelude.Dict.{Dict, lookup, insert, modify}
use my_pol_go_backend.Prelude.Table.{Table}
use my_pol_go_backend.Permission.{Permission}
use my_pol_go_backend.Connection.{Connection}
use my_pol_go_backend.Envelope.{Envelope, envelope_version}
use my_pol_go_backend.Transport.Queues.{pending_reliable, pending_ephemeral}
use my_pol_go_backend.Interest.{EventLocation, LocationPayload}
use my_pol_go_backend.Interest.Index.{MemoryInterestIndex}
use my_pol_go_backend.Interest.Service.{is_interested, does_allow_preview}
use my_pol_go_backend.Observability.{Metrics, observe_queue_depth}
use my_pol_go_backend.Lock.Handler.{Payload}
use my_pol_go_backend.Room.{
  Peer, Member, member_of, set_permission, send_reliable, close, join_room, leave_room, peers_of,
  members, connections_for_session, connections_for_user_on_note, all_connections,
}

-- The payloads that the server makes.
pub data RoomPayload : Type 0 where
  room_members : (you : String) → List Member → RoomPayload
  presence_joined : Member → RoomPayload
  presence_left : (connection_id user_id session_id : String) → RoomPayload
  retry_after : ℕ → RoomPayload
  lock_answer : Payload → RoomPayload

-- The fields that name what a frame is about.
pub record Subject : Type 0 where
  pub stroke_id : String
  pub block_id : String
  pub page_id : String

-- `none` is a text that does not decode, or a value that does not encode.
pub record RoomLibrary : Type 0 where
  pub new_id : ℕ → String
  pub marshal : RoomPayload → Option String
  pub location : String → Option LocationPayload
  pub target : String → Option String
  pub subject : String → Option Subject
  pub format_uint : ℕ → String

-- `minted` counts the ids made.
pub record RoomService : Type 0 where
  pub rooms : Table String
  pub peers : Dict Peer
  pub interest : Option MemoryInterestIndex
  pub metrics : Metrics
  pub max_webrtc_peers : ℕ
  pub delta_seq : ℕ
  pub draining : Bool
  pub minted : ℕ

unfoldable pub set_max_webrtc_peers : ℕ → RoomService → RoomService
set_max_webrtc_peers limit s = if ltb 0 limit then record s { max_webrtc_peers = limit } else s

-- A write to one connection's object, if it is there.
unfoldable pub write_peer : String → (Peer → Peer) → RoomService → RoomService
unfolding modify
write_peer h f s = record s { peers = modify h f s.peers }

-- The counters that a send writes: an overflow, and the depths after it.
unfoldable pub observe_send : Bool → Peer → Metrics → Metrics
unfolding observe_queue_depth
observe_send full p m =
    observe_queue_depth (pending_reliable p.queues) (pending_ephemeral p.queues)
      (if full then record m { reliable_overflow = m.reliable_overflow + 1 } else m)

unfoldable pub is_refused : Envelope → Option Peer → Bool
unfolding send_reliable
is_refused e none = false
is_refused e (some p) = (send_reliable e p).0

abbrev metrics_of_send : Envelope → Option Peer → Metrics → Metrics
metrics_of_send e none m = m
metrics_of_send e (some p) m = observe_send (send_reliable e p).0 (send_reliable e p).1 m

-- `SendReliable` to one connection; `true` is its error.
unfoldable pub send_to : Envelope → String → RoomService → Bool × RoomService
unfolding is_refused send_reliable observe_send write_peer
send_to e h s = (
  is_refused e (lookup h s.peers),
  record (write_peer h (λ p. (send_reliable e p).1) s) {
    metrics = metrics_of_send e (lookup h s.peers) s.metrics;
  },
)

unfoldable pub close_connection : String → String → RoomService → RoomService
unfolding write_peer close
close_connection reason h s = write_peer h (close reason) s

-- A full queue closes the connection.
unfoldable pub send_or_close : String → Envelope → String → RoomService → RoomService
unfolding send_to close_connection
send_or_close reason e h s =
    let (full, s') = send_to e h s in if full then close_connection reason h s' else s'

-- `for _, peer := range peers { if err := peer.SendReliable(envelope) ... }`
unfoldable pub send_to_all : String → Envelope → List String → RoomService → RoomService
unfolding send_or_close
send_to_all reason e [] s = s
send_to_all reason e (h ∷ hs) s = send_to_all reason e hs (send_or_close reason e h s)

unfoldable pub close_connections : String → List String → RoomService → RoomService
unfolding close_connection
close_connections reason [] s = s
close_connections reason (h ∷ hs) s = close_connections reason hs (close_connection reason h s)

unfoldable pub disconnect_session : String → String → RoomService → ℕ × RoomService
unfolding close_connections
disconnect_session session_id reason s =
    let hs = connections_for_session session_id s.rooms s.peers in
    (length hs, close_connections reason hs s)

unfoldable pub disconnect_user_from_note : String → String → String → RoomService → ℕ × RoomService
unfolding close_connections
disconnect_user_from_note note_id user_id reason s =
    let hs = connections_for_user_on_note note_id user_id s.rooms s.peers in
    (length hs, close_connections reason hs s)

unfoldable pub set_permissions : Permission → List String → RoomService → RoomService
unfolding write_peer set_permission
set_permissions permission [] s = s
set_permissions permission (h ∷ hs) s =
    set_permissions permission hs (write_peer h (set_permission permission) s)

unfoldable pub apply_permission : String → Permission → RoomService → ℕ × RoomService
unfolding set_permissions
apply_permission session_id permission s =
    let hs = connections_for_session session_id s.rooms s.peers in
    (length hs, set_permissions permission hs s)

unfoldable pub close_all : String → RoomService → ℕ × RoomService
unfolding close_connections
close_all reason s = let hs = all_connections s.rooms in (length hs, close_connections reason hs s)

unfoldable pub is_live_ink : String → Bool
is_live_ink event = event == "ink.started" || event == "ink.points"

-- Whether a connection is sent an ephemeral frame.
unfoldable pub is_recipient : String → EventLocation → String → RoomService → Bool
unfolding is_live_ink is_interested does_allow_preview
is_recipient event location h s =
    (is_live_ink event || is_interested h location s.interest)
    && does_allow_preview h event s.interest

pub data SignalingRejection : Type 0 where
  no_target target_absent self_target room_too_large : SignalingRejection

abbrev pub subject_text : Option Subject → String
subject_text none = ""
subject_text (some f) =
    if not (f.stroke_id == "")
    then f.stroke_id
    else if not (f.block_id == "")
    then f.block_id
    else f.page_id

module _ (lib : RoomLibrary) where
  unfoldable pub envelope : String → String → RoomPayload → ℕ → RoomService → Envelope × RoomService
  envelope note_id event payload now s = (
    record {
      v = envelope_version;
      message_id = lib.new_id s.minted;
      session_id = "";
      channel = "note:" <> note_id;
      event = event;
      actor_id = none;
      origin = none;
      seq = none;
      sent_at = now / 1000000;
      payload = get_or "null" (lib.marshal payload);
    },
    record s { minted = s.minted + 1 },
  )

  unfoldable pub broadcast_reliable :
      String → String → String → RoomPayload → ℕ → RoomService → RoomService
  unfolding envelope send_to_all
  broadcast_reliable note_id except event payload now s =
      let (e, s') = envelope note_id event payload now s in
      send_to_all "reliable queue overflow" e (peers_of note_id except s'.rooms) s'

  -- `Announce`
  unfoldable pub announce_to :
      String → String → String → RoomPayload → ℕ → RoomService → RoomService
  unfolding broadcast_reliable
  announce_to note_id except event payload now s =
      if s.draining then s else broadcast_reliable note_id except event payload now s

  -- `Notify`
  unfoldable pub notify_one : Connection → String → RoomPayload → ℕ → RoomService → RoomService
  unfolding envelope send_or_close
  notify_one c event payload now s =
      let (e, s') = envelope c.note_id event payload now s in
      send_or_close "reliable queue overflow" e c.id s'

  unfoldable pub members_of : List String → Dict Peer → List Member
  members_of [] peers = []
  members_of (h ∷ hs) peers =
      let rest = members_of hs peers in
      elim (lookup h peers) [ none ↦ rest | some p ↦ member_of p.connection ∷ rest ]

  -- The roster to the newcomer, then the news to the others. An error of the first send is ignored.
  unfoldable pub admit : Connection → ℕ → RoomService → RoomService
  unfolding envelope send_to broadcast_reliable members_of
  admit c now s =
      let s1 : RoomService = record s { rooms = (join_room c s.rooms).1 } in
      let roster = members_of (members c.note_id s1.rooms) s1.peers in
      let (e, s2) = envelope c.note_id "room.members" (room_members c.id roster) now s1 in
      let s3 = (send_to e c.id s2).1 in
      broadcast_reliable c.note_id c.id "presence.joined" (presence_joined (member_of c)) now s3

  -- The new object is on the heap with the call; a drain closes it.
  unfoldable pub join : Peer → ℕ → RoomService → RoomService
  unfolding admit close_connection
  join p now s =
      let s' : RoomService = record s { peers = insert p.connection.id p s.peers } in
      if s.draining
      then close_connection "server draining" p.connection.id s'
      else admit p.connection now s'

  unfoldable pub leave : Connection → ℕ → RoomService → RoomService
  unfolding broadcast_reliable
  leave c now s =
      let s' : RoomService = record s { rooms = (leave_room c s.rooms).1 } in
      if s.draining
      then s'
      else broadcast_reliable c.note_id c.id "presence.left"
          (presence_left c.id c.user_id c.session_id) now s'
