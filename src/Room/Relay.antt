-- ===== src/Room/Relay.antt =====
-- internal/application/room_service.go: the fan-out of a client's frame, and signalling to one peer.
use Prim.Native.String.{◌++◌ as ◌<>◌}
use my_pol_go_backend.Prelude.{
  ℕ, ◌+◌, ◌-◌, ◌%◌, ◌^◌, String, Option, none, some, List, [], ◌∷◌, ◌==◌, ltb, if◌then◌else◌,
  get_or,
}
use my_pol_go_backend.Prelude.Lists.{length}
use my_pol_go_backend.Prelude.Dict.{lookup}
use my_pol_go_backend.Connection.{Connection}
use my_pol_go_backend.Envelope.{
  Envelope, EventClass, ephemeral, reliable, signaling, durable, classify_event,
}
use my_pol_go_backend.Transport.Queues.{pending_reliable, pending_ephemeral}
use my_pol_go_backend.Interest.{EventLocation, location_of}
use my_pol_go_backend.Observability.{Metrics, observe_queue_depth}
use my_pol_go_backend.Lock.Handler.{Payload, Message, notify, announce}
use my_pol_go_backend.Room.{Peer, send_ephemeral, peers_of, connection_by_id, room_size}
use my_pol_go_backend.Room.Service.{
  RoomLibrary, RoomService, subject_text, SignalingRejection, no_target, target_absent, self_target,
  room_too_large, lock_answer, write_peer, send_to, send_to_all, close_connection, is_recipient,
  announce_to, notify_one,
}

-- The counters of a shed frame, and the depths after it.
unfoldable pub observe_shed : Peer → Peer → Metrics → Metrics
unfolding observe_queue_depth
observe_shed before after m =
    observe_queue_depth (pending_reliable after.queues) (pending_ephemeral after.queues) (record m {
      dropped_ephemeral = m.dropped_ephemeral + (after.queues.dropped - before.queues.dropped);
      dropped_ink = m.dropped_ink + (after.queues.dropped_ink - before.queues.dropped_ink);
    })

abbrev metrics_of_shed : Envelope → String → Option Peer → Metrics → Metrics
metrics_of_shed e key none m = m
metrics_of_shed e key (some p) m = observe_shed p (send_ephemeral e key p) m

-- `SendEphemeral` to one connection.
unfoldable pub send_ephemeral_to : Envelope → String → String → RoomService → RoomService
unfolding write_peer send_ephemeral observe_shed
send_ephemeral_to e key h s = record (write_peer h (send_ephemeral e key) s) {
  metrics = metrics_of_shed e key (lookup h s.peers) s.metrics;
}

unfoldable pub signaling_target : Option String → String
signaling_target target = get_or "" target

-- The end of a relay to one peer: the peer that was looked up, and its send.
unfoldable pub send_signal :
    Envelope → Option String → RoomService → Option SignalingRejection × RoomService
unfolding send_to close_connection
send_signal e none s = (some target_absent, s)
send_signal e (some h) s =
    let (full, s') = send_to e h s in
    if full
    then (some target_absent, close_connection "reliable queue overflow" h s')
    else (none, s')

module _ (lib : RoomLibrary) where
  unfoldable pub subject_id : String → String
  subject_id payload = subject_text (lib.subject payload)

  -- The key, and the counter of deltas (a uint64) after it.
  unfoldable pub coalesce_key : String → Envelope → ℕ → String × ℕ
  unfolding subject_id
  coalesce_key connection_id e delta_seq =
      let key = connection_id <> "|" <> e.event <> "|" <> subject_id e.payload in
      let next = (delta_seq + 1) % 2 ^ 64 in
      if e.event == "ink.points"
      then (key <> "|" <> lib.format_uint next, next)
      else (key, delta_seq)

  unfoldable pub send_keyed : String → Envelope → String → RoomService → RoomService
  unfolding coalesce_key send_ephemeral_to
  send_keyed sender_id e h s =
      let (key, next) = coalesce_key sender_id e s.delta_seq in
      send_ephemeral_to e key h (record s { delta_seq = next })

  -- The loop over the peers, for an ephemeral frame: how many were sent it.
  unfoldable pub fan_out :
      String → Envelope → EventLocation → List String → RoomService → ℕ × RoomService
  unfolding is_recipient send_keyed
  fan_out sender_id e location [] s = (0, s)
  fan_out sender_id e location (h ∷ hs) s =
      let chosen = is_recipient e.event location h s in
      let (n, s') =
        fan_out sender_id e location hs (if chosen then send_keyed sender_id e h s else s) in
      (if chosen then n + 1 else n, s')

  unfoldable pub observe_interest : ℕ → ℕ → Metrics → Metrics
  observe_interest sent peers m = record m {
    interest_recipients_total = m.interest_recipients_total + sent;
    interest_events_total = m.interest_events_total + 1;
    interest_filtered_total = m.interest_filtered_total + (peers - sent);
  }

  unfoldable pub relay_ephemeral : Connection → Envelope → List String → RoomService → RoomService
  unfolding fan_out observe_interest
  relay_ephemeral sender e hs s =
      let (sent, s') = fan_out sender.id e (location_of (lib.location e.payload)) hs s in
      record s' { metrics = observe_interest sent (length hs) s'.metrics }

  unfoldable pub relay_to_peer :
      Connection → Envelope → RoomService → Option SignalingRejection × RoomService
  unfolding room_size signaling_target connection_by_id send_signal
  relay_to_peer sender e s =
      let target = signaling_target (lib.target e.payload) in
      if ltb s.max_webrtc_peers (room_size sender.note_id s.rooms)
      then (some room_too_large, s)
      else if target == ""
      then (some no_target, s)
      else if target == sender.id
      then (some self_target, s)
      else send_signal e (connection_by_id sender.note_id target s.rooms) s

  abbrev pub relay_class :
      EventClass → Connection → Envelope → List String → RoomService → RoomService
  relay_class signaling sender e hs s = (relay_to_peer sender e s).1
  relay_class ephemeral sender e hs s = relay_ephemeral sender e hs s
  relay_class reliable sender e hs s = send_to_all "reliable queue overflow" e hs s
  relay_class durable sender e hs s = send_to_all "reliable queue overflow" e hs s

  unfoldable pub relay : Connection → Envelope → RoomService → RoomService
  unfolding relay_to_peer relay_ephemeral send_to_all peers_of classify_event
  relay sender e s =
      if s.draining
      then s
      else relay_class (classify_event e.event) sender e (peers_of sender.note_id sender.id s.rooms)
          s

  abbrev notify_peer : Option Peer → String → Payload → ℕ → RoomService → RoomService
  notify_peer none event p now s = s
  notify_peer (some peer) event p now s = notify_one lib peer.connection event (lock_answer p) now s

  -- What the lock handler sends, as the room service sends it.
  unfoldable pub deliver : Message → ℕ → RoomService → RoomService
  unfolding notify_one announce_to
  deliver (notify connection_id event p) now s =
      notify_peer (lookup connection_id s.peers) event p now s
  deliver (announce note_id except event p) now s =
      announce_to lib note_id except event (lock_answer p) now s

  unfoldable pub deliver_all : List Message → ℕ → RoomService → RoomService
  unfolding deliver
  deliver_all [] now s = s
  deliver_all (m ∷ ms) now s = deliver_all ms now (deliver m now s)
