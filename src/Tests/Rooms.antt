-- ===== src/Tests/Rooms.antt =====
-- internal/application/room_service.go and the store under it, at concrete inputs.
use my_pol_go_backend.Prelude.{
  ℕ, true, false, none, some, [], ◌∷◌, String, ◌≡◌, refl, arith, eqb, if◌then◌else◌, ltb, inl, ◌<◌,
}
use my_pol_go_backend.Prelude.Lists.{elem}
use my_pol_go_backend.Prelude.Dict.{lookup, insert, delete, delete_where, modify}
use my_pol_go_backend.Prelude.Table.{row, cell, put, remove}
use my_pol_go_backend.Envelope.{Envelope, classify_event, has_prefix_of}
use my_pol_go_backend.Session.Tickets.{ConnectionTicket}
use my_pol_go_backend.Transport.Queues.{
  new_outbound_queues, push_reliable, push_ephemeral, enqueue, shed, count_drop, signal,
  mark_closed_with, pending_reliable, pending_ephemeral,
}
use my_pol_go_backend.Observability.{new_metrics, observe_max, observe_queue_depth}
use my_pol_go_backend.Interest.{location_of}
use my_pol_go_backend.Interest.Service.{is_interested, does_allow_preview}
use my_pol_go_backend.Room.{
  Peer, new_peer, send_reliable, send_ephemeral, close, set_permission, join_room, leave_room,
  others, peers_of, handles, members, connection_by_id, room_size, all_connections, matching,
  connections_for_session,
}
use my_pol_go_backend.Room.Store.{joined, memberships, memberships-IsRooms}
use my_pol_go_backend.Room.Service.{
  RoomLibrary, RoomService, write_peer, observe_send, is_refused, send_to, close_connection,
  send_or_close, send_to_all, close_connections, disconnect_session, is_live_ink, is_recipient,
}
use my_pol_go_backend.Room.Relay.{
  observe_shed, send_ephemeral_to, signaling_target, send_signal, subject_id, coalesce_key,
  send_keyed, fan_out, observe_interest, relay_ephemeral, relay_to_peer, relay,
}
use my_pol_go_backend.Room.Isolation.{relay_outside, relay_signal_addressed}
use my_pol_go_backend.Room.Reach.{relay_reliable_offered, relay_ephemeral_wanted}
use my_pol_go_backend.Room.FanOut.{Sent}
use my_pol_go_backend.Room.Revocation.{disconnect_session-closes}
use my_pol_go_backend.Room.Drain.{
  Wake, tick, done, pending_all, wait_for_reliable_drain, any_drained, wait_ends,
}

-- What a run of the rooms computes with.
room_runs : ℕ
unfolding elem lookup insert delete delete_where modify row cell put remove classify_event
    has_prefix_of new_outbound_queues push_reliable push_ephemeral enqueue shed count_drop signal
    mark_closed_with pending_reliable pending_ephemeral observe_max observe_queue_depth location_of
    is_interested does_allow_preview new_peer send_reliable send_ephemeral close set_permission
    join_room leave_room others peers_of handles members connection_by_id room_size all_connections
    matching connections_for_session memberships write_peer observe_send is_refused send_to
    close_connection send_or_close send_to_all close_connections disconnect_session is_live_ink
    is_recipient observe_shed send_ephemeral_to signaling_target send_signal subject_id coalesce_key
    send_keyed fan_out observe_interest relay_ephemeral relay_to_peer relay pending_all
    wait_for_reliable_drain
room_runs = 0

abbrev ticket : String → String → ConnectionTicket
ticket session_id note_id = record {
  value = "tk";
  session_id = session_id;
  user_id = "u1";
  note_id = note_id;
  permission = "edit";
  expires_at = 100;
  created_at = 0;
}

-- Two connections on one note, and one on another.
abbrev first : Peer
first = new_peer "c1" (ticket "s1" "n1") 4 2 0

abbrev second : Peer
second = new_peer "c2" (ticket "s2" "n1") 4 2 0

abbrev third : Peer
third = new_peer "c3" (ticket "s1" "n2") 4 2 0

abbrev lib : RoomLibrary
lib = record {
  new_id = λ n. "m";
  marshal = λ p. some "{}";
  location = λ payload. none;
  target = λ payload. some payload;
  subject = λ payload. none;
  format_uint = λ n. "1";
}

abbrev rooms : RoomService
rooms = record {
  rooms =
      memberships
        (joined first.connection ∷ joined second.connection ∷ joined third.connection ∷ []) [];
  peers = ("c1", first) ∷ ("c2", second) ∷ ("c3", third) ∷ [];
  interest = none;
  metrics = new_metrics;
  max_webrtc_peers = 6;
  delta_seq = 0;
  draining = false;
  minted = 0;
}

abbrev frame : String → String → Envelope
frame event payload = record {
  v = 2;
  message_id = "m";
  session_id = "s1";
  channel = "note:n1";
  event = event;
  actor_id = some "u1";
  origin = some "c1";
  seq = none;
  sent_at = 0;
  payload = payload;
}

relay_outside_example :
    lookup "c3" (relay lib first.connection (frame "ink.commit" "") rooms).peers ≡ some third
unfolding room_runs
relay_outside_example =
    relay_outside lib first.connection (frame "ink.commit" "") "c3" rooms
      (memberships-IsRooms
        (joined first.connection ∷ joined second.connection ∷ joined third.connection ∷ []))
      (inl refl)

relay_signal_addressed_example :
    lookup "c1" (relay lib first.connection (frame "rtc.offer" "c2") rooms).peers ≡ some first
unfolding room_runs
relay_signal_addressed_example =
    relay_signal_addressed lib first.connection (frame "rtc.offer" "c2") "c1" rooms
      (memberships-IsRooms
        (joined first.connection ∷ joined second.connection ∷ joined third.connection ∷ []))
      refl refl

relay_reliable_offered_example :
    (after : Peer) × (lookup "c2" (relay lib first.connection (frame "ink.commit" "") rooms).peers
      ≡ some after)
    × (if ltb 0 2
        then (after.queues.reliable ≡ frame "ink.commit" "" ∷ [])
        else ((after.queues.closed ≡ true)
            × (after.queues.close_reason ≡ "reliable queue overflow")))
unfolding room_runs
relay_reliable_offered_example =
    relay_reliable_offered lib first.connection (frame "ink.commit" "") "c2" second rooms
      (memberships-IsRooms
        (joined first.connection ∷ joined second.connection ∷ joined third.connection ∷ []))
      refl refl refl refl refl refl

relay_ephemeral_wanted_example :
    Sent lib "c1"
      (frame "cursor.moved" "")
      (location_of none)
      (some second)
      (lookup "c2" (relay lib first.connection (frame "cursor.moved" "") rooms).peers)
unfolding room_runs
relay_ephemeral_wanted_example =
    relay_ephemeral_wanted lib first.connection (frame "cursor.moved" "") "c2" rooms
      (memberships-IsRooms
        (joined first.connection ∷ joined second.connection ∷ joined third.connection ∷ []))
      refl refl refl refl

disconnect_session-closes_example :
    lookup "c3" (disconnect_session "s1" "session revoked" rooms).1.peers
    ≡ some (close "session revoked" third)
unfolding room_runs
disconnect_session-closes_example =
    disconnect_session-closes "s1" "session revoked" "n2" "c3" third rooms refl refl

abbrev second_wake : ℕ → Wake
second_wake n = if eqb n 0 then tick else done

first_wakes : (i : ℕ) → i < 1 → second_wake i ≡ tick
first_wakes i h = ground arith

wait_ends_example :
    wait_for_reliable_drain 2 0 (λ n. rooms) second_wake ≡ some (any_drained 2 0 (λ n. rooms))
unfolding room_runs
wait_ends_example = wait_ends 1 (λ n. rooms) second_wake refl first_wakes
