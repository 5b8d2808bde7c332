-- ===== src/Room/Reach.antt =====
-- internal/application/room_service.go: whom a relayed frame reaches.
use my_pol_go_backend.Prelude.{
  ◌&&◌, ◌||◌, String, Bool, true, false, some, [], ◌∷◌, ◌++◌, ◌==◌, ◌≡◌, refl, sym, ap, subst, ◌∙◌,
  if◌then◌else◌, if_holds, ltb, inl, inr, Bool-cases,
}
use my_pol_go_backend.Prelude.Lists.{length, elem}
use my_pol_go_backend.Prelude.Dict.{lookup, map_some}
use my_pol_go_backend.Prelude.Table.{Table}
use my_pol_go_backend.Connection.{Connection}
use my_pol_go_backend.Envelope.{Envelope, ephemeral, reliable, classify_event}
use my_pol_go_backend.Transport.Queues.{push_reliable, mark_closed_with, signal}
use my_pol_go_backend.Interest.{location_of}
use my_pol_go_backend.Room.{Peer, send_reliable, close, peers_of, connection_by_id}
use my_pol_go_backend.Interest.Service.{is_interested, does_allow_preview}
use my_pol_go_backend.Room.Store.{IsRooms, elem-peers_of, peers_of-NoDup}
use my_pol_go_backend.Room.Service.{RoomLibrary, RoomService, is_recipient, is_live_ink}
use my_pol_go_backend.Room.Delivery.{offered, lookup-send_to_all}
use my_pol_go_backend.Room.Relay.{relay_ephemeral, relay}
use my_pol_go_backend.Room.Isolation.{relay_live}
use my_pol_go_backend.Room.FanOut.{Sent, fan_out_wanted, fan_out_unwanted}

either_way : (b : Bool) (P Q : Type 0) → (b ≡ true → P) → (b ≡ false → Q) → (if b then P else Q)
either_way true P Q p q = p refl
either_way false P Q p q = q refl

-- What an open connection makes of a reliable frame.
offered_queues :
    (e : Envelope) (p : Peer)
    → p.queues.closed ≡ false
    → (if ltb (length p.queues.reliable) p.queues.reliable_size
        then ((offered "reliable queue overflow" e p).queues.reliable ≡ p.queues.reliable ++ e ∷ [])
        else (((offered "reliable queue overflow" e p).queues.closed ≡ true)
            × ((offered "reliable queue overflow" e p).queues.close_reason
                ≡ "reliable queue overflow")))
unfolding offered send_reliable close push_reliable mark_closed_with signal
offered_queues e p h = elim (Bool-cases (ltb (length p.queues.reliable) p.queues.reliable_size)) [
  | inl q ↦ rw (q, h) refl
  | inr q ↦ rw (q, h) (refl, refl)
]

module _ (lib : RoomLibrary) where
  is_peer :
      (sender : Connection) (j : String) (rooms : Table String)
      → IsRooms rooms
      → connection_by_id sender.note_id j rooms ≡ some j
      → (j == sender.id) ≡ false
      → elem j (peers_of sender.note_id sender.id rooms) ≡ true
  unfolding connection_by_id
  is_peer sender j rooms r here other =
      elem-peers_of j sender.note_id sender.id rooms r ∙ rw (here, other) refl

  -- While the server is not draining, a reliable frame is offered to every other connection in the
  -- sender's room, wherever it looks: an open one has the frame behind all that wait in its reliable
  -- queue, or, where that queue is full, is closed with the reason "reliable queue overflow".
  pub relay_reliable_offered :
      (sender : Connection) (e : Envelope) (j : String) (p : Peer) (s : RoomService)
      → IsRooms s.rooms
      → s.draining ≡ false
      → classify_event e.event ≡ reliable
      → connection_by_id sender.note_id j s.rooms ≡ some j
      → (j == sender.id) ≡ false
      → lookup j s.peers ≡ some p
      → p.queues.closed ≡ false
      → (after : Peer) × (lookup j (relay lib sender e s).peers ≡ some after)
        × (if ltb (length p.queues.reliable) p.queues.reliable_size
            then (after.queues.reliable ≡ p.queues.reliable ++ e ∷ [])
            else ((after.queues.closed ≡ true)
                × (after.queues.close_reason ≡ "reliable queue overflow")))
  relay_reliable_offered sender e j p s r live class here other there alive = (
    offered "reliable queue overflow" e p,
    ap (λ t. lookup j t.peers) (relay_live lib reliable sender e s live class)
        ∙ lookup-send_to_all "reliable queue overflow" e _ j s
            (peers_of-NoDup sender.note_id sender.id s.rooms r)
        ∙ if_holds (elem j (peers_of sender.note_id sender.id s.rooms)) _ _
            (is_peer sender j s.rooms r here other)
        ∙ ap (map_some (offered "reliable queue overflow" e)) there,
    offered_queues e p alive,
  )

  relay_ephemeral_queued :
      (sender : Connection) (e : Envelope) (j : String) (s : RoomService)
      → IsRooms s.rooms
      → connection_by_id sender.note_id j s.rooms ≡ some j
      → (j == sender.id) ≡ false
      → (let hs = peers_of sender.note_id sender.id s.rooms in
          if is_recipient e.event (location_of (lib.location e.payload)) j s
          then Sent lib sender.id e
              (location_of (lib.location e.payload))
              (lookup j s.peers)
              (lookup j (relay_ephemeral lib sender e hs s).peers)
          else (lookup j (relay_ephemeral lib sender e hs s).peers ≡ lookup j s.peers))
  unfolding relay_ephemeral
  relay_ephemeral_queued sender e j s r here other =
      let location = location_of (lib.location e.payload) in
      let hs = peers_of sender.note_id sender.id s.rooms in
      either_way (is_recipient e.event location j s) _ _
        (fan_out_wanted lib sender.id e location hs j s
          (peers_of-NoDup sender.note_id sender.id s.rooms r)
          (is_peer sender j s.rooms r here other))
        (fan_out_unwanted lib sender.id e location hs j s)

  -- While the server is not draining, an ephemeral frame goes to another connection in the sender's room
  -- exactly when it may be on its screen, or is the live ink that no viewport withholds, and its
  -- preferences do not refuse the event: then it is queued under the stream's key, at some count of the
  -- deltas; otherwise the connection is left as it is.
  pub relay_ephemeral_wanted :
      (sender : Connection) (e : Envelope) (j : String) (s : RoomService)
      → IsRooms s.rooms
      → s.draining ≡ false
      → classify_event e.event ≡ ephemeral
      → connection_by_id sender.note_id j s.rooms ≡ some j
      → (j == sender.id) ≡ false
      → (if ((e.event == "ink.started" || e.event == "ink.points")
              || is_interested j (location_of (lib.location e.payload)) s.interest)
            && does_allow_preview j e.event s.interest
          then Sent lib sender.id e
              (location_of (lib.location e.payload))
              (lookup j s.peers)
              (lookup j (relay lib sender e s).peers)
          else (lookup j (relay lib sender e s).peers ≡ lookup j s.peers))
  unfolding is_recipient is_live_ink
  relay_ephemeral_wanted sender e j s r live class here other =
      subst
        (λ t.
          if ((e.event == "ink.started" || e.event == "ink.points")
              || is_interested j (location_of (lib.location e.payload)) s.interest)
            && does_allow_preview j e.event s.interest
          then Sent lib sender.id e (location_of (lib.location e.payload)) (lookup j s.peers)
              (lookup j t.peers)
          else (lookup j t.peers ≡ lookup j s.peers))
        (sym (relay_live lib ephemeral sender e s live class))
        (relay_ephemeral_queued sender e j s r here other)
