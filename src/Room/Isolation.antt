-- ===== src/Room/Isolation.antt =====
-- internal/application/room_service.go: whom a relayed frame does not reach.
use my_pol_go_backend.Prelude.{
  String, Bool, true, false, Option, none, some, ◌==◌, ◌≡◌, refl, sym, ap, ◌∙◌, ◌⊎◌, arith,
  if◌then◌else◌, if_holds, if_fails, ltb, inl, inr, Bool-cases, String-cases, eq_iff,
}
use my_pol_go_backend.Prelude.Lists.{elem}
use my_pol_go_backend.Prelude.Dict.{lookup}
use my_pol_go_backend.Prelude.Table.{Table, cell}
use my_pol_go_backend.Connection.{Connection}
use my_pol_go_backend.Envelope.{
  Envelope, EventClass, ephemeral, reliable, signaling, durable, classify_event,
}
use my_pol_go_backend.Interest.{location_of}
use my_pol_go_backend.Room.{peers_of, connection_by_id, room_size}
use my_pol_go_backend.Room.Store.{IsRooms, elem-peers_of, peers_of-NoDup}
use my_pol_go_backend.Room.Service.{
  send_or_close, target_absent, RoomLibrary, RoomService, SignalingRejection, send_to,
  close_connection, is_refused,
}
use my_pol_go_backend.Room.Delivery.{lookup-send_or_close, lookup-send_to_all}
use my_pol_go_backend.Room.Relay.{
  signaling_target, send_signal, relay_ephemeral, relay_to_peer, relay_class, relay,
}
use my_pol_go_backend.Room.FanOut.{fan_out_outside}

second-if :
    {A : Type 0} (b : Bool) (x y : A) (s t : RoomService)
    → (let pair : A × RoomService = if b then (x, s) else (y, t) in pair.1 ≡ (if b then s else t))
second-if true x y s t = refl
second-if false x y s t = refl

-- A signal to a connection that was looked up is a send that closes it where its queue is full.
state-send_signal :
    (e : Envelope) (h : String) (s : RoomService)
    → (send_signal e (some h) s).1 ≡ send_or_close "reliable queue overflow" e h s
unfolding send_signal send_or_close send_to
state-send_signal e h s =
    second-if (is_refused e (lookup h s.peers)) (some target_absent) none
      (close_connection "reliable queue overflow" h (send_to e h s).1) (send_to e h s).1

-- What a signal may touch: the connection that was looked up.
lookup-send_signal :
    (e : Envelope) (o : Option String) (j : String) (s : RoomService)
    → ((h : String) → o ≡ some h → (h == j) ≡ false)
    → lookup j (send_signal e o s).1.peers ≡ lookup j s.peers
unfolding send_signal
lookup-send_signal e none j s apart = refl
lookup-send_signal e (some h) j s apart =
    ap (λ t. lookup j t.peers) (state-send_signal e h s)
    ∙ lookup-send_or_close "reliable queue overflow" e h j s
    ∙ rw (apart h refl) refl

peers-guard :
    (b : Bool) (x y : Option SignalingRejection × RoomService) (j : String) (s : RoomService)
    → lookup j x.1.peers ≡ lookup j s.peers
    → ((b ≡ false) → lookup j y.1.peers ≡ lookup j s.peers)
    → lookup j (if b then x else y).1.peers ≡ lookup j s.peers
peers-guard true x y j s p q = p
peers-guard false x y j s p q = q refl

-- Not in the sender's room, or the sender, or not the one that is named.
abbrev pub Apart : String → String → String → String → Table String → Type 0
Apart note_id target sender_id j rooms =
    ((cell note_id j rooms ≡ none) ⊎ (j ≡ sender_id)) ⊎ ((target == j) ≡ false)

not_target :
    (note_id target sender_id h j : String) (rooms : Table String)
    → IsRooms rooms
    → cell note_id target rooms ≡ some h
    → (target == sender_id) ≡ false
    → Apart note_id target sender_id j rooms
    → (h == j) ≡ false
not_target note_id target sender_id h j rooms r found self (inl (inl absent)) =
    elim (String-cases h j) [
      | inl q ↦
          (let at_j : cell note_id j rooms ≡ some h =
              ap (λ x. cell note_id x rooms) (sym q ∙ r.named note_id target h found) ∙ found in
            absurd (ground arith))
      | inr q ↦ q
    ]
not_target note_id target sender_id h j rooms r found self (inl (inr q)) =
    rw (r.named note_id target h found, q) self
not_target note_id target sender_id h j rooms r found self (inr q) =
    rw (r.named note_id target h found) q

module _ (lib : RoomLibrary) where
  -- A signal leaves every connection but the one that it names, in the sender's room, as it is.
  lookup-relay_to_peer :
      (sender : Connection) (e : Envelope) (j : String) (s : RoomService)
      → IsRooms s.rooms
      → Apart sender.note_id (signaling_target (lib.target e.payload)) sender.id j s.rooms
      → lookup j (relay_to_peer lib sender e s).1.peers ≡ lookup j s.peers
  unfolding relay_to_peer room_size connection_by_id
  lookup-relay_to_peer sender e j s r apart =
      let target = signaling_target (lib.target e.payload) in
      peers-guard (ltb s.max_webrtc_peers (room_size sender.note_id s.rooms)) _ _ j s refl (λ large.
        peers-guard (target == "") _ _ j s refl (λ named.
          peers-guard (target == sender.id) _ _ j s refl (λ self.
            lookup-send_signal e (cell sender.note_id target s.rooms) j s (λ h found.
              not_target sender.note_id target sender.id h j s.rooms r found self apart))))

  not_peer :
      (sender : Connection) (j : String) (rooms : Table String)
      → IsRooms rooms
      → (cell sender.note_id j rooms ≡ none) ⊎ (j ≡ sender.id)
      → elem j (peers_of sender.note_id sender.id rooms) ≡ false
  not_peer sender j rooms r (inl q) = elem-peers_of j sender.note_id sender.id rooms r ∙ rw q refl
  not_peer sender j rooms r (inr q) =
      elem-peers_of j sender.note_id sender.id rooms r
      ∙ rw ((eq_iff j sender.id).1 q) (ground arith)

  relay_class_outside :
      (c : EventClass) (sender : Connection) (e : Envelope) (j : String) (s : RoomService)
      → IsRooms s.rooms
      → (cell sender.note_id j s.rooms ≡ none) ⊎ (j ≡ sender.id)
      → lookup j (relay_class lib c sender e (peers_of sender.note_id sender.id s.rooms) s).peers
        ≡ lookup j s.peers
  unfolding relay_ephemeral
  relay_class_outside signaling sender e j s r out = lookup-relay_to_peer sender e j s r (inl out)
  relay_class_outside ephemeral sender e j s r out =
      fan_out_outside lib sender.id e (location_of (lib.location e.payload)) _ j s
        (not_peer sender j s.rooms r out)
  relay_class_outside reliable sender e j s r out =
      lookup-send_to_all "reliable queue overflow" e _ j s
        (peers_of-NoDup sender.note_id sender.id s.rooms r)
      ∙ rw (not_peer sender j s.rooms r out) refl
  relay_class_outside durable sender e j s r out =
      lookup-send_to_all "reliable queue overflow" e _ j s
        (peers_of-NoDup sender.note_id sender.id s.rooms r)
      ∙ rw (not_peer sender j s.rooms r out) refl

  -- A draining server relays nothing; otherwise the class of the event decides.
  relay_draining :
      (sender : Connection) (e : Envelope) (s : RoomService)
      → s.draining ≡ true
      → relay lib sender e s ≡ s
  unfolding relay
  relay_draining sender e s h = if_holds s.draining _ _ h

  pub relay_live :
      (c : EventClass) (sender : Connection) (e : Envelope) (s : RoomService)
      → s.draining ≡ false
      → classify_event e.event ≡ c
      → relay lib sender e s
        ≡ relay_class lib c sender e (peers_of sender.note_id sender.id s.rooms) s
  unfolding relay
  relay_live c sender e s h k =
      if_fails s.draining _ _ h
      ∙ ap (λ x. relay_class lib x sender e (peers_of sender.note_id sender.id s.rooms) s) k

  -- Whatever a frame's event and payload, its relay changes nothing of a connection that is not in the
  -- sender's room, nor of the sender's own.
  pub relay_outside :
      (sender : Connection) (e : Envelope) (j : String) (s : RoomService)
      → IsRooms s.rooms
      → (cell sender.note_id j s.rooms ≡ none) ⊎ (j ≡ sender.id)
      → lookup j (relay lib sender e s).peers ≡ lookup j s.peers
  relay_outside sender e j s r out = elim (Bool-cases s.draining) [
    | inl q ↦ ap (λ t. lookup j t.peers) (relay_draining sender e s q)
    | inr q ↦
        ap (λ t. lookup j t.peers) (relay_live (classify_event e.event) sender e s q refl)
        ∙ relay_class_outside (classify_event e.event) sender e j s r out
  ]

  -- A signal, be its target in the room or not, leaves every other connection as it is.
  pub relay_signal_addressed :
      (sender : Connection) (e : Envelope) (j : String) (s : RoomService)
      → IsRooms s.rooms
      → classify_event e.event ≡ signaling
      → (signaling_target (lib.target e.payload) == j) ≡ false
      → lookup j (relay lib sender e s).peers ≡ lookup j s.peers
  relay_signal_addressed sender e j s r class apart = elim (Bool-cases s.draining) [
    | inl q ↦ ap (λ t. lookup j t.peers) (relay_draining sender e s q)
    | inr q ↦
        ap (λ t. lookup j t.peers) (relay_live signaling sender e s q class)
        ∙ lookup-relay_to_peer sender e j s r (inr apart)
  ]
