-- ===== src/ClientFrame/Privacy.antt =====
-- internal/transport/client_frames.go: events for the server alone.
use my_pol_go_backend.Prelude.{
  ℕ, ◌+◌, String, Bool, true, false, not, ◌||◌, Option, none, some, List, ◌==◌, ◌≡◌, refl, ap, ◌∙◌,
  if_fails, if_intro, arith,
}
use my_pol_go_backend.Prelude.Lists.{elem}
use my_pol_go_backend.Prelude.Int.{ℤ, pos, leb_ℤ}
use my_pol_go_backend.Prelude.Dict.{lookup, lookup-modify, map_some}
use my_pol_go_backend.Permission.{Permission}
use my_pol_go_backend.Connection.{Connection}
use my_pol_go_backend.Envelope.{Envelope}
use my_pol_go_backend.Transport.Queues.{OutboundQueues}
use my_pol_go_backend.Session.{CanvasSession}
use my_pol_go_backend.Session.Service.{Outcome, ok, err, refresh_session}
use my_pol_go_backend.Room.{
  Peer, send_reliable, set_permission, enable_binary_aggregates, connections_for_session,
}
use my_pol_go_backend.Room.Service.{
  RoomService, write_peer, send_to, set_permissions, apply_permission,
}
use my_pol_go_backend.Room.Delivery.{lookup-set_permissions}
use my_pol_go_backend.ClientFrame.{Reply, FrameLibrary, Backend}
use my_pol_go_backend.ClientFrame.Dispatch.{
  reply_envelope, send_reply, reply, accept_refresh, refresh_answer, refresh_with, auth_refresh,
  with_capability, protocol_capabilities, interest_update, dispatch,
}

abbrev queues_in : Option Peer → Option OutboundQueues
queues_in none = none
queues_in (some p) = some p.queues

-- What a connection has yet to be sent.
abbrev pub queues_at : String → RoomService → Option OutboundQueues
queues_at j s = queues_in (lookup j s.peers)

queues-write_peer :
    (h j : String) (f : Peer → Peer) (s : RoomService)
    → (h == j) ≡ false
    → queues_at j (write_peer h f s) ≡ queues_at j s
unfolding write_peer
queues-write_peer h j f s n = ap queues_in (lookup-modify h j f s.peers ∙ if_fails (h == j) _ _ n)

queues-permission :
    (permission : Permission) (o : Option Peer)
    → queues_in (map_some (set_permission permission) o) ≡ queues_in o
unfolding set_permission
queues-permission permission none = refl
queues-permission permission (some p) = refl

queues-set_permissions :
    (permission : Permission) (hs : List String) (j : String) (s : RoomService)
    → queues_at j (set_permissions permission hs s) ≡ queues_at j s
queues-set_permissions permission hs j s =
    ap queues_in (lookup-set_permissions permission hs j s)
    ∙ if_intro (λ o. queues_in o ≡ queues_at j s) (elem j hs) _ _
        (λ _. queues-permission permission (lookup j s.peers)) (λ _. refl)

none_left :
    {A : Type 0} (a b c d : Bool)
    → a ≡ false
    → b ≡ false
    → c ≡ false
    → d ≡ false
    → (a || b || c || d) ≡ true
    → A
none_left a b c d p q r s h = absurd (ground arith)

module _ (lib : FrameLibrary) where
  queues-send_reply :
      (c : Connection) (event : String) (o : Option String) (now minted : ℕ) (j : String)
      (s : RoomService)
      → (c.id == j) ≡ false
      → queues_at j (send_reply lib c event o now minted s) ≡ queues_at j s
  unfolding send_to
  queues-send_reply c event none now minted j s n = refl
  queues-send_reply c event (some payload) now minted j s n =
      queues-write_peer c.id j
        (λ p. (send_reliable (reply_envelope lib c event payload now minted) p).1) s n

  queues-reply :
      (c : Connection) (event : String) (payload : Reply) (now : ℕ) (j : String) (s : RoomService)
      → (c.id == j) ≡ false
      → queues_at j (reply lib c event payload now s) ≡ queues_at j s
  unfolding reply
  queues-reply c event payload now j s n =
      queues-send_reply c event (lib.marshal_reply payload) now s.minted j
        (record s { minted = s.minted + 1 }) n

  queues-accept_refresh :
      (c : Connection) (session : CanvasSession) (now : ℕ) (j : String) (s : RoomService)
      → (c.id == j) ≡ false
      → queues_at j (accept_refresh lib c session now s) ≡ queues_at j s
  unfolding apply_permission
  queues-accept_refresh c session now j s n =
      queues-reply c _ _ now j _ n
      ∙ if_intro (λ t. queues_at j t ≡ queues_at j s) (not (session.permission == c.permission)) _ s
          (λ _.
            queues-set_permissions session.permission
              (connections_for_session session.id s.rooms s.peers) j s)
          (λ _. refl)

  queues-refresh_answer :
      (c : Connection) (o : Outcome CanvasSession) (now : ℕ) (j : String) (b : Backend)
      → (c.id == j) ≡ false
      → queues_at j (refresh_answer lib c o now b).rooms ≡ queues_at j b.rooms
  queues-refresh_answer c (err e) now j b n = queues-reply c _ _ now j _ n
  queues-refresh_answer c (ok session) now j b n = queues-accept_refresh c session now j b.rooms n

  queues-refresh_with :
      (c : Connection) (o : Option String) (now : ℕ) (j : String) (b : Backend)
      → (c.id == j) ≡ false
      → queues_at j (refresh_with lib c o now b).rooms ≡ queues_at j b.rooms
  queues-refresh_with c none now j b n = queues-reply c _ _ now j _ n
  queues-refresh_with c (some token) now j b n =
      if_intro (λ (t : Backend). queues_at j t.rooms ≡ queues_at j b.rooms) (token == "") _ _
        (λ _. queues-reply c _ _ now j _ n)
        (λ _.
          queues-refresh_answer c
            (refresh_session c.session_id (lib.validate token now) now b.sessions.sessions).0 now j
            _ n)

  queues-with_capability :
      (h : String) (o : Option ℤ) (j : String) (b : Backend)
      → (h == j) ≡ false
      → queues_at j (with_capability lib h o b).rooms ≡ queues_at j b.rooms
  queues-with_capability h none j b n = refl
  queues-with_capability h (some v) j b n =
      if_intro (λ (t : Backend). queues_at j t.rooms ≡ queues_at j b.rooms) (leb_ℤ (pos 1) v) _ b
        (λ _. queues-write_peer h j enable_binary_aggregates b.rooms n) (λ _. refl)

  abbrev pub is_server_event : String → Bool
  is_server_event event =
      event == "heartbeat"
      || event == "auth.refresh"
      || event == "protocol.capabilities"
      || event == "interest.update"

  -- A frame for the server alone (a heartbeat, a refreshed token, a capability or a viewport) puts
  -- nothing in the queues of any connection but the sender's own, and drops nothing from them.
  pub dispatch_private :
      (c : Connection) (e : Envelope) (now : ℕ) (j : String) (b : Backend)
      → is_server_event e.event ≡ true
      → (c.id == j) ≡ false
      → queues_at j (dispatch lib c e now b).rooms ≡ queues_at j b.rooms
  unfolding dispatch auth_refresh protocol_capabilities interest_update
  dispatch_private c e now j b server n =
      let P : Backend → Type 0 = λ t. queues_at j t.rooms ≡ queues_at j b.rooms in
      if_intro P (e.event == "heartbeat") _ _ (λ _. queues-reply c _ _ now j b.rooms n)
        (λ h1.
          if_intro P (e.event == "auth.refresh") _ _
            (λ _. queues-refresh_with c (lib.decode_token e.payload) now j b n)
            (λ h2.
              if_intro P (e.event == "protocol.capabilities") _ _
                (λ _. queues-with_capability c.id (lib.decode_capability e.payload) j b n)
                (λ h3.
                  if_intro P (e.event == "interest.update") _ _ (λ _. refl)
                    (λ h4.
                      none_left (e.event == "heartbeat") (e.event == "auth.refresh")
                        (e.event == "protocol.capabilities") (e.event == "interest.update") h1 h2 h3
                        h4 server))))
