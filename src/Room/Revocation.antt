-- ===== src/Room/Revocation.antt =====
-- internal/application/room_service.go: a revoked session or a new permission, at its live connections.
use my_pol_go_backend.Prelude.{String, Bool, true, false, some, ◌==◌, ◌≡◌, refl, ◌∙◌, if◌then◌else◌}
use my_pol_go_backend.Prelude.Lists.{elem}
use my_pol_go_backend.Prelude.Dict.{lookup, map_some}
use my_pol_go_backend.Permission.{Permission}
use my_pol_go_backend.Room.{
  Peer, close, set_permission, all_connections, connections_for_session, connection_by_id,
}
use my_pol_go_backend.Room.Store.{elem-all_connections, elem-matching}
use my_pol_go_backend.Room.Service.{RoomService, disconnect_session, apply_permission}
use my_pol_go_backend.Room.Delivery.{lookup-close_connections, lookup-set_permissions}

some-if :
    (b : Bool) (f : Peer → Peer) (p : Peer)
    → (if b then map_some f (some p) else some p) ≡ some (if b then f p else p)
some-if true f p = refl
some-if false f p = refl

elem-for_session :
    (session_id n j : String) (p : Peer) (s : RoomService)
    → connection_by_id n j s.rooms ≡ some j
    → lookup j s.peers ≡ some p
    → elem j (connections_for_session session_id s.rooms s.peers)
      ≡ (p.connection.session_id == session_id)
unfolding connections_for_session connection_by_id
elem-for_session session_id n j p s here live =
    elem-matching (λ c. c.session_id == session_id) j (all_connections s.rooms) s.peers
    ∙ rw (live, elem-all_connections n j j s.rooms here) refl

-- A connection that is in any room is closed by the revocation of a session exactly when it belongs to
-- that session; any other is left as it is.
pub disconnect_session-closes :
    (session_id reason n j : String) (p : Peer) (s : RoomService)
    → connection_by_id n j s.rooms ≡ some j
    → lookup j s.peers ≡ some p
    → lookup j (disconnect_session session_id reason s).1.peers
      ≡ some (if p.connection.session_id == session_id then close reason p else p)
unfolding disconnect_session
disconnect_session-closes session_id reason n j p s here live =
    lookup-close_connections reason (connections_for_session session_id s.rooms s.peers) j s
    ∙ rw (elem-for_session session_id n j p s here live, live)
        (some-if (p.connection.session_id == session_id) (close reason) p)

-- A connection that is in any room has the new permission of a session exactly when it belongs to that
-- session; any other is left as it is, and no connection is closed by it.
pub apply_permission-reaches :
    (session_id n j : String) (permission : Permission) (p : Peer) (s : RoomService)
    → connection_by_id n j s.rooms ≡ some j
    → lookup j s.peers ≡ some p
    → lookup j (apply_permission session_id permission s).1.peers
      ≡ some (if p.connection.session_id == session_id then set_permission permission p else p)
unfolding apply_permission
apply_permission-reaches session_id n j permission p s here live =
    lookup-set_permissions permission (connections_for_session session_id s.rooms s.peers) j s
    ∙ rw (elem-for_session session_id n j p s here live, live)
        (some-if (p.connection.session_id == session_id) (set_permission permission) p)
