-- ===== src/Room.antt =====
-- internal/domain/connection.go, internal/transport/ws_connection.go and
-- internal/infrastructure/memory_room_store.go: the live connections, and who is on which note. A
-- connection is an object that rooms share, so `peers` is the heap of the objects, each under the id
-- that the server minted for it, and a room holds ids. The write to the socket is the writer's.
pub mod Store
pub mod Service
pub mod Relay
pub mod FanOut
pub mod Revocation
pub mod Drain
pub mod Isolation
pub mod Reach
pub mod Delivery
use my_pol_go_backend.Prelude.{
  ℕ, ◌+◌, ◌/◌, String, Bool, true, false, not, ◌&&◌, Option, none, some, List, [], ◌∷◌, ◌++◌, ◌==◌,
  if◌then◌else◌,
}
use my_pol_go_backend.Prelude.Lists.{length}
use my_pol_go_backend.Prelude.Dict.{Dict, lookup}
use my_pol_go_backend.Prelude.Table.{Table, row, cell, put, remove}
use my_pol_go_backend.Permission.{Permission}
use my_pol_go_backend.Connection.{Connection}
use my_pol_go_backend.Envelope.{Envelope}
use my_pol_go_backend.Session.Tickets.{ConnectionTicket}
use my_pol_go_backend.Transport.Queues.{
  OutboundQueues, new_outbound_queues, push_reliable, push_ephemeral, mark_closed_with,
  pending_reliable, pending_ephemeral,
}

-- `wsConnection`, less its socket; `wtConnection` has the same methods.
pub record Peer : Type 0 where
  pub connection : Connection
  pub queues : OutboundQueues
  pub binary_frames : Bool
  pub aggregate_frames : Bool

unfoldable pub new_peer : String → ConnectionTicket → ℕ → ℕ → ℕ → Peer
new_peer id ticket ephemeral_queue reliable_queue now = record {
  connection = record {
    id = id;
    session_id = ticket.session_id;
    user_id = ticket.user_id;
    note_id = ticket.note_id;
    permission = ticket.permission;
    connected_at = now;
  };
  queues = new_outbound_queues ephemeral_queue reliable_queue;
  binary_frames = false;
  aggregate_frames = false;
}

unfoldable pub set_permission : Permission → Peer → Peer
set_permission permission p = record p {
  connection = record p.connection { permission = permission };
}

unfoldable pub enable_binary_frames : Peer → Peer
enable_binary_frames p = record p { binary_frames = true }

unfoldable pub enable_binary_aggregates : Peer → Peer
enable_binary_aggregates p = record p { aggregate_frames = true }

unfoldable pub supports_binary_aggregates : Peer → Bool
supports_binary_aggregates p = p.binary_frames && p.aggregate_frames

-- `true` is the error of a full queue.
unfoldable pub send_reliable : Envelope → Peer → Bool × Peer
unfolding push_reliable
send_reliable e p = let (full, q) = push_reliable e p.queues in (full, record p { queues = q })

unfoldable pub send_ephemeral : Envelope → String → Peer → Peer
unfolding push_ephemeral
send_ephemeral e coalesce_key p = record p { queues = push_ephemeral e coalesce_key p.queues }

unfoldable pub close : String → Peer → Peer
unfolding mark_closed_with
close reason p = record p { queues = mark_closed_with reason p.queues }

-- `Member`
pub record Member : Type 0 where
  pub connection_id : String
  pub user_id : String
  pub session_id : String
  pub joined_at : ℕ

unfoldable pub member_of : Connection → Member
member_of c = record {
  connection_id = c.id;
  user_id = c.user_id;
  session_id = c.session_id;
  joined_at = c.connected_at / 1000000;
}

-- The room's size after the join.
unfoldable pub join_room : Connection → Table String → ℕ × Table String
unfolding row put
join_room c rooms =
    let rooms' = put c.note_id c.id c.id rooms in (length (row c.note_id rooms'), rooms')

-- A room that empties is dropped.
unfoldable pub leave_room : Connection → Table String → ℕ × Table String
unfolding row remove
leave_room c rooms =
    let rooms' = remove c.note_id c.id rooms in (length (row c.note_id rooms'), rooms')

-- The connections of a room but for the one with this key.
unfoldable pub others : String → Dict String → List String
others except [] = []
others except ((id, h) ∷ d) = let rest = others except d in if id == except then rest else h ∷ rest

unfoldable pub peers_of : String → String → Table String → List String
unfolding row others
peers_of note_id except rooms = others except (row note_id rooms)

unfoldable pub handles : Dict String → List String
handles [] = []
handles ((id, h) ∷ d) = h ∷ handles d

unfoldable pub members : String → Table String → List String
unfolding row handles
members note_id rooms = handles (row note_id rooms)

unfoldable pub connection_by_id : String → String → Table String → Option String
unfolding cell
connection_by_id note_id connection_id rooms = cell note_id connection_id rooms

unfoldable pub room_size : String → Table String → ℕ
unfolding row
room_size note_id rooms = length (row note_id rooms)

-- The connections of every room.
unfoldable pub all_connections : Table String → List String
unfolding handles
all_connections [] = []
all_connections ((n, d) ∷ rooms) = handles d ++ all_connections rooms

abbrev pub tests : (Connection → Bool) → Option Peer → Bool
tests test none = false
tests test (some p) = test p.connection

-- The connections of a list that a test finds.
unfoldable pub matching : (Connection → Bool) → List String → Dict Peer → List String
matching test [] peers = []
matching test (h ∷ hs) peers =
    let rest = matching test hs peers in if tests test (lookup h peers) then h ∷ rest else rest

unfoldable pub connections_for_session : String → Table String → Dict Peer → List String
unfolding all_connections matching
connections_for_session session_id rooms peers =
    matching (λ c. c.session_id == session_id) (all_connections rooms) peers

unfoldable pub connections_for_user_on_note :
    String → String → Table String → Dict Peer → List String
unfolding members matching
connections_for_user_on_note note_id user_id rooms peers =
    matching (λ c. c.user_id == user_id) (members note_id rooms) peers

unfoldable pub room_count : Table String → ℕ
room_count rooms = length rooms

unfoldable pub connection_count : Table String → ℕ
connection_count [] = 0
connection_count ((n, d) ∷ rooms) = length d + connection_count rooms
