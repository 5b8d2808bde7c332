-- ===== src/Connection.antt =====
-- internal/domain/connection.go: the identity of one live transport, as rooms and services read it.
-- What a transport does with a frame is in Transport.
use my_pol_go_backend.Prelude.{String, ℕ}
use my_pol_go_backend.Permission.{Permission}

pub record Connection : Type 0 where
  pub id : String
  pub session_id : String
  pub user_id : String
  pub note_id : String
  pub permission : Permission
  pub connected_at : ℕ
