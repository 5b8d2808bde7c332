-- ===== src/Session.antt =====
-- internal/domain/session.go, internal/domain/ticket.go, the two in-memory stores of
-- internal/infrastructure and internal/application/session_service.go. Each store method holds its
-- mutex, so it is a function of the store; records are copied in and out, so a record is its value.
-- Instants are nanoseconds, and durations are not negative.
pub mod Tickets
pub mod Service
use my_pol_go_backend.Prelude.{
  ℕ, ◌+◌, ◌-◌, String, Bool, true, false, not, ◌&&◌, ◌||◌, Option, none, some, ltb, ◌==◌,
  if◌then◌else◌, get_or, is_some,
}
use my_pol_go_backend.Prelude.Lists.{length}
use my_pol_go_backend.Prelude.Dict.{Dict, lookup, insert, delete, delete_where}
use my_pol_go_backend.Permission.{Permission}

pub record CanvasSession : Type 0 where
  pub id : String
  pub user_id : String
  pub note_id : String
  pub permission : Permission
  pub token_jti : String
  pub expires_at : ℕ
  pub last_seen_at : ℕ
  pub created_at : ℕ

unfoldable pub is_expired : CanvasSession → ℕ → Bool
is_expired s now = not (ltb now s.expires_at)

unfoldable pub is_idle : CanvasSession → ℕ → ℕ → Bool
is_idle s now timeout = ltb timeout (now - s.last_seen_at)

-- The errors of the ports and of the service, and `none` for success.
pub data SessionError : Type 0 where
  session_not_found ticket_not_found ticket_expired invalid_permission : SessionError
  session_rejected no_ticket_value : SessionError

-- A nil session, or one without an id, is refused.
unfoldable pub save :
    Option CanvasSession → Dict CanvasSession → Option SessionError × Dict CanvasSession
save none d = (some session_not_found, d)
save (some s) d = if s.id == "" then (some session_not_found, d) else (none, insert s.id s d)

unfoldable pub get : String → Dict CanvasSession → Option CanvasSession
get session_id d = lookup session_id d

unfoldable pub delete_session : String → Dict CanvasSession → Bool × Dict CanvasSession
delete_session session_id d =
    if is_some (lookup session_id d) then (true, delete session_id d) else (false, d)

unfoldable pub delete_by_user_and_note :
    String → String → Dict CanvasSession → ℕ × Dict CanvasSession
delete_by_user_and_note user_id note_id d =
    delete_where (λ s. s.user_id == user_id && s.note_id == note_id) d

abbrev pub set_permission :
    Permission
    → String
    → Option CanvasSession
    → Dict CanvasSession
    → Option SessionError × Dict CanvasSession
set_permission p session_id none d = (some session_not_found, d)
set_permission p session_id (some s) d = (none, insert session_id (record s { permission = p }) d)

unfoldable pub update_permission :
    String → Permission → Dict CanvasSession → Option SessionError × Dict CanvasSession
update_permission session_id p d = set_permission p session_id (lookup session_id d) d

abbrev touch_found :
    ℕ
    → String
    → Option CanvasSession
    → Dict CanvasSession
    → Option SessionError × Dict CanvasSession
touch_found now session_id none d = (some session_not_found, d)
touch_found now session_id (some s) d =
    (none, insert session_id (record s { last_seen_at = now }) d)

unfoldable pub touch : String → ℕ → Dict CanvasSession → Option SessionError × Dict CanvasSession
touch session_id now d = touch_found now session_id (lookup session_id d) d

unfoldable pub sweep_expired : ℕ → ℕ → Dict CanvasSession → ℕ × Dict CanvasSession
unfolding is_expired is_idle
sweep_expired now idle_timeout d =
    delete_where (λ s. is_expired s now || is_idle s now idle_timeout) d

unfoldable pub count : Dict CanvasSession → ℕ
count d = length d
