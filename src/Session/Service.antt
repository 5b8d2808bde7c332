-- ===== src/Session/Service.antt =====
-- internal/application/session_service.go: sessions from validated tokens, tickets for them, refresh
-- and revocation. What the token validator answers and what the random source gives are arguments
-- of each call: `none` is a rejected token, or no ticket value. `now` is the clock's reading.
pub mod Refresh
pub mod Revocation
use my_pol_go_backend.Prelude.{
  ℕ, ◌+◌, String, Bool, true, false, not, ◌&&◌, ◌||◌, Option, none, some, ltb, ◌==◌, if◌then◌else◌,
}
use my_pol_go_backend.Prelude.Dict.{Dict}
use my_pol_go_backend.Permission.{
  Permission, permission_view, permission_comment, permission_edit, permission_owner, valid,
}
use my_pol_go_backend.Session.{
  CanvasSession, SessionError, session_not_found, ticket_not_found, invalid_permission,
  session_rejected, no_ticket_value, save, get, delete_session, delete_by_user_and_note,
  update_permission,
}
use my_pol_go_backend.Session.Tickets.{
  ConnectionTicket, Redemption, issue, consume, delete_by_session,
}

-- What the service reads of the validated claims.
pub record CanvasClaims : Type 0 where
  pub session_id : String
  pub user_id : String
  pub note_id : String
  pub permission : Permission
  pub token_id : String
  pub expires_at : ℕ

-- The two stores, and the life of a ticket.
pub record SessionService : Type 0 where
  pub sessions : Dict CanvasSession
  pub tickets : Dict ConnectionTicket
  pub ticket_ttl : ℕ

pub data Outcome {ℓ} (A : Type ℓ) : Type ℓ where
  ok : A → Outcome A
  err : SessionError → Outcome A

unfoldable pub session_of : CanvasClaims → ℕ → CanvasSession
session_of claims now = record {
  id = claims.session_id;
  user_id = claims.user_id;
  note_id = claims.note_id;
  permission = claims.permission;
  token_jti = claims.token_id;
  expires_at = claims.expires_at;
  last_seen_at = now;
  created_at = now;
}

unfoldable pub ticket_of : CanvasSession → String → ℕ → ℕ → ConnectionTicket
ticket_of session value ttl now = record {
  value = value;
  session_id = session.id;
  user_id = session.user_id;
  note_id = session.note_id;
  permission = session.permission;
  expires_at = now + ttl;
  created_at = now;
}

unfoldable pub issue_ticket :
    CanvasSession → Option String → ℕ → SessionService → Outcome ConnectionTicket × SessionService
unfolding ticket_of
issue_ticket session none now s = (err no_ticket_value, s)
issue_ticket session (some value) now s =
    let ticket = ticket_of session value s.ticket_ttl now in
    let (stored, tickets') = issue (some ticket) s.tickets in
    if stored then (ok ticket, record s { tickets = tickets' }) else (err ticket_not_found, s)

abbrev pair_with :
    CanvasSession
    → Outcome ConnectionTicket × SessionService
    → Outcome (CanvasSession × ConnectionTicket) × SessionService
pair_with session (ok t, s) = (ok (session, t), s)
pair_with session (err e, s) = (err e, s)

abbrev bootstrap_saved :
    CanvasSession
    → Option String
    → ℕ
    → Option SessionError × Dict CanvasSession
    → SessionService
    → Outcome (CanvasSession × ConnectionTicket) × SessionService
bootstrap_saved session value now (some e, d) s = (err e, s)
bootstrap_saved session value now (none, d) s =
    pair_with session (issue_ticket session value now (record s { sessions = d }))

-- The session is saved before the ticket is made, and stays if making the ticket fails.
unfoldable pub bootstrap :
    Option CanvasClaims
    → Option String
    → ℕ
    → SessionService
    → Outcome (CanvasSession × ConnectionTicket) × SessionService
unfolding issue_ticket session_of
bootstrap none value now s = (err session_rejected, s)
bootstrap (some claims) value now s =
    bootstrap_saved (session_of claims now) value now
      (save (some (session_of claims now)) s.sessions) s

unfoldable pub permission_rank : Permission → ℕ
permission_rank p =
    if p == permission_owner
    then 4
    else if p == permission_edit
    then 3
    else if p == permission_comment
    then 2
    else if p == permission_view
    then 1
    else 0

-- The session after a refresh by these claims.
unfoldable pub refreshed : CanvasClaims → ℕ → CanvasSession → CanvasSession
refreshed claims now session = record session {
  permission =
      if ltb (permission_rank claims.permission) (permission_rank session.permission)
      then claims.permission
      else session.permission;
  token_jti = claims.token_id;
  expires_at = claims.expires_at;
  last_seen_at = now;
}

-- `RefreshSession` up to its write: the session to save, from the copy that `Get` returned.
unfoldable pub refresh_read :
    String → Option CanvasClaims → ℕ → Dict CanvasSession → Outcome CanvasSession
unfolding refreshed
refresh_read session_id none now d = err session_rejected
refresh_read session_id (some claims) now d = elim (get session_id d) [
  | none ↦ err session_not_found
  | some session ↦
      if not (claims.session_id == session.id)
        || not (claims.user_id == session.user_id)
        || not (claims.note_id == session.note_id)
      then err session_rejected
      else ok (refreshed claims now session)
]

-- The write of `RefreshSession`, a call of its own on the store.
unfoldable pub refresh_write :
    Outcome CanvasSession → Dict CanvasSession → Outcome CanvasSession × Dict CanvasSession
refresh_write (err e) d = (err e, d)
refresh_write (ok session) d = elim (save (some session) d).0 [
  | some e ↦ (err e, d)
  | none ↦ (ok session, (save (some session) d).1)
]

-- With no call of another goroutine between the two.
unfoldable pub refresh_session :
    String
    → Option CanvasClaims
    → ℕ
    → Dict CanvasSession
    → Outcome CanvasSession × Dict CanvasSession
unfolding refresh_read refresh_write
refresh_session session_id claims now d = refresh_write (refresh_read session_id claims now d) d

unfoldable pub consume_ticket : String → ℕ → SessionService → Redemption × SessionService
consume_ticket value now s =
    let (r, tickets') = consume value now s.tickets in (r, record s { tickets = tickets' })

unfoldable pub revoke_session : String → SessionService → Outcome Bool × SessionService
revoke_session session_id s =
    let tickets' = (delete_by_session session_id s.tickets).1 in
    let (removed, sessions') = delete_session session_id s.sessions in
    if session_id == ""
    then (err session_not_found, s)
    else (ok removed, record s { tickets = tickets'; sessions = sessions' })

unfoldable pub revoke_user_from_note : String → String → SessionService → Outcome ℕ × SessionService
revoke_user_from_note note_id user_id s =
    let (removed, sessions') = delete_by_user_and_note user_id note_id s.sessions in
    if note_id == "" || user_id == ""
    then (err session_not_found, s)
    else (ok removed, record s { sessions = sessions' })

unfoldable pub update_session_permission :
    String → Permission → SessionService → Option SessionError × SessionService
update_session_permission session_id p s =
    let (e, sessions') = update_permission session_id p s.sessions in
    if not (valid p) then (some invalid_permission, s) else (e, record s { sessions = sessions' })
