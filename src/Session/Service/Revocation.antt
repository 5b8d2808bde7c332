-- ===== src/Session/Service/Revocation.antt =====
-- internal/application/session_service.go: the revocations, and the ticket of a bootstrap.
use my_pol_go_backend.Prelude.{
  ℕ, ◌+◌, ◌<◌, String, false, ◌&&◌, none, some, ◌==◌, ◌≡◌, refl, arith, eq_iff, eq_refl,
  if◌then◌else◌,
}
use my_pol_go_backend.Prelude.Dict.{
  Dict, lookup, insert, lookup-insert, lookup-delete, lookup-delete_where, Distinct, matches,
}
use my_pol_go_backend.Session.{
  CanvasSession, session_not_found, save, get, delete_session, delete_by_user_and_note,
}
use my_pol_go_backend.Session.Tickets.{
  ConnectionTicket, redeemed, not_found, is_expired, issue, consume, delete_by_session,
}
use my_pol_go_backend.Session.Service.{
  CanvasClaims, SessionService, ok, err, session_of, ticket_of, bootstrap, refresh_read,
  refresh_write, refresh_session, consume_ticket, revoke_session, revoke_user_from_note,
}

-- Revoking a session ends it and no other, and none of its outstanding tickets can be redeemed
-- afterwards; every other ticket answers as before.
pub revoke_session_ends :
    (session_id other value : String) (now : ℕ) (s : SessionService)
    → (session_id == "") ≡ false
    → Distinct s.tickets
    → (lookup other (revoke_session session_id s).1.sessions
        ≡ (if session_id == other then none else lookup other s.sessions))
      × ((consume_ticket value now (revoke_session session_id s).1).0 ≡ (
          if matches (λ t. t.session_id == session_id) (lookup value s.tickets)
          then not_found
          else (consume_ticket value now s).0))
unfolding revoke_session delete_session consume_ticket consume delete_by_session
revoke_session_ends session_id other value now s h v = (
  ground (arith, lookup-delete session_id other s.sessions, eq_iff session_id other),
  ground (arith, lookup-delete_where (λ t. t.session_id == session_id) value s.tickets v),
)

-- Revoking a user from a note ends exactly that user's sessions there, and leaves every outstanding
-- ticket as it was: one issued before the revocation is redeemed after it as without it.
pub revoke_user_leaves_tickets :
    (note_id user_id id value : String) (now : ℕ) (s : SessionService)
    → (note_id == "") ≡ false
    → (user_id == "") ≡ false
    → Distinct s.sessions
    → (lookup id (revoke_user_from_note note_id user_id s).1.sessions ≡ (
        if matches (λ c. c.user_id == user_id && c.note_id == note_id) (lookup id s.sessions)
        then none
        else lookup id s.sessions))
      × ((consume_ticket value now (revoke_user_from_note note_id user_id s).1).0
          ≡ (consume_ticket value now s).0)
unfolding revoke_user_from_note delete_by_user_and_note consume_ticket
revoke_user_leaves_tickets note_id user_id id value now s n u v = (
  ground (
    arith,
    lookup-delete_where (λ c. c.user_id == user_id && c.note_id == note_id) id s.sessions v,
  ),
  ground arith,
)

revoked_absent :
    (session_id : String) (s : SessionService)
    → (session_id == "") ≡ false
    → lookup session_id (revoke_session session_id s).1.sessions ≡ none
unfolding revoke_session delete_session
revoked_absent session_id s h =
    ground (arith, lookup-delete session_id session_id s.sessions, eq_refl session_id)

refresh_absent :
    (session_id : String) (claims : CanvasClaims) (now : ℕ) (d : Dict CanvasSession)
    → lookup session_id d ≡ none
    → (refresh_session session_id (some claims) now d).0 ≡ err session_not_found
unfolding refresh_session refresh_read refresh_write get
refresh_absent session_id claims now d h = rw (refresh_session, refresh_read, get, h) refl

refresh_write-ok :
    (after : CanvasSession) (d : Dict CanvasSession)
    → (after.id == "") ≡ false
    → ((refresh_write (ok after) d).0 ≡ ok after)
      × (lookup after.id (refresh_write (ok after) d).1 ≡ some after)
unfolding refresh_write save
refresh_write-ok after d h =
    rw (refresh_write, h)
      (refl, ground (arith, lookup-insert after.id after.id after d, eq_refl after.id))

-- A revocation ends a session that has an id, and a refresh begun after it finds none; but a refresh
-- that has read the session before the revocation, and passed its checks, succeeds when it writes after
-- it, and brings the session back.
pub refresh_over_revocation :
    (session_id : String) (claims : CanvasClaims) (now : ℕ) (s : SessionService)
    (after : CanvasSession)
    → refresh_read session_id (some claims) now s.sessions ≡ ok after
    → (after.id == "") ≡ false
    → (let s' = (revoke_session after.id s).1 in
        let pending = refresh_read session_id (some claims) now s.sessions in
        (lookup after.id s'.sessions ≡ none)
        × ((refresh_session after.id (some claims) now s'.sessions).0 ≡ err session_not_found)
        × ((refresh_write pending s'.sessions).0 ≡ ok after)
        × (lookup after.id (refresh_write pending s'.sessions).1 ≡ some after))
refresh_over_revocation session_id claims now s after e h =
    let ended = revoked_absent after.id s h in
    let after_it = (revoke_session after.id s).1.sessions in
    let (answer, stored) = refresh_write-ok after after_it h in
    (ended, refresh_absent after.id claims now after_it ended, rw e answer, rw e stored)

-- A bootstrap with a session id and a ticket value succeeds; its session and its ticket carry the
-- token's user, note and permission, the session lapses with the token and the ticket a ticket's life
-- later; the session is the one that the store then has, and the ticket is redeemed, once, until it
-- lapses.
pub bootstrap_then_consume :
    (claims : CanvasClaims) (value : String) (now later : ℕ) (s : SessionService)
    → (claims.session_id == "") ≡ false
    → (value == "") ≡ false
    → later < now + s.ticket_ttl
    → (let session : CanvasSession = record {
      id = claims.session_id;
      user_id = claims.user_id;
      note_id = claims.note_id;
      permission = claims.permission;
      token_jti = claims.token_id;
      expires_at = claims.expires_at;
      last_seen_at = now;
      created_at = now;
    } in
        let ticket : ConnectionTicket = record {
          value = value;
          session_id = claims.session_id;
          user_id = claims.user_id;
          note_id = claims.note_id;
          permission = claims.permission;
          expires_at = now + s.ticket_ttl;
          created_at = now;
        } in
        let s' = (bootstrap (some claims) (some value) now s).1 in
        ((bootstrap (some claims) (some value) now s).0 ≡ ok (session, ticket))
        × (lookup claims.session_id s'.sessions ≡ some session)
        × ((consume_ticket value later s').0 ≡ redeemed ticket)
        × ((consume_ticket value later (consume_ticket value later s').1).0 ≡ not_found))
unfolding bootstrap save issue consume_ticket consume is_expired session_of ticket_of
bootstrap_then_consume claims value now later s c v t =
    let session = session_of claims now in
    let ticket = ticket_of session value s.ticket_ttl now in
    let redeems = lookup-insert value value ticket s.tickets in
    rw (c, v)
      (
        refl,
        ground (
          arith,
          lookup-insert claims.session_id claims.session_id session s.sessions,
          eq_refl claims.session_id,
        ),
        ground (arith, redeems, eq_refl value),
        ground (
          arith,
          redeems,
          lookup-delete value value (insert value ticket s.tickets),
          eq_refl value,
        ),
      )
