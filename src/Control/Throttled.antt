-- ===== src/Control/Throttled.antt =====
-- internal/transport/handlers.go: a bootstrap that the limit on the user refuses.
use my_pol_go_backend.Prelude.{
  ℕ, String, Bool, true, false, not, none, some, ◌==◌, if_fails, arith, eq_refl, ◌≡◌, refl, ap, sym,
  subst, ◌∙◌,
}
use my_pol_go_backend.Prelude.Dict.{lookup, lookup-delete}
use my_pol_go_backend.Security.BootstrapLimiter.{
  BootstrapLimiter, Caller, Library, client_ip, allow_ip, allow_user,
}
use my_pol_go_backend.Session.{CanvasSession, delete_session, save}
use my_pol_go_backend.Session.Tickets.{ConnectionTicket, issue}
use my_pol_go_backend.Session.Service.{
  SessionService, CanvasClaims, Outcome, ok, session_of, ticket_of, bootstrap, issue_ticket,
  revoke_session,
}
use my_pol_go_backend.Control.Bootstrap.{
  TextLibrary, Admissions, Credentials, BootstrapAnswer, bearer_token, for_user, with_result,
  bootstrap_call,
}

revoked_absent :
    (id : String) (s : SessionService)
    → (id == "") ≡ false
    → lookup id (revoke_session id s).1.sessions ≡ none
unfolding revoke_session delete_session
revoked_absent id s n = ground (arith, lookup-delete id id s.sessions, eq_refl id)

bootstrap_ok :
    (claims : CanvasClaims) (value : String) (now : ℕ) (s : SessionService)
    → (claims.session_id == "") ≡ false
    → (value == "") ≡ false
    → (bootstrap (some claims) (some value) now s).0
      ≡ ok (session_of claims now, ticket_of (session_of claims now) value s.ticket_ttl now)
unfolding bootstrap save issue issue_ticket
bootstrap_ok claims value now s c v = rw (c, v) refl

-- The end of a bootstrap whose user has no budget left.
user_throttled :
    (session : CanvasSession) (ticket : ConnectionTicket) (r : Bool × BootstrapLimiter)
    (a : Admissions)
    → (session.id == "") ≡ false
    → r.0 ≡ false
    → lookup session.id (for_user (session, ticket) r a).1.sessions.sessions ≡ none
user_throttled session ticket (false, l) a n h = revoked_absent session.id a.sessions n
user_throttled session ticket (true, l) a n h = absurd (ground arith)

result_throttled :
    (now : ℕ) (session : CanvasSession) (ticket : ConnectionTicket)
    (r : Outcome (CanvasSession × ConnectionTicket) × SessionService) (a : Admissions)
    → r.0 ≡ ok (session, ticket)
    → (session.id == "") ≡ false
    → (allow_user session.user_id now a.limiter).0 ≡ false
    → lookup session.id (with_result now r a).1.sessions.sessions ≡ none
result_throttled now session ticket (o, s) a e n h =
    subst (λ x. lookup session.id (with_result now (x, s) a).1.sessions.sessions ≡ none) (sym e)
      (user_throttled session ticket (allow_user session.user_id now a.limiter)
        (record a { sessions = s }) n h)

module _ (lib : TextLibrary) (addresses : Library) where
  -- A bootstrap that only the limit on the user refuses ends the session that its token names, also
  -- where that session was there before the call: the session's record is gone after it.
  pub throttled_session_ends :
      (credentials : Credentials) (claims : CanvasClaims) (value header : String) (caller : Caller)
      (now : ℕ) (a : Admissions)
      → a.draining ≡ false
      → (allow_ip (client_ip addresses caller) now a.limiter).0 ≡ true
      → (bearer_token lib header == "") ≡ false
      → credentials.validate_token (bearer_token lib header) ≡ some claims
      → credentials.ticket_value ≡ some value
      → (claims.session_id == "") ≡ false
      → (value == "") ≡ false
      → (allow_user claims.user_id now (allow_ip (client_ip addresses caller) now a.limiter).1).0
        ≡ false
      → lookup claims.session_id
          (bootstrap_call lib addresses credentials caller header now a).1.sessions.sessions
        ≡ none
  unfolding bootstrap_call session_of
  throttled_session_ends credentials claims value header caller now a live ip named valid made c v
        spent =
      let limited : Admissions = record a {
        limiter = (allow_ip (client_ip addresses caller) now a.limiter).1;
      } in
      let absent : BootstrapAnswer × Admissions → Type 0 =
        λ r. lookup claims.session_id r.1.sessions.sessions ≡ none in
      subst absent
        (sym (
          if_fails a.draining _ _ live
          ∙ if_fails (not (allow_ip (client_ip addresses caller) now a.limiter).0) _ _ (ap not ip)
          ∙ if_fails (bearer_token lib header == "") _ _ named))
        (result_throttled now (session_of claims now)
          (ticket_of (session_of claims now) value a.sessions.ticket_ttl now)
          (bootstrap (credentials.validate_token (bearer_token lib header)) credentials.ticket_value
            now a.sessions)
          limited (rw (valid, made) (bootstrap_ok claims value now a.sessions c v)) c spent)
