-- ===== src/Tests/Sessions.antt =====
-- internal/application/session_service.go and its stores, at concrete inputs.
use my_pol_go_backend.Prelude.{ℕ, min, none, some, [], ◌∷◌, ◌≡◌, refl, arith}
use my_pol_go_backend.Prelude.Dict.{lookup, insert, delete, delete_where}
use my_pol_go_backend.Session.{
  CanvasSession, session_not_found, save, get, delete_session, delete_by_user_and_note,
}
use my_pol_go_backend.Session.Tickets.{
  ConnectionTicket, is_expired, redeemed, not_found, issue, consume, sweep_expired,
  delete_by_session,
}
use my_pol_go_backend.Session.Tickets.SingleUse.{issues, sweeps, revokes, step, run, consume_once}
use my_pol_go_backend.Session.Service.{
  CanvasClaims, SessionService, ok, err, session_of, ticket_of, bootstrap, issue_ticket,
  permission_rank, refreshed, refresh_read, refresh_write, refresh_session, consume_ticket,
  revoke_session, revoke_user_from_note,
}
use my_pol_go_backend.Session.Service.Refresh.{refresh_never_escalates}
use my_pol_go_backend.Session.Service.Revocation.{
  revoke_user_leaves_tickets, refresh_over_revocation, bootstrap_then_consume,
}

-- What a run of the session code computes with.
session_runs : ℕ
unfolding lookup insert delete delete_where save get delete_session delete_by_user_and_note
    is_expired issue consume sweep_expired delete_by_session step run session_of ticket_of bootstrap
    issue_ticket permission_rank refreshed refresh_read refresh_write refresh_session consume_ticket
    revoke_session revoke_user_from_note
session_runs = 0

abbrev claims : CanvasClaims
claims = record {
  session_id = "s1";
  user_id = "u1";
  note_id = "n1";
  permission = "edit";
  token_id = "t1";
  expires_at = 1000;
}

abbrev fresh : SessionService
fresh = record { sessions = []; tickets = []; ticket_ttl = 30 }

abbrev live : SessionService
live = (bootstrap (some claims) (some "tk") 10 fresh).1

abbrev session : CanvasSession
session = session_of claims 10

abbrev ticket : ConnectionTicket
ticket = ticket_of session "tk" 30 10

bootstrap_then_consume_example :
    ((bootstrap (some claims) (some "tk") 10 fresh).0 ≡ ok (session, ticket))
    × (lookup "s1" live.sessions ≡ some session)
    × ((consume_ticket "tk" 20 live).0 ≡ redeemed ticket)
    × ((consume_ticket "tk" 20 (consume_ticket "tk" 20 live).1).0 ≡ not_found)
unfolding session_runs
bootstrap_then_consume_example =
    bootstrap_then_consume claims "tk" 10 20 fresh refl refl (omega arith)

consume_once_example :
    (consume "tk" 21 (
      run
        (consume "tk" 20 live.tickets).1
        (issues (some (record ticket { value = "other" })) ∷ sweeps 20 ∷ revokes "s2" ∷ []))).0
    ≡ not_found
unfolding session_runs
consume_once_example =
    consume_once "tk" 20 21 live.tickets
      (issues (some (record ticket { value = "other" })) ∷ sweeps 20 ∷ revokes "s2" ∷ []) (refl, tt)
      (refl, tt)

-- An owner's token cannot raise an editor's session.
abbrev owner_claims : CanvasClaims
owner_claims = record claims { permission = "owner"; token_id = "t2"; expires_at = 2000 }

abbrev extended : CanvasSession
extended = record session { token_jti = "t2"; expires_at = 2000; last_seen_at = 50 }

refresh_never_escalates_example :
    (extended.id ≡ session.id)
    × (extended.user_id ≡ session.user_id)
    × (extended.note_id ≡ session.note_id)
    × (owner_claims.session_id ≡ session.id)
    × (owner_claims.user_id ≡ session.user_id)
    × (owner_claims.note_id ≡ session.note_id)
    × (extended.expires_at ≡ owner_claims.expires_at)
    × (extended.last_seen_at ≡ 50)
    × (permission_rank extended.permission
        ≡ min (permission_rank session.permission) (permission_rank owner_claims.permission))
    × (lookup session.id (refresh_session "s1" (some owner_claims) 50 live.sessions).1
        ≡ some extended)
unfolding session_runs
refresh_never_escalates_example =
    refresh_never_escalates "s1" owner_claims 50 live.sessions session extended refl refl

-- The user's session is gone, and the ticket still opens a connection.
revoke_user_leaves_tickets_example :
    (lookup "s1" (revoke_user_from_note "n1" "u1" live).1.sessions ≡ none)
    × ((consume_ticket "tk" 20 (revoke_user_from_note "n1" "u1" live).1).0 ≡ redeemed ticket)
unfolding session_runs
revoke_user_leaves_tickets_example =
    revoke_user_leaves_tickets "n1" "u1" "s1" "tk" 20 live refl refl (refl, tt)

refresh_over_revocation_example :
    (lookup "s1" (revoke_session "s1" live).1.sessions ≡ none)
    × ((refresh_session "s1" (some owner_claims) 50 (revoke_session "s1" live).1.sessions).0
        ≡ err session_not_found)
    × ((refresh_write
          (refresh_read "s1" (some owner_claims) 50 live.sessions)
          (revoke_session "s1" live).1.sessions).0
        ≡ ok extended)
    × (lookup "s1"
          (refresh_write
            (refresh_read "s1" (some owner_claims) 50 live.sessions)
            (revoke_session "s1" live).1.sessions).1
        ≡ some extended)
unfolding session_runs
refresh_over_revocation_example =
    refresh_over_revocation "s1" owner_claims 50 live extended refl refl
