-- ===== src/Control/Demotion.antt =====
-- internal/transport/handlers.go and internal/transport/ws_connection.go: a new permission and the
-- tickets that are out.
use my_pol_go_backend.Prelude.{ℕ, String, Option, ◌≡◌, refl, if_intro, not}
use my_pol_go_backend.Permission.{Permission, valid}
use my_pol_go_backend.Session.{SessionError}
use my_pol_go_backend.Session.Tickets.{ConnectionTicket, Redemption}
use my_pol_go_backend.Session.Service.{SessionService, consume_ticket, update_session_permission}
use my_pol_go_backend.Room.{new_peer}

tickets_kept :
    (session_id : String) (p : Permission) (s : SessionService)
    → (update_session_permission session_id p s).1.tickets ≡ s.tickets
unfolding update_session_permission
tickets_kept session_id p s =
    if_intro (λ (r : Option SessionError × SessionService). r.1.tickets ≡ s.tickets) (not (valid p))
      _ _ (λ _. refl) (λ _. refl)

-- A ticket that was issued before its session's permission was changed is redeemed as if it had not been
-- changed, and the connection that is opened with it has the permission that the ticket was issued with.
pub consume_ticket-update_session_permission :
    (session_id value id : String) (p : Permission) (now ephemeral_queue reliable_queue : ℕ)
    (t : ConnectionTicket) (s : SessionService)
    → (consume_ticket value now s).0 ≡ Redemption.redeemed t
    → ((consume_ticket value now (update_session_permission session_id p s).1).0
        ≡ Redemption.redeemed t)
      × ((new_peer id t ephemeral_queue reliable_queue now).connection.permission ≡ t.permission)
unfolding consume_ticket new_peer
consume_ticket-update_session_permission session_id value id p now eq rq t s h =
    (rw (tickets_kept session_id p s) h, refl)
