-- ===== src/Session/Tickets.antt =====
-- internal/domain/ticket.go and internal/infrastructure/memory_ticket_store.go: one-time tickets.
pub mod SingleUse
use my_pol_go_backend.Prelude.{
  ℕ, String, Bool, true, false, not, Option, none, some, ltb, ◌==◌, if◌then◌else◌,
}
use my_pol_go_backend.Prelude.Lists.{length}
use my_pol_go_backend.Prelude.Dict.{Dict, lookup, insert, delete, delete_where}
use my_pol_go_backend.Permission.{Permission}

pub record ConnectionTicket : Type 0 where
  pub value : String
  pub session_id : String
  pub user_id : String
  pub note_id : String
  pub permission : Permission
  pub expires_at : ℕ
  pub created_at : ℕ

unfoldable pub is_expired : ConnectionTicket → ℕ → Bool
is_expired t now = not (ltb now t.expires_at)

-- `true` is success; a nil ticket, or one without a value, is `ErrTicketNotFound`.
unfoldable pub issue :
    Option ConnectionTicket → Dict ConnectionTicket → Bool × Dict ConnectionTicket
issue none d = (false, d)
issue (some t) d = if t.value == "" then (false, d) else (true, insert t.value t d)

pub data Redemption : Type 0 where
  redeemed : ConnectionTicket → Redemption
  not_found expired : Redemption

abbrev pub redeem : ℕ → Option ConnectionTicket → Redemption
redeem now none = not_found
redeem now (some t) = if is_expired t now then expired else redeemed t

abbrev spend : String → Option ConnectionTicket → Dict ConnectionTicket → Dict ConnectionTicket
spend value none d = d
spend value (some t) d = delete value d

-- A ticket is deleted as it is read, also one that has expired.
unfoldable pub consume : String → ℕ → Dict ConnectionTicket → Redemption × Dict ConnectionTicket
consume value now d = (redeem now (lookup value d), spend value (lookup value d) d)

unfoldable pub sweep_expired : ℕ → Dict ConnectionTicket → ℕ × Dict ConnectionTicket
unfolding is_expired
sweep_expired now d = delete_where (λ t. is_expired t now) d

unfoldable pub delete_by_session : String → Dict ConnectionTicket → ℕ × Dict ConnectionTicket
delete_by_session session_id d = delete_where (λ t. t.session_id == session_id) d

unfoldable pub count : Dict ConnectionTicket → ℕ
count d = length d
