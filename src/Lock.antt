-- ===== src/Lock.antt =====
-- internal/domain/lock.go: the lease on one block's geometry, refusals and the outcome of a request.
-- Instants are natural numbers of nanoseconds; copies of a record are the record itself.
pub mod Store
pub mod Service
pub mod Handler
use my_pol_go_backend.Prelude.{
  ℕ, String, Bool, true, false, not, ◌&&◌, Option, none, some, ltb, is_some,
}

pub record BlockLock : Type 0 where
  pub lock_id : String
  pub block_id : String
  pub note_id : String
  pub connection_id : String
  pub session_id : String
  pub user_id : String
  pub acquired_at : ℕ
  pub expires_at : ℕ

unfoldable pub is_expired : BlockLock → ℕ → Bool
is_expired l now = not (ltb now l.expires_at)

-- `Denial == ""` is `unset`.
pub data LockDenial : Type 0 where
  unset held_by_other too_many_locks : LockDenial

pub record AcquireOutcome : Type 0 where
  pub lock : Option BlockLock
  pub holder : Option BlockLock
  pub denial : LockDenial

abbrev no_denial : LockDenial → Bool
no_denial unset = true
no_denial held_by_other = false
no_denial too_many_locks = false

unfoldable pub granted : AcquireOutcome → Bool
granted o = no_denial o.denial && is_some o.lock

abbrev pub denied : LockDenial → Option BlockLock → AcquireOutcome
denied d h = record { lock = none; holder = h; denial = d }

-- `ErrLockNotHeld` and `ErrLockNotFound`.
pub data LockError : Type 0 where
  not_held not_found : LockError

pub data Result : Type 0 where
  ok : BlockLock → Result
  err : LockError → Result
