-- ===== src/Lock/Service.antt =====
-- internal/application/block_lock_service.go: leases in the name of an authenticated connection.
-- `now` is what the service's clock reads at the call. A lease that is not positive is 0 here.
pub mod Authority
use my_pol_go_backend.Prelude.{
  ℕ, ◌+◌, ◌*◌, ◌/◌, String, ◌||◌, Option, none, some, ◌==◌, eqb, if◌then◌else◌, List,
}
use my_pol_go_backend.Connection.{Connection}
use my_pol_go_backend.Lock.{BlockLock, AcquireOutcome, held_by_other, denied, Result}
use my_pol_go_backend.Lock.Store.{
  LockStore, acquire, renew, release, release_all, sweep_expired, holder, count,
}

pub record BlockLockSettings : Type 0 where
  pub lease : ℕ
  pub max_per_session : ℕ

-- `NewBlockLockService`: an unset lease is five seconds.
unfoldable pub new_settings : BlockLockSettings → BlockLockSettings
new_settings settings =
    if eqb settings.lease 0 then record settings { lease = 5 * 1_000_000_000 } else settings

-- The lease that a connection asks for: every identity is the connection's own.
unfoldable pub requested : BlockLockSettings → Connection → String → String → ℕ → BlockLock
requested settings c block_id lock_id now = record {
  lock_id = lock_id;
  block_id = block_id;
  note_id = c.note_id;
  connection_id = c.id;
  session_id = c.session_id;
  user_id = c.user_id;
  acquired_at = now;
  expires_at = now + settings.lease;
}

unfoldable pub request :
    BlockLockSettings → Connection → String → String → ℕ → LockStore → AcquireOutcome × LockStore
unfolding requested
request settings c block_id lock_id now s =
    if block_id == "" || lock_id == ""
    then (denied held_by_other none, s)
    else acquire (some (requested settings c block_id lock_id now)) settings.max_per_session now s

unfoldable pub renew_lease :
    BlockLockSettings → Connection → String → String → ℕ → LockStore → Result × LockStore
renew_lease settings c block_id lock_id now s =
    renew c.note_id block_id lock_id c.id (now + settings.lease) now s

unfoldable pub release_lease : Connection → String → String → LockStore → Result × LockStore
release_lease c block_id lock_id s = release c.note_id block_id lock_id c.id s

unfoldable pub release_connection : String → LockStore → List BlockLock × LockStore
release_connection connection_id s = release_all connection_id s

unfoldable pub sweep : ℕ → LockStore → List BlockLock × LockStore
sweep now s = sweep_expired now s

abbrev unless_own : Connection → Option BlockLock → Option BlockLock
unless_own c none = none
unless_own c (some l) = if l.connection_id == c.id then none else some l

-- The live lease that bars the connection from moving the block, if there is one.
unfoldable pub blocked_by : Connection → String → ℕ → LockStore → Option BlockLock
blocked_by c block_id now s =
    if block_id == "" then none else unless_own c (holder c.note_id block_id now s)

unfoldable pub active_locks : LockStore → ℕ
active_locks s = count s

-- What peers may see of a holder.
pub record PublicHolder : Type 0 where
  pub block_id : String
  pub lock_id : String
  pub connection_id : String
  pub user_id : String
  pub expires_at : ℕ

-- `UnixMilli` of an instant in nanoseconds since the Unix epoch.
abbrev pub unix_milli : ℕ → ℕ
unix_milli t = t / 1_000_000

unfoldable pub public_holder_of : BlockLock → PublicHolder
public_holder_of l = record {
  block_id = l.block_id;
  lock_id = l.lock_id;
  connection_id = l.connection_id;
  user_id = l.user_id;
  expires_at = unix_milli l.expires_at;
}
