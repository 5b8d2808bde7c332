-- ===== src/Lock/Store.antt =====
-- internal/infrastructure/memory_lock_store.go: the live leases by note and block, and a count of
-- leases for each session. Each method runs under the store's mutex, so it is one step: a function
-- of the store. A ceiling that is zero or negative is 0 here, and means no ceiling in both.
pub mod Cells
pub mod Counting
pub mod History
pub mod Ceiling
pub mod Protection
use my_pol_go_backend.Prelude.{
  ℕ, ◌+◌, ◌-◌, String, Bool, true, false, not, ◌&&◌, Option, none, some, List, [], ◌∷◌, ltb, leb,
  if◌then◌else◌, get_or, ◌==◌,
}
use my_pol_go_backend.Prelude.Lists.{length}
use my_pol_go_backend.Prelude.Dict.{Dict, lookup, insert, delete, total}
use my_pol_go_backend.Prelude.Table.{Table, row, cell, ensure_row, put, remove}
use my_pol_go_backend.Prelude.Snapshot.{Entry, entries}
use my_pol_go_backend.Lock.{
  BlockLock, is_expired, AcquireOutcome, unset, held_by_other, too_many_locks, denied, not_held,
  not_found, Result, ok, err,
}

pub record LockStore : Type 0 where
  pub locks : Table BlockLock
  pub per_session : Dict ℕ

abbrev pub empty : LockStore
empty = record { locks = []; per_session = [] }

-- `s.perSession[sessionID]`, where a missing key reads as zero.
unfoldable pub leases_of : String → Dict ℕ → ℕ
leases_of x per = get_or 0 (lookup x per)

unfoldable pub decrement_locked : String → Dict ℕ → Dict ℕ
unfolding leases_of
decrement_locked x per =
    let n = leases_of x per in if leb n 1 then delete x per else insert x (n - 1) per

unfoldable pub remove_locked : String → String → BlockLock → LockStore → LockStore
remove_locked n b l s = record s {
  locks = remove n b s.locks;
  per_session = decrement_locked l.session_id s.per_session;
}

-- The end of `Acquire`: the lease is stored and counted.
unfoldable pub grant : BlockLock → LockStore → AcquireOutcome × LockStore
unfolding leases_of
grant lock s = (
  record { lock = some lock; holder = none; denial = unset },
  record s {
    locks = put lock.note_id lock.block_id lock s.locks;
    per_session =
        insert lock.session_id (leases_of lock.session_id s.per_session + 1) s.per_session;
  },
)

unfoldable pub at_ceiling : BlockLock → ℕ → LockStore → Bool
unfolding leases_of
at_ceiling lock max_per_session s =
    ltb 0 max_per_session && leb max_per_session (leases_of lock.session_id s.per_session)

-- `Acquire` after `existing, held := blocks[lock.BlockID]`.
unfoldable pub acquire_cell :
    BlockLock → ℕ → ℕ → Option BlockLock → LockStore → AcquireOutcome × LockStore
unfolding grant at_ceiling
acquire_cell lock max_per_session now none s =
    if at_ceiling lock max_per_session s then (denied too_many_locks none, s) else grant lock s
acquire_cell lock max_per_session now (some existing) s =
    let reacquiring = existing.connection_id == lock.connection_id in
    if not reacquiring && not (is_expired existing now)
    then (denied held_by_other (some existing), s)
    else if not reacquiring && at_ceiling lock max_per_session s
    then (denied too_many_locks none, s)
    else grant lock (record s { per_session = decrement_locked existing.session_id s.per_session })

-- The row of the note is made before anything is tested.
unfoldable pub acquire : Option BlockLock → ℕ → ℕ → LockStore → AcquireOutcome × LockStore
unfolding acquire_cell
acquire none max_per_session now s = (denied held_by_other none, s)
acquire (some lock) max_per_session now s =
    let s' : LockStore = record s { locks = ensure_row lock.note_id s.locks } in
    acquire_cell lock max_per_session now (cell lock.note_id lock.block_id s'.locks) s'

unfoldable pub renew_cell :
    String → String → String → String → ℕ → ℕ → Option BlockLock → LockStore → Result × LockStore
renew_cell n b lock_id connection_id expires_at now none s = (err not_found, s)
renew_cell n b lock_id connection_id expires_at now (some existing) s =
    if is_expired existing now
    then (err not_found, s)
    else if not (existing.lock_id == lock_id && existing.connection_id == connection_id)
    then (err not_held, s)
    else (
      ok (record existing { expires_at = expires_at }),
      record s { locks = put n b (record existing { expires_at = expires_at }) s.locks },
    )

unfoldable pub renew : String → String → String → String → ℕ → ℕ → LockStore → Result × LockStore
unfolding renew_cell
renew n b lock_id connection_id expires_at now s =
    renew_cell n b lock_id connection_id expires_at now (cell n b s.locks) s

unfoldable pub release_cell :
    String → String → String → String → Option BlockLock → LockStore → Result × LockStore
release_cell n b lock_id connection_id none s = (err not_found, s)
release_cell n b lock_id connection_id (some existing) s =
    if not (existing.lock_id == lock_id && existing.connection_id == connection_id)
    then (err not_held, s)
    else (ok existing, remove_locked n b existing s)

unfoldable pub release : String → String → String → String → LockStore → Result × LockStore
unfolding release_cell
release n b lock_id connection_id s = release_cell n b lock_id connection_id (cell n b s.locks) s

-- The loop of `ReleaseAllForConnection` and of `SweepExpired`: every entry that passes the test is
-- collected and removed.
unfoldable pub sweep_loop :
    (BlockLock → Bool) → List (Entry BlockLock) → LockStore → List BlockLock × LockStore
sweep_loop p [] s = ([], s)
sweep_loop p ((n, b, l) ∷ es) s =
    let (ls, s') = sweep_loop p es (if p l then remove_locked n b l s else s) in
    (if p l then l ∷ ls else ls, s')

unfoldable pub release_all : String → LockStore → List BlockLock × LockStore
release_all connection_id s = sweep_loop (λ l. l.connection_id == connection_id) (entries s.locks) s

unfoldable pub sweep_expired : ℕ → LockStore → List BlockLock × LockStore
sweep_expired now s = sweep_loop (λ l. is_expired l now) (entries s.locks) s

abbrev unless_expired : ℕ → Option BlockLock → Option BlockLock
unless_expired now none = none
unless_expired now (some l) = if is_expired l now then none else some l

unfoldable pub holder : String → String → ℕ → LockStore → Option BlockLock
holder n b now s = unless_expired now (cell n b s.locks)

unfoldable pub count : LockStore → ℕ
unfolding total
count s = total length s.locks
