-- ===== src/Lock/Service/Authority.antt =====
-- internal/application/block_lock_service.go: who may move a block.
use my_pol_go_backend.Prelude.{
  ℕ, ◌+◌, ◌<◌, String, true, none, some, ◌==◌, ◌≡◌, arith, eq_iff, if◌then◌else◌,
}
use my_pol_go_backend.Connection.{Connection}
use my_pol_go_backend.Lock.{is_expired, granted}
use my_pol_go_backend.Lock.Store.{LockStore, holder}
use my_pol_go_backend.Lock.Store.Cells.{held-acquire}
use my_pol_go_backend.Lock.Service.{BlockLockSettings, requested, request, blocked_by}

-- After a grant the block is the requester's until the lease ends: any other connection on the
-- note is told so, and the requester is not barred.
pub request_bars_others :
    (settings : BlockLockSettings) (c d : Connection) (block_id lock_id : String) (now later : ℕ)
    (s : LockStore)
    → granted (request settings c block_id lock_id now s).0 ≡ true
    → d.note_id ≡ c.note_id
    → later < now + settings.lease
    → blocked_by d block_id later (request settings c block_id lock_id now s).1
      ≡ (if c.id == d.id then none else some (requested settings c block_id lock_id now))
unfolding request blocked_by holder is_expired granted
request_bars_others settings c d block_id lock_id now later s g n t = ground (
  arith,
  held-acquire (requested settings c block_id lock_id now) settings.max_per_session now s c.note_id
      block_id,
  eq_iff c.note_id c.note_id,
  eq_iff block_id block_id,
)
