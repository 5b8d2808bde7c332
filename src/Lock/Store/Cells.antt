-- ===== src/Lock/Store/Cells.antt =====
-- internal/infrastructure/memory_lock_store.go: what each method does to the lease of every block.
use my_pol_go_backend.Prelude.{
  ℕ, String, Bool, true, false, not, ◌&&◌, Option, none, some, List, [], ◌∷◌, if◌then◌else◌, ltb,
  leb, ◌==◌, ◌↔◌, ◌≡◌, refl, arith, eq_iff, Option-cases, inl, inr,
}
use my_pol_go_backend.Prelude.Table.{
  cell, ensure_row, cell-ensure_row, cell-put, cell-remove, IsTable,
}
use my_pol_go_backend.Prelude.Snapshot.{
  Entry, entries, find_entry, DistinctEntries, find_entry-entries, entries-Distinct,
}
use my_pol_go_backend.Lock.{
  BlockLock, is_expired, granted, unset, held_by_other, too_many_locks, ok, err,
}
use my_pol_go_backend.Lock.Store.{
  LockStore, leases_of, at_ceiling, acquire, acquire_cell, renew, release, remove_locked,
  sweep_loop, release_all, sweep_expired,
}

-- The lease on a block, lapsed or not.
abbrev pub held : String → String → LockStore → Option BlockLock
held n b s = cell n b s.locks

pub cell-acquire_cell :
    (lock : BlockLock) (max now : ℕ) (o : Option BlockLock) (s : LockStore) (n b : String)
    → held n b (acquire_cell lock max now o s).1 ≡ (
        if granted (acquire_cell lock max now o s).0 && (lock.note_id == n && lock.block_id == b)
        then some lock
        else held n b s)
unfolding acquire_cell granted
cell-acquire_cell lock max now none s n b =
    ground (arith, cell-put lock.note_id lock.block_id n b lock s.locks)
cell-acquire_cell lock max now (some e) s n b =
    ground (arith, cell-put lock.note_id lock.block_id n b lock s.locks)

-- A granted request stores exactly its lease, and a refused one leaves every lease as it was.
pub held-acquire :
    (lock : BlockLock) (max now : ℕ) (s : LockStore) (n b : String)
    → held n b (acquire (some lock) max now s).1 ≡ (
        if granted (acquire (some lock) max now s).0 && (lock.note_id == n && lock.block_id == b)
        then some lock
        else held n b s)
unfolding acquire
held-acquire lock max now s n b =
    let s' : LockStore = record s { locks = ensure_row lock.note_id s.locks } in
    let o : Option BlockLock = cell lock.note_id lock.block_id s'.locks in
    ground
      (arith, cell-acquire_cell lock max now o s' n b, cell-ensure_row lock.note_id n b s.locks)

-- Another connection's lease on the block, not yet lapsed.
abbrev pub contested : BlockLock → ℕ → Option BlockLock → Bool
contested lock now none = false
contested lock now (some e) = not (e.connection_id == lock.connection_id) && ltb now e.expires_at

-- The requesting connection has the block already, lapsed or not.
abbrev pub regrant : BlockLock → Option BlockLock → Bool
regrant lock none = false
regrant lock (some e) = e.connection_id == lock.connection_id

-- The session has a lease for each place under the ceiling, which counts only if it is not zero.
abbrev pub full : BlockLock → ℕ → LockStore → Bool
full lock max s = ltb 0 max && leb max (leases_of lock.session_id s.per_session)

-- The answer to a request, in the order of the tests: another's live lease refuses it, then the
-- ceiling unless the block is the caller's already, and otherwise it is granted.
pub denial-acquire :
    (lock : BlockLock) (max now : ℕ) (s : LockStore)
    → (acquire (some lock) max now s).0.denial ≡ (
        if contested lock now (held lock.note_id lock.block_id s)
        then held_by_other
        else if not (regrant lock (held lock.note_id lock.block_id s)) && full lock max s
        then too_many_locks
        else unset)
unfolding acquire is_expired at_ceiling
denial-acquire lock max now s =
    ground (arith, cell-ensure_row lock.note_id lock.note_id lock.block_id s.locks)

-- A grant is a refusal's absence, and hands back the requested lease.
pub granted-acquire :
    (lock : BlockLock) (max now : ℕ) (s : LockStore)
    → (granted (acquire (some lock) max now s).0 ≡ true)
      ↔ ((acquire (some lock) max now s).0.denial ≡ unset)
unfolding acquire granted
granted-acquire lock max now s =
    elim (Option-cases (cell lock.note_id lock.block_id (ensure_row lock.note_id s.locks))) [
      | inl e ↦ rw e (ground arith)
      | inr (x, e) ↦ rw e (ground arith)
    ]

-- A renewal that succeeds moves the expiry of the named lease and nothing else.
pub held-renew :
    (m c lock_id connection_id : String) (expires_at now : ℕ) (s : LockStore) (n b : String)
    → held n b (renew m c lock_id connection_id expires_at now s).1
      ≡ (elim (renew m c lock_id connection_id expires_at now s).0 [
        | ok l ↦ if m == n && c == b then some l else held n b s
        | err e ↦ held n b s
      ])
unfolding renew
held-renew m c lock_id connection_id expires_at now s n b = elim (Option-cases (cell m c s.locks)) [
  | inl e ↦ rw e (ground arith)
  | inr (x, e) ↦
      rw e (ground (arith, cell-put m c n b (record x { expires_at = expires_at }) s.locks))
]

-- A release that succeeds frees the named block and no other.
pub held-release :
    (m c lock_id connection_id : String) (s : LockStore) (n b : String)
    → held n b (release m c lock_id connection_id s).1
      ≡ (elim (release m c lock_id connection_id s).0 [
        | ok l ↦ if m == n && c == b then none else held n b s
        | err e ↦ held n b s
      ])
unfolding release remove_locked
held-release m c lock_id connection_id s n b = elim (Option-cases (cell m c s.locks)) [
  | inl e ↦ rw e (ground arith)
  | inr (x, e) ↦ rw e (ground (arith, cell-remove m c n b s.locks))
]

abbrev pub passes : (BlockLock → Bool) → Option BlockLock → Bool
passes p none = false
passes p (some l) = p l

held-sweep_loop :
    (p : BlockLock → Bool) (es : List (Entry BlockLock)) (s : LockStore) (n b : String)
    → DistinctEntries es
    → held n b (sweep_loop p es s).1 ≡ (if passes p (find_entry n b es) then none else held n b s)
unfolding sweep_loop find_entry
held-sweep_loop p [] s n b h = refl
held-sweep_loop p ((m, c, l) ∷ es) s n b h =
    let s' : LockStore = if p l then remove_locked m c l s else s in
    let here : held n b s' ≡ (if p l && (m == n && c == b) then none else held n b s) =
      unfold remove_locked in ground (arith, cell-remove m c n b s.locks) in
    ground (arith, held-sweep_loop p es s' n b h.1, here, h.0, eq_iff m n, eq_iff c b)

held-sweep :
    (p : BlockLock → Bool) (s : LockStore) (n b : String)
    → IsTable s.locks
    → held n b (sweep_loop p (entries s.locks) s).1
      ≡ (if passes p (held n b s) then none else held n b s)
held-sweep p s n b h =
    rw (held-sweep_loop p (entries s.locks) s n b (entries-Distinct s.locks h))
      (rw (find_entry-entries n b s.locks h.keys) refl)

-- When a connection ends, its leases go and every other stays.
pub held-release_all :
    (connection_id : String) (s : LockStore) (n b : String)
    → IsTable s.locks
    → held n b (release_all connection_id s).1
      ≡ (if passes (λ l. l.connection_id == connection_id) (held n b s) then none else held n b s)
unfolding release_all
held-release_all connection_id s n b h = held-sweep _ s n b h

-- A sweep removes the leases that have lapsed and no other.
pub held-sweep_expired :
    (now : ℕ) (s : LockStore) (n b : String)
    → IsTable s.locks
    → held n b (sweep_expired now s).1
      ≡ (if passes (λ l. is_expired l now) (held n b s) then none else held n b s)
unfolding sweep_expired
held-sweep_expired now s n b h = held-sweep _ s n b h
