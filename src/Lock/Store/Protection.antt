-- ===== src/Lock/Store/Protection.antt =====
-- internal/infrastructure/memory_lock_store.go: a live lease under the calls of others.
use my_pol_go_backend.Prelude.{ℕ, ◌<◌, String, false, some, List, [], ◌∷◌, ◌==◌, ◌≡◌, arith, eq_iff}
use my_pol_go_backend.Lock.{BlockLock, is_expired}
use my_pol_go_backend.Lock.Store.{LockStore, acquire, renew, release}
use my_pol_go_backend.Lock.Store.Counting.{IsCounted}
use my_pol_go_backend.Lock.Store.Cells.{
  held, held-acquire, denial-acquire, granted-acquire, held-renew, held-release, held-release_all,
  held-sweep_expired,
}
use my_pol_go_backend.Lock.Store.History.{
  Call, acquires, renews, releases, leaves, sweeps, AllCalls, step, run, step-IsCounted,
}

-- The call comes from another connection than `c`, or from the sweeper.
abbrev pub Foreign : String → Call → Type 0
Foreign c (acquires lock now) = (c == lock.connection_id) ≡ false
Foreign c (renews n b i d e now) = (c == d) ≡ false
Foreign c (releases n b i d) = (c == d) ≡ false
Foreign c (leaves d) = (c == d) ≡ false
Foreign c (sweeps now) = Unit

-- The call runs before the instant `t`, if it reads the clock.
abbrev pub Before : ℕ → Call → Type 0
Before t (acquires lock now) = now < t
Before t (renews n b i d e now) = now < t
Before t (releases n b i d) = Unit
Before t (leaves d) = Unit
Before t (sweeps now) = now < t

acquire_protects :
    (n b : String) (l lock : BlockLock) (limit now : ℕ) (s : LockStore)
    → held n b s ≡ some l
    → (l.connection_id == lock.connection_id) ≡ false
    → now < l.expires_at
    → held n b (acquire (some lock) limit now s).1 ≡ some l
acquire_protects n b l lock limit now s h f t = ground (
  arith,
  held-acquire lock limit now s n b,
  denial-acquire lock limit now s,
  granted-acquire lock limit now s,
  eq_iff lock.note_id n,
  eq_iff lock.block_id b,
)

renew_protects :
    (n b : String) (l : BlockLock) (m c i d : String) (e now : ℕ) (s : LockStore)
    → held n b s ≡ some l
    → (l.connection_id == d) ≡ false
    → held n b (renew m c i d e now s).1 ≡ some l
unfolding renew
renew_protects n b l m c i d e now s h f =
    ground (arith, held-renew m c i d e now s n b, eq_iff m n, eq_iff c b)

release_protects :
    (n b : String) (l : BlockLock) (m c i d : String) (s : LockStore)
    → held n b s ≡ some l
    → (l.connection_id == d) ≡ false
    → held n b (release m c i d s).1 ≡ some l
unfolding release
release_protects n b l m c i d s h f =
    ground (arith, held-release m c i d s n b, eq_iff m n, eq_iff c b)

step_protects :
    (limit : ℕ) (s : LockStore) (k : Call) (n b : String) (l : BlockLock)
    → IsCounted s
    → held n b s ≡ some l
    → Foreign l.connection_id k
    → Before l.expires_at k
    → held n b (step limit s k) ≡ some l
unfolding step is_expired
step_protects limit s (acquires lock now) n b l v h f t =
    acquire_protects n b l lock limit now s h f t
step_protects limit s (renews m c i d e now) n b l v h f t =
    renew_protects n b l m c i d e now s h f
step_protects limit s (releases m c i d) n b l v h f t = release_protects n b l m c i d s h f
step_protects limit s (leaves d) n b l v h f t = ground (arith, held-release_all d s n b v.table)
step_protects limit s (sweeps now) n b l v h f t =
    ground (arith, held-sweep_expired now s n b v.table)

-- While a lease is live, any calls of other connections and of the sweeper leave it as it is, in
-- whatever order they come.
pub run_protects :
    (limit : ℕ) (s : LockStore) (ks : List Call) (n b : String) (l : BlockLock)
    → IsCounted s
    → held n b s ≡ some l
    → AllCalls (Foreign l.connection_id) ks
    → AllCalls (Before l.expires_at) ks
    → held n b (run limit s ks) ≡ some l
unfolding run
run_protects limit s [] n b l v h f t = h
run_protects limit s (k ∷ ks) n b l v h f t =
    run_protects limit (step limit s k) ks n b l (step-IsCounted limit s k v)
      (step_protects limit s k n b l v h f.0 t.0) f.1 t.1
