-- ===== src/Lock/Store/History.antt =====
-- Sequences of calls on the lock store: every interleaving of the connections' calls under the mutex
-- is such a sequence. The ceiling is the service's, the same for each request.
use my_pol_go_backend.Prelude.{ℕ, String, some, List, [], ◌∷◌}
use my_pol_go_backend.Lock.{BlockLock}
use my_pol_go_backend.Lock.Store.{LockStore, acquire, renew, release, release_all, sweep_expired}
use my_pol_go_backend.Lock.Store.Counting.{
  IsCounted, acquire-IsCounted, renew-IsCounted, release-IsCounted, release_all-IsCounted,
  sweep_expired-IsCounted,
}

-- A call with the instant at which it runs, where the call reads the clock.
pub data Call : Type 0 where
  acquires : BlockLock → ℕ → Call
  renews : String → String → String → String → ℕ → ℕ → Call
  releases : String → String → String → String → Call
  leaves : String → Call
  sweeps : ℕ → Call

abbrev pub AllCalls : (Call → Type 0) → List Call → Type 0
AllCalls P [] = Unit
AllCalls P (k ∷ ks) = P k × AllCalls P ks

unfoldable pub step : ℕ → LockStore → Call → LockStore
step limit s (acquires lock now) = (acquire (some lock) limit now s).1
step limit s (renews n b lock_id conn expires_at now) = (renew n b lock_id conn expires_at now s).1
step limit s (releases n b lock_id conn) = (release n b lock_id conn s).1
step limit s (leaves conn) = (release_all conn s).1
step limit s (sweeps now) = (sweep_expired now s).1

unfoldable pub run : ℕ → LockStore → List Call → LockStore
run limit s [] = s
run limit s (c ∷ cs) = run limit (step limit s c) cs

pub step-IsCounted :
    (limit : ℕ) (s : LockStore) (c : Call) → IsCounted s → IsCounted (step limit s c)
unfolding step
step-IsCounted limit s (acquires lock now) v = acquire-IsCounted (some lock) limit now s v
step-IsCounted limit s (renews n b i c e now) v = renew-IsCounted n b i c e now s v
step-IsCounted limit s (releases n b i c) v = release-IsCounted n b i c s v
step-IsCounted limit s (leaves c) v = release_all-IsCounted c s v
step-IsCounted limit s (sweeps now) v = sweep_expired-IsCounted now s v

-- Whatever the calls and the ceiling, the store's count of each session's leases stays the number
-- of leases that it has, and each block has at most one.
pub run-IsCounted :
    (limit : ℕ) (s : LockStore) (cs : List Call) → IsCounted s → IsCounted (run limit s cs)
unfolding run
run-IsCounted limit s [] v = v
run-IsCounted limit s (c ∷ cs) v =
    run-IsCounted limit (step limit s c) cs (step-IsCounted limit s c v)
