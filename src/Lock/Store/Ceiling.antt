-- ===== src/Lock/Store/Ceiling.antt =====
-- internal/infrastructure/memory_lock_store.go: the ceiling on a session's leases, for a service whose
-- connections each belong to one session.
use my_pol_go_backend.Prelude.{
  ℕ, ◌≤◌, ◌<◌, ◌⊎◌, refl, sym, ◌∙◌, ◌+◌, inl, inr, Option-cases, String, Option, none, some, List,
  [], ◌∷◌, ◌==◌, ◌≡◌, arith, eq_iff, if◌then◌else◌, Bool,
}
use my_pol_go_backend.Prelude.Dict.{Dict, insert}
use my_pol_go_backend.Prelude.Table.{cell, ensure_row, cell-ensure_row}
use my_pol_go_backend.Prelude.Snapshot.{Entry, entries}
use my_pol_go_backend.Lock.{BlockLock, is_expired}
use my_pol_go_backend.Lock.Store.{
  LockStore, leases_of, decrement_locked, acquire, acquire_cell, renew, release, remove_locked,
  sweep_loop, release_all, sweep_expired,
}
use my_pol_go_backend.Lock.Store.Counting.{
  IsCounted, ensure_row-IsCounted, acquire-IsCounted, renew-IsCounted, release-IsCounted,
  release_all-IsCounted, sweep_expired-IsCounted, leases_of-insert, leases_of-decrement_locked,
}
use my_pol_go_backend.Lock.Store.Cells.{
  held, held-acquire, held-renew, held-release, held-release_all, held-sweep_expired,
}
use my_pol_go_backend.Lock.Store.History.{
  Call, acquires, renews, releases, leaves, sweeps, step, run, AllCalls,
}

-- `owner` gives the session of each connection.
pub record IsCapped (owner : String → String) (limit : ℕ) (s : LockStore) : Type 0 where
  pub counts : IsCounted s
  pub owned :
      (n b : String) (l : BlockLock) → held n b s ≡ some l → l.session_id ≡ owner l.connection_id
  pub capped : (x : String) → leases_of x s.per_session ≤ limit

grant-capped :
    (limit : ℕ) (lock : BlockLock) (per : Dict ℕ) (x : String)
    → leases_of x per ≤ limit
    → leases_of lock.session_id per < limit
    → leases_of x (insert lock.session_id (leases_of lock.session_id per + 1) per) ≤ limit
grant-capped limit lock per x h k =
    ground (arith, leases_of-insert x lock.session_id (leases_of lock.session_id per + 1) per)

exchange-capped :
    (limit : ℕ) (old lock : BlockLock) (per : Dict ℕ) (x : String)
    → 0 < limit
    → leases_of x per ≤ limit
    → leases_of lock.session_id per ≤ limit
    → ((old.session_id ≡ lock.session_id) ⊎ (leases_of lock.session_id per < limit))
    → (let per' : Dict ℕ = decrement_locked old.session_id per in
        leases_of x (insert lock.session_id (leases_of lock.session_id per' + 1) per') ≤ limit)
exchange-capped limit old lock per x c h k o =
    let per' : Dict ℕ = decrement_locked old.session_id per in
    ground (
      arith,
      leases_of-insert x lock.session_id (leases_of lock.session_id per' + 1) per',
      leases_of-decrement_locked x old.session_id per,
      leases_of-decrement_locked lock.session_id old.session_id per,
      eq_iff old.session_id lock.session_id,
      eq_iff lock.session_id x,
    )

ensure_row-IsCapped :
    (owner : String → String) (limit : ℕ) (n : String) (s : LockStore)
    → IsCapped owner limit s
    → IsCapped owner limit (record s { locks = ensure_row n s.locks })
ensure_row-IsCapped owner limit n s v = record {
  counts = ensure_row-IsCounted n s v.counts;
  owned = λ m b l e. v.owned m b l (sym (cell-ensure_row n m b s.locks) ∙ e);
  capped = v.capped;
}

module _ (owner : String → String) (limit now : ℕ) (lock : BlockLock) (positive : 0 < limit)
    (mine : lock.session_id ≡ owner lock.connection_id) where
  acquire_cell-capped :
      (o : Option BlockLock) (s : LockStore)
      → IsCapped owner limit s
      → cell lock.note_id lock.block_id s.locks ≡ o
      → (x : String) → leases_of x (acquire_cell lock limit now o s).1.per_session ≤ limit
  unfolding acquire_cell
  acquire_cell-capped none s v e x =
      let h = v.capped x in ground (arith, grant-capped limit lock s.per_session x)
  acquire_cell-capped (some old) s v e x =
      let h = v.capped x in
      let k = v.capped lock.session_id in
      let same : old.session_id ≡ owner old.connection_id = v.owned _ _ old e in
      ground (
        arith,
        exchange-capped limit old lock s.per_session x positive h k,
        eq_iff old.connection_id lock.connection_id,
      )

  acquire-IsCapped :
      (s : LockStore)
      → IsCapped owner limit s
      → IsCapped owner limit (acquire (some lock) limit now s).1
  acquire-IsCapped s v = record {
    counts = acquire-IsCounted (some lock) limit now s v.counts;
    owned = λ n b l e. ground (arith, held-acquire lock limit now s n b, v.owned n b l);
    capped =
        unfold acquire in
        acquire_cell-capped _ _ (ensure_row-IsCapped owner limit lock.note_id s v) refl;
  }

-- Removing leases lowers counts and brings in nothing.
sweep_loop-le :
    (p : BlockLock → Bool) (es : List (Entry BlockLock)) (s : LockStore) (x : String)
    → leases_of x (sweep_loop p es s).1.per_session ≤ leases_of x s.per_session
unfolding sweep_loop
sweep_loop-le p [] s x = omega arith
sweep_loop-le p ((m, c, l) ∷ es) s x =
    let s' : LockStore = if p l then remove_locked m c l s else s in
    let here : leases_of x s'.per_session ≤ leases_of x s.per_session =
      unfold remove_locked in
      ground (arith, leases_of-decrement_locked x l.session_id s.per_session) in
    omega (arith, sweep_loop-le p es s' x, here)

module _ (owner : String → String) (limit : ℕ) where
  renew-IsCapped :
      (m c i d : String) (e now : ℕ) (s : LockStore)
      → IsCapped owner limit s
      → IsCapped owner limit (renew m c i d e now s).1
  renew-IsCapped m c i d e now s v = record {
    counts = renew-IsCounted m c i d e now s v.counts;
    owned = λ n b l h. elim (Option-cases (cell m c s.locks)) [
      | inl z ↦ unfold renew in ground (arith, held-renew m c i d e now s n b, v.owned n b l)
      | inr (x, z) ↦
          let first = v.owned m c x z in
          unfold renew in ground (arith, held-renew m c i d e now s n b, v.owned n b l, first)
    ];
    capped = λ x. let k = v.capped x in unfold renew in ground arith;
  }

  release-IsCapped :
      (m c i d : String) (s : LockStore)
      → IsCapped owner limit s
      → IsCapped owner limit (release m c i d s).1
  release-IsCapped m c i d s v = record {
    counts = release-IsCounted m c i d s v.counts;
    owned = λ n b l h. ground (arith, held-release m c i d s n b, v.owned n b l);
    capped = λ x.
        let k = v.capped x in
        unfold release remove_locked in
        elim (Option-cases (cell m c s.locks)) [
          | inl z ↦ rw z k
          | inr (y, z) ↦
              rw z (ground (arith, leases_of-decrement_locked x y.session_id s.per_session))
        ];
  }

  release_all-IsCapped :
      (d : String) (s : LockStore)
      → IsCapped owner limit s
      → IsCapped owner limit (release_all d s).1
  release_all-IsCapped d s v = record {
    counts = release_all-IsCounted d s v.counts;
    owned = λ n b l h. ground (arith, held-release_all d s n b v.counts.table, v.owned n b l);
    capped = λ x.
        unfold release_all in
        omega (arith, v.capped x, sweep_loop-le (λ l. l.connection_id == d) (entries s.locks) s x);
  }

  sweep_expired-IsCapped :
      (now : ℕ) (s : LockStore)
      → IsCapped owner limit s
      → IsCapped owner limit (sweep_expired now s).1
  sweep_expired-IsCapped now s v = record {
    counts = sweep_expired-IsCounted now s v.counts;
    owned = λ n b l h. ground (arith, held-sweep_expired now s n b v.counts.table, v.owned n b l);
    capped = λ x.
        unfold sweep_expired in
        omega (arith, v.capped x, sweep_loop-le (λ l. is_expired l now) (entries s.locks) s x);
  }

  -- Every request is made in the name of its connection's session.
  abbrev pub Honest : Call → Type 0
  Honest (acquires lock now) = lock.session_id ≡ owner lock.connection_id
  Honest (renews m c i d e now) = Unit
  Honest (releases m c i d) = Unit
  Honest (leaves d) = Unit
  Honest (sweeps now) = Unit

  step-IsCapped :
      (s : LockStore) (k : Call)
      → 0 < limit
      → Honest k
      → IsCapped owner limit s
      → IsCapped owner limit (step limit s k)
  unfolding step
  step-IsCapped s (acquires lock now) p q v = acquire-IsCapped owner limit now lock p q s v
  step-IsCapped s (renews m c i d e now) p q v = renew-IsCapped m c i d e now s v
  step-IsCapped s (releases m c i d) p q v = release-IsCapped m c i d s v
  step-IsCapped s (leaves d) p q v = release_all-IsCapped d s v
  step-IsCapped s (sweeps now) p q v = sweep_expired-IsCapped now s v

  -- With a positive ceiling no session ever has more leases than it, whatever the calls, if each
  -- request is made in the name of its connection's one session.
  pub run-IsCapped :
      (s : LockStore) (ks : List Call)
      → 0 < limit
      → AllCalls Honest ks
      → IsCapped owner limit s
      → IsCapped owner limit (run limit s ks)
  unfolding run
  run-IsCapped s [] p q v = v
  run-IsCapped s (k ∷ ks) p q v = run-IsCapped (step limit s k) ks p q.1 (step-IsCapped s k p q.0 v)
