-- ===== src/Lock/Store/Counting.antt =====
-- internal/infrastructure/memory_lock_store.go: `perSession` against the leases that a session has.
use my_pol_go_backend.Prelude.{
  ℕ, ◌+◌, ◌-◌, String, Bool, Option, none, some, List, [], ◌∷◌, if◌then◌else◌, ◌==◌, ◌≡◌, refl, sym,
  arith, eq_iff, Option-cases, inl, inr, ◌∙◌,
}
use my_pol_go_backend.Prelude.Dict.{Dict, lookup, insert, lookup-insert, lookup-delete, total}
use my_pol_go_backend.Prelude.Table.{
  Table, cell, ensure_row, put, cell-remove, IsTable, ensure_row-IsTable, put-IsTable,
  remove-IsTable, total_cells, total-ensure_row, total-put, total-remove,
}
use my_pol_go_backend.Prelude.Snapshot.{
  Entry, entries, find_entry, DistinctEntries, find_entry-entries, entries-Distinct,
}
use my_pol_go_backend.Lock.{BlockLock}
use my_pol_go_backend.Lock.Store.{
  LockStore, empty, leases_of, decrement_locked, acquire, acquire_cell, grant, renew, release,
  remove_locked, sweep_loop, release_all, sweep_expired,
}

-- Whether a lease is of session `x`, as a number to sum.
abbrev pub of_session : String → BlockLock → ℕ
of_session x l = if l.session_id == x then 1 else 0

-- The leases that session `x` has, by counting them.
abbrev pub leases_in : String → Table BlockLock → ℕ
leases_in x t = total_cells (of_session x) t

pub record IsCounted (s : LockStore) : Type 0 where
  pub table : IsTable s.locks
  pub counted : (x : String) → leases_of x s.per_session ≡ leases_in x s.locks

pub leases_of-insert :
    (x y : String) (n : ℕ) (per : Dict ℕ)
    → leases_of x (insert y n per) ≡ (if y == x then n else leases_of x per)
unfolding leases_of
leases_of-insert x y n per = ground (arith, lookup-insert y x n per)

pub leases_of-decrement_locked :
    (x y : String) (per : Dict ℕ)
    → leases_of x (decrement_locked y per)
      ≡ (if y == x then leases_of x per - 1 else leases_of x per)
unfolding leases_of decrement_locked
leases_of-decrement_locked x y per =
    ground (arith, lookup-insert y x (leases_of y per - 1) per, lookup-delete y x per, eq_iff y x)

pub empty-IsCounted : IsCounted empty
unfolding leases_of lookup total
empty-IsCounted = record { table = record { keys = tt; rows = tt }; counted = λ x. refl }

-- Storing a lease on a free block.
pub grant_free-IsCounted :
    (lock : BlockLock) (s : LockStore)
    → IsCounted s
    → cell lock.note_id lock.block_id s.locks ≡ none
    → IsCounted (grant lock s).1
unfolding grant
grant_free-IsCounted lock s v e = record {
  table = put-IsTable lock.note_id lock.block_id lock s.locks v.table;
  counted = λ x. ground (
    arith,
    v.counted x,
    leases_of-insert x lock.session_id (leases_of lock.session_id s.per_session + 1) s.per_session,
    total-put (of_session x) lock.note_id lock.block_id lock s.locks v.table,
    eq_iff lock.session_id x,
  );
}

-- Storing a lease in place of another, whose session is counted down first.
pub grant_over-IsCounted :
    (lock old : BlockLock) (s : LockStore)
    → IsCounted s
    → cell lock.note_id lock.block_id s.locks ≡ some old
    → IsCounted
        (grant lock (record s { per_session = decrement_locked old.session_id s.per_session })).1
unfolding grant
grant_over-IsCounted lock old s v e = record {
  table = put-IsTable lock.note_id lock.block_id lock s.locks v.table;
  counted = λ x.
      let per : Dict ℕ = decrement_locked old.session_id s.per_session in
      ground (
        arith,
        v.counted x,
        leases_of-insert x lock.session_id (leases_of lock.session_id per + 1) per,
        leases_of-decrement_locked x old.session_id s.per_session,
        leases_of-decrement_locked lock.session_id old.session_id s.per_session,
        total-put (of_session x) lock.note_id lock.block_id lock s.locks v.table,
        total-remove (of_session x) lock.note_id lock.block_id s.locks v.table,
        eq_iff lock.session_id x,
        eq_iff old.session_id x,
      );
}

acquire_cell-IsCounted :
    (lock : BlockLock) (max now : ℕ) (o : Option BlockLock) (s : LockStore)
    → IsCounted s
    → cell lock.note_id lock.block_id s.locks ≡ o
    → IsCounted (acquire_cell lock max now o s).1
unfolding acquire_cell
acquire_cell-IsCounted lock max now none s v e = ground (arith, grant_free-IsCounted lock s v e)
acquire_cell-IsCounted lock max now (some old) s v e =
    ground (arith, grant_over-IsCounted lock old s v e)

-- A row that is made and stays empty changes no count.
pub ensure_row-IsCounted :
    (n : String) (s : LockStore)
    → IsCounted s
    → IsCounted (record s { locks = ensure_row n s.locks })
ensure_row-IsCounted n s v = record {
  table = ensure_row-IsTable n s.locks v.table;
  counted = λ x. omega (arith, v.counted x, total-ensure_row (of_session x) n s.locks v.table);
}

pub acquire-IsCounted :
    (request : Option BlockLock) (max now : ℕ) (s : LockStore)
    → IsCounted s
    → IsCounted (acquire request max now s).1
unfolding acquire
acquire-IsCounted none max now s v = v
acquire-IsCounted (some lock) max now s v =
    acquire_cell-IsCounted lock max now _ _ (ensure_row-IsCounted lock.note_id s v) refl

put_renewed-IsCounted :
    (n b : String) (old l : BlockLock) (s : LockStore)
    → IsCounted s
    → cell n b s.locks ≡ some old
    → l.session_id ≡ old.session_id
    → IsCounted (record s { locks = put n b l s.locks })
put_renewed-IsCounted n b old l s v e same = record {
  table = put-IsTable n b l s.locks v.table;
  counted = λ x. ground (arith, v.counted x, total-put (of_session x) n b l s.locks v.table, same);
}

pub renew-IsCounted :
    (n b lock_id connection_id : String) (expires_at now : ℕ) (s : LockStore)
    → IsCounted s
    → IsCounted (renew n b lock_id connection_id expires_at now s).1
unfolding renew
renew-IsCounted n b lock_id connection_id expires_at now s v =
    elim (Option-cases (cell n b s.locks)) [
      | inl e ↦ rw e v
      | inr (old, e) ↦ rw e (
          ground (
            arith,
            put_renewed-IsCounted n b old (record old { expires_at = expires_at }) s v e refl,
          ))
    ]

pub remove_locked-IsCounted :
    (n b : String) (l : BlockLock) (s : LockStore)
    → IsCounted s
    → cell n b s.locks ≡ some l
    → IsCounted (remove_locked n b l s)
unfolding remove_locked
remove_locked-IsCounted n b l s v e = record {
  table = remove-IsTable n b s.locks v.table;
  counted = λ x. ground (
    arith,
    v.counted x,
    leases_of-decrement_locked x l.session_id s.per_session,
    total-remove (of_session x) n b s.locks v.table,
  );
}

pub release-IsCounted :
    (n b lock_id connection_id : String) (s : LockStore)
    → IsCounted s
    → IsCounted (release n b lock_id connection_id s).1
unfolding release
release-IsCounted n b lock_id connection_id s v = elim (Option-cases (cell n b s.locks)) [
  | inl e ↦ rw e v
  | inr (old, e) ↦ rw e (ground (arith, remove_locked-IsCounted n b old s v e))
]

-- The entries that a loop has yet to visit are still in the store.
abbrev Agree : List (Entry BlockLock) → LockStore → Type 0
Agree es s = (m c : String) (l : BlockLock) → find_entry m c es ≡ some l → cell m c s.locks ≡ some l

Agree-tail :
    (m c : String) (l : BlockLock) (es : List (Entry BlockLock)) (b : Bool) (s : LockStore)
    → find_entry m c es ≡ none
    → Agree ((m, c, l) ∷ es) s
    → Agree es (if b then remove_locked m c l s else s)
unfolding find_entry remove_locked
Agree-tail m c l es b s fresh a i j k e =
    ground (arith, a i j k, cell-remove m c i j s.locks, eq_iff m i, eq_iff c j)

sweep_loop-IsCounted :
    (p : BlockLock → Bool) (es : List (Entry BlockLock)) (s : LockStore)
    → DistinctEntries es
    → Agree es s
    → IsCounted s
    → IsCounted (sweep_loop p es s).1
unfolding sweep_loop
sweep_loop-IsCounted p [] s d a v = v
sweep_loop-IsCounted p ((m, c, l) ∷ es) s d a v =
    sweep_loop-IsCounted p es (if p l then remove_locked m c l s else s) d.1
      (Agree-tail m c l es (p l) s d.0 a)
      (ground (
        arith,
        remove_locked-IsCounted m c l s v
            (a m c l (unfold find_entry in ground (arith, eq_iff m m, eq_iff c c))),
      ))

sweep-IsCounted :
    (p : BlockLock → Bool) (s : LockStore)
    → IsCounted s
    → IsCounted (sweep_loop p (entries s.locks) s).1
sweep-IsCounted p s v =
    sweep_loop-IsCounted p (entries s.locks) s (entries-Distinct s.locks v.table)
      (λ m c l e. sym (find_entry-entries m c s.locks v.table.keys) ∙ e) v

pub release_all-IsCounted :
    (connection_id : String) (s : LockStore)
    → IsCounted s
    → IsCounted (release_all connection_id s).1
unfolding release_all
release_all-IsCounted connection_id s v = sweep-IsCounted _ s v

pub sweep_expired-IsCounted :
    (now : ℕ) (s : LockStore) → IsCounted s → IsCounted (sweep_expired now s).1
unfolding sweep_expired
sweep_expired-IsCounted now s v = sweep-IsCounted _ s v
