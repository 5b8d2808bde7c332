-- ===== src/Tests/Locks.antt =====
-- internal/infrastructure/memory_lock_store.go and its service and handlers, at concrete inputs.
use my_pol_go_backend.Prelude.{
  ℕ, String, Bool, true, false, not, some, List, [], ◌∷◌, ◌≡◌, refl, arith, ◌==◌, if◌then◌else◌,
}
use my_pol_go_backend.Prelude.Dict.{lookup, insert, delete}
use my_pol_go_backend.Prelude.Table.{cell, row, ensure_row, put, remove}
use my_pol_go_backend.Prelude.Snapshot.{entries}
use my_pol_go_backend.Connection.{Connection}
use my_pol_go_backend.Prelude.Lists.{elem}
use my_pol_go_backend.Permission.{can_draw}
use my_pol_go_backend.Lock.{BlockLock, is_expired, granted}
use my_pol_go_backend.Lock.Store.{
  LockStore, empty, sweep_loop, remove_locked, decrement_locked, acquire, renew, release, leases_of,
  release_all, sweep_expired,
}
use my_pol_go_backend.Lock.Store.Cells.{held}
use my_pol_go_backend.Lock.Store.Counting.{IsCounted, empty-IsCounted}
use my_pol_go_backend.Lock.Store.History.{
  Call, acquires, renews, releases, leaves, sweeps, step, run, run-IsCounted,
}
use my_pol_go_backend.Lock.Store.Ceiling.{IsCapped, run-IsCapped}
use my_pol_go_backend.Lock.Store.Protection.{run_protects}
use my_pol_go_backend.Lock.Service.{BlockLockSettings, requested, request}
use my_pol_go_backend.Lock.Handler.{
  Arbiter, BlockLockRequest, block_lock_handler, transform_guard, event_lock_request,
}
use my_pol_go_backend.Lock.Handler.Answers.{grant_then_guard, answers_relayable}
use my_pol_go_backend.Envelope.{may_publish}

-- What a run of the lock code computes with.
lock_runs : ℕ
unfolding run step acquire renew release release_all sweep_expired sweep_loop remove_locked
    decrement_locked leases_of cell row ensure_row put remove lookup insert delete entries
    is_expired granted request requested elem can_draw
lock_runs = 0

abbrev lease_a : BlockLock
lease_a = record {
  lock_id = "k1";
  block_id = "b1";
  note_id = "n1";
  connection_id = "c1";
  session_id = "s1";
  user_id = "u1";
  acquired_at = 0;
  expires_at = 50;
}

-- Another connection's request for the same block.
abbrev lease_b : BlockLock
lease_b = record lease_a {
  lock_id = "k2";
  connection_id = "c2";
  session_id = "s2";
  user_id = "u2";
  acquired_at = 10;
  expires_at = 60;
}

abbrev calls : List Call
calls =
    acquires lease_b 10
    ∷ renews "n1" "b1" "k1" "c2" 90 20
    ∷ releases "n1" "b1" "k1" "c2"
    ∷ leaves "c2"
    ∷ sweeps 30
    ∷ []

abbrev after_a : LockStore
after_a = run 2 empty (acquires lease_a 0 ∷ [])

-- What the calls leave is the first holder's lease.
lease_survives : held "n1" "b1" (run 2 after_a calls) ≡ some lease_a
unfolding lock_runs
lease_survives = refl

after_a-held : held "n1" "b1" after_a ≡ some lease_a
unfolding lock_runs
after_a-held = refl

run-IsCounted_example : IsCounted (run 2 empty (acquires lease_a 0 ∷ calls))
run-IsCounted_example = run-IsCounted 2 empty (acquires lease_a 0 ∷ calls) empty-IsCounted

run_protects_example : held "n1" "b1" (run 2 after_a calls) ≡ some lease_a
run_protects_example =
    run_protects 2 after_a calls "n1" "b1" lease_a
      (run-IsCounted 2 empty (acquires lease_a 0 ∷ []) empty-IsCounted) after_a-held
      (refl, (refl, (refl, (refl, (tt, tt))))) (omega arith)

abbrev owner : String → String
owner c = if c == "c2" then "s2" else "s1"

empty-IsCapped : IsCapped owner 2 empty
empty-IsCapped = record {
  counts = empty-IsCounted;
  owned = λ n b l h. unfold cell lookup in ground (arith, h);
  capped = λ x. unfold leases_of lookup in omega arith;
}

run-IsCapped_example : IsCapped owner 2 (run 2 empty (acquires lease_a 0 ∷ calls))
run-IsCapped_example =
    run-IsCapped owner 2 empty (acquires lease_a 0 ∷ calls) (omega arith)
      (refl, (refl, (tt, (tt, (tt, (tt, tt)))))) empty-IsCapped

after_a-IsCounted : IsCounted after_a
after_a-IsCounted = run-IsCounted 2 empty (acquires lease_a 0 ∷ []) empty-IsCounted

abbrev alice : Connection
alice = record {
  id = "c1";
  session_id = "s1";
  user_id = "u1";
  note_id = "n1";
  permission = "edit";
  connected_at = 0;
}

abbrev bob : Connection
bob = record alice { id = "c2"; session_id = "s2"; user_id = "u2" }

abbrev five_seconds : BlockLockSettings
five_seconds = record { lease = 5_000_000_000; max_per_session = 2 }

abbrev arbiter : Arbiter
arbiter = record {
  locks = some empty;
  settings = five_seconds;
  draining = false;
  denied_count = 0;
  active = 0;
  sent = [];
}

-- A decoder of one payload, and the block that one frame names.
abbrev decode : String → BlockLockRequest × Bool
decode payload = (record { block_id = "b1"; lock_id = "k1" }, not (payload == "lock b1"))

abbrev subject : String → String
subject frame = if frame == "move b1" then "b1" else ""

grant_then_guard_example :
    (transform_guard subject bob "block.transform.commit" "move b1" 7
      (block_lock_handler decode alice event_lock_request "lock b1" 5 arbiter).1).0
    ≡ false
unfolding lock_runs
grant_then_guard_example =
    grant_then_guard decode subject alice bob "lock b1" "block.transform.commit" "move b1" 5 7 empty
      arbiter refl refl refl refl refl refl refl (omega arith) refl

answers_relayable_example :
    (may_publish "edit" "block.lock.granted" ≡ true)
    × (block_lock_handler decode bob "block.lock.granted" "" 5 arbiter ≡ (false, arbiter))
    × (transform_guard subject bob "block.lock.granted" "" 5 arbiter ≡ (true, arbiter))
unfolding lock_runs
answers_relayable_example =
    answers_relayable decode subject "edit" bob "block.lock.granted" "" 5 arbiter refl refl
