-- ===== src/Tests/Queues.antt =====
-- internal/transport/queues.go and internal/domain/envelope.go, at concrete inputs.
use my_pol_go_backend.Prelude.{ℕ, ◌≤◌, none, some, List, [], ◌∷◌, ◌++◌, ◌≡◌, refl, arith}
use my_pol_go_backend.Prelude.Lists.{length, elem}
use my_pol_go_backend.Prelude.Dict.{lookup, insert, delete}
use my_pol_go_backend.Permission.{can_draw}
use my_pol_go_backend.Envelope.{Envelope, may_publish, classify_event, has_prefix_of}
use my_pol_go_backend.Transport.Queues.{
  OutboundQueues, new_outbound_queues, push_ephemeral, take_ephemeral, take_ephemeral_batch,
  push_reliable, enqueue, shed, count_drop, collect, pending_ephemeral, close_reason_of,
  mark_closed_with, take_reliable,
}
use my_pol_go_backend.Transport.Queues.Frames.{frames, upsert}
use my_pol_go_backend.Transport.Queues.Coalescing.{pending, IsQueue}
use my_pol_go_backend.Transport.Queues.Push.{push_ephemeral-IsQueue, pending-push_ephemeral}
use my_pol_go_backend.Transport.Queues.Take.{take_ephemeral_batch_frames}
use my_pol_go_backend.Transport.Queues.Reliable.{
  ReliableCall, pushing, taking, closing, run_reliable, let_in, run_reliable_fifo,
}

-- What a run of the queue computes with.
queue_runs : ℕ
unfolding new_outbound_queues push_ephemeral take_ephemeral take_ephemeral_batch push_reliable
    enqueue shed count_drop collect pending_ephemeral close_reason_of mark_closed_with take_reliable
    run_reliable let_in frames upsert lookup insert delete elem can_draw classify_event
    has_prefix_of may_publish
queue_runs = 0

abbrev cursor : ℕ → Envelope
cursor n = record {
  v = 2;
  message_id = "m";
  session_id = "s";
  channel = "note:n";
  event = "cursor.moved";
  actor_id = none;
  origin = none;
  seq = some n;
  sent_at = n;
  payload = "{}";
}

abbrev two : OutboundQueues
two = new_outbound_queues 2 1

abbrev filled : OutboundQueues
filled = push_ephemeral (cursor 2) "b" (push_ephemeral (cursor 1) "a" two)

two-IsQueue : IsQueue two
unfolding queue_runs
two-IsQueue = record {
  synced = record { once = tt; present = tt; only = λ k h. refl };
  bounded = omega arith;
}

filled-IsQueue : IsQueue filled
filled-IsQueue =
    push_ephemeral-IsQueue (cursor 2) "b" _ (push_ephemeral-IsQueue (cursor 1) "a" two two-IsQueue)

push_ephemeral-IsQueue_example : IsQueue (push_ephemeral (cursor 3) "c" filled)
push_ephemeral-IsQueue_example = push_ephemeral-IsQueue (cursor 3) "c" filled filled-IsQueue

-- A third stream sheds the oldest.
pending-push_ephemeral_example :
    pending (push_ephemeral (cursor 3) "c" filled) ≡ ("b", cursor 2) ∷ ("c", cursor 3) ∷ []
unfolding queue_runs
pending-push_ephemeral_example = pending-push_ephemeral (cursor 3) "c" filled filled-IsQueue refl

take_ephemeral_batch_frames_example :
    ((take_ephemeral_batch 8 filled).0 ≡ cursor 1 ∷ cursor 2 ∷ [])
    × (pending (take_ephemeral_batch 8 filled).1 ≡ [])
    × IsQueue (take_ephemeral_batch 8 filled).1
unfolding queue_runs
take_ephemeral_batch_frames_example = take_ephemeral_batch_frames 8 filled filled-IsQueue

-- The reliable queue has one place.
abbrev full : OutboundQueues
full = (push_reliable (cursor 1) two).1

-- One frame waits; a second is refused, and after a take a third gets in.
abbrev reliable_calls : List ReliableCall
reliable_calls = pushing (cursor 2) ∷ taking ∷ pushing (cursor 3) ∷ closing "gone" ∷ []

run_reliable_fifo_example :
    ((run_reliable reliable_calls full).0 ++ (run_reliable reliable_calls full).1.reliable
      ≡ cursor 1 ∷ cursor 3 ∷ [])
    × (length (run_reliable reliable_calls full).1.reliable ≤ 1)
unfolding queue_runs
run_reliable_fifo_example = run_reliable_fifo reliable_calls full (omega arith)
