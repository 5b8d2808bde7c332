-- ===== src/Transport/Queues/Reliable.antt =====
-- internal/transport/queues.go: the reliable channel and the close reason.
use my_pol_go_backend.Prelude.{
  ℕ, ◌+◌, ◌-◌, ◌≤◌, String, Bool, true, false, Option, none, some, List, [], ◌∷◌, ◌++◌, ◌≡◌, refl,
  ap, sym, ◌∙◌, arith, ltb, not, ◌&&◌, if◌then◌else◌, Bool-cases, inl, inr, ◌⊎◌,
}
use mathlib.Core.List.{append_assoc, append-nil}
use my_pol_go_backend.Prelude.Lists.{length, length-append}
use my_pol_go_backend.Envelope.{Envelope}
use my_pol_go_backend.Transport.Queues.{
  OutboundQueues, push_reliable, take_reliable, mark_closed_with, close_reason_of,
}

-- A call on the reliable channel.
pub data ReliableCall : Type 0 where
  pushing : Envelope → ReliableCall
  taking : ReliableCall
  closing : String → ReliableCall

abbrev handed : Option Envelope → List Envelope → List Envelope
handed none es = es
handed (some e) es = e ∷ es

-- The frames that the calls hand to the writer, and the queue after them.
unfoldable pub run_reliable : List ReliableCall → OutboundQueues → List Envelope × OutboundQueues
run_reliable [] q = ([], q)
run_reliable (pushing e ∷ cs) q = run_reliable cs (push_reliable e q).1
run_reliable (taking ∷ cs) q =
    let rest = run_reliable cs (take_reliable q).1 in (handed (take_reliable q).0 rest.0, rest.1)
run_reliable (closing reason ∷ cs) q = run_reliable cs (mark_closed_with reason q)

-- The frames that are let in, by a count of those that wait: while the connection is open, and
-- fewer than `size` wait.
unfoldable pub let_in : Bool → ℕ → ℕ → List ReliableCall → List Envelope
let_in is_open waiting size [] = []
let_in is_open waiting size (pushing e ∷ cs) =
    let entered = let_in is_open (waiting + 1) size cs in
    let refused = let_in is_open waiting size cs in
    if is_open && ltb waiting size then e ∷ entered else refused
let_in is_open waiting size (taking ∷ cs) = let_in is_open (waiting - 1) size cs
let_in is_open waiting size (closing reason ∷ cs) = let_in false waiting size cs

push_closed :
    (e : Envelope) (q : OutboundQueues) → not q.closed ≡ false → push_reliable e q ≡ (false, q)
unfolding push_reliable
push_closed e q h = ground arith

push_full :
    (e : Envelope) (q : OutboundQueues)
    → ltb (length q.reliable) q.reliable_size ≡ false
    → not q.closed ≡ true
    → push_reliable e q ≡ (true, q)
unfolding push_reliable
push_full e q h c = ground arith

push_enters :
    (e : Envelope) (q : OutboundQueues)
    → not q.closed ≡ true
    → ltb (length q.reliable) q.reliable_size ≡ true
    → push_reliable e q ≡ (false, record q { reliable = q.reliable ++ e ∷ []; wake = true })
unfolding push_reliable
push_enters e q c h = ground arith

run_reliable-pushing :
    (e : Envelope) (cs : List ReliableCall) (q q' : OutboundQueues) (full : Bool)
    → push_reliable e q ≡ (full, q')
    → run_reliable (pushing e ∷ cs) q ≡ run_reliable cs q'
unfolding run_reliable
run_reliable-pushing e cs q q' full h = ap (λ r. run_reliable cs r.1) h

-- What holds of a run, where the frames `entering` are let in.
abbrev IsFifo : List ReliableCall → OutboundQueues → List Envelope → Type 0
IsFifo cs q entering =
    ((run_reliable cs q).0 ++ (run_reliable cs q).1.reliable ≡ q.reliable ++ entering)
    × (length (run_reliable cs q).1.reliable ≤ q.reliable_size)

run_enters :
    (e : Envelope) (cs : List ReliableCall) (q : OutboundQueues) (entering : List Envelope)
    → not q.closed ≡ true
    → ltb (length q.reliable) q.reliable_size ≡ true
    → IsFifo cs (record q { reliable = q.reliable ++ e ∷ []; wake = true }) entering
    → IsFifo (pushing e ∷ cs) q (e ∷ entering)
run_enters e cs q entering c l (order, bound) =
    rw (run_reliable-pushing e cs q _ false (push_enters e q c l))
      (order ∙ append_assoc q.reliable (e ∷ []) entering, bound)

take_nothing : (q : OutboundQueues) → q.reliable ≡ [] → take_reliable q ≡ (none, q)
unfolding take_reliable
take_nothing q h = ground arith

take_head :
    (x : Envelope) (xs : List Envelope) (q : OutboundQueues)
    → q.reliable ≡ x ∷ xs
    → take_reliable q ≡ (some x, record q { reliable = xs })
unfolding take_reliable
take_head x xs q h = ground arith

run_takes :
    (x : Envelope) (xs : List Envelope) (cs : List ReliableCall) (q : OutboundQueues)
    (entering : List Envelope)
    → q.reliable ≡ x ∷ xs
    → IsFifo cs (record q { reliable = xs }) entering
    → IsFifo (taking ∷ cs) q entering
unfolding run_reliable
run_takes x xs cs q entering e (order, bound) =
    rw (take_head x xs q e, e) (ap (λ es. x ∷ es) order, bound)

run_nothing : (q : OutboundQueues) → length q.reliable ≤ q.reliable_size → IsFifo [] q []
unfolding run_reliable
run_nothing q h = (sym (append-nil q.reliable), h)

run_idle :
    (cs : List ReliableCall) (q : OutboundQueues) (entering : List Envelope)
    → q.reliable ≡ []
    → IsFifo cs q entering
    → IsFifo (taking ∷ cs) q entering
unfolding run_reliable
run_idle cs q entering e f = rw (take_nothing q e) f

run_reliable-closing :
    (reason : String) (cs : List ReliableCall) (q : OutboundQueues)
    → q.closed ≡ false
    → run_reliable (closing reason ∷ cs) q
      ≡ run_reliable cs (record q { closed = true; close_reason = reason })
unfolding run_reliable mark_closed_with
run_reliable-closing reason cs q h = rw h refl

run_reliable-closing_again :
    (reason : String) (cs : List ReliableCall) (q : OutboundQueues)
    → q.closed ≡ true
    → run_reliable (closing reason ∷ cs) q ≡ run_reliable cs q
unfolding run_reliable mark_closed_with
run_reliable-closing_again reason cs q h = rw h refl

-- An empty list, or one with a first frame.
pending_cases :
    (es : List Envelope) → (es ≡ []) ⊎ ((e : Envelope) × (rest : List Envelope) × (es ≡ e ∷ rest))
pending_cases [] = inl refl
pending_cases (e ∷ es) = inr (e, es, refl)

fifo :
    (cs : List ReliableCall) (q : OutboundQueues) (b : Bool) (n : ℕ)
    → not q.closed ≡ b
    → length q.reliable ≡ n
    → n ≤ q.reliable_size
    → IsFifo cs q (let_in b n q.reliable_size cs)
unfolding let_in
fifo [] q b n c e h = run_nothing q (omega (arith, e))
fifo (pushing e ∷ cs) q false n c r h =
    rw (run_reliable-pushing e cs q q false (push_closed e q c)) (fifo cs q false n c r h)
fifo (pushing e ∷ cs) q true n c r h = elim (Bool-cases (ltb n q.reliable_size)) [
  | inl l ↦ rw l (
      run_enters e cs q (let_in true (n + 1) q.reliable_size cs) c (ground arith) (
        fifo cs (record q { reliable = q.reliable ++ e ∷ []; wake = true }) true (n + 1) c
          (omega (arith, length-append q.reliable (e ∷ []))) (ground arith)))
  | inr l ↦
      rw (l, run_reliable-pushing e cs q q true (push_full e q (ground arith) c))
        (fifo cs q true n c r h)
]
fifo (taking ∷ cs) q b n c r h = elim (pending_cases q.reliable) [
  | inl e ↦ run_idle cs q _ e (fifo cs q b (n - 1) c (ground arith) (omega arith))
  | inr (x, xs, e) ↦
      run_takes x xs cs q (let_in b (n - 1) q.reliable_size cs) e
        (fifo cs (record q { reliable = xs }) b (n - 1) c (ground arith) (omega arith))
]
fifo (closing reason ∷ cs) q b n c r h = elim (Bool-cases q.closed) [
  | inl e ↦ rw (run_reliable-closing_again reason cs q e) (fifo cs q false n (ground arith) r h)
  | inr e ↦
      rw (run_reliable-closing reason cs q e)
        (fifo cs (record q { closed = true; close_reason = reason }) false n refl r h)
]

-- Over any calls on a queue that is within its size, the frames handed to the writer, in order, and
-- then those that still wait, are those that waited at the start and then those let in since: none is
-- lost, doubled or overtaken. The queue is within its size after them.
pub run_reliable_fifo :
    (cs : List ReliableCall) (q : OutboundQueues)
    → length q.reliable ≤ q.reliable_size
    → ((run_reliable cs q).0 ++ (run_reliable cs q).1.reliable
        ≡ q.reliable ++ let_in (not q.closed) (length q.reliable) q.reliable_size cs)
      × (length (run_reliable cs q).1.reliable ≤ q.reliable_size)
run_reliable_fifo cs q h = fifo cs q (not q.closed) (length q.reliable) refl refl h

-- The reasons of several closes, in turn.
abbrev pub close_all : List String → OutboundQueues → OutboundQueues
close_all [] q = q
close_all (r ∷ rs) q = close_all rs (mark_closed_with r q)

close_all_closed :
    (rs : List String) (q : OutboundQueues)
    → q.closed ≡ true
    → close_reason_of (close_all rs q) ≡ q.close_reason
unfolding mark_closed_with close_reason_of
close_all_closed [] q h = ground arith
close_all_closed (r ∷ rs) q h =
    ground (arith, close_all_closed rs q h, close_all_closed rs (mark_closed_with r q))

-- However often a connection is closed, the reason that it reports is the first one given.
pub close_reason_first :
    (r : String) (rs : List String) (q : OutboundQueues)
    → q.closed ≡ false
    → close_reason_of (close_all (r ∷ rs) q) ≡ r
unfolding mark_closed_with
close_reason_first r rs q h =
    ground (arith, close_all_closed rs (record q { closed = true; close_reason = r }) refl)
