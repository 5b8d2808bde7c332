-- ===== src/Transport/Queues.antt =====
-- internal/transport/queues.go: what a connection has yet to send. Each method holds the queue's
-- mutex or is one channel operation, so it is a function of the queue. The wake channel holds one
-- nudge or none; instants are nanoseconds and an interval is not negative.
pub mod Frames
pub mod Coalescing
pub mod Push
pub mod Take
pub mod Reliable
use text.Mathlib.Text.{starts_with}
use my_pol_go_backend.Prelude.{
  ℕ, zero, suc, ◌+◌, ◌-◌, ◌%◌, ◌^◌, min, String, Bool, true, false, Option, none, some, List, [],
  ◌∷◌, ◌++◌, ltb, eqb, if◌then◌else◌, is_some,
}
use my_pol_go_backend.Prelude.Lists.{length, take, drop}
use my_pol_go_backend.Prelude.Dict.{Dict, lookup, insert, delete}
use my_pol_go_backend.Envelope.{Envelope}

pub record OutboundQueues : Type 0 where
  pub ephemeral : Dict Envelope
  pub ephemeral_order : List String
  pub max_ephemeral : ℕ
  pub dropped : ℕ
  pub dropped_ink : ℕ
  pub reliable : List Envelope
  pub reliable_size : ℕ
  pub reliable_in_flight : ℕ
  pub wake : Bool
  pub closed : Bool
  pub close_reason : String
  pub last_activity : ℕ
  pub last_touch : ℕ

unfoldable pub new_outbound_queues : ℕ → ℕ → OutboundQueues
new_outbound_queues ephemeral_size reliable_size = record {
  ephemeral = [];
  ephemeral_order = [];
  max_ephemeral = ephemeral_size;
  dropped = 0;
  dropped_ink = 0;
  reliable = [];
  reliable_size = reliable_size;
  reliable_in_flight = 0;
  wake = false;
  closed = false;
  close_reason = "";
  last_activity = 0;
  last_touch = 0;
}

unfoldable pub mark_activity : ℕ → OutboundQueues → OutboundQueues
mark_activity now q = record q { last_activity = now }

-- The touch is recorded, and reported, unless the last one is less than an interval ago.
unfoldable pub should_touch : ℕ → ℕ → OutboundQueues → Bool × OutboundQueues
should_touch now interval q =
    if ltb now (q.last_touch + interval) then (false, q) else (true, record q { last_touch = now })

-- Only the first close records its reason.
unfoldable pub mark_closed_with : String → OutboundQueues → OutboundQueues
mark_closed_with reason q =
    if q.closed then q else record q { closed = true; close_reason = reason }

unfoldable pub mark_closed : OutboundQueues → OutboundQueues
unfolding mark_closed_with
mark_closed q = mark_closed_with "" q

unfoldable pub close_reason_of : OutboundQueues → String
close_reason_of q = if q.closed then q.close_reason else ""

-- `signal`: a nudge that is there already stays the one.
unfoldable pub signal : OutboundQueues → OutboundQueues
signal q = record q { wake = true }

-- `true` is `errReliableQueueFull`.
unfoldable pub push_reliable : Envelope → OutboundQueues → Bool × OutboundQueues
unfolding signal
push_reliable envelope q =
    if q.closed
    then (false, q)
    else if ltb (length q.reliable) q.reliable_size
    then (false, signal (record q { reliable = q.reliable ++ envelope ∷ [] }))
    else (true, q)

abbrev is_ink : Option Envelope → Bool
is_ink none = false
is_ink (some e) = starts_with e.event "ink."

-- Both counts are uint64.
unfoldable pub count_drop : Option Envelope → OutboundQueues → OutboundQueues
count_drop envelope q = record q {
  dropped = (q.dropped + 1) % 2 ^ 64;
  dropped_ink = if is_ink envelope then (q.dropped_ink + 1) % 2 ^ 64 else q.dropped_ink;
}

-- The loop that sheds the oldest stream while there are too many: `order` is what is left of the
-- queue's order.
unfoldable pub shed : List String → OutboundQueues → OutboundQueues
unfolding count_drop
shed [] q = record q { ephemeral_order = [] }
shed (oldest ∷ order) q =
    let rest = shed order (record (count_drop (lookup oldest q.ephemeral) q) {
      ephemeral = delete oldest q.ephemeral;
    }) in
    if ltb q.max_ephemeral (length (oldest ∷ order))
    then rest
    else record q { ephemeral_order = oldest ∷ order }

-- The new frame under its key, before any shedding.
unfoldable pub enqueue : Envelope → String → OutboundQueues → OutboundQueues
unfolding count_drop
enqueue envelope coalesce_key q =
    let q' : OutboundQueues =
      if is_some (lookup coalesce_key q.ephemeral)
      then count_drop (lookup coalesce_key q.ephemeral) q
      else record q { ephemeral_order = q.ephemeral_order ++ coalesce_key ∷ [] } in
    record q' { ephemeral = insert coalesce_key envelope q'.ephemeral }

unfoldable pub push_ephemeral : Envelope → String → OutboundQueues → OutboundQueues
push_ephemeral envelope coalesce_key q =
    let q' = enqueue envelope coalesce_key q in if q.closed then q else shed q'.ephemeral_order q'

abbrev take_first : List Envelope → OutboundQueues → Option Envelope × OutboundQueues
take_first [] q = (none, q)
take_first (e ∷ es) q = (some e, record q { reliable = es })

unfoldable pub take_reliable : OutboundQueues → Option Envelope × OutboundQueues
take_reliable q = take_first q.reliable q

unfoldable pub pending_reliable : OutboundQueues → ℕ
pending_reliable q = length q.reliable + q.reliable_in_flight

unfoldable pub pending_ephemeral : OutboundQueues → ℕ
pending_ephemeral q = length q.ephemeral_order

unfoldable pub begin_reliable_write : OutboundQueues → OutboundQueues
begin_reliable_write q = record q { reliable_in_flight = q.reliable_in_flight + 1 }

-- It follows a `begin_reliable_write` in each writer, so the count does not pass below zero.
unfoldable pub end_reliable_write : OutboundQueues → OutboundQueues
end_reliable_write q = record q { reliable_in_flight = q.reliable_in_flight - 1 }

abbrev pub take_key : List String → OutboundQueues → Option Envelope × OutboundQueues
take_key [] q = (none, q)
take_key (key ∷ order) q = (
  lookup key q.ephemeral,
  record q { ephemeral_order = order; ephemeral = delete key q.ephemeral },
)

unfoldable pub take_ephemeral : OutboundQueues → Option Envelope × OutboundQueues
take_ephemeral q = take_key q.ephemeral_order q

-- The loop of `takeEphemeralBatch`: the frames under these keys, and the map without them.
unfoldable pub collect : List String → Dict Envelope → List Envelope × Dict Envelope
collect [] m = ([], m)
collect (key ∷ keys) m = elim (lookup key m) [
  | none ↦ collect keys m
  | some e ↦ let (batch, m') = collect keys (delete key m) in (e ∷ batch, m')
]

unfoldable pub take_ephemeral_batch : ℕ → OutboundQueues → List Envelope × OutboundQueues
unfolding collect
take_ephemeral_batch limit q =
    let count = min limit (length q.ephemeral_order) in
    let (batch, m) = collect (take count q.ephemeral_order) q.ephemeral in
    if eqb limit 0
    then ([], q)
    else if eqb count 0
    then ([], q)
    else (batch, record q { ephemeral = m; ephemeral_order = drop count q.ephemeral_order })
