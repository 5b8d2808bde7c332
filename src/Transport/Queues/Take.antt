-- ===== src/Transport/Queues/Take.antt =====
-- internal/transport/queues.go: `takeEphemeral` and `takeEphemeralBatch`.
use my_pol_go_backend.Prelude.{
  ℕ, zero, suc, ◌≤◌, min, String, Option, none, some, List, [], ◌∷◌, ◌≡◌, refl, sym, ◌∙◌, ap, map,
  arith, eq_iff, Option-cases, Bool-cases, inl, inr, eqb,
}
use my_pol_go_backend.Prelude.Lists.{length, take, drop, elem}
use my_pol_go_backend.Prelude.Dict.{Dict, lookup, delete, lookup-delete}
use my_pol_go_backend.Envelope.{Envelope}
use my_pol_go_backend.Transport.Queues.{
  OutboundQueues, take_ephemeral, take_ephemeral_batch, take_key, collect,
}
use my_pol_go_backend.Transport.Queues.Frames.{
  frames, Present, frames-delete_ne, Present-delete_ne, length-frames,
}
use my_pol_go_backend.Transport.Queues.Coalescing.{pending, IsSynced, IsQueue}

-- The queue without the stream `k` at its front.
abbrev pub popped : String → List String → OutboundQueues → OutboundQueues
popped k ks q = record q { ephemeral_order = ks; ephemeral = delete k q.ephemeral }

pop-IsSynced :
    (k : String) (ks : List String) (m : Dict Envelope) (q : OutboundQueues)
    → IsSynced (record q { ephemeral_order = k ∷ ks; ephemeral = m })
    → IsSynced (record q { ephemeral_order = ks; ephemeral = delete k m })
pop-IsSynced k ks m q s = record {
  once = s.once.1;
  present = Present-delete_ne k ks m s.once.0 s.present.1;
  only =
      λ j h. unfold elem in ground (arith, lookup-delete k j m, s.only j, eq_iff k j, eq_iff j k);
}

abbrev head_frame : List (String × Envelope) → Option Envelope
head_frame [] = none
head_frame ((k, e) ∷ l) = some e

frames-cons :
    (k : String) (ks : List String) (m : Dict Envelope) (v : Envelope)
    → lookup k m ≡ some v
    → frames (k ∷ ks) m ≡ (k, v) ∷ frames ks m
unfolding frames
frames-cons k ks m v e = rw e

collect-cons :
    (k : String) (ks : List String) (m : Dict Envelope) (v : Envelope)
    → lookup k m ≡ some v
    → collect (k ∷ ks) m ≡ (v ∷ (collect ks (delete k m)).0, (collect ks (delete k m)).1)
unfolding collect
collect-cons k ks m v e = rw (e, collect)

-- A stream in a synchronised order has a frame.
frame_of :
    (k : String) (ks : List String) (m : Dict Envelope)
    → Present (k ∷ ks) m
    → (v : Envelope) × (lookup k m ≡ some v)
frame_of k ks m p = elim (Option-cases (lookup k m)) [
  | inl e ↦ absurd (let h = p.0 in ground arith)
  | inr found ↦ found
]

take_key_head :
    (ks : List String) (q : OutboundQueues)
    → IsQueue (record q { ephemeral_order = ks })
    → ((take_key ks (record q { ephemeral_order = ks })).0 ≡ head_frame (frames ks q.ephemeral))
      × (pending (take_key ks (record q { ephemeral_order = ks })).1
          ≡ drop 1 (frames ks q.ephemeral))
      × IsQueue (take_key ks (record q { ephemeral_order = ks })).1
take_key_head [] q v = unfold frames in (refl, refl, v)
take_key_head (k ∷ ks) q v =
    let (e, found) = frame_of k ks q.ephemeral v.synced.present in
    let view = frames-cons k ks q.ephemeral e found in
    (
      found ∙ sym (ap head_frame view),
      frames-delete_ne k ks q.ephemeral v.synced.once.0 ∙ sym (ap (drop 1) view),
      record {
        synced = pop-IsSynced k ks q.ephemeral q v.synced;
        bounded = omega (arith, v.bounded);
      },
    )

-- One frame is the newest of the oldest stream, and the rest stays in order.
pub take_ephemeral_head :
    (q : OutboundQueues)
    → IsQueue q
    → ((take_ephemeral q).0 ≡ head_frame (pending q))
      × (pending (take_ephemeral q).1 ≡ drop 1 (pending q))
      × IsQueue (take_ephemeral q).1
unfolding take_ephemeral
take_ephemeral_head q v = take_key_head q.ephemeral_order q v

-- The loop of the batch over the first streams.
collect-frames :
    (n : ℕ) (ks : List String) (m : Dict Envelope) (q : OutboundQueues)
    → IsSynced (record q { ephemeral_order = ks; ephemeral = m })
    → ((collect (take n ks) m).0 ≡ map (λ f. f.1) (take n (frames ks m)))
      × (frames (drop n ks) (collect (take n ks) m).1 ≡ drop n (frames ks m))
      × IsSynced (record q { ephemeral_order = drop n ks; ephemeral = (collect (take n ks) m).1 })
unfolding collect
collect-frames zero ks m q s = (refl, refl, s)
collect-frames (suc n) [] m q s = unfold frames in (refl, refl, s)
collect-frames (suc n) (k ∷ ks) m q s =
    let (batch, rest, synced) = collect-frames n ks (delete k m) q (pop-IsSynced k ks m q s) in
    let same = frames-delete_ne k ks m s.once.0 in
    let (v, e) = frame_of k ks m s.present in
    rw (collect-cons (k) (take n ks) m v e, frames-cons k ks m v e)
      (
        ap (◌∷◌ v) (batch ∙ ap (λ l. map (λ f. f.1) (take n l)) same),
        rest ∙ ap (drop n) same,
        synced,
      )

length-drop-le : (n : ℕ) (ks : List String) → length (drop n ks) ≤ length ks
length-drop-le zero ks = omega arith
length-drop-le (suc n) [] = omega arith
length-drop-le (suc n) (k ∷ ks) = omega (arith, length-drop-le n ks)

take_over : (n : ℕ) (l : List (String × Envelope)) → take (min n (length l)) l ≡ take n l
take_over zero l = let e : min 0 (length l) ≡ 0 = omega arith in rw e
take_over (suc n) [] = let e : min (suc n) 0 ≡ 0 = omega arith in rw e
take_over (suc n) (x ∷ l) =
    let e : min (suc n) (suc (length l)) ≡ suc (min n (length l)) = omega arith in
    rw e (ap (◌∷◌ x) (take_over n l))

drop_over : (n : ℕ) (l : List (String × Envelope)) → drop (min n (length l)) l ≡ drop n l
drop_over zero l = let e : min 0 (length l) ≡ 0 = omega arith in rw e
drop_over (suc n) [] = let e : min (suc n) 0 ≡ 0 = omega arith in rw e
drop_over (suc n) (x ∷ l) =
    let e : min (suc n) (suc (length l)) ≡ suc (min n (length l)) = omega arith in
    rw e (drop_over n l)

-- The batch of the first `n` streams.
abbrev first_streams : ℕ → OutboundQueues → List Envelope × OutboundQueues
first_streams n q = (
  (collect (take n q.ephemeral_order) q.ephemeral).0,
  record q {
    ephemeral = (collect (take n q.ephemeral_order) q.ephemeral).1;
    ephemeral_order = drop n q.ephemeral_order;
  },
)

-- The early returns of the batch agree with its loop.
take_ephemeral_batch_lem :
    (limit : ℕ) (q : OutboundQueues)
    → take_ephemeral_batch limit q ≡ first_streams (min limit (length q.ephemeral_order)) q
unfolding take_ephemeral_batch collect
take_ephemeral_batch_lem limit q =
    let n = min limit (length q.ephemeral_order) in
    let nothing : n ≡ 0 → ([], q) ≡ first_streams n q = λ e. ap (λ k. first_streams k q) (sym e) in
    elim (Bool-cases (eqb limit 0)) [
      | inl c ↦ simp c (nothing (ground arith))
      | inr c ↦ elim (Bool-cases (eqb n 0)) [
        | inl d ↦ simp (c, d) (nothing (ground arith))
        | inr d ↦ simp (c, d)
      ]
    ]

first_streams_frames :
    (n : ℕ) (q : OutboundQueues)
    → IsQueue q
    → ((first_streams n q).0 ≡ map (λ f. f.1) (take n (pending q)))
      × (pending (first_streams n q).1 ≡ drop n (pending q))
      × IsQueue (first_streams n q).1
first_streams_frames n q v =
    let (batch, rest, synced) = collect-frames n q.ephemeral_order q.ephemeral q v.synced in
    (
      batch,
      rest,
      record {
        synced = synced;
        bounded = omega (arith, v.bounded, length-drop-le n q.ephemeral_order);
      },
    )

-- A batch is the newest frames of the first streams, in order, and leaves the others.
pub take_ephemeral_batch_frames :
    (limit : ℕ) (q : OutboundQueues)
    → IsQueue q
    → ((take_ephemeral_batch limit q).0 ≡ map (λ f. f.1) (take limit (pending q)))
      × (pending (take_ephemeral_batch limit q).1 ≡ drop limit (pending q))
      × IsQueue (take_ephemeral_batch limit q).1
take_ephemeral_batch_frames limit q v =
    let n = min limit (length q.ephemeral_order) in
    let (batch, rest, valid) = first_streams_frames n q v in
    let same : n ≡ min limit (length (pending q)) =
      ap (min limit) (sym (length-frames q.ephemeral_order q.ephemeral v.synced.present)) in
    rw take_ephemeral_batch_lem (
      batch
          ∙ ap (λ k. map (λ f. f.1) (take k (pending q))) same
          ∙ ap (map (λ f. f.1)) (take_over limit (pending q)),
      rest ∙ ap (λ k. drop k (pending q)) same ∙ drop_over limit (pending q),
      valid,
    )
