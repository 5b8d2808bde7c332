-- ===== src/Transport/Queues/Push.antt =====
-- internal/transport/queues.go: `pushEphemeral`.
use my_pol_go_backend.Prelude.{
  ℕ, suc, ◌+◌, ◌-◌, ◌%◌, ◌^◌, ◌≤◌, ◌<◌, String, true, false, some, List, [], ◌∷◌, ◌≡◌, refl, sym,
  subst, ltb, ◌∙◌, ap, ◌==◌, if◌then◌else◌, is_some, arith, eq_iff, Bool-cases, inl, inr,
}
use my_pol_go_backend.Prelude.Lists.{length, drop, length-append}
use my_pol_go_backend.Prelude.Dict.{lookup, delete}
use my_pol_go_backend.Envelope.{Envelope}
use my_pol_go_backend.Transport.Queues.{
  OutboundQueues, count_drop, shed, enqueue, push_ephemeral, pending_ephemeral,
}
use my_pol_go_backend.Transport.Queues.Frames.{upsert, length-frames}
use my_pol_go_backend.Transport.Queues.Coalescing.{
  pending, IsQueue, enqueue-IsSynced, pending-enqueue, shed-IsSynced, pending-shed, shed_bounded,
  dropped-shed,
}

max_ephemeral-shed :
    (order : List String) (q : OutboundQueues) → (shed order q).max_ephemeral ≡ q.max_ephemeral
unfolding shed count_drop
max_ephemeral-shed [] q = refl
max_ephemeral-shed (k ∷ ks) q = ground (
  arith,
  max_ephemeral-shed ks
      (record (count_drop (lookup k q.ephemeral) q) { ephemeral = delete k q.ephemeral }),
)

max_ephemeral-enqueue :
    (e : Envelope) (k : String) (q : OutboundQueues)
    → (enqueue e k q).max_ephemeral ≡ q.max_ephemeral
unfolding enqueue
max_ephemeral-enqueue e k q = ground arith

abbrev shed_all : OutboundQueues → OutboundQueues
shed_all q = shed q.ephemeral_order q

push_open :
    (e : Envelope) (k : String) (q : OutboundQueues)
    → q.closed ≡ false
    → push_ephemeral e k q ≡ shed_all (enqueue e k q)
unfolding push_ephemeral
push_open e k q c = ap (λ b. if b then q else shed_all (enqueue e k q)) c

-- A closed queue takes no frame.
push_shut :
    (e : Envelope) (k : String) (q : OutboundQueues) → q.closed ≡ true → push_ephemeral e k q ≡ q
unfolding push_ephemeral
push_shut e k q c = ap (λ b. if b then q else shed_all (enqueue e k q)) c

-- The bound and the agreement of order and map survive every push.
pub push_ephemeral-IsQueue :
    (e : Envelope) (k : String) (q : OutboundQueues) → IsQueue q → IsQueue (push_ephemeral e k q)
push_ephemeral-IsQueue e k q v =
    let q' : OutboundQueues = enqueue e k q in
    let pushed : IsQueue (shed_all q') = record {
      synced = shed-IsSynced q'.ephemeral_order q' (enqueue-IsSynced e k q v.synced);
      bounded =
          omega
            (arith, shed_bounded q'.ephemeral_order q', max_ephemeral-shed q'.ephemeral_order q');
    } in
    elim (Bool-cases q.closed) [
      | inl c ↦ subst IsQueue (sym (push_shut e k q c)) v
      | inr c ↦ subst IsQueue (sym (push_open e k q c)) pushed
    ]

-- The list that a push makes of the pending frames before it sheds.
abbrev pub coalesced : Envelope → String → OutboundQueues → List (String × Envelope)
coalesced e k q = upsert k e (pending q)

-- On an open queue a push is: the frame replaces its stream's frame or goes to the end, then
-- streams are dropped from the front down to the bound.
pub pending-push_ephemeral :
    (e : Envelope) (k : String) (q : OutboundQueues)
    → IsQueue q
    → q.closed ≡ false
    → pending (push_ephemeral e k q)
      ≡ drop (length (coalesced e k q) - q.max_ephemeral) (coalesced e k q)
pending-push_ephemeral e k q v c =
    let q' : OutboundQueues = enqueue e k q in
    let order : List String = q'.ephemeral_order in
    let s = enqueue-IsSynced e k q v.synced in
    ap pending (push_open e k q c)
    ∙ pending-shed order q' s.once s.present
    ∙ ap (λ n. drop (n - q'.max_ephemeral) (pending q'))
        (sym (length-frames order q'.ephemeral s.present))
    ∙ ap (λ n. drop (length (pending q') - n) (pending q')) (max_ephemeral-enqueue e k q)
    ∙ ap (λ l. drop (length l - q.max_ephemeral) l) (pending-enqueue e k q v.synced)

module _ (k : String) (e : Envelope) where
  lookup-upsert : (l : List (String × Envelope)) → lookup k (upsert k e l) ≡ some e
  unfolding lookup upsert
  lookup-upsert [] = ground (arith, eq_iff k k)
  lookup-upsert ((j, v) ∷ l) = ground (arith, eq_iff k k, lookup-upsert l)

  length-upsert :
      (l : List (String × Envelope))
      → length (upsert k e l) ≡ (if is_some (lookup k l) then length l else length l + 1)
  unfolding lookup upsert
  length-upsert [] = omega arith
  length-upsert ((j, v) ∷ l) = ground (arith, length-upsert l)

  -- Dropping what is over the bound leaves the frame that came last.
  lookup-drop-upsert :
      (limit : ℕ) (l : List (String × Envelope))
      → 0 < limit
      → length l ≤ limit
      → lookup k (drop (length (upsert k e l) - limit) (upsert k e l)) ≡ some e
  unfolding lookup upsert
  lookup-drop-upsert limit [] p h =
      let none_over : 1 - limit ≡ 0 = omega arith in rw none_over (ground (arith, eq_iff k k))
  lookup-drop-upsert limit ((j, v) ∷ l) p h = elim (Bool-cases (j == k)) [
    | inl c ↦
        let none_over : suc (length l) - limit ≡ 0 = omega arith in
        rw (c, none_over) (ground (arith, eq_iff k k))
    | inr c ↦ elim (Bool-cases (ltb limit (suc (length (upsert k e l))))) [
      | inl over ↦
          let one : suc (length (upsert k e l)) - limit ≡ 1 =
            let grown = length-upsert l in unfold upsert lookup in ground arith in
          rw (c, one) (lookup-upsert l)
      | inr fits ↦
          let none_over : suc (length (upsert k e l)) - limit ≡ 0 = ground arith in
          rw (c, none_over) (ground (arith, lookup-upsert l))
    ]
  ]

-- On an open queue with room for a stream, the frame pushed last is the one that its stream sends.
pub lookup-push_ephemeral :
    (e : Envelope) (k : String) (q : OutboundQueues)
    → IsQueue q
    → q.closed ≡ false
    → 0 < q.max_ephemeral
    → lookup k (pending (push_ephemeral e k q)) ≡ some e
lookup-push_ephemeral e k q v c p =
    ap (lookup k) (pending-push_ephemeral e k q v c)
    ∙ lookup-drop-upsert k e q.max_ephemeral (pending q) p
        (omega (arith, v.bounded, length-frames q.ephemeral_order q.ephemeral v.synced.present))

dropped-enqueue :
    (e : Envelope) (k : String) (q : OutboundQueues)
    → q.dropped < 2 ^ 64
    → ((enqueue e k q).dropped
        ≡ (q.dropped + (length q.ephemeral_order + 1 - length (enqueue e k q).ephemeral_order))
          % 2 ^ 64)
      × ((enqueue e k q).dropped < 2 ^ 64)
      × (length (enqueue e k q).ephemeral_order ≤ length q.ephemeral_order + 1)
unfolding enqueue
dropped-enqueue e k q h = ground (arith, length-append q.ephemeral_order (k ∷ []))

length-shed :
    (order : List String) (q : OutboundQueues)
    → length (shed order q).ephemeral_order + (length order - q.max_ephemeral) ≡ length order
unfolding shed count_drop
length-shed [] q = omega arith
length-shed (k ∷ ks) q = ground (
  arith,
  length-shed ks
      (record (count_drop (lookup k q.ephemeral) q) { ephemeral = delete k q.ephemeral }),
)

-- `Dropped` counts, modulo 2 ^ 64, the frames that a push lost: what was pending and the new frame,
-- less what is pending after it.
pub dropped-push_ephemeral :
    (e : Envelope) (k : String) (q : OutboundQueues)
    → q.dropped < 2 ^ 64
    → q.closed ≡ false
    → (push_ephemeral e k q).dropped
      ≡ (q.dropped + (pending_ephemeral q + 1 - pending_ephemeral (push_ephemeral e k q))) % 2 ^ 64
unfolding pending_ephemeral
dropped-push_ephemeral e k q h c =
    let q' : OutboundQueues = enqueue e k q in
    let (first, small, grown) = dropped-enqueue e k q h in
    let order : List String = q'.ephemeral_order in
    subst
      (λ r.
        r.dropped
        ≡ (q.dropped + (length q.ephemeral_order + 1 - length r.ephemeral_order)) % 2 ^ 64)
      (sym (push_open e k q c))
      (omega (arith, first, small, grown, dropped-shed order q' small, length-shed order q'))
