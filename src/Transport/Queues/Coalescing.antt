-- ===== src/Transport/Queues/Coalescing.antt =====
-- internal/transport/queues.go: the ephemeral map and its order as a bounded coalescing list.
use my_pol_go_backend.Prelude.{
  ℕ, zero, suc, ◌+◌, ◌-◌, ◌%◌, ◌^◌, ◌≤◌, ◌<◌, String, true, false, none, List, [], ◌∷◌, ◌≡◌, refl,
  sym, ◌∙◌, ap, is_some, arith, eq_iff, Bool-cases, Option-cases, inl, inr, ltb, ltb→lt,
}
use my_pol_go_backend.Prelude.Lists.{length, drop, elem, NoDup, elem-snoc, snoc-NoDup}
use my_pol_go_backend.Prelude.Dict.{Dict, lookup, insert, delete, lookup-insert, lookup-delete}
use my_pol_go_backend.Envelope.{Envelope}
use my_pol_go_backend.Transport.Queues.{OutboundQueues, count_drop, shed, enqueue}
use my_pol_go_backend.Transport.Queues.Frames.{
  frames, Present, upsert, frames-delete_ne, Present-delete_ne, Present-insert, Present-snoc,
  frames-insert_old, frames-insert_new,
}

-- The pending streams with their newest frames, oldest stream first.
abbrev pub pending : OutboundQueues → List (String × Envelope)
pending q = frames q.ephemeral_order q.ephemeral

-- The order and the map have the same keys, each once.
pub record IsSynced (q : OutboundQueues) : Type 0 where
  pub once : NoDup q.ephemeral_order
  pub present : Present q.ephemeral_order q.ephemeral
  pub only : (k : String) → elem k q.ephemeral_order ≡ false → lookup k q.ephemeral ≡ none

pub record IsQueue (q : OutboundQueues) : Type 0 where
  pub synced : IsSynced q
  pub bounded : length q.ephemeral_order ≤ q.max_ephemeral

Present-elem :
    (k : String) (ks : List String) (m : Dict Envelope)
    → Present ks m
    → elem k ks ≡ true
    → is_some (lookup k m) ≡ true
unfolding elem
Present-elem k [] m p h = ground arith
Present-elem k (j ∷ ks) m p h = ground (arith, Present-elem k ks m p.1, eq_iff k j, p.0)

-- A key is bound exactly if it is in the order.
pub bound_iff :
    (q : OutboundQueues) (k : String)
    → IsSynced q
    → is_some (lookup k q.ephemeral) ≡ elem k q.ephemeral_order
bound_iff q k s = elim (Bool-cases (elem k q.ephemeral_order)) [
  | inl e ↦ rw e (Present-elem k q.ephemeral_order q.ephemeral s.present e)
  | inr e ↦ rw (e, s.only k e)
]

pub enqueue-IsSynced :
    (e : Envelope) (k : String) (q : OutboundQueues) → IsSynced q → IsSynced (enqueue e k q)
unfolding enqueue
enqueue-IsSynced e k q s = elim (Bool-cases (elem k q.ephemeral_order)) [
  | inl old ↦ rw (bound_iff q k s) (
      rw old (record {
        once = s.once;
        present = Present-insert k e q.ephemeral_order q.ephemeral s.present;
        only = λ j h. ground (arith, lookup-insert k j e q.ephemeral, s.only j h, eq_iff k j);
      }))
  | inr new ↦ rw (bound_iff q k s) (
      rw new (record {
        once = snoc-NoDup k q.ephemeral_order new s.once;
        present =
            Present-snoc k q.ephemeral_order (insert k e q.ephemeral)
              (Present-insert k e q.ephemeral_order q.ephemeral s.present)
              (ground (arith, lookup-insert k k e q.ephemeral, eq_iff k k));
        only = λ j h. ground (
          arith,
          lookup-insert k j e q.ephemeral,
          elem-snoc j k q.ephemeral_order,
          s.only j,
          eq_iff k j,
          eq_iff j k,
        );
      }))
]

pub pending-enqueue :
    (e : Envelope) (k : String) (q : OutboundQueues)
    → IsSynced q
    → pending (enqueue e k q) ≡ upsert k e (pending q)
unfolding enqueue
pending-enqueue e k q s = elim (Bool-cases (elem k q.ephemeral_order)) [
  | inl old ↦
      rw (bound_iff q k s)
        (rw old (frames-insert_old k e q.ephemeral_order q.ephemeral old s.once s.present))
  | inr new ↦
      rw (bound_iff q k s) (rw new (frames-insert_new k e q.ephemeral_order q.ephemeral new))
]

pub shed-IsSynced :
    (order : List String) (q : OutboundQueues)
    → IsSynced (record q { ephemeral_order = order })
    → IsSynced (shed order q)
unfolding shed
shed-IsSynced [] q s = s
shed-IsSynced (k ∷ ks) q s =
    let q' : OutboundQueues = record (count_drop (lookup k q.ephemeral) q) {
      ephemeral = delete k q.ephemeral;
    } in
    let rest : IsSynced (shed ks q') = shed-IsSynced ks q' (record {
      once = s.once.1;
      present = unfold count_drop in Present-delete_ne k ks q.ephemeral s.once.0 s.present.1;
      only = λ j h.
          unfold count_drop elem in
          ground (arith, lookup-delete k j q.ephemeral, s.only j, eq_iff k j, eq_iff j k);
    }) in
    elim (Bool-cases (ltb q.max_ephemeral (length (k ∷ ks)))) [
      | inl over ↦ rw over rest
      | inr fits ↦ rw fits s
    ]

drop_step :
    (n limit : ℕ) (x : String × Envelope) (l : List (String × Envelope))
    → limit < suc n
    → drop (suc n - limit) (x ∷ l) ≡ drop (n - limit) l
drop_step n limit x l h = let e : suc n - limit ≡ suc (n - limit) = omega arith in rw e refl

drop_nil : (n : ℕ) → drop n (let l : List (String × Envelope) = [] in l) ≡ []
drop_nil zero = refl
drop_nil (suc n) = refl

drop_none : (n limit : ℕ) (l : List (String × Envelope)) → n ≤ limit → drop (n - limit) l ≡ l
drop_none n limit l h = let e : n - limit ≡ 0 = omega arith in rw e refl

-- The queue after the loop has shed its oldest stream.
abbrev without_oldest : String → OutboundQueues → OutboundQueues
without_oldest k q = record (count_drop (lookup k q.ephemeral) q) {
  ephemeral = delete k q.ephemeral;
}

-- The shedding loop drops what is over the bound from the front, and stops at the bound.
pub pending-shed :
    (order : List String) (q : OutboundQueues)
    → NoDup order
    → Present order q.ephemeral
    → pending (shed order q) ≡ drop (length order - q.max_ephemeral) (frames order q.ephemeral)
unfolding shed
pending-shed [] q n p = unfold frames in sym (drop_nil (0 - q.max_ephemeral))
pending-shed (k ∷ ks) q n p =
    let rest =
      pending-shed ks (without_oldest k q) n.1 (Present-delete_ne k ks q.ephemeral n.0 p.1) in
    elim (Bool-cases (ltb q.max_ephemeral (length (k ∷ ks)))) [
      | inr fits ↦
          rw fits (sym (drop_none _ q.max_ephemeral (frames (k ∷ ks) q.ephemeral) (ground arith)))
      | inl over ↦ elim (Option-cases (lookup k q.ephemeral)) [
        | inl e ↦ ground (arith, p.0)
        | inr (v, e) ↦ rw over (
            rest
            ∙ ap (drop (length ks - q.max_ephemeral)) (frames-delete_ne k ks q.ephemeral n.0)
            ∙ sym (
                unfold frames in
                rw e (
                  drop_step (length ks) q.max_ephemeral (k, v) (frames ks q.ephemeral)
                    (ground arith))))
      ]
    ]

pub shed_bounded :
    (order : List String) (q : OutboundQueues)
    → length (shed order q).ephemeral_order ≤ q.max_ephemeral
unfolding shed count_drop
shed_bounded [] q = omega arith
shed_bounded (k ∷ ks) q =
    let q' : OutboundQueues = record (count_drop (lookup k q.ephemeral) q) {
      ephemeral = delete k q.ephemeral;
    } in
    ground (arith, shed_bounded ks q')

pub dropped-shed :
    (order : List String) (q : OutboundQueues)
    → q.dropped < 2 ^ 64
    → (shed order q).dropped ≡ (q.dropped + (length order - q.max_ephemeral)) % 2 ^ 64
unfolding shed count_drop
dropped-shed [] q h = omega arith
dropped-shed (k ∷ ks) q h =
    let rest = dropped-shed ks (without_oldest k q) (omega arith) in
    elim (Bool-cases (ltb q.max_ephemeral (length (k ∷ ks)))) [
      | inl over ↦
          rw over (let lt = ltb→lt q.max_ephemeral (suc (length ks)) over in omega (arith, rest))
      | inr fits ↦ rw fits (ground arith)
    ]
