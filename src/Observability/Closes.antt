-- ===== src/Observability/Closes.antt =====
-- internal/observability/metrics.go: the count of closes by reason.
use my_pol_go_backend.Prelude.{
  ℕ, ◌+◌, ◌≤◌, String, List, [], ◌∷◌, ◌≡◌, arith, if◌then◌else◌, get_or, is_some, eq_iff, inl, inr,
  String-cases,
}
use my_pol_go_backend.Prelude.Lists.{length}
use my_pol_go_backend.Prelude.Dict.{
  Dict, lookup, insert, delete, Distinct, lookup-insert, insert-Distinct, total, total-insert,
  delete_absent,
}
use my_pol_go_backend.Observability.{
  Metrics, new_metrics, or_unknown, close_key, add_one, observe_close, observe_closes,
}

length-delete :
    (k : String) (d : Dict ℕ)
    → Distinct d
    → length (delete k d) + (if is_some (lookup k d) then 1 else 0) ≡ length d
unfolding delete lookup
length-delete k [] h = omega arith
length-delete k ((j, v) ∷ d) h = elim (String-cases j k) [
  | inl e ↦ ground (arith, length-delete k d h.1, delete_absent k d, eq_iff j k)
  | inr e ↦ ground (arith, length-delete k d h.1)
]

length-add_one :
    (k : String) (d : Dict ℕ)
    → Distinct d
    → length (add_one k d) ≡ (if is_some (lookup k d) then length d else length d + 1)
unfolding insert
length-add_one k d h = ground (arith, length-delete k d h)

-- The reason "other" is a key, or there is room for one more and it.
abbrev Bounded : Dict ℕ → Type 0
Bounded d = length d ≤ (if is_some (lookup "other" d) then 33 else 32)

abbrev id_ℕ : ℕ → ℕ
id_ℕ n = n

-- The invariant of the map: no key twice, and few keys.
pub record IsCounts (d : Dict ℕ) : Type 0 where
  pub distinct : Distinct d
  pub bounded : Bounded d

total-add_one : (k : String) (d : Dict ℕ) → Distinct d → total id_ℕ (add_one k d) ≡ total id_ℕ d + 1
total-add_one k d h = ground (arith, total-insert id_ℕ k (get_or 0 (lookup k d) + 1) d h)

add_one_room : (r : String) (d : Dict ℕ) → IsCounts d → Bounded (add_one (close_key r d) d)
unfolding close_key
add_one_room r d h =
    let k = close_key r d in
    ground (
      arith,
      length-add_one r d h.distinct,
      length-add_one "other" d h.distinct,
      lookup-insert r "other" (get_or 0 (lookup r d) + 1) d,
      lookup-insert "other" "other" (get_or 0 (lookup "other" d) + 1) d,
      h.bounded,
      eq_iff r "other",
    )

add_one-IsCounts : (r : String) (d : Dict ℕ) → IsCounts d → IsCounts (add_one (close_key r d) d)
unfolding close_key
add_one-IsCounts r d h = record {
  distinct = insert-Distinct (close_key r d) _ d h.distinct;
  bounded = add_one_room r d h;
}

-- The closes of a process, from its start.
module _ (before_detail : String → String) where
  observe_closes-IsCounts :
      (rs : List String) (m : Metrics)
      → IsCounts m.closed_by_reason
      → IsCounts (observe_closes before_detail rs m).closed_by_reason
  unfolding observe_closes observe_close
  observe_closes-IsCounts [] m h = h
  observe_closes-IsCounts (r ∷ rs) m h =
      observe_closes-IsCounts rs (observe_close before_detail r m)
        (add_one-IsCounts _ m.closed_by_reason h)

  total-observe_closes :
      (rs : List String) (m : Metrics)
      → IsCounts m.closed_by_reason
      → total id_ℕ (observe_closes before_detail rs m).closed_by_reason
        ≡ total id_ℕ m.closed_by_reason + length rs
  unfolding observe_closes observe_close
  total-observe_closes [] m h = omega arith
  total-observe_closes (r ∷ rs) m h =
      let rest =
        total-observe_closes rs (observe_close before_detail r m)
          (add_one-IsCounts _ m.closed_by_reason h) in
      let first =
        total-add_one (close_key (or_unknown (before_detail r)) m.closed_by_reason)
          m.closed_by_reason h.distinct in
      omega (arith, rest, first)

  new_IsCounts : IsCounts new_metrics.closed_by_reason
  unfolding lookup
  new_IsCounts = record { distinct = tt; bounded = ground arith }

  -- Whatever reasons the closes of a process have, the map of reasons never has more than 33 keys, and
  -- its counts add up to the number of closes.
  pub closes_counted :
      (rs : List String)
      → (length (observe_closes before_detail rs new_metrics).closed_by_reason ≤ 33)
        × (total id_ℕ (observe_closes before_detail rs new_metrics).closed_by_reason ≡ length rs)
  unfolding total
  closes_counted rs =
      let kept = observe_closes-IsCounts rs new_metrics new_IsCounts in
      let sum = total-observe_closes rs new_metrics new_IsCounts in
      (ground (arith, kept.bounded), omega (arith, sum))
