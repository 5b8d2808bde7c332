-- ===== src/Session/Tickets/SingleUse.antt =====
-- internal/infrastructure/memory_ticket_store.go: one ticket under any sequence of calls.
use my_pol_go_backend.Prelude.{
  ℕ, String, false, Option, none, some, List, [], ◌∷◌, ◌==◌, ◌≡◌, arith, eq_iff, Option-cases, inl,
  inr, ap,
}
use my_pol_go_backend.Prelude.Dict.{
  Dict, lookup, lookup-insert, lookup-delete, lookup-delete_where, Distinct, delete-Distinct,
  insert-Distinct, delete_where-Distinct,
}
use my_pol_go_backend.Session.Tickets.{
  ConnectionTicket, issue, not_found, redeem, consume, spend, is_expired, sweep_expired,
  delete_by_session,
}

-- The calls on the ticket store, in the order in which they get its mutex.
pub data Call : Type 0 where
  issues : Option ConnectionTicket → Call
  consumes : String → ℕ → Call
  sweeps : ℕ → Call
  revokes : String → Call

unfoldable pub step : Dict ConnectionTicket → Call → Dict ConnectionTicket
step d (issues t) = (issue t d).1
step d (consumes value now) = (consume value now d).1
step d (sweeps now) = (sweep_expired now d).1
step d (revokes session_id) = (delete_by_session session_id d).1

unfoldable pub run : Dict ConnectionTicket → List Call → Dict ConnectionTicket
run d [] = d
run d (c ∷ cs) = run (step d c) cs

-- No call issues the value again; values are 32 random bytes.
abbrev value_of : Option ConnectionTicket → String
value_of none = ""
value_of (some t) = t.value

abbrev pub NotIssued : String → List Call → Type 0
NotIssued value [] = Unit
NotIssued value (issues t ∷ cs) = ((value_of t == value) ≡ false) × NotIssued value cs
NotIssued value (consumes v now ∷ cs) = NotIssued value cs
NotIssued value (sweeps now ∷ cs) = NotIssued value cs
NotIssued value (revokes s ∷ cs) = NotIssued value cs

spend-Distinct :
    (value : String) (d : Dict ConnectionTicket)
    → Distinct d
    → Distinct (spend value (lookup value d) d)
spend-Distinct value d h = elim (Option-cases (lookup value d)) [
  | inl e ↦ rw e h
  | inr (t, e) ↦ rw e (delete-Distinct value d h)
]

step-Distinct : (d : Dict ConnectionTicket) (c : Call) → Distinct d → Distinct (step d c)
unfolding step issue consume sweep_expired delete_by_session
step-Distinct d (issues none) h = h
step-Distinct d (issues (some t)) h =
    let stored = insert-Distinct t.value t d h in ground (arith, stored, h)
step-Distinct d (consumes value now) h = spend-Distinct value d h
step-Distinct d (sweeps now) h = delete_where-Distinct _ d h
step-Distinct d (revokes s) h = delete_where-Distinct _ d h

-- A value that is not in the store does not come back unless it is issued.
step_absent :
    (value : String) (d : Dict ConnectionTicket) (c : Call)
    → Distinct d
    → NotIssued value (c ∷ [])
    → lookup value d ≡ none
    → lookup value (step d c) ≡ none
unfolding step issue consume sweep_expired delete_by_session
step_absent value d (issues none) v n h = h
step_absent value d (issues (some t)) v n h =
    let other = n.0 in ground (arith, lookup-insert t.value value t d, other)
step_absent value d (consumes w now) v n h = ground (arith, lookup-delete w value d)
step_absent value d (sweeps now) v n h =
    ground (arith, lookup-delete_where (λ t. unfold is_expired in is_expired t now) value d v)
step_absent value d (revokes s) v n h =
    ground (arith, lookup-delete_where (λ t. t.session_id == s) value d v)

run_absent :
    (value : String) (d : Dict ConnectionTicket) (cs : List Call)
    → Distinct d
    → NotIssued value cs
    → lookup value d ≡ none
    → lookup value (run d cs) ≡ none
unfolding run
run_absent value d [] v n h = h
run_absent value d (c ∷ cs) v n h =
    run_absent value (step d c) cs (step-Distinct d c v) (rest c n)
      (step_absent value d c v (first c n) h)
  where
    first : (c : Call) → NotIssued value (c ∷ cs) → NotIssued value (c ∷ [])
    first (issues t) n = (n.0, tt)
    first (consumes w now) n = tt
    first (sweeps now) n = tt
    first (revokes s) n = tt

    rest : (c : Call) → NotIssued value (c ∷ cs) → NotIssued value cs
    rest (issues t) n = n.1
    rest (consumes w now) n = n
    rest (sweeps now) n = n
    rest (revokes s) n = n

-- After one attempt to redeem a value, successful or not, every later attempt finds nothing, as
-- long as the value is not issued again.
pub consume_once :
    (value : String) (now later : ℕ) (d : Dict ConnectionTicket) (cs : List Call)
    → Distinct d
    → NotIssued value cs
    → (consume value later (run (consume value now d).1 cs)).0 ≡ not_found
unfolding consume
consume_once value now later d cs v n =
    let gone : lookup value (spend value (lookup value d) d) ≡ none =
      ground (arith, lookup-delete value value d, eq_iff value value) in
    let absent =
      run_absent value (spend value (lookup value d) d) cs (spend-Distinct value d v) n gone in
    ap (redeem later) absent
