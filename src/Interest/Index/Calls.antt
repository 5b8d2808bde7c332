-- ===== src/Interest/Index/Calls.antt =====
-- internal/infrastructure/memory_interest_index.go: calls of the index, and each connection's last
-- report by them.
use my_pol_go_backend.Prelude.{
  String, Bool, true, false, Option, none, some, List, [], ◌∷◌, if◌then◌else◌, ◌==◌, arith, ◌∙◌,
  ◌≡◌, refl, ap, subst, eq_iff,
}
use my_pol_go_backend.Prelude.Dict.{
  lookup, matches, lookup-delete, lookup-insert, Distinct, insert-Distinct, delete-Distinct,
  lookup-delete_where, delete_where-Distinct,
}
use my_pol_go_backend.Interest.{Interest, cells_panic}
use my_pol_go_backend.Interest.Index.{
  MemoryInterestIndex, new_memory_interest_index, update, remove_connection, remove_note, replacing,
  removing, removal_panics, existing_panics,
}

-- A call of the index that changes it.
pub data IndexCall : Type 0 where
  reporting : Interest → IndexCall
  departing : String → IndexCall
  clearing : String → IndexCall

unfoldable pub call_index : IndexCall → MemoryInterestIndex → MemoryInterestIndex
unfolding update remove_connection remove_note
call_index (reporting i) idx = update i idx
call_index (departing id) idx = remove_connection id idx
call_index (clearing note_id) idx = remove_note note_id idx

unfoldable pub call_indexes : List IndexCall → MemoryInterestIndex → MemoryInterestIndex
unfolding call_index
call_indexes [] idx = idx
call_indexes (c ∷ cs) idx = call_indexes cs (call_index c idx)

-- What holds on either side holds of the choice.
pub if_both :
    {A : Type 0} (P : A → Type 0) (b : Bool) {x y : A} → P x → P y → P (if b then x else y)
if_both P true h k = h
if_both P false h k = k

-- The reports of the calls do not make `Cells` panic.
abbrev pub AllFit : List IndexCall → Type 0
AllFit [] = Unit
AllFit (reporting i ∷ cs) = (cells_panic i ≡ false) × AllFit cs
AllFit (departing id ∷ cs) = AllFit cs
AllFit (clearing note_id ∷ cs) = AllFit cs

-- A connection's report after a call, from its report before it.
abbrev report_after : String → IndexCall → Option Interest → Option Interest
report_after id (reporting i) o = if i.connection_id == id then some i else o
report_after id (departing k) o = if k == id then none else o
report_after id (clearing note_id) o = if matches (λ i. i.note_id == note_id) o then none else o

-- A connection's last report over the calls, if it has not been ended since.
unfoldable pub last_report : String → List IndexCall → Option Interest → Option Interest
last_report id [] o = o
last_report id (c ∷ cs) o = last_report id cs (report_after id c o)

abbrev Fits : Option Interest → Type 0
Fits none = Unit
Fits (some i) = cells_panic i ≡ false

-- No report that is recorded makes `Cells` panic, and each connection has one at most.
record IsSound (idx : MemoryInterestIndex) : Type 0 where
  fits : (id : String) → Fits (lookup id idx.by_connection)
  distinct : Distinct idx.by_connection

new_IsSound : IsSound new_memory_interest_index
unfolding lookup
new_IsSound = record { fits = λ id. tt; distinct = tt }

existing_panics-IsSound :
    (k : String) (o : Option Interest) (idx : MemoryInterestIndex)
    → lookup k idx.by_connection ≡ o
    → IsSound idx
    → existing_panics o idx.by_cell ≡ false
existing_panics-IsSound k none idx e h = refl
existing_panics-IsSound k (some i) idx e h =
    let fit : cells_panic i ≡ false = subst Fits e (h.fits k) in rw fit refl

update-replacing :
    (i : Interest) (idx : MemoryInterestIndex)
    → IsSound idx
    → update i idx ≡ replacing i (lookup i.connection_id idx.by_connection) idx
unfolding update
update-replacing i idx h =
    let old = lookup i.connection_id idx.by_connection in
    rw (existing_panics-IsSound i.connection_id old idx refl h) refl

lookup-update :
    (id : String) (i : Interest) (idx : MemoryInterestIndex)
    → IsSound idx
    → lookup id (update i idx).by_connection
      ≡ (if i.connection_id == id then some i else lookup id idx.by_connection)
lookup-update id i idx h =
    rw (update-replacing i idx h) (lookup-insert i.connection_id id i idx.by_connection)

lookup-removing :
    (id k : String) (o : Option Interest) (idx : MemoryInterestIndex)
    → lookup k idx.by_connection ≡ o
    → IsSound idx
    → lookup id (removing k o idx).by_connection
      ≡ (if k == id then none else lookup id idx.by_connection)
lookup-removing id k none idx e h = ground (arith, eq_iff k id)
lookup-removing id k (some i) idx e h =
    rw (existing_panics-IsSound k (some i) idx e h) (lookup-delete k id idx.by_connection)

lookup-call_index :
    (id : String) (c : IndexCall) (idx : MemoryInterestIndex)
    → IsSound idx
    → lookup id (call_index c idx).by_connection ≡ report_after id c (lookup id idx.by_connection)
unfolding call_index remove_connection remove_note
lookup-call_index id (reporting i) idx h = lookup-update id i idx h
lookup-call_index id (departing k) idx h =
    lookup-removing id k (lookup k idx.by_connection) idx refl h
lookup-call_index id (clearing n) idx h =
    lookup-delete_where (λ i. i.note_id == n) id idx.by_connection h.distinct

update-Distinct :
    (i : Interest) (idx : MemoryInterestIndex)
    → Distinct idx.by_connection
    → Distinct (update i idx).by_connection
unfolding update
update-Distinct i idx d =
    if_both (λ (x : MemoryInterestIndex). Distinct x.by_connection)
      (existing_panics (lookup i.connection_id idx.by_connection) idx.by_cell) d
      (insert-Distinct i.connection_id i idx.by_connection d)

removing-Distinct :
    (k : String) (o : Option Interest) (idx : MemoryInterestIndex)
    → Distinct idx.by_connection
    → Distinct (removing k o idx).by_connection
removing-Distinct k none idx d = d
removing-Distinct k (some i) idx d =
    if_both (λ (x : MemoryInterestIndex). Distinct x.by_connection) (removal_panics i idx.by_cell) d
      (delete-Distinct k idx.by_connection d)

call_index-Distinct :
    (c : IndexCall) (idx : MemoryInterestIndex)
    → Distinct idx.by_connection
    → Distinct (call_index c idx).by_connection
unfolding call_index remove_connection remove_note
call_index-Distinct (reporting i) idx d = update-Distinct i idx d
call_index-Distinct (departing k) idx d = removing-Distinct k (lookup k idx.by_connection) idx d
call_index-Distinct (clearing n) idx d =
    delete_where-Distinct (λ i. i.note_id == n) idx.by_connection d

report_after-Fits :
    (id : String) (c : IndexCall) (cs : List IndexCall) (o : Option Interest)
    → AllFit (c ∷ cs)
    → Fits o
    → Fits (report_after id c o) × AllFit cs
report_after-Fits id (reporting i) cs o fit h =
    (if_both Fits (i.connection_id == id) {x = some i} fit.0 h, fit.1)
report_after-Fits id (departing k) cs o fit h = (if_both Fits (k == id) tt h, fit)
report_after-Fits id (clearing n) cs o fit h =
    (if_both Fits (matches (λ i. i.note_id == n) o) tt h, fit)

call_index-IsSound :
    (c : IndexCall) (cs : List IndexCall) (idx : MemoryInterestIndex)
    → AllFit (c ∷ cs)
    → IsSound idx
    → IsSound (call_index c idx)
call_index-IsSound c cs idx fit h = record {
  fits = λ id.
      rw (lookup-call_index id c idx h)
        (report_after-Fits id c cs (lookup id idx.by_connection) fit (h.fits id)).0;
  distinct = call_index-Distinct c idx h.distinct;
}

-- The index has each connection's last report.
lookup-call_indexes :
    (id : String) (cs : List IndexCall) (idx : MemoryInterestIndex)
    → AllFit cs
    → IsSound idx
    → lookup id (call_indexes cs idx).by_connection
      ≡ last_report id cs (lookup id idx.by_connection)
unfolding call_indexes last_report
lookup-call_indexes id [] idx fit h = refl
lookup-call_indexes id (c ∷ cs) idx fit h =
    lookup-call_indexes id cs (call_index c idx)
      (report_after-Fits id c cs (lookup id idx.by_connection) fit (h.fits id)).1
      (call_index-IsSound c cs idx fit h)
    ∙ ap (last_report id cs) (lookup-call_index id c idx h)

-- A new index has, after the calls, each connection's last report.
pub last_report-call_indexes :
    (id : String) (cs : List IndexCall)
    → AllFit cs
    → lookup id (call_indexes cs new_memory_interest_index).by_connection ≡ last_report id cs none
unfolding lookup
last_report-call_indexes id cs fit =
    lookup-call_indexes id cs new_memory_interest_index fit new_IsSound
