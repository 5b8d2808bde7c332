-- ===== src/Interest/Index/Synced.antt =====
-- internal/infrastructure/memory_interest_index.go: the two directions of the index, kept in step.
use my_pol_go_backend.Prelude.{
  String, Bool, true, false, not, ◌&&◌, ◌||◌, Option, none, some, List, [], ◌∷◌, if◌then◌else◌,
  ◌==◌, arith, ◌∙◌, ◌≡◌, refl, ap, eq_iff, eq_refl,
}
use my_pol_go_backend.Prelude.Dict.{
  Dict, lookup, delete, matches, lookup-delete, lookup-insert, Distinct, insert-Distinct,
  delete-Distinct, lookup-delete_where, delete_where-Distinct,
}
use my_pol_go_backend.Prelude.Table.{Table, cell, row}
use my_pol_go_backend.Interest.{Interest, GridCell, cells, EventLocation, is_positive}
use my_pol_go_backend.Interest.Viewport.{elem_cell, elem_cell-cells, Near, InRange, IsPlaced}
use my_pol_go_backend.Interest.Index.{
  CellMap, MemoryInterestIndex, new_memory_interest_index, update, remove_connection, remove_note,
  replacing, removing, removal_panics, existing_panics, remove_locked, without_existing, watches,
  interested, interest_covers, cell_of, lookup_cell,
}
use my_pol_go_backend.Interest.Index.Calls.{
  IndexCall, reporting, departing, clearing, call_index, call_indexes, if_both, AllFit, last_report,
  last_report-call_indexes,
}
use my_pol_go_backend.Interest.Index.Cells.{watches-remove_locked, watches-add_cells}

-- Whether a connection's report has a cell of a page.
unfoldable pub reported : String → String → GridCell → Option Interest → Bool
reported n p c none = false
reported n p c (some i) = i.note_id == n && i.page_id == p && elem_cell c (cells i)

-- The sets of the cells hold what the reports say, no more and no less.
pub record IsSynced (idx : MemoryInterestIndex) : Type 0 where
  pub sets :
      (id n p : String) (c : GridCell)
      → watches id n p c idx.by_cell ≡ reported n p c (lookup id idx.by_connection)
  pub keys :
      (id : String) (i : Interest) → lookup id idx.by_connection ≡ some i → i.connection_id ≡ id
  pub distinct : Distinct idx.by_connection

new_IsSynced : IsSynced new_memory_interest_index
unfolding watches reported lookup lookup_cell cell row
new_IsSynced = record {
  sets = λ id n p c. refl;
  keys = λ id i h. absurd (ground arith);
  distinct = tt;
}

watches-without_existing :
    (id n p k : String) (c : GridCell) (o : Option Interest) (t : Table CellMap)
    → ((i : Interest) → o ≡ some i → i.connection_id ≡ k)
    → watches id n p c (without_existing o t)
      ≡ (if k == id && reported n p c o then false else watches id n p c t)
unfolding reported
watches-without_existing id n p k c none t h = ground arith
watches-without_existing id n p k c (some i) t h =
    let same = h i refl in ground (arith, watches-remove_locked id n p c i t, same)

same_key : (id k : String) (d : Dict Interest) → (k == id) ≡ true → lookup k d ≡ lookup id d
same_key id k d h = ap (λ x. lookup x d) ((eq_iff k id).0 h)

replacing_sets :
    (i : Interest) (idx : MemoryInterestIndex)
    → IsSynced idx
    → (id n p : String) (c : GridCell)
    → (let idx' = replacing i (lookup i.connection_id idx.by_connection) idx in
        watches id n p c idx'.by_cell ≡ reported n p c (lookup id idx'.by_connection))
unfolding reported
replacing_sets i idx h id n p c =
    let old = lookup i.connection_id idx.by_connection in
    let kept = without_existing old idx.by_cell in
    ground (
      arith,
      watches-add_cells i.connection_id id n p i.note_id i.page_id c (cells i) kept,
      watches-without_existing id n p i.connection_id c old idx.by_cell (h.keys i.connection_id),
      h.sets id n p c,
      same_key id i.connection_id idx.by_connection,
      lookup-insert i.connection_id id i idx.by_connection,
    )

replacing-IsSynced :
    (i : Interest) (idx : MemoryInterestIndex)
    → IsSynced idx
    → IsSynced (replacing i (lookup i.connection_id idx.by_connection) idx)
unfolding reported
replacing-IsSynced i idx h = record {
  sets = λ id n p c. replacing_sets i idx h id n p c;
  keys = λ id j e. ground (
    arith,
    lookup-insert i.connection_id id i idx.by_connection,
    h.keys id j,
    eq_iff i.connection_id id,
  );
  distinct = insert-Distinct i.connection_id i idx.by_connection h.distinct;
}

update-IsSynced :
    (i : Interest) (idx : MemoryInterestIndex) → IsSynced idx → IsSynced (update i idx)
unfolding update
update-IsSynced i idx h =
    if_both IsSynced (existing_panics (lookup i.connection_id idx.by_connection) idx.by_cell) h
      (replacing-IsSynced i idx h)

removed-IsSynced :
    (k : String) (i : Interest) (idx : MemoryInterestIndex)
    → lookup k idx.by_connection ≡ some i
    → IsSynced idx
    → IsSynced (record idx {
      by_cell = remove_locked i idx.by_cell;
      by_connection = delete k idx.by_connection;
    })
unfolding reported
removed-IsSynced k i idx e h = record {
  sets = λ id n p c. ground (
    arith,
    watches-remove_locked id n p c i idx.by_cell,
    h.sets id n p c,
    h.keys k i e,
    same_key id k idx.by_connection,
    lookup-delete k id idx.by_connection,
  );
  keys = λ id j q. ground (arith, lookup-delete k id idx.by_connection, h.keys id j);
  distinct = delete-Distinct k idx.by_connection h.distinct;
}

removing-IsSynced :
    (k : String) (o : Option Interest) (idx : MemoryInterestIndex)
    → lookup k idx.by_connection ≡ o
    → IsSynced idx
    → IsSynced (removing k o idx)
removing-IsSynced k none idx e h = h
removing-IsSynced k (some i) idx e h =
    if_both IsSynced (removal_panics i idx.by_cell) h (removed-IsSynced k i idx e h)

remove_connection-IsSynced :
    (k : String) (idx : MemoryInterestIndex) → IsSynced idx → IsSynced (remove_connection k idx)
unfolding remove_connection
remove_connection-IsSynced k idx h = removing-IsSynced k (lookup k idx.by_connection) idx refl h

watches-delete :
    (id n p k : String) (c : GridCell) (t : Table CellMap)
    → watches id n p c (delete k t) ≡ (if k == n then false else watches id n p c t)
unfolding watches cell row lookup_cell lookup
watches-delete id n p k c t = ground (arith, lookup-delete k n t)

reported_without :
    (n p k : String) (c : GridCell) (o : Option Interest)
    → reported n p c (if matches (λ i. i.note_id == k) o then none else o)
      ≡ (if k == n then false else reported n p c o)
unfolding reported
reported_without n p k c none = ground arith
reported_without n p k c (some i) =
    ground (arith, eq_iff i.note_id k, eq_iff i.note_id n, eq_iff k n)

remove_note_sets :
    (k : String) (idx : MemoryInterestIndex)
    → IsSynced idx
    → (id n p : String) (c : GridCell)
    → watches id n p c (remove_note k idx).by_cell
      ≡ reported n p c (lookup id (remove_note k idx).by_connection)
unfolding remove_note
remove_note_sets k idx h id n p c =
    rw
      (
        lookup-delete_where (λ i. i.note_id == k) id idx.by_connection h.distinct,
        reported_without n p k c (lookup id idx.by_connection),
        watches-delete id n p k c idx.by_cell,
        h.sets id n p c,
      )
      refl

remove_note_keys :
    (k : String) (idx : MemoryInterestIndex)
    → IsSynced idx
    → (id : String) (j : Interest) → lookup id (remove_note k idx).by_connection ≡ some j
    → j.connection_id ≡ id
unfolding remove_note
remove_note_keys k idx h id j e =
    ground (
      arith,
      lookup-delete_where (λ i. i.note_id == k) id idx.by_connection h.distinct,
      h.keys id j,
    )

remove_note-IsSynced :
    (k : String) (idx : MemoryInterestIndex) → IsSynced idx → IsSynced (remove_note k idx)
unfolding remove_note reported
remove_note-IsSynced k idx h = record {
  sets = λ id n p c. remove_note_sets k idx h id n p c;
  keys = λ id j e. remove_note_keys k idx h id j e;
  distinct = delete_where-Distinct (λ i. i.note_id == k) idx.by_connection h.distinct;
}

-- Every call of the index keeps its sets the same as its reports.
call_index-IsSynced :
    (c : IndexCall) (idx : MemoryInterestIndex) → IsSynced idx → IsSynced (call_index c idx)
unfolding call_index
call_index-IsSynced (reporting i) idx h = update-IsSynced i idx h
call_index-IsSynced (departing id) idx h = remove_connection-IsSynced id idx h
call_index-IsSynced (clearing note_id) idx h = remove_note-IsSynced note_id idx h

call_indexes-IsSynced :
    (cs : List IndexCall) (idx : MemoryInterestIndex)
    → IsSynced idx
    → IsSynced (call_indexes cs idx)
unfolding call_indexes
call_indexes-IsSynced [] idx h = h
call_indexes-IsSynced (c ∷ cs) idx h =
    call_indexes-IsSynced cs (call_index c idx) (call_index-IsSynced c idx h)

-- What a report wants to see, without an index of cells.
unfoldable pub wants : EventLocation → Option Interest → Bool
wants location none = true
wants location (some i) =
    (location.page_id == "" || location.page_id == i.page_id)
    && (not location.has_point || elem_cell (cell_of location) (cells i))

interested_synced :
    (id : String) (location : EventLocation) (idx : MemoryInterestIndex) (o : Option Interest)
    → lookup id idx.by_connection ≡ o
    → IsSynced idx
    → interest_covers id location o idx ≡ wants location o
unfolding wants reported
interested_synced id location idx none e h = refl
interested_synced id location idx (some i) e h = ground (
  arith,
  h.sets id i.note_id i.page_id (cell_of location),
  e,
  eq_refl i.note_id,
  eq_refl i.page_id,
)

-- After any calls of a new index whose reports do not make `Cells` panic, it answers by each
-- connection's last report alone, a report being ended by the connection's departure and by the
-- clearing of its note: yes where there is none; otherwise by the page that the event names, if any,
-- and, for an event at a point, by whether the point's cell is one that the report covers.
pub interested-call_indexes :
    (cs : List IndexCall) (id : String) (location : EventLocation)
    → AllFit cs
    → interested id location (call_indexes cs new_memory_interest_index)
      ≡ wants location (last_report id cs none)
unfolding interested
interested-call_indexes cs id location fit =
    let idx = call_indexes cs new_memory_interest_index in
    let last = last_report-call_indexes id cs fit in
    ap (λ o. interest_covers id location o idx) last
    ∙ interested_synced id location idx (last_report id cs none) last
        (call_indexes-IsSynced cs new_memory_interest_index new_IsSynced)

-- After any calls of a new index, an event at a point that is on a connection's screen, or within one
-- cell's size of it, is never withheld from that connection, where the event names its page or none,
-- the conversion to an int does not overflow on the point or the report's corners, and `make` takes
-- the number of the report's cells.
pub interested_close_by :
    (cs : List IndexCall) (id : String) (location : EventLocation) (i : Interest)
    → lookup id (call_indexes cs new_memory_interest_index).by_connection ≡ some i
    → (location.page_id == "" || location.page_id == i.page_id) ≡ true
    → IsPlaced i
    → InRange location.x
    → InRange location.y
    → is_positive i.width ≡ true
    → is_positive i.height ≡ true
    → Near location.x i.x i.width
    → Near location.y i.y i.height
    → interested id location (call_indexes cs new_memory_interest_index) ≡ true
unfolding interested wants
interested_close_by cs id location i e page placed rx ry w h nx ny =
    let idx = call_indexes cs new_memory_interest_index in
    ap (λ o. interest_covers id location o idx) e
    ∙ interested_synced id location idx (some i) e
        (call_indexes-IsSynced cs new_memory_interest_index new_IsSynced)
    ∙ ground (arith, page, elem_cell-cells i location.x location.y placed rx ry w h nx ny)
