-- ===== src/Interest/Index.antt =====
-- internal/infrastructure/memory_interest_index.go: each connection's interest, and for each cell of a
-- page the connections that watch it. Each method holds the mutex, so it is a function of the index:
-- where `Cells` panics, the index is left as far as it was written, and the mutex is unlocked.
-- A set of connection ids is a map to the unit.
pub mod Calls
pub mod Cells
pub mod Size
pub mod Synced
use my_pol_go_backend.Prelude.{
  ℕ, String, Bool, true, false, not, ◌&&◌, ◌||◌, Option, none, some, List, [], ◌∷◌, if◌then◌else◌,
  ◌==◌, get_or, is_some,
}
use my_pol_go_backend.Prelude.Lists.{length, is_empty}
use my_pol_go_backend.Prelude.Dict.{Dict, lookup, insert, delete, delete_where}
use my_pol_go_backend.Prelude.Table.{Table, cell, put, remove}
use my_pol_go_backend.Interest.{
  Interest, GridCell, eq_cell, cell_index, cells, cells_panic, elects_preview, EventLocation,
}

-- `map[GridCell]map[string]struct{}`
abbrev pub CellMap : Type 0
CellMap = List (GridCell × Dict (Unit {0}))

unfoldable pub lookup_cell : GridCell → CellMap → Option (Dict (Unit {0}))
lookup_cell c [] = none
lookup_cell c ((d, v) ∷ m) = if eq_cell d c then some v else lookup_cell c m

unfoldable pub delete_cell : GridCell → CellMap → CellMap
delete_cell c [] = []
delete_cell c ((d, v) ∷ m) =
    let rest = delete_cell c m in if eq_cell d c then rest else (d, v) ∷ rest

abbrev pub insert_cell : GridCell → Dict (Unit {0}) → CellMap → CellMap
insert_cell c v m = (c, v) ∷ delete_cell c m

pub record MemoryInterestIndex : Type 0 where
  pub by_connection : Dict Interest
  -- note, page, cell
  pub by_cell : Table CellMap

abbrev pub new_memory_interest_index : MemoryInterestIndex
new_memory_interest_index = record { by_connection = []; by_cell = [] }

-- The maps on the way are made where they are missing.
unfoldable pub add_to_cell_locked :
    String → String → String → GridCell → Table CellMap → Table CellMap
unfolding lookup_cell delete_cell
add_to_cell_locked n p connection_id c t =
    let m = get_or [] (cell n p t) in
    put n p (insert_cell c (insert connection_id tt (get_or [] (lookup_cell c m))) m) t

-- The loop over the cells of a report.
unfoldable pub add_cells : String → String → String → List GridCell → Table CellMap → Table CellMap
unfolding add_to_cell_locked
add_cells n p connection_id [] t = t
add_cells n p connection_id (c ∷ cs) t =
    add_cells n p connection_id cs (add_to_cell_locked n p connection_id c t)

abbrev pub drop_from : GridCell → String → Option (Dict (Unit {0})) → CellMap → CellMap
drop_from c connection_id none m = m
drop_from c connection_id (some connections) m =
    if is_empty (delete connection_id connections)
    then delete_cell c m
    else insert_cell c (delete connection_id connections) m

-- A cell that nobody watches any more is dropped.
unfoldable pub drop_cell : String → GridCell → CellMap → CellMap
unfolding lookup_cell delete_cell
drop_cell connection_id c m = drop_from c connection_id (lookup_cell c m) m

unfoldable pub drop_cells : String → List GridCell → CellMap → CellMap
unfolding drop_cell
drop_cells connection_id [] m = m
drop_cells connection_id (c ∷ cs) m = drop_cells connection_id cs (drop_cell connection_id c m)

-- A page without cells is dropped, and a note without pages.
abbrev pub store_cells : String → String → CellMap → Table CellMap → Table CellMap
store_cells n p m t = if is_empty m then remove n p t else put n p m t

abbrev pub without : Interest → Option CellMap → Table CellMap → Table CellMap
without i none t = t
without i (some m) t = store_cells i.note_id i.page_id (drop_cells i.connection_id (cells i) m) t

unfoldable pub remove_locked : Interest → Table CellMap → Table CellMap
unfolding drop_cells
remove_locked i t = without i (cell i.note_id i.page_id t) t

abbrev pub without_existing : Option Interest → Table CellMap → Table CellMap
without_existing none t = t
without_existing (some existing) t = remove_locked existing t

-- Whether `removeLocked` panics: it asks for the cells only where the page has some.
abbrev pub removal_panics : Interest → Table CellMap → Bool
removal_panics i t = cells_panic i && is_some (cell i.note_id i.page_id t)

abbrev pub existing_panics : Option Interest → Table CellMap → Bool
existing_panics none t = false
existing_panics (some existing) t = removal_panics existing t

-- The old report is removed, the new one recorded, and then its cells are asked for.
abbrev pub replacing : Interest → Option Interest → MemoryInterestIndex → MemoryInterestIndex
replacing i existing idx = record idx {
  by_connection = insert i.connection_id i idx.by_connection;
  by_cell =
      add_cells i.note_id i.page_id i.connection_id (cells i)
        (without_existing existing idx.by_cell);
}

unfoldable pub update : Interest → MemoryInterestIndex → MemoryInterestIndex
unfolding remove_locked add_cells
update i idx =
    let existing = lookup i.connection_id idx.by_connection in
    if existing_panics existing idx.by_cell then idx else replacing i existing idx

abbrev pub removing : String → Option Interest → MemoryInterestIndex → MemoryInterestIndex
removing connection_id none idx = idx
removing connection_id (some existing) idx =
    if removal_panics existing idx.by_cell then idx else record idx {
      by_cell = remove_locked existing idx.by_cell;
      by_connection = delete connection_id idx.by_connection;
    }

unfoldable pub remove_connection : String → MemoryInterestIndex → MemoryInterestIndex
unfolding remove_locked
remove_connection connection_id idx =
    removing connection_id (lookup connection_id idx.by_connection) idx

-- Whether a connection is in the set of a cell; a missing map reads as an empty one.
unfoldable pub watches : String → String → String → GridCell → Table CellMap → Bool
unfolding lookup_cell
watches connection_id n p c t =
    is_some (lookup connection_id (get_or [] (lookup_cell c (get_or [] (cell n p t)))))

abbrev pub cell_of : EventLocation → GridCell
cell_of location = record { x = cell_index location.x; y = cell_index location.y }

abbrev interest_covers : String → EventLocation → Option Interest → MemoryInterestIndex → Bool
interest_covers connection_id location none idx = true
interest_covers connection_id location (some i) idx =
    if not location.has_point
    then location.page_id == "" || location.page_id == i.page_id
    else if not (location.page_id == "") && not (location.page_id == i.page_id)
    then false
    else watches connection_id i.note_id i.page_id (cell_of location) idx.by_cell

unfoldable pub interested : String → EventLocation → MemoryInterestIndex → Bool
unfolding watches
interested connection_id location idx =
    interest_covers connection_id location (lookup connection_id idx.by_connection) idx

abbrev elected : String → Option Interest → Bool
elected event none = true
elected event (some i) = elects_preview i event

unfoldable pub allows_preview : String → String → MemoryInterestIndex → Bool
unfolding elects_preview
allows_preview connection_id event idx = elected event (lookup connection_id idx.by_connection)

unfoldable pub remove_note : String → MemoryInterestIndex → MemoryInterestIndex
remove_note note_id idx = record idx {
  by_cell = delete note_id idx.by_cell;
  by_connection = (delete_where (λ i. i.note_id == note_id) idx.by_connection).1;
}

unfoldable pub tracked : MemoryInterestIndex → ℕ
tracked idx = length idx.by_connection
