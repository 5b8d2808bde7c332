-- ===== src/Tests/Interests.antt =====
-- internal/domain/interest.go and internal/infrastructure/memory_interest_index.go, at concrete inputs.
use my_pol_go_backend.Prelude.{
  ℕ, ◌-◌, ◌^◌, List, true, false, none, some, [], ◌∷◌, ◌≡◌, refl, arith,
}
use my_pol_go_backend.Prelude.Lists.{length}
use my_pol_go_backend.Prelude.Int.{pos, negsuc, ◌+ℤ◌, tdiv}
use my_pol_go_backend.Prelude.Dict.{lookup, insert, delete, delete_where}
use my_pol_go_backend.Prelude.Table.{row, cell, put, remove}
use my_pol_go_backend.Interest.{
  Interest, EventLocation, elects_preview, eq_cell, cell_index, span, int_range, cell_column,
  cell_grid, cells, location_of, to_int, fits_make, makes_cells, cells_panic,
}
use my_pol_go_backend.Interest.Viewport.{elem_cell, IsPlaced}
use my_pol_go_backend.Interest.Growth.{report}
use my_pol_go_backend.Interest.Index.{
  new_memory_interest_index, lookup_cell, delete_cell, add_to_cell_locked, add_cells, drop_cell,
  drop_cells, remove_locked, update, remove_connection, watches, interested, remove_note,
}
use my_pol_go_backend.Interest.Index.Size.{page_cells, update_growth}
use my_pol_go_backend.Interest.Index.Calls.{
  IndexCall, reporting, departing, call_index, call_indexes, last_report,
}
use my_pol_go_backend.Interest.Index.Synced.{wants, interested-call_indexes, interested_close_by}

-- What a run of the index computes with.
interest_runs : ℕ
unfolding lookup insert delete delete_where row cell put remove ◌+ℤ◌ tdiv elects_preview eq_cell
    cell_index span int_range cell_column cell_grid cells location_of elem_cell lookup_cell
    delete_cell add_to_cell_locked add_cells drop_cell drop_cells remove_locked update
    remove_connection watches interested remove_note call_index call_indexes wants to_int fits_make
    makes_cells last_report
interest_runs = 0

abbrev seen : Interest
seen = report "c1" "n1" "p1" none 10 10

abbrev near : EventLocation
near = record { page_id = "p1"; has_point = true; x = pos 5120; y = pos 300000 }

abbrev far : EventLocation
far = record { page_id = "p1"; has_point = true; x = pos 2000000; y = pos 0 }

withheld :
    interested "c1" far (call_indexes (reporting seen ∷ []) new_memory_interest_index) ≡ false
unfolding interest_runs
withheld = refl

update_growth_example :
    (cells_panic seen ≡ false)
    × (lookup "c1" (update seen new_memory_interest_index).by_connection ≡ some seen)
    × (length (page_cells "n1" "p1" (update seen new_memory_interest_index).by_cell) ≡ 9)
unfolding interest_runs
update_growth_example =
    update_growth "c1" "n1" "p1" none 10 10 new_memory_interest_index (omega arith) (omega arith)
      (omega arith) (omega arith) refl refl

-- The area that a client needs to claim for `make` to panic.
abbrev huge : Interest
huge = report "c1" "n1" "p1" none 2_147_483_648 2_147_483_648

huge_panics : cells_panic huge ≡ true
unfolding interest_runs
huge_panics = refl

-- A coordinate that is no int64, and 2 ^ 54 cells to the left of the page for it.
out_of_range : cell_index (pos (2 ^ 73)) ≡ negsuc (2 ^ 54 - 1)
unfolding interest_runs
out_of_range = refl

-- The report of "c1" has ended, that of "c2" counts by its second.
abbrev index_calls : List IndexCall
index_calls =
    reporting seen
    ∷ reporting (report "c2" "n1" "p1" none 9000 9000)
    ∷ departing "c1"
    ∷ reporting (report "c2" "n1" "p1" none 10 10)
    ∷ []

interested-call_indexes_example :
    interested "c2" far (call_indexes index_calls new_memory_interest_index) ≡ false
unfolding interest_runs
interested-call_indexes_example =
    interested-call_indexes index_calls "c2" far (refl, (refl, (refl, tt)))

departed_hears_all : interested "c1" far (call_indexes index_calls new_memory_interest_index) ≡ true
unfolding interest_runs
departed_hears_all = refl

seen-IsPlaced : IsPlaced seen
unfolding interest_runs
seen-IsPlaced = record {
  left = (omega arith, omega arith);
  right = (omega arith, omega arith);
  top = (omega arith, omega arith);
  bottom = (omega arith, omega arith);
  fits = refl;
}

interested_close_by_example :
    interested "c1" near (call_indexes (reporting seen ∷ []) new_memory_interest_index) ≡ true
unfolding interest_runs
interested_close_by_example =
    interested_close_by (reporting seen ∷ []) "c1" near seen refl refl seen-IsPlaced
      (omega arith, omega arith) (omega arith, omega arith) refl refl (omega arith, omega arith)
      (omega arith, omega arith)
