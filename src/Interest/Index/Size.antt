-- ===== src/Interest/Index/Size.antt =====
-- internal/infrastructure/memory_interest_index.go: how many cells of the index a report takes.
use my_pol_go_backend.Prelude.{
  ℕ, zero, suc, ◌+◌, ◌*◌, ◌/◌, ◌<◌, ◌^◌, leb, String, Bool, true, false, not, Option, none, some,
  List, [], ◌∷◌, ◌++◌, if◌then◌else◌, get_or, arith, ◌≡◌, refl, ap, ◌∙◌, eq_refl, Bool-cases, inl,
  inr,
}
use my_pol_go_backend.Prelude.Lists.{length}
use my_pol_go_backend.Prelude.Int.{ℤ, pos, negsuc, ◌+ℤ◌, eqz, pos_part, neg_part, leb_ℤ, +ℤ_parts}
use my_pol_go_backend.Prelude.Dict.{lookup, insert, lookup-insert}
use my_pol_go_backend.Prelude.Table.{Table, cell, cell-put}
use my_pol_go_backend.Interest.{
  GridCell, PreviewPreferences, eq_cell, span, int_range, cell_column, cell_grid, cells_panic,
  max_cells,
}
use my_pol_go_backend.Interest.Viewport.{
  elem_cell, elem_int, elem_cell-append, elem_cell-column, elem_cell-grid,
}
use my_pol_go_backend.Interest.Growth.{
  report, positive_units, cell_count, grid, cells-report, length-grid, makes_cells-report,
}
use my_pol_go_backend.Interest.Index.{
  CellMap, MemoryInterestIndex, lookup_cell, delete_cell, insert_cell, add_to_cell_locked,
  add_cells, update,
}
use my_pol_go_backend.Interest.Index.Calls.{if_both}
use my_pol_go_backend.Interest.Index.Cells.{
  eq_cell_refl, eq_cell→eq, eqz→eq, lookup_cell-delete_cell,
}

-- No number, and no cell, stands in the list twice.
abbrev Unrepeated : List ℤ → Type 0
Unrepeated [] = Unit
Unrepeated (c ∷ cs) = (elem_int c cs ≡ false) × Unrepeated cs

abbrev NoRepeat : List GridCell → Type 0
NoRepeat [] = Unit
NoRepeat (c ∷ cs) = (elem_cell c cs ≡ false) × NoRepeat cs

eqz_less : (a b : ℤ) → pos_part a + neg_part b < pos_part b + neg_part a → eqz a b ≡ false
eqz_less (pos a) (pos b) h = ground arith
eqz_less (negsuc a) (negsuc b) h = ground arith
eqz_less (pos a) (negsuc b) h = refl
eqz_less (negsuc a) (pos b) h = refl

elem_int-span :
    (c lo : ℤ) (n : ℕ)
    → pos_part c + neg_part lo < pos_part lo + neg_part c
    → elem_int c (span lo n) ≡ false
unfolding elem_int span
elem_int-span c lo zero h = refl
elem_int-span c lo (suc n) h =
    let next : pos_part c + neg_part (lo +ℤ pos 1) < pos_part (lo +ℤ pos 1) + neg_part c =
      omega (arith, +ℤ_parts lo (pos 1)) in
    rw (eqz_less c lo h) (elem_int-span c (lo +ℤ pos 1) n next)

span-Unrepeated : (lo : ℤ) (n : ℕ) → Unrepeated (span lo n)
unfolding span
span-Unrepeated lo zero = tt
span-Unrepeated lo (suc n) = (
  elem_int-span lo (lo +ℤ pos 1) n (omega (arith, +ℤ_parts lo (pos 1))),
  span-Unrepeated (lo +ℤ pos 1) n,
)

append-NoRepeat :
    (xs ys : List GridCell)
    → NoRepeat xs
    → NoRepeat ys
    → ((c : GridCell) → elem_cell c xs ≡ true → elem_cell c ys ≡ false)
    → NoRepeat (xs ++ ys)
unfolding elem_cell
append-NoRepeat [] ys hx hy apart = hy
append-NoRepeat (x ∷ xs) ys hx hy apart = (
  ground (arith, elem_cell-append x xs ys, hx.0, apart x, eq_cell_refl x),
  append-NoRepeat xs ys hx.1 hy (λ c h. ground (arith, h, apart c)),
)

cell_column-NoRepeat : (cx : ℤ) (ys : List ℤ) → Unrepeated ys → NoRepeat (cell_column cx ys)
unfolding cell_column
cell_column-NoRepeat cx [] h = tt
cell_column-NoRepeat cx (y ∷ ys) h = (
  ground (arith, elem_cell-column (record { x = cx; y = y }) cx ys, h.0),
  cell_column-NoRepeat cx ys h.1,
)

column_apart :
    (x : ℤ) (xs ys : List ℤ) (c : GridCell)
    → elem_int x xs ≡ false
    → elem_cell c (cell_column x ys) ≡ true
    → elem_cell c (cell_grid xs ys) ≡ false
column_apart x xs ys c h e =
    let same : eqz c.x x ≡ true = ground (arith, elem_cell-column c x ys, e) in
    let absent = ap (λ z. elem_int z xs) (eqz→eq c.x x same) in
    ground (arith, elem_cell-grid c xs ys, absent, h)

cell_grid-NoRepeat : (xs ys : List ℤ) → Unrepeated xs → Unrepeated ys → NoRepeat (cell_grid xs ys)
unfolding cell_grid
cell_grid-NoRepeat [] ys hx hy = tt
cell_grid-NoRepeat (x ∷ xs) ys hx hy =
    append-NoRepeat (cell_column x ys) (cell_grid xs ys) (cell_column-NoRepeat x ys hy)
      (cell_grid-NoRepeat xs ys hx.1 hy) (λ c h. column_apart x xs ys c hx.0 h)

-- The cells of a page.
abbrev pub page_cells : String → String → Table CellMap → CellMap
page_cells n p t = get_or [] (cell n p t)

delete_cell_absent : (c : GridCell) (m : CellMap) → lookup_cell c m ≡ none → delete_cell c m ≡ m
unfolding lookup_cell delete_cell
delete_cell_absent c [] h = refl
delete_cell_absent c ((d, v) ∷ m) h = ground (arith, delete_cell_absent c m)

added : GridCell → String → CellMap → CellMap
added c id m = insert_cell c (insert id tt (get_or [] (lookup_cell c m))) m

page_cells-add_to_cell_locked :
    (n p id : String) (c : GridCell) (t : Table CellMap)
    → page_cells n p (add_to_cell_locked n p id c t) ≡ added c id (page_cells n p t)
unfolding add_to_cell_locked added
page_cells-add_to_cell_locked n p id c t = rw (cell-put n p n p _ t, eq_refl n, eq_refl p) refl

-- A new cell is one more, and no other is there that was not.
length-added :
    (c : GridCell) (id : String) (m : CellMap)
    → lookup_cell c m ≡ none
    → length (added c id m) ≡ 1 + length m
unfolding added
length-added c id m h = rw (delete_cell_absent c m h) (omega arith)

added_elsewhere :
    (c d : GridCell) (id : String) (m : CellMap)
    → eq_cell c d ≡ false
    → lookup_cell d m ≡ none
    → lookup_cell d (added c id m) ≡ none
unfolding added lookup_cell
added_elsewhere c d id m h e = ground (arith, lookup_cell-delete_cell c d m)

elem_cell_first : (c : GridCell) (cs : List GridCell) → elem_cell c (c ∷ cs) ≡ true
unfolding elem_cell
elem_cell_first c cs = ground (arith, eq_cell_refl c)

fresh_after :
    (c : GridCell) (cs : List GridCell) (id : String) (m : CellMap)
    → elem_cell c cs ≡ false
    → ((d : GridCell) → elem_cell d (c ∷ cs) ≡ true → lookup_cell d m ≡ none)
    → (d : GridCell) → elem_cell d cs ≡ true
    → lookup_cell d (added c id m) ≡ none
unfolding elem_cell
fresh_after c cs id m h fresh d e = elim (Bool-cases (eq_cell c d)) [
  | inl same ↦ absurd (ground (arith, h, e, ap (λ x. elem_cell x cs) (eq_cell→eq c d same)))
  | inr apart ↦ added_elsewhere c d id m apart (fresh d (ground (arith, e)))
]

-- Cells that a page does not have, each once, are as many more for it.
length-add_cells :
    (n p id : String) (cs : List GridCell) (t : Table CellMap)
    → NoRepeat cs
    → ((d : GridCell) → elem_cell d cs ≡ true → lookup_cell d (page_cells n p t) ≡ none)
    → length (page_cells n p (add_cells n p id cs t)) ≡ length cs + length (page_cells n p t)
unfolding add_cells
length-add_cells n p id [] t h fresh = omega arith
length-add_cells n p id (c ∷ cs) t h fresh =
    let m = page_cells n p t in
    let page = page_cells-add_to_cell_locked n p id c t in
    omega (
      arith,
      length-add_cells n p id cs (add_to_cell_locked n p id c t) h.1
          (λ d e. ap (lookup_cell d) page ∙ fresh_after c cs id m h.0 fresh d e),
      ap length page,
      length-added c id m (fresh c (elem_cell_first c cs)),
    )

int_range-Unrepeated : (lo hi : ℤ) → Unrepeated (int_range lo hi)
unfolding int_range
int_range-Unrepeated lo hi = if_both Unrepeated (leb_ℤ lo hi) (span-Unrepeated lo _) tt

grid-NoRepeat : (w h : ℕ) → NoRepeat (grid w h)
grid-NoRepeat w h =
    cell_grid-NoRepeat (int_range (negsuc 0) (pos (w / 512 + 1)))
      (int_range (negsuc 0) (pos (h / 512 + 1))) (int_range-Unrepeated _ _)
      (int_range-Unrepeated _ _)

page_cells-grid :
    (n p id : String) (w h : ℕ) (b : Bool) (t : Table CellMap)
    → page_cells n p t ≡ []
    → length (page_cells n p (add_cells n p id (if b then grid w h else []) t))
      ≡ (if b then cell_count w h else 0)
unfolding lookup_cell add_cells
page_cells-grid n p id w h false t e = ap length e
page_cells-grid n p id w h true t e =
    let fresh = ap length e in
    omega (
      arith,
      length-add_cells n p id (grid w h) t (grid-NoRepeat w h) (λ d k. ap (lookup_cell d) e),
      length-grid w h,
      fresh,
    )

-- A connection's first report, of a rectangle at the origin of a page without cells, in whole units
-- and of less than 2 ^ 39 of them a side, takes an entry of the index
-- for each of its cells, one for each 512 units on either side and three more; no size is refused
-- before the slice of the cells passes what `make` allocates, where `Cells` panics with the report
-- recorded and without a cell.
pub update_growth :
    (connection_id note_id page_id : String) (preview : Option PreviewPreferences) (w h : ℕ)
    (idx : MemoryInterestIndex)
    → 0 < w
    → 0 < h
    → w < 2 ^ 39
    → h < 2 ^ 39
    → lookup connection_id idx.by_connection ≡ none
    → page_cells note_id page_id idx.by_cell ≡ []
    → (let reported = report connection_id note_id page_id preview w h in
        let count = (w / 512 + 3) * (h / 512 + 3) in
        let idx' = update reported idx in
        (cells_panic reported ≡ not (leb count (2 ^ 44)))
        × (lookup connection_id idx'.by_connection ≡ some reported)
        × (length (page_cells note_id page_id idx'.by_cell)
            ≡ (if leb count (2 ^ 44) then count else 0)))
unfolding update
update_growth c n p e w h idx pw ph bw bh absent empty =
    let r = report c n p e w h in
    (
      rw (positive_units w pw, positive_units h ph, makes_cells-report c n p e w h bw bh) refl,
      rw absent (ground (arith, lookup-insert c c r idx.by_connection, eq_refl c)),
      rw (absent, cells-report c n p e w h pw ph bw bh)
          (page_cells-grid n p c w h (leb (cell_count w h) max_cells) idx.by_cell empty),
    )
