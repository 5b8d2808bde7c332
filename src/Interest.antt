-- ===== src/Interest.antt =====
-- internal/domain/interest.go: what part of a page a connection has on screen, and the grid cells that
-- it covers. A float64 coordinate is a whole number of 1024ths of a canvas unit, so that sums are exact.
-- Its conversion to an int cuts off towards zero; out of the int64 range, it gives what amd64 gives.
pub mod Viewport
pub mod Index
pub mod Growth
pub mod Service
use my_pol_go_backend.Prelude.{
  ℕ, zero, suc, ◌+◌, ◌-◌, ◌*◌, ◌%◌, ◌^◌, String, Bool, true, false, not, ◌&&◌, ◌||◌, Option, none,
  some, List, [], ◌∷◌, ◌++◌, if◌then◌else◌, ◌==◌, ltb, leb,
}
use my_pol_go_backend.Prelude.Int.{ℤ, pos, negsuc, ◌+ℤ◌, leb_ℤ, pos_part, tdiv, eqz, neg}

abbrev pub grid_cell_size : ℕ
grid_cell_size = 512

-- What a canvas unit counts.
abbrev pub canvas_unit : ℕ
canvas_unit = 1024

pub record PreviewPreferences : Type 0 where
  pub transform : Bool
  pub ink : Bool
  pub cursor : Bool
  pub laser : Bool

pub record Interest : Type 0 where
  pub connection_id : String
  pub note_id : String
  pub page_id : String
  pub x : ℤ
  pub y : ℤ
  pub width : ℤ
  pub height : ℤ
  pub preview : Option PreviewPreferences

abbrev elects : Option PreviewPreferences → String → Bool
elects none event = true
elects (some p) event =
    if event == "block.transform.preview"
    then p.transform
    else if event == "ink.started" || event == "ink.points" || event == "ink.ended"
    then p.ink
    else if event == "cursor.moved"
    then p.cursor
    else if event == "laser.moved"
    then p.laser
    else true

-- `Interest.AllowsPreview`
unfoldable pub elects_preview : Interest → String → Bool
elects_preview i event = elects i.preview event

pub record GridCell : Type 0 where
  pub x : ℤ
  pub y : ℤ

unfoldable pub eq_cell : GridCell → GridCell → Bool
eq_cell a b = eqz a.x b.x && eqz a.y b.y

abbrev in_int64 : ℤ → Bool
in_int64 (pos n) = ltb n (2 ^ 63)
in_int64 (negsuc n) = ltb n (2 ^ 63)

-- `int(coordinate)`: the least int64 where the whole part is none.
unfoldable pub to_int : ℤ → ℤ
unfolding tdiv
to_int coordinate =
    let whole = tdiv coordinate canvas_unit in if in_int64 whole then whole else negsuc (2 ^ 63 - 1)

-- `int(coordinate) / GridCellSize`
unfoldable pub cell_index : ℤ → ℤ
unfolding tdiv to_int
cell_index coordinate = tdiv (to_int coordinate) grid_cell_size

-- The values of a loop variable from `lo`, for a number of rounds.
unfoldable pub span : ℤ → ℕ → List ℤ
span lo zero = []
span lo (suc n) = lo ∷ span (lo +ℤ pos 1) n

-- `for c := lo; c <= hi; c++`
unfoldable pub int_range : ℤ → ℤ → List ℤ
unfolding span
int_range lo hi = if leb_ℤ lo hi then span lo (pos_part (hi +ℤ neg lo) + 1) else []

unfoldable pub cell_column : ℤ → List ℤ → List GridCell
cell_column cx [] = []
cell_column cx (cy ∷ ys) = record { x = cx; y = cy } ∷ cell_column cx ys

unfoldable pub cell_grid : List ℤ → List ℤ → List GridCell
unfolding cell_column
cell_grid [] ys = []
cell_grid (cx ∷ xs) ys = cell_column cx ys ++ cell_grid xs ys

abbrev pub is_positive : ℤ → Bool
is_positive (pos n) = ltb 0 n
is_positive (negsuc n) = false

-- The bit pattern of an int64.
abbrev pub word64 : ℤ → ℕ
word64 (pos n) = n % 2 ^ 64
word64 (negsuc n) = 2 ^ 64 - 1 - n % 2 ^ 64

-- `hi - lo + 1`
abbrev pub stretch : ℤ → ℤ → ℤ
stretch lo hi = (hi +ℤ neg lo) +ℤ pos 1

-- What `make` may allocate, 2 ^ 48 bytes, in cells of 16 bytes.
abbrev pub max_cells : ℕ
max_cells = 2 ^ 44

-- `make([]GridCell, 0, columns*rows)` panics unless the int64 product is from 0 to the limit.
unfoldable pub fits_make : ℤ → ℤ → Bool
fits_make columns rows = leb (word64 columns * word64 rows % 2 ^ 64) max_cells

abbrev pub has_area : Interest → Bool
has_area i = is_positive i.width && is_positive i.height

abbrev pub min_cell : ℤ → ℤ
min_cell start = cell_index start +ℤ negsuc 0

abbrev pub max_cell : ℤ → ℤ → ℤ
max_cell start size = cell_index (start +ℤ size) +ℤ pos 1

-- Whether `make` in `Cells` takes its capacity.
unfoldable pub makes_cells : Interest → Bool
unfolding fits_make
makes_cells i =
    fits_make (stretch (min_cell i.x) (max_cell i.x i.width))
      (stretch (min_cell i.y) (max_cell i.y i.height))

-- `Cells` panics in `make`.
abbrev pub cells_panic : Interest → Bool
cells_panic i = has_area i && not (makes_cells i)

-- The cells under the rectangle, with one cell of margin on each side; none where `Cells` panics.
unfoldable pub cells : Interest → List GridCell
unfolding cell_grid int_range makes_cells
cells i =
    if not (is_positive i.width) || not (is_positive i.height)
    then []
    else if not (makes_cells i)
    then []
    else cell_grid (int_range (min_cell i.x) (max_cell i.x i.width))
        (int_range (min_cell i.y) (max_cell i.y i.height))

pub record EventLocation : Type 0 where
  pub page_id : String
  pub has_point : Bool
  pub x : ℤ
  pub y : ℤ

-- The fields of a payload that routing reads.
pub record LocationPayload : Type 0 where
  pub page_id : String
  pub x : Option ℤ
  pub y : Option ℤ

abbrev nowhere : String → EventLocation
nowhere page_id = record { page_id = page_id; has_point = false; x = pos 0; y = pos 0 }

abbrev located : String → Option ℤ → Option ℤ → EventLocation
located page_id (some x) (some y) = record { page_id = page_id; has_point = true; x = x; y = y }
located page_id none y = nowhere page_id
located page_id (some x) none = nowhere page_id

-- `LocationOf` of a payload as JSON decodes it, `none` being a failure.
unfoldable pub location_of : Option LocationPayload → EventLocation
location_of none = nowhere ""
location_of (some p) = located p.page_id p.x p.y
