-- ===== src/Interest/Growth.antt =====
-- internal/domain/interest.go: how many cells a reported rectangle takes.
use my_pol_go_backend.Prelude.{
  ℕ, zero, suc, ◌+◌, ◌*◌, ◌/◌, ◌<◌, ◌^◌, ◌%◌, leb, Bool, not, true, false, List, [], ◌∷◌,
  if◌then◌else◌, arith, ◌≡◌, refl, ◌∙◌, String, Option,
}
use my_pol_go_backend.Interest.Viewport.{to_int_exact}
use my_pol_go_backend.Prelude.Lists.{length, length-append}
use my_pol_go_backend.Prelude.Int.{ℤ, pos, negsuc, ◌+ℤ◌, neg, pos_part, leb_ℤ, tdiv}
use my_pol_go_backend.Interest.{
  Interest, GridCell, PreviewPreferences, is_positive, cell_index, span, int_range, cell_column,
  cell_grid, cells, to_int, min_cell, max_cell, stretch, fits_make, makes_cells, max_cells,
}

length-span : (lo : ℤ) (n : ℕ) → length (span lo n) ≡ n
unfolding span
length-span lo zero = refl
length-span lo (suc n) = omega (arith, length-span (lo +ℤ pos 1) n)

length-cell_column : (cx : ℤ) (ys : List ℤ) → length (cell_column cx ys) ≡ length ys
unfolding cell_column
length-cell_column cx [] = refl
length-cell_column cx (y ∷ ys) = omega (arith, length-cell_column cx ys)

length-cell_grid : (xs ys : List ℤ) → length (cell_grid xs ys) ≡ length xs * length ys
unfolding cell_grid
length-cell_grid [] ys = omega arith
length-cell_grid (x ∷ xs) ys = grind (
  arith,
  length-cell_grid xs ys,
  length-append (cell_column x ys) (cell_grid xs ys),
  length-cell_column x ys,
)

length-int_range :
    (a b : ℤ) → length (int_range a b) ≡ (if leb_ℤ a b then pos_part (b +ℤ neg a) + 1 else 0)
unfolding int_range
length-int_range a b = ground (arith, length-span a (pos_part (b +ℤ neg a) + 1))

-- The cells from the left of a stretch at the origin to its right.
cell_index_units : (w : ℕ) → w < 2 ^ 39 → cell_index (pos (w * 1024)) ≡ pos (w / 512)
unfolding cell_index tdiv
cell_index_units w h = rw (to_int_exact (pos (w * 1024)) (omega arith, omega arith)) (ground arith)

from_origin : (n : ℕ) → pos 0 +ℤ pos n ≡ pos n
unfolding ◌+ℤ◌
from_origin n = ground arith

add_margin : (n : ℕ) → pos n +ℤ pos 1 ≡ pos (n + 1)
unfolding ◌+ℤ◌
add_margin n = ground arith

max_cell_units : (w : ℕ) → w < 2 ^ 39 → max_cell (pos 0) (pos (w * 1024)) ≡ pos (w / 512 + 1)
max_cell_units w h = rw (from_origin (w * 1024), cell_index_units w h) (add_margin (w / 512))

min_cell_origin : min_cell (pos 0) ≡ negsuc 0
unfolding cell_index tdiv ◌+ℤ◌ to_int
min_cell_origin = ground arith

length-axis : (w : ℕ) → length (int_range (negsuc 0) (pos (w / 512 + 1))) ≡ w / 512 + 3
unfolding ◌+ℤ◌
length-axis w = length-int_range (negsuc 0) (pos (w / 512 + 1)) ∙ ground arith

stretch_units : (w : ℕ) → stretch (negsuc 0) (pos (w / 512 + 1)) ≡ pos (w / 512 + 3)
unfolding ◌+ℤ◌
stretch_units w = ground arith

word_small : (n : ℕ) → n < 2 ^ 64 → n % 2 ^ 64 ≡ n
word_small n h = omega arith

area_small : (a b : ℕ) → a < 2 ^ 31 → b < 2 ^ 31 → a * b < 2 ^ 64
area_small a b h k = grind arith

-- Below 2 ^ 39 units a side, the capacity is the number of cells.
fits_make_units :
    (w h : ℕ)
    → w < 2 ^ 39
    → h < 2 ^ 39
    → fits_make (pos (w / 512 + 3)) (pos (h / 512 + 3))
      ≡ leb ((w / 512 + 3) * (h / 512 + 3)) max_cells
unfolding fits_make
fits_make_units w h pw ph =
    let columns = word_small (w / 512 + 3) (omega arith) in
    let rows = word_small (h / 512 + 3) (omega arith) in
    let area = area_small (w / 512 + 3) (h / 512 + 3) (omega arith) (omega arith) in
    rw (columns, rows, word_small ((w / 512 + 3) * (h / 512 + 3)) area) refl

pub positive_units : (w : ℕ) → 0 < w → is_positive (pos (w * 1024)) ≡ true
positive_units w h = ground arith

-- The report of a rectangle at the origin of a page, in whole units.
abbrev pub report : String → String → String → Option PreviewPreferences → ℕ → ℕ → Interest
report connection_id note_id page_id preview w h = record {
  connection_id = connection_id;
  note_id = note_id;
  page_id = page_id;
  x = pos 0;
  y = pos 0;
  width = pos (w * 1024);
  height = pos (h * 1024);
  preview = preview;
}

pub makes_cells-report :
    (connection_id note_id page_id : String) (preview : Option PreviewPreferences) (w h : ℕ)
    → w < 2 ^ 39
    → h < 2 ^ 39
    → makes_cells (report connection_id note_id page_id preview w h)
      ≡ leb ((w / 512 + 3) * (h / 512 + 3)) max_cells
unfolding makes_cells
makes_cells-report c n p e w h pw ph =
    rw (max_cell_units w pw, max_cell_units h ph, min_cell_origin, stretch_units w, stretch_units h)
      (fits_make_units w h pw ph)

if_not : {A : Type 0} (b : Bool) (x y : A) → (if not b then x else y) ≡ (if b then y else x)
if_not true x y = refl
if_not false x y = refl

-- The number of cells of a rectangle at the origin.
abbrev pub cell_count : ℕ → ℕ → ℕ
cell_count w h = (w / 512 + 3) * (h / 512 + 3)

abbrev pub grid : ℕ → ℕ → List GridCell
grid w h =
    cell_grid (int_range (negsuc 0) (pos (w / 512 + 1))) (int_range (negsuc 0) (pos (h / 512 + 1)))

pub cells-report :
    (connection_id note_id page_id : String) (preview : Option PreviewPreferences) (w h : ℕ)
    → 0 < w
    → 0 < h
    → w < 2 ^ 39
    → h < 2 ^ 39
    → cells (report connection_id note_id page_id preview w h)
      ≡ (if leb (cell_count w h) max_cells then grid w h else [])
unfolding cells int_range
cells-report c n p e w h pw ph bw bh =
    rw
      (
        positive_units w pw,
        positive_units h ph,
        makes_cells-report c n p e w h bw bh,
        max_cell_units w bw,
        max_cell_units h bh,
        min_cell_origin,
      )
      (if_not (leb (cell_count w h) max_cells) [] (grid w h))

pub length-grid : (w h : ℕ) → length (grid w h) ≡ cell_count w h
length-grid w h =
    length-cell_grid (int_range (negsuc 0) (pos (w / 512 + 1)))
      (int_range (negsuc 0) (pos (h / 512 + 1)))
    ∙ (rw (length-axis w, length-axis h) refl)
