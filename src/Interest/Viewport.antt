-- ===== src/Interest/Viewport.antt =====
-- internal/domain/interest.go: the cells of a rectangle against the points near it.
use my_pol_go_backend.Prelude.{
  ℕ, zero, suc, ◌+◌, ◌-◌, ◌^◌, ◌≤◌, Bool, true, false, ◌&&◌, ◌||◌, List, [], ◌∷◌, ◌++◌, arith, ◌≡◌,
  refl, Bool-cases, inl, inr, leb→le, leb-false,
}
use my_pol_go_backend.Prelude.Int.{
  ℤ, pos, negsuc, ◌+ℤ◌, ◌≤ℤ◌, leb_ℤ, pos_part, neg_part, neg, tdiv, eqz, +ℤ_parts,
}
use my_pol_go_backend.Interest.{
  Interest, GridCell, eq_cell, cell_index, span, int_range, cell_column, cell_grid, is_positive,
  cells, to_int, min_cell, max_cell, makes_cells,
}

-- A coordinate whose whole part is an int64.
abbrev pub InRange : ℤ → Type 0
InRange c = (negsuc (2 ^ 73 - 1) ≤ℤ c) × (c ≤ℤ pos (2 ^ 73 - 1))

pub to_int_exact : (c : ℤ) → InRange c → to_int c ≡ tdiv c 1024
unfolding to_int tdiv
to_int_exact (pos n) h = ground arith
to_int_exact (negsuc n) h = ground arith

quotient_near :
    (a b : ℤ) → a ≤ℤ b +ℤ pos 524288 → tdiv (tdiv a 1024) 512 ≤ℤ tdiv (tdiv b 1024) 512 +ℤ pos 1
unfolding ◌+ℤ◌ tdiv
quotient_near (pos a) (pos b) h = ground arith
quotient_near (negsuc a) (pos b) h = ground arith
quotient_near (pos a) (negsuc b) h = ground arith
quotient_near (negsuc a) (negsuc b) h = ground arith

-- A coordinate that is at most one cell beyond another has at most the next index.
cell_index_near :
    (a b : ℤ) → InRange a → InRange b → a ≤ℤ b +ℤ pos 524288 → cell_index a ≤ℤ cell_index b +ℤ pos 1
unfolding cell_index
cell_index_near a b r q h = rw (to_int_exact a r, to_int_exact b q) (quotient_near a b h)

unfoldable pub elem_cell : GridCell → List GridCell → Bool
elem_cell c [] = false
elem_cell c (d ∷ ds) = eq_cell c d || elem_cell c ds

unfoldable pub elem_int : ℤ → List ℤ → Bool
elem_int c [] = false
elem_int c (d ∷ ds) = eqz c d || elem_int c ds

or_right : (a b : Bool) → b ≡ true → (a || b) ≡ true
or_right a b h = ground arith

pub eqz_first : (c d : ℤ) → pos_part c + neg_part d ≡ pos_part d + neg_part c → eqz c d ≡ true
eqz_first (pos a) (pos b) h = ground arith
eqz_first (negsuc a) (negsuc b) h = ground arith
eqz_first (pos a) (negsuc b) h = absurd (omega arith)
eqz_first (negsuc a) (pos b) h = absurd (omega arith)

elem-span :
    (c lo : ℤ) (n : ℕ)
    → lo ≤ℤ c
    → pos_part c + neg_part lo + 1 ≤ pos_part lo + neg_part c + n
    → elem_int c (span lo n) ≡ true
unfolding elem_int span
elem-span c lo zero h k = absurd (omega arith)
elem-span c lo (suc n) h k = elim (Bool-cases (leb_ℤ c lo)) [
  | inl e ↦ (let le = leb→le _ _ e in let q = eqz_first c lo (omega arith) in ground arith)
  | inr e ↦
      (let gt = leb-false _ _ e in
        or_right (eqz c lo) _ (
          elem-span c (lo +ℤ pos 1) n (omega (arith, +ℤ_parts lo (pos 1)))
            (omega (arith, +ℤ_parts lo (pos 1)))))
]

neg_parts : (a : ℤ) → (pos_part (neg a) ≡ neg_part a) × (neg_part (neg a) ≡ pos_part a)
neg_parts (pos zero) = ground arith
neg_parts (pos (suc n)) = ground arith
neg_parts (negsuc n) = ground arith

elem-int_range : (c lo hi : ℤ) → lo ≤ℤ c → c ≤ℤ hi → elem_int c (int_range lo hi) ≡ true
unfolding int_range
elem-int_range c lo hi h k =
    let fits : leb_ℤ lo hi ≡ true = ground arith in
    rw fits (
      elem-span c lo (pos_part (hi +ℤ neg lo) + 1) h
        (omega (arith, +ℤ_parts hi (neg lo), (neg_parts lo).0, (neg_parts lo).1)))

pub elem_cell-append :
    (c : GridCell) (xs ys : List GridCell)
    → elem_cell c (xs ++ ys) ≡ (elem_cell c xs || elem_cell c ys)
unfolding elem_cell
elem_cell-append c [] ys = refl
elem_cell-append c (x ∷ xs) ys = ground (arith, elem_cell-append c xs ys)

pub elem_cell-column :
    (c : GridCell) (cx : ℤ) (ys : List ℤ)
    → elem_cell c (cell_column cx ys) ≡ (eqz c.x cx && elem_int c.y ys)
unfolding elem_cell elem_int cell_column eq_cell
elem_cell-column c cx [] = ground arith
elem_cell-column c cx (y ∷ ys) = ground (arith, elem_cell-column c cx ys)

pub elem_cell-grid :
    (c : GridCell) (xs ys : List ℤ)
    → elem_cell c (cell_grid xs ys) ≡ (elem_int c.x xs && elem_int c.y ys)
unfolding elem_cell elem_int cell_grid
elem_cell-grid c [] ys = refl
elem_cell-grid c (x ∷ xs) ys = ground (
  arith,
  elem_cell-grid c xs ys,
  elem_cell-append c (cell_column x ys) (cell_grid xs ys),
  elem_cell-column c x ys,
)

-- Within one cell's size of the visible stretch.
abbrev pub Near : ℤ → ℤ → ℤ → Type 0
Near p start size = (start ≤ℤ p +ℤ pos 524288) × (p ≤ℤ (start +ℤ size) +ℤ pos 524288)

elem_int_close :
    (p start size : ℤ)
    → InRange p
    → InRange start
    → InRange (start +ℤ size)
    → Near p start size
    → elem_int (cell_index p) (int_range (min_cell start) (max_cell start size)) ≡ true
elem_int_close p start size r q t h =
    let below = cell_index_near start p q r h.0 in
    let above = cell_index_near p (start +ℤ size) r t h.1 in
    elem-int_range (cell_index p) _ _
      (omega (arith, +ℤ_parts (cell_index start) (negsuc 0), +ℤ_parts (cell_index p) (pos 1))) above

-- A report whose corners are in the range of the conversion, and whose cells `make` allocates.
pub record IsPlaced (i : Interest) : Type 0 where
  pub left : InRange i.x
  pub right : InRange (i.x +ℤ i.width)
  pub top : InRange i.y
  pub bottom : InRange (i.y +ℤ i.height)
  pub fits : makes_cells i ≡ true

-- A point on the screen, or at most one cell's size away from it, lies in a cell of the rectangle.
pub elem_cell-cells :
    (i : Interest) (px py : ℤ)
    → IsPlaced i
    → InRange px
    → InRange py
    → is_positive i.width ≡ true
    → is_positive i.height ≡ true
    → Near px i.x i.width
    → Near py i.y i.height
    → elem_cell (record { x = cell_index px; y = cell_index py }) (cells i) ≡ true
unfolding cells
elem_cell-cells i px py placed rx ry w h nx ny =
    let xs = int_range (min_cell i.x) (max_cell i.x i.width) in
    let ys = int_range (min_cell i.y) (max_cell i.y i.height) in
    let c : GridCell = record { x = cell_index px; y = cell_index py } in
    rw (w, h, placed.fits)
      (ground (
        arith,
        elem_cell-grid c xs ys,
        elem_int_close px i.x i.width rx placed.left placed.right nx,
        elem_int_close py i.y i.height ry placed.top placed.bottom ny,
      ))
