-- ===== src/Interest/Index/Cells.antt =====
-- internal/infrastructure/memory_interest_index.go: who watches a cell, after each change of the sets.
use my_pol_go_backend.Prelude.{
  String, Bool, true, false, ◌&&◌, Option, none, some, List, [], ◌∷◌, if◌then◌else◌, ◌==◌, get_or,
  is_some, arith, ◌≡◌, refl, ap, eq_iff, ◌∙◌,
}
use my_pol_go_backend.Prelude.Lists.{is_empty}
use my_pol_go_backend.Prelude.Int.{ℤ, pos, negsuc, eqz, eqz_refl}
use my_pol_go_backend.Prelude.Dict.{Dict, lookup, insert, delete, lookup-delete, lookup-insert}
use my_pol_go_backend.Prelude.Table.{Table, cell, put, cell-put, cell-remove}
use my_pol_go_backend.Interest.{Interest, GridCell, eq_cell, cells}
use my_pol_go_backend.Interest.Viewport.{elem_cell}
use my_pol_go_backend.Interest.Index.{
  CellMap, lookup_cell, delete_cell, insert_cell, add_to_cell_locked, add_cells, drop_cell,
  drop_from, drop_cells, without, store_cells, remove_locked, watches,
}

pub eqz→eq : (a b : ℤ) → eqz a b ≡ true → a ≡ b
eqz→eq (pos a) (pos b) h = ap (λ n. pos n) (ground arith)
eqz→eq (pos a) (negsuc b) h = ground arith
eqz→eq (negsuc a) (pos b) h = ground arith
eqz→eq (negsuc a) (negsuc b) h = ap (λ n. negsuc n) (ground arith)

pub eq_cell→eq : (a b : GridCell) → eq_cell a b ≡ true → a ≡ b
unfolding eq_cell
eq_cell→eq a b h =
    let ex = eqz→eq a.x b.x (ground arith) in
    let ey = eqz→eq a.y b.y (ground arith) in λ k. record { x = ex k; y = ey k }

pub eq_cell_refl : (a : GridCell) → eq_cell a a ≡ true
unfolding eq_cell
eq_cell_refl a = ground (arith, eqz_refl a.x, eqz_refl a.y)

eqz_sym : (a b : ℤ) → eqz a b ≡ eqz b a
eqz_sym (pos a) (pos b) = ground arith
eqz_sym (negsuc a) (negsuc b) = ground arith
eqz_sym (pos a) (negsuc b) = refl
eqz_sym (negsuc a) (pos b) = refl

pub eq_cell_sym : (a b : GridCell) → eq_cell a b ≡ eq_cell b a
unfolding eq_cell
eq_cell_sym a b = ground (arith, eqz_sym a.x b.x, eqz_sym a.y b.y)

-- A test that holds lets one cell stand for the other.
pub same_cell :
    (a b c : GridCell)
    → eq_cell a b ≡ true
    → (eq_cell a c ≡ eq_cell b c) × (eq_cell c a ≡ eq_cell c b)
same_cell a b c h =
    (ap (λ x. eq_cell x c) (eq_cell→eq a b h), ap (λ x. eq_cell c x) (eq_cell→eq a b h))

pub lookup_cell-delete_cell :
    (c d : GridCell) (m : CellMap)
    → lookup_cell d (delete_cell c m) ≡ (if eq_cell c d then none else lookup_cell d m)
unfolding lookup_cell delete_cell
lookup_cell-delete_cell c d [] = ground arith
lookup_cell-delete_cell c d ((e, v) ∷ m) =
    ground (arith, lookup_cell-delete_cell c d m, same_cell e c d, same_cell c d e)

-- Whether a connection is in the set of a cell of one page.
unfoldable pub watching : String → GridCell → CellMap → Bool
unfolding lookup_cell
watching id c m = is_some (lookup id (get_or [] (lookup_cell c m)))

watching-insert_cell :
    (id : String) (c d : GridCell) (v : Dict (Unit {0})) (m : CellMap)
    → watching id d (insert_cell c v m)
      ≡ (if eq_cell c d then is_some (lookup id v) else watching id d m)
unfolding watching lookup_cell
watching-insert_cell id c d v m = ground (arith, lookup_cell-delete_cell c d m)

pub lookup_cell_same :
    (c d : GridCell) (m : CellMap) → eq_cell c d ≡ true → lookup_cell c m ≡ lookup_cell d m
lookup_cell_same c d m h = ap (λ x. lookup_cell x m) (eq_cell→eq c d h)

empty-lookup : (id : String) (v : Dict (Unit {0})) → is_empty v ≡ true → lookup id v ≡ none
unfolding lookup
empty-lookup id [] h = refl
empty-lookup id (x ∷ v) h = absurd (ground arith)

watching-drop_from :
    (id j : String) (c d : GridCell) (m : CellMap) (o : Option (Dict (Unit {0})))
    → lookup_cell c m ≡ o
    → watching j d (drop_from c id o m) ≡ (if id == j && eq_cell c d then false else watching j d m)
unfolding watching lookup
watching-drop_from id j c d m none h = ground (arith, lookup_cell_same c d m)
watching-drop_from id j c d m (some v) h = ground (
  arith,
  lookup_cell_same c d m,
  lookup_cell-delete_cell c d m,
  watching-insert_cell j c d (delete id v) m,
  lookup-delete id j v,
  empty-lookup j (delete id v),
)

watching-drop_cell :
    (id j : String) (c d : GridCell) (m : CellMap)
    → watching j d (drop_cell id c m) ≡ (if id == j && eq_cell c d then false else watching j d m)
unfolding drop_cell
watching-drop_cell id j c d m = watching-drop_from id j c d m (lookup_cell c m) refl

empty_watching : (id : String) (c : GridCell) → watching id c [] ≡ false
unfolding watching lookup_cell lookup
empty_watching id c = refl

watching-drop_cells :
    (id j : String) (d : GridCell) (cs : List GridCell) (m : CellMap)
    → watching j d (drop_cells id cs m)
      ≡ (if id == j && elem_cell d cs then false else watching j d m)
unfolding drop_cells elem_cell
watching-drop_cells id j d [] m = ground arith
watching-drop_cells id j d (c ∷ cs) m = ground (
  arith,
  watching-drop_cells id j d cs (drop_cell id c m),
  watching-drop_cell id j c d m,
  eq_cell_sym c d,
)

watches-put :
    (id n p n2 p2 : String) (c : GridCell) (m : CellMap) (t : Table CellMap)
    → watches id n p c (put n2 p2 m t)
      ≡ (if n2 == n && p2 == p then watching id c m else watches id n p c t)
unfolding watches watching
watches-put id n p n2 p2 c m t = ground (arith, cell-put n2 p2 n p m t)

watches-store_cells :
    (id n p n2 p2 : String) (c : GridCell) (m : CellMap) (t : Table CellMap)
    → watches id n p c (store_cells n2 p2 m t)
      ≡ (if n2 == n && p2 == p then watching id c m else watches id n p c t)
unfolding watches watching lookup_cell lookup
watches-store_cells id n p n2 p2 c [] t = ground (arith, cell-remove n2 p2 n p t)
watches-store_cells id n p n2 p2 c (x ∷ m) t = watches-put id n p n2 p2 c (x ∷ m) t

same_page :
    (n p n2 p2 : String) (t : Table CellMap)
    → (n2 == n && p2 == p) ≡ true
    → cell n2 p2 t ≡ cell n p t
same_page n p n2 p2 t h =
    ap (λ x. cell x p2 t) ((eq_iff n2 n).0 (ground arith))
    ∙ ap (λ x. cell n x t) ((eq_iff p2 p).0 (ground arith))

watches-without :
    (id n p : String) (c : GridCell) (i : Interest) (t : Table CellMap) (o : Option CellMap)
    → cell i.note_id i.page_id t ≡ o
    → watches id n p c (without i o t) ≡ (
        if i.connection_id == id && i.note_id == n && i.page_id == p && elem_cell c (cells i)
        then false
        else watches id n p c t)
unfolding watches watching
watches-without id n p c i t none h =
    ground (arith, same_page n p i.note_id i.page_id t, empty_watching id c)
watches-without id n p c i t (some m) h = ground (
  arith,
  same_page n p i.note_id i.page_id t,
  watches-store_cells id n p i.note_id i.page_id c (drop_cells i.connection_id (cells i) m) t,
  watching-drop_cells i.connection_id id c (cells i) m,
)

-- A report that is taken out leaves its cells, and no other connection's.
pub watches-remove_locked :
    (id n p : String) (c : GridCell) (i : Interest) (t : Table CellMap)
    → watches id n p c (remove_locked i t) ≡ (
        if i.connection_id == id && i.note_id == n && i.page_id == p && elem_cell c (cells i)
        then false
        else watches id n p c t)
unfolding remove_locked
watches-remove_locked id n p c i t = watches-without id n p c i t (cell i.note_id i.page_id t) refl

watches-add_to_cell_locked :
    (id j n p n2 p2 : String) (c d : GridCell) (t : Table CellMap)
    → watches j n p d (add_to_cell_locked n2 p2 id c t)
      ≡ (if id == j && n2 == n && p2 == p && eq_cell c d then true else watches j n p d t)
unfolding add_to_cell_locked watches watching
watches-add_to_cell_locked id j n p n2 p2 c d t =
    let m = get_or [] (cell n2 p2 t) in
    let v = get_or [] (lookup_cell c m) in
    ground (
      arith,
      same_page n p n2 p2 t,
      watches-put j n p n2 p2 d (insert_cell c (insert id tt v) m) t,
      watching-insert_cell j c d (insert id tt v) m,
      lookup-insert id j tt v,
      lookup_cell_same c d m,
    )

-- A report that is put in adds its connection to its cells.
pub watches-add_cells :
    (id j n p n2 p2 : String) (d : GridCell) (cs : List GridCell) (t : Table CellMap)
    → watches j n p d (add_cells n2 p2 id cs t)
      ≡ (if id == j && n2 == n && p2 == p && elem_cell d cs then true else watches j n p d t)
unfolding add_cells elem_cell
watches-add_cells id j n p n2 p2 d [] t = ground arith
watches-add_cells id j n p n2 p2 d (c ∷ cs) t = ground (
  arith,
  watches-add_cells id j n p n2 p2 d cs (add_to_cell_locked n2 p2 id c t),
  watches-add_to_cell_locked id j n p n2 p2 c d t,
  eq_cell_sym c d,
)
