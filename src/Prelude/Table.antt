-- ===== src/Prelude/Table.antt =====
-- Go's `map[string]map[string]V`: read, write and delete through both levels, with the inner map
-- made on the first write and dropped when it empties, and a pass over a snapshot of all entries.
use my_pol_go_backend.Prelude.Tests.{if◌then◌else◌, get_or}
use my_pol_go_backend.Prelude.Lists.{is_empty}
use my_pol_go_backend.Prelude.Dict.{
  Dict, lookup, insert, delete, lookup-delete, lookup-insert, Distinct, delete-Distinct,
  insert-Distinct, total, total-delete, total-insert, share,
}
use Prim.Native.Nat.{ℕ, ◌+◌}
use Prim.Native.String.{String}
use mathlib.Core.Path.{◌≡◌}
use mathlib.Core.Bool.{◌&&◌}
use mathlib.Core.Option.{Option, none, some}
use mathlib.Core.List.{[], ◌∷◌}
use native.Mathlib.Omega.{arith}
use text.Mathlib.Text.{◌==◌}
use text.Mathlib.TextEquality.{eq_iff}

abbrev pub Table {ℓ} : Type ℓ → Type ℓ
Table V = Dict (Dict V)

module _ {ℓ} {V : Type ℓ} where
  -- `t[row]`; a missing row reads as the nil map.
  unfoldable pub row : String → Table V → Dict V
  row n t = get_or [] (lookup n t)

  -- `t[n][b]`
  unfoldable pub cell : String → String → Table V → Option V
  unfolding row
  cell n b t = lookup b (row n t)

  -- `if _, ok := t[n]; !ok { t[n] = make(...) }`
  unfoldable pub ensure_row : String → Table V → Table V
  ensure_row n t = elim (lookup n t) [ none ↦ insert n [] t | some d ↦ t ]

  -- `t[n][b] = v`, where the row is there
  unfoldable pub put : String → String → V → Table V → Table V
  unfolding row
  put n b v t = insert n (insert b v (row n t)) t

  -- `delete(t[n], b); if len(t[n]) == 0 { delete(t, n) }`
  replace_row : String → Dict V → Table V → Table V
  replace_row n d t = if is_empty d then delete n t else insert n d t

  unfoldable pub remove : String → String → Table V → Table V
  unfolding row replace_row
  remove n b t = replace_row n (delete b (row n t)) t

  pub row-ensure_row : (n m : String) (t : Table V) → row m (ensure_row n t) ≡ row m t
  unfolding row ensure_row
  row-ensure_row n m t = ground (arith, lookup-insert n m [] t, eq_iff n m)

  pub cell-ensure_row : (n m c : String) (t : Table V) → cell m c (ensure_row n t) ≡ cell m c t
  unfolding cell
  cell-ensure_row n m c t = ground (arith, row-ensure_row n m t)

  pub cell-put :
      (n b m c : String) (v : V) (t : Table V)
      → cell m c (put n b v t) ≡ (if n == m && b == c then some v else cell m c t)
  unfolding cell put
  cell-put n b m c v t =
      ground (
        arith,
        lookup-insert n m (insert b v (row n t)) t,
        lookup-insert b c v (row n t),
        eq_iff n m,
      )

  row-replace_row :
      (n m : String) (d : Dict V) (t : Table V)
      → row m (replace_row n d t) ≡ (if n == m then d else row m t)
  unfolding row replace_row
  row-replace_row n m [] t = ground (arith, lookup-delete n m t)
  row-replace_row n m (x ∷ d) t = ground (arith, lookup-insert n m (x ∷ d) t)

  pub cell-remove :
      (n b m c : String) (t : Table V)
      → cell m c (remove n b t) ≡ (if n == m && b == c then none else cell m c t)
  unfolding cell remove
  cell-remove n b m c t =
      ground
        (arith, row-replace_row n m (delete b (row n t)) t, lookup-delete b c (row n t), eq_iff n m)

  -- Both levels bind each key once.
  abbrev pub DistinctRows : Table V → Type ℓ
  DistinctRows [] = Unit
  DistinctRows ((n, d) ∷ t) = Distinct d × DistinctRows t

  pub record IsTable (t : Table V) : Type ℓ where
    pub keys : Distinct t
    pub rows : DistinctRows t

  lookup-Distinct : (n : String) (t : Table V) → DistinctRows t → Distinct (get_or [] (lookup n t))
  unfolding lookup
  lookup-Distinct n [] h = tt
  lookup-Distinct n ((m, d) ∷ t) h =
      let rest = lookup-Distinct n t h.1 in let first = h.0 in ground (arith, rest, first)

  pub row-Distinct : (n : String) (t : Table V) → IsTable t → Distinct (row n t)
  unfolding row
  row-Distinct n t h = lookup-Distinct n t h.rows

  delete-DistinctRows : (n : String) (t : Table V) → DistinctRows t → DistinctRows (delete n t)
  unfolding delete
  delete-DistinctRows n [] h = tt
  delete-DistinctRows n ((m, d) ∷ t) h =
      let rest = delete-DistinctRows n t h.1 in let first = h.0 in ground (arith, rest, first)

  insert-IsTable :
      (n : String) (d : Dict V) (t : Table V) → Distinct d → IsTable t → IsTable (insert n d t)
  unfolding insert
  insert-IsTable n d t hd h = record {
    keys = unfold insert in insert-Distinct n d t h.keys;
    rows = (hd, delete-DistinctRows n t h.rows);
  }

  delete-IsTable : (n : String) (t : Table V) → IsTable t → IsTable (delete n t)
  delete-IsTable n t h = record {
    keys = delete-Distinct n t h.keys;
    rows = delete-DistinctRows n t h.rows;
  }

  pub ensure_row-IsTable : (n : String) (t : Table V) → IsTable t → IsTable (ensure_row n t)
  unfolding ensure_row
  ensure_row-IsTable n t h =
      elim (lookup n t) as (λ o. IsTable (elim o [ none ↦ insert n [] t | some d ↦ t ])) [
        | none ↦ insert-IsTable n [] t tt h
        | some d ↦ h
      ]

  pub put-IsTable : (n b : String) (v : V) (t : Table V) → IsTable t → IsTable (put n b v t)
  unfolding put
  put-IsTable n b v t h =
      insert-IsTable n _ t (insert-Distinct b v (row n t) (row-Distinct n t h)) h

  replace_row-IsTable :
      (n : String) (d : Dict V) (t : Table V) → Distinct d → IsTable t → IsTable (replace_row n d t)
  unfolding replace_row
  replace_row-IsTable n [] t hd h = delete-IsTable n t h
  replace_row-IsTable n (x ∷ d) t hd h = insert-IsTable n (x ∷ d) t hd h

  pub remove-IsTable : (n b : String) (t : Table V) → IsTable t → IsTable (remove n b t)
  unfolding remove
  remove-IsTable n b t h =
      replace_row-IsTable n _ t (delete-Distinct b (row n t) (row-Distinct n t h)) h

-- The sum of a measure over every entry.
module _ {ℓ} {V : Type ℓ} (f : V → ℕ) where
  abbrev pub total_cells : Table V → ℕ
  total_cells = total (total f)

  share-row : (n : String) (t : Table V) → share (total f) (lookup n t) ≡ total f (row n t)
  unfolding row total
  share-row n t = ground arith

  replace_row-total :
      (n : String) (d : Dict V) (t : Table V)
      → Distinct t
      → total_cells (replace_row n d t) + total f (row n t) ≡ total_cells t + total f d
  unfolding replace_row
  replace_row-total n [] t h =
      unfold total in omega (arith, total-delete (total f) n t h, share-row n t)
  replace_row-total n (x ∷ d) t h =
      omega (arith, total-insert (total f) n (x ∷ d) t h, share-row n t)

  pub total-ensure_row :
      (n : String) (t : Table V) → IsTable t → total_cells (ensure_row n t) ≡ total_cells t
  unfolding ensure_row total
  total-ensure_row n t h = ground (arith, total-insert (total f) n [] t h.keys)

  pub total-put :
      (n b : String) (v : V) (t : Table V)
      → IsTable t
      → total_cells (put n b v t) + share f (cell n b t) ≡ total_cells t + f v
  unfolding put cell
  total-put n b v t h = omega (
    arith,
    total-insert (total f) n (insert b v (row n t)) t h.keys,
    share-row n t,
    total-insert f b v (row n t) (row-Distinct n t h),
  )

  pub total-remove :
      (n b : String) (t : Table V)
      → IsTable t
      → total_cells (remove n b t) + share f (cell n b t) ≡ total_cells t
  unfolding remove cell
  total-remove n b t h = omega (
    arith,
    replace_row-total n (delete b (row n t)) t h.keys,
    total-delete f b (row n t) (row-Distinct n t h),
  )
