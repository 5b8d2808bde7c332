-- ===== src/Prelude/Snapshot.antt =====
-- A loop over all entries of a `map[string]map[string]V`, as Go's nested `range` visits them: the
-- entries of the map at the start, each key once.
use my_pol_go_backend.Prelude.Tests.{if◌then◌else◌, String-cases}
use my_pol_go_backend.Prelude.Dict.{Dict, lookup, Distinct}
use my_pol_go_backend.Prelude.Table.{Table, cell, IsTable}
use Prim.Native.String.{String}
use mathlib.Core.Path.{◌≡◌, refl}
use mathlib.Core.Logic.{inl, inr}
use mathlib.Core.Bool.{◌&&◌}
use mathlib.Core.Option.{Option, none, some}
use mathlib.Core.List.{List, [], ◌∷◌}
use native.Mathlib.Omega.{arith}
use text.Mathlib.Text.{◌==◌}
use text.Mathlib.TextEquality.{eq_iff}

-- The two keys and the value.
abbrev pub Entry {ℓ} : Type ℓ → Type ℓ
Entry V = String × String × V

module _ {ℓ} {V : Type ℓ} where
  unfoldable pub row_entries : String → Dict V → List (Entry V) → List (Entry V)
  row_entries n [] rest = rest
  row_entries n ((b, v) ∷ d) rest = (n, b, v) ∷ row_entries n d rest

  unfoldable pub entries : Table V → List (Entry V)
  unfolding row_entries
  entries [] = []
  entries ((n, d) ∷ t) = row_entries n d (entries t)

  -- The entry of a snapshot under two keys.
  unfoldable pub find_entry : String → String → List (Entry V) → Option V
  find_entry n b [] = none
  find_entry n b ((m, c, v) ∷ es) = if m == n && c == b then some v else find_entry n b es

  -- No two entries have the same keys.
  abbrev pub DistinctEntries : List (Entry V) → Type ℓ
  DistinctEntries [] = Unit
  DistinctEntries ((m, c, v) ∷ es) = (find_entry m c es ≡ none) × DistinctEntries es

  abbrev or_else : Option V → Option V → Option V
  or_else none o = o
  or_else (some v) o = some v

  find_entry-row_entries :
      (n b m : String) (d : Dict V) (rest : List (Entry V))
      → find_entry n b (row_entries m d rest)
        ≡ (if m == n then or_else (lookup b d) (find_entry n b rest) else find_entry n b rest)
  unfolding find_entry row_entries lookup
  find_entry-row_entries n b m [] rest = ground arith
  find_entry-row_entries n b m ((c, v) ∷ d) rest =
      ground (arith, find_entry-row_entries n b m d rest)

  find_entry_absent :
      (n b : String) (t : Table V) → lookup n t ≡ none → find_entry n b (entries t) ≡ none
  unfolding find_entry entries lookup
  find_entry_absent n b [] h = refl
  find_entry_absent n b ((m, d) ∷ t) h =
      ground (arith, find_entry-row_entries n b m d (entries t), find_entry_absent n b t)

  -- The snapshot has exactly the entries of the map.
  pub find_entry-entries :
      (n b : String) (t : Table V) → Distinct t → find_entry n b (entries t) ≡ cell n b t
  unfolding entries cell lookup find_entry
  find_entry-entries n b [] h = refl
  find_entry-entries n b ((m, d) ∷ t) h = elim (String-cases m n) [
    | inl e ↦
        ground
          (arith, find_entry-row_entries n b m d (entries t), find_entry_absent n b t, eq_iff m n)
    | inr e ↦
        ground (arith, find_entry-row_entries n b m d (entries t), find_entry-entries n b t h.1)
  ]

  row_entries-Distinct :
      (m : String) (d : Dict V) (rest : List (Entry V))
      → Distinct d
      → ((c : String) → find_entry m c rest ≡ none)
      → DistinctEntries rest
      → DistinctEntries (row_entries m d rest)
  unfolding row_entries
  row_entries-Distinct m [] rest hd away hr = hr
  row_entries-Distinct m ((c, v) ∷ d) rest hd away hr = (
    ground (arith, find_entry-row_entries m c m d rest, away c, hd.0, eq_iff m m),
    row_entries-Distinct m d rest hd.1 away hr,
  )

  pub entries-Distinct : (t : Table V) → IsTable t → DistinctEntries (entries t)
  unfolding entries
  entries-Distinct [] h = tt
  entries-Distinct ((m, d) ∷ t) h =
      row_entries-Distinct m d (entries t) h.rows.0 (λ c. find_entry_absent m c t h.keys.0)
        (entries-Distinct t (record { keys = h.keys.1; rows = h.rows.1 }))
