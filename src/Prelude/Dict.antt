-- ===== src/Prelude/Dict.antt =====
-- Go's `map[string]V` as an association list. A write puts its binding in front; the code never
-- relies on an order of iteration, and no statement about a map does.
use Prim.Native.Nat.{ℕ, ◌+◌}
use Prim.Native.String.{String}
use mathlib.Core.Path.{◌≡◌, refl, ap, subst}
use mathlib.Core.Logic.{inl, inr}
use mathlib.Core.Bool.{Bool, true, false}
use mathlib.Core.Option.{Option, none, some}
use mathlib.Core.List.{List, [], ◌∷◌}
use native.Mathlib.Omega.{arith}
use text.Mathlib.Text.{◌==◌}
use text.Mathlib.TextEquality.{eq_iff}
use my_pol_go_backend.Prelude.Lists.{length}
use my_pol_go_backend.Prelude.Tests.{if◌then◌else◌, String-cases}

abbrev pub Dict {ℓ} : Type ℓ → Type ℓ
Dict V = List (String × V)

module _ {ℓ} {V : Type ℓ} where
  unfoldable pub lookup : String → Dict V → Option V
  lookup k [] = none
  lookup k ((j, v) ∷ d) = if j == k then some v else lookup k d

  unfoldable pub delete : String → Dict V → Dict V
  delete k [] = []
  delete k ((j, v) ∷ d) = let rest = delete k d in if j == k then rest else (j, v) ∷ rest

  unfoldable pub insert : String → V → Dict V → Dict V
  insert k v d = (k, v) ∷ delete k d

  pub lookup-delete :
      (k j : String) (d : Dict V) → lookup j (delete k d) ≡ (if k == j then none else lookup j d)
  unfolding lookup delete
  lookup-delete k j [] = ground arith
  lookup-delete k j ((i, v) ∷ d) =
      ground (arith, lookup-delete k j d, eq_iff i k, eq_iff i j, eq_iff k j)

  pub lookup-insert :
      (k j : String) (v : V) (d : Dict V)
      → lookup j (insert k v d) ≡ (if k == j then some v else lookup j d)
  unfolding lookup insert
  lookup-insert k j v d = ground (arith, lookup-delete k j d)

  -- No key is bound twice, as in every Go map.
  abbrev pub Distinct : Dict V → Type ℓ
  Distinct [] = Unit
  Distinct ((k, v) ∷ d) = (lookup k d ≡ none) × Distinct d

  pub delete-Distinct : (k : String) (d : Dict V) → Distinct d → Distinct (delete k d)
  unfolding delete
  delete-Distinct k [] h = tt
  delete-Distinct k ((j, v) ∷ d) h =
      let rest = delete-Distinct k d h.1 in ground (arith, rest, lookup-delete k j d)

  pub insert-Distinct : (k : String) (v : V) (d : Dict V) → Distinct d → Distinct (insert k v d)
  unfolding insert
  insert-Distinct k v d h = (ground (arith, lookup-delete k k d, eq_iff k k), delete-Distinct k d h)

  -- Deleting a key that is not bound changes nothing.
  pub delete_absent : (k : String) (d : Dict V) → lookup k d ≡ none → delete k d ≡ d
  unfolding lookup delete
  delete_absent k [] h = refl
  delete_absent k ((j, v) ∷ d) h = ground (arith, delete_absent k d)

pub ruleset dict_laws = (lookup-delete, lookup-insert)

-- The sum of a measure over a map's values, and the share of one binding in it.
module _ {ℓ} {V : Type ℓ} (f : V → ℕ) where
  unfoldable pub total : Dict V → ℕ
  total [] = 0
  total ((k, v) ∷ d) = f v + total d

  abbrev pub share : Option V → ℕ
  share none = 0
  share (some v) = f v

  pub total-delete :
      (k : String) (d : Dict V) → Distinct d → total (delete k d) + share (lookup k d) ≡ total d
  unfolding total delete lookup
  total-delete k [] h = omega arith
  total-delete k ((j, v) ∷ d) h = elim (String-cases j k) [
    | inl e ↦ ground (arith, total-delete k d h.1, delete_absent k d, eq_iff j k)
    | inr e ↦ ground (arith, total-delete k d h.1)
  ]

  pub total-insert :
      (k : String) (v : V) (d : Dict V)
      → Distinct d
      → total (insert k v d) + share (lookup k d) ≡ total d + f v
  unfolding total insert
  total-insert k v d h = omega (arith, total-delete k d h)

-- `for k, v := range d { if p(v) { delete(d, k); removed++ } }`
module _ {ℓ} {V : Type ℓ} (p : V → Bool) where
  unfoldable pub delete_where : Dict V → ℕ × Dict V
  delete_where [] = (0, [])
  delete_where ((k, v) ∷ d) =
      let (n, rest) = delete_where d in if p v then (n + 1, rest) else (n, (k, v) ∷ rest)

  abbrev pub matches : Option V → Bool
  matches none = false
  matches (some v) = p v

  delete_where_absent :
      (k : String) (d : Dict V) → lookup k d ≡ none → lookup k (delete_where d).1 ≡ none
  unfolding delete_where lookup
  delete_where_absent k [] h = refl
  delete_where_absent k ((j, v) ∷ d) h = ground (arith, delete_where_absent k d)

  pub lookup-delete_where :
      (k : String) (d : Dict V)
      → Distinct d
      → lookup k (delete_where d).1 ≡ (if matches (lookup k d) then none else lookup k d)
  unfolding delete_where lookup
  lookup-delete_where k [] h = refl
  lookup-delete_where k ((j, v) ∷ d) h = elim (String-cases j k) [
    | inl e ↦ ground (arith, delete_where_absent k d, lookup-delete_where k d h.1, h.0, eq_iff j k)
    | inr e ↦ ground (arith, lookup-delete_where k d h.1)
  ]

  pub delete_where-Distinct : (d : Dict V) → Distinct d → Distinct (delete_where d).1
  unfolding delete_where
  delete_where-Distinct [] h = tt
  delete_where-Distinct ((j, v) ∷ d) h =
      let rest = delete_where-Distinct d h.1 in
      let fresh = delete_where_absent j d h.0 in ground (arith, rest, fresh)

  -- What is counted and what is left make up what there was.
  pub length-delete_where : (d : Dict V) → (delete_where d).0 + length (delete_where d).1 ≡ length d
  unfolding delete_where
  length-delete_where [] = omega arith
  length-delete_where ((j, v) ∷ d) = ground (arith, length-delete_where d)

-- `if v, ok := d[k]; ok { d[k] = f(v) }`, and what it makes of each binding.
module _ {ℓ} {V : Type ℓ} where
  abbrev pub map_some : (V → V) → Option V → Option V
  map_some f none = none
  map_some f (some v) = some (f v)

  abbrev written : String → Option V → (V → V) → Dict V → Dict V
  written k none f d = d
  written k (some v) f d = insert k (f v) d

  unfoldable pub modify : String → (V → V) → Dict V → Dict V
  modify k f d = written k (lookup k d) f d

  lookup_same : (k j : String) (d : Dict V) → (k == j) ≡ true → lookup k d ≡ lookup j d
  lookup_same k j d h = ap (λ x. lookup x d) ((eq_iff k j).0 h)

  lookup-written :
      (k j : String) (f : V → V) (d : Dict V) (o : Option V)
      → lookup k d ≡ o
      → lookup j (written k o f d) ≡ (if k == j then map_some f (lookup j d) else lookup j d)
  lookup-written k j f d none e = ground (arith, lookup_same k j d)
  lookup-written k j f d (some v) e = ground (arith, lookup_same k j d, lookup-insert k j (f v) d)

  pub lookup-modify :
      (k j : String) (f : V → V) (d : Dict V)
      → lookup j (modify k f d) ≡ (if k == j then map_some f (lookup j d) else lookup j d)
  unfolding modify
  lookup-modify k j f d = lookup-written k j f d (lookup k d) refl

  twice_same :
      (k : String) (b : Option V → Bool) (f g : V → V) (d : Dict V)
      → lookup k (if b (lookup k d) then modify k g (modify k f d) else modify k f d) ≡ (
          if k == k
          then (if b (lookup k d)
              then map_some g (map_some f (lookup k d))
              else map_some f (lookup k d))
          else lookup k d)
  twice_same k b f g d =
      ground (arith, eq_iff k k, lookup-modify k k g (modify k f d), lookup-modify k k f d)

  twice_other :
      (k j : String) (b : Option V → Bool) (f g : V → V) (d : Dict V)
      → (k == j) ≡ false
      → lookup j (if b (lookup k d) then modify k g (modify k f d) else modify k f d) ≡ (
          if k == j
          then (if b (lookup j d)
              then map_some g (map_some f (lookup j d))
              else map_some f (lookup j d))
          else lookup j d)
  twice_other k j b f g d h =
      ground (arith, h, lookup-modify k j g (modify k f d), lookup-modify k j f d)

  -- A second write to the same binding, where a test on what was there asks for it.
  pub lookup-modify_twice :
      (k j : String) (b : Option V → Bool) (f g : V → V) (d : Dict V)
      → lookup j (if b (lookup k d) then modify k g (modify k f d) else modify k f d) ≡ (
          if k == j
          then (if b (lookup j d)
              then map_some g (map_some f (lookup j d))
              else map_some f (lookup j d))
          else lookup j d)
  lookup-modify_twice k j b f g d = elim (String-cases k j) [
    | inl e ↦
        subst
          (λ x. lookup x (if b (lookup k d) then modify k g (modify k f d) else modify k f d) ≡ (
            if k == x
            then (if b (lookup x d)
                then map_some g (map_some f (lookup x d))
                else map_some f (lookup x d))
            else lookup x d))
          e (twice_same k b f g d)
    | inr e ↦ twice_other k j b f g d e
  ]
