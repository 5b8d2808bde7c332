-- ===== src/Transport/Queues/Frames.antt =====
-- internal/transport/queues.go: the pending ephemeral frames as one list, oldest stream first.
use my_pol_go_backend.Prelude.{
  String, true, false, Option, none, some, List, [], ◌∷◌, ◌++◌, ◌≡◌, refl, ◌==◌, if◌then◌else◌,
  is_some, arith, eq_iff, String-cases, inl, inr,
}
use my_pol_go_backend.Prelude.Lists.{length, elem, NoDup}
use my_pol_go_backend.Prelude.Dict.{Dict, lookup, insert, delete, lookup-insert, lookup-delete}

module _ {ℓ} {V : Type ℓ} where
  abbrev add_frame : String → Option V → List (String × V) → List (String × V)
  add_frame k none l = l
  add_frame k (some v) l = (k, v) ∷ l

  unfoldable pub frames : List String → Dict V → List (String × V)
  frames [] m = []
  frames (k ∷ ks) m = add_frame k (lookup k m) (frames ks m)

  -- Every key of a list is bound.
  abbrev pub Present : List String → Dict V → Type 0
  Present [] m = Unit
  Present (k ∷ ks) m = (is_some (lookup k m) ≡ true) × Present ks m

  -- A coalescing list: a frame replaces the one of its stream, or goes to the end.
  unfoldable pub upsert : String → V → List (String × V) → List (String × V)
  upsert k v [] = (k, v) ∷ []
  upsert k v ((j, w) ∷ l) = if j == k then (k, v) ∷ l else (j, w) ∷ upsert k v l

  pub frames-insert_ne :
      (k : String) (v : V) (ks : List String) (m : Dict V)
      → elem k ks ≡ false
      → frames ks (insert k v m) ≡ frames ks m
  unfolding frames elem
  frames-insert_ne k v [] m h = refl
  frames-insert_ne k v (j ∷ ks) m h =
      ground (arith, frames-insert_ne k v ks m, lookup-insert k j v m)

  pub frames-delete_ne :
      (k : String) (ks : List String) (m : Dict V)
      → elem k ks ≡ false
      → frames ks (delete k m) ≡ frames ks m
  unfolding frames elem
  frames-delete_ne k [] m h = refl
  frames-delete_ne k (j ∷ ks) m h = ground (arith, frames-delete_ne k ks m, lookup-delete k j m)

  pub Present-delete_ne :
      (k : String) (ks : List String) (m : Dict V)
      → elem k ks ≡ false
      → Present ks m
      → Present ks (delete k m)
  unfolding elem
  Present-delete_ne k [] m h p = tt
  Present-delete_ne k (j ∷ ks) m h p =
      (ground (arith, lookup-delete k j m, p.0), Present-delete_ne k ks m (ground arith) p.1)

  pub Present-insert :
      (k : String) (v : V) (ks : List String) (m : Dict V)
      → Present ks m
      → Present ks (insert k v m)
  Present-insert k v [] m p = tt
  Present-insert k v (j ∷ ks) m p =
      (ground (arith, lookup-insert k j v m, p.0), Present-insert k v ks m p.1)

  pub Present-snoc :
      (k : String) (ks : List String) (m : Dict V)
      → Present ks m
      → is_some (lookup k m) ≡ true
      → Present (ks ++ k ∷ []) m
  Present-snoc k [] m p h = (h, tt)
  Present-snoc k (j ∷ ks) m p h = (p.0, Present-snoc k ks m p.1 h)

  -- A frame of a queued stream replaces that stream's frame where it stands.
  pub frames-insert_old :
      (k : String) (v : V) (ks : List String) (m : Dict V)
      → elem k ks ≡ true
      → NoDup ks
      → Present ks m
      → frames ks (insert k v m) ≡ upsert k v (frames ks m)
  unfolding frames elem upsert
  frames-insert_old k v [] m h n p = ground arith
  frames-insert_old k v (j ∷ ks) m h n p = elim (String-cases j k) [
    | inl e ↦
        ground (
          arith,
          frames-insert_ne k v ks m,
          lookup-insert k j v m,
          eq_iff j k,
          eq_iff k j,
          n.0,
          p.0,
        )
    | inr e ↦ ground (
      arith,
      frames-insert_old k v ks m,
      n.1,
      p.1,
      lookup-insert k j v m,
      eq_iff j k,
      eq_iff k j,
      p.0,
    )
  ]

  -- A frame of a new stream goes to the end.
  pub frames-insert_new :
      (k : String) (v : V) (ks : List String) (m : Dict V)
      → elem k ks ≡ false
      → frames (ks ++ k ∷ []) (insert k v m) ≡ upsert k v (frames ks m)
  unfolding frames elem upsert
  frames-insert_new k v [] m h = ground (arith, lookup-insert k k v m, eq_iff k k)
  frames-insert_new k v (j ∷ ks) m h =
      ground (arith, frames-insert_new k v ks m, lookup-insert k j v m, eq_iff j k, eq_iff k j)

  pub length-frames :
      (ks : List String) (m : Dict V) → Present ks m → length (frames ks m) ≡ length ks
  unfolding frames
  length-frames [] m p = refl
  length-frames (k ∷ ks) m p = ground (arith, length-frames ks m p.1, p.0)
