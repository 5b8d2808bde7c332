-- ===== src/Room/Store.antt =====
-- internal/infrastructure/memory_room_store.go: the answers of the store against who is in which room.
use my_pol_go_backend.Prelude.{
  String, Bool, true, false, not, ◌&&◌, ◌||◌, none, some, List, [], ◌∷◌, ◌++◌, ◌==◌, ◌≡◌, refl, ap,
  ◌∙◌, arith, if◌then◌else◌, is_some, eq_iff, inl, inr, Bool-cases, String-cases,
}
use my_pol_go_backend.Prelude.Lists.{elem, NoDup}
use my_pol_go_backend.Prelude.Dict.{Dict, lookup, Distinct}
use my_pol_go_backend.Prelude.Table.{
  Table, cell, row, IsTable, row-Distinct, cell-put, cell-remove, put-IsTable, remove-IsTable,
}
use my_pol_go_backend.Connection.{Connection}
use my_pol_go_backend.Room.{
  Peer, join_room, leave_room, others, peers_of, handles, all_connections, matching, tests,
}

-- Each room holds an id under itself, and no key is there twice.
pub record IsRooms (rooms : Table String) : Type 0 where
  pub table : IsTable rooms
  pub named : (n b h : String) → cell n b rooms ≡ some h → h ≡ b

pub join_room-IsRooms :
    (c : Connection) (rooms : Table String) → IsRooms rooms → IsRooms (join_room c rooms).1
unfolding join_room
join_room-IsRooms c rooms h = record {
  table = put-IsTable c.note_id c.id c.id rooms h.table;
  named = λ n b k e.
      ground (arith, cell-put c.note_id c.id n b c.id rooms, h.named n b k, eq_iff c.id b, e);
}

pub leave_room-IsRooms :
    (c : Connection) (rooms : Table String) → IsRooms rooms → IsRooms (leave_room c rooms).1
unfolding leave_room
leave_room-IsRooms c rooms h = record {
  table = remove-IsTable c.note_id c.id rooms h.table;
  named = λ n b k e. ground (arith, cell-remove c.note_id c.id n b rooms, h.named n b k, e);
}

-- A map of names to themselves.
abbrev Named : Dict String → Type 0
Named d = (b h : String) → lookup b d ≡ some h → h ≡ b

others_tail : (id h : String) (d : Dict String) → lookup id d ≡ none → Named ((id, h) ∷ d) → Named d
unfolding lookup
others_tail id h d fresh m b k e = elim (String-cases id b) [
  | inl q ↦ (let at_id : lookup id d ≡ some k = ap (λ x. lookup x d) q ∙ e in absurd (ground arith))
  | inr q ↦ m b k (rw q e)
]

same_lookup : (a b : String) (d : Dict String) → (a == b) ≡ true → lookup a d ≡ lookup b d
same_lookup a b d h = ap (λ x. lookup x d) ((eq_iff a b).0 h)

elem-others :
    (j except : String) (d : Dict String)
    → Distinct d
    → Named d
    → elem j (others except d) ≡ (is_some (lookup j d) && not (j == except))
unfolding others elem lookup
elem-others j except [] u m = refl
elem-others j except ((id, h) ∷ d) u m =
    let rest = elem-others j except d u.1 (others_tail id h d u.0 m) in
    let own : h ≡ id = m id h (ground (arith, eq_iff id id)) in
    ground (
      arith,
      rest,
      u.0,
      same_lookup id j d,
      eq_iff id except,
      eq_iff id j,
      eq_iff j id,
      eq_iff j except,
    )

others_absent :
    (j except : String) (d : Dict String)
    → Distinct d
    → Named d
    → lookup j d ≡ none
    → elem j (others except d) ≡ false
others_absent j except d u m e = ground (arith, elem-others j except d u m)

others-NoDup : (except : String) (d : Dict String) → Distinct d → Named d → NoDup (others except d)
unfolding others lookup
others-NoDup except [] u m = tt
others-NoDup except ((id, h) ∷ d) u m =
    let tail = others_tail id h d u.0 m in
    let rest = others-NoDup except d u.1 tail in
    let own : h ≡ id = m id h (ground (arith, eq_iff id id)) in
    let fresh = others_absent h except d u.1 tail (ap (λ x. lookup x d) own ∙ u.0) in
    elim (Bool-cases (id == except)) [ inl q ↦ rw q rest | inr q ↦ rw q (fresh, rest) ]

row-Named : (n : String) (rooms : Table String) → IsRooms rooms → Named (row n rooms)
unfolding cell
row-Named n rooms r b h e = r.named n b h e

-- The peers of a connection are the others on the note, each once.
pub elem-peers_of :
    (j note_id except : String) (rooms : Table String)
    → IsRooms rooms
    → elem j (peers_of note_id except rooms) ≡ (is_some (cell note_id j rooms) && not (j == except))
unfolding peers_of cell
elem-peers_of j note_id except rooms r =
    elem-others j except (row note_id rooms) (row-Distinct note_id rooms r.table)
      (row-Named note_id rooms r)

pub peers_of-NoDup :
    (note_id except : String) (rooms : Table String)
    → IsRooms rooms
    → NoDup (peers_of note_id except rooms)
unfolding peers_of
peers_of-NoDup note_id except rooms r =
    others-NoDup except (row note_id rooms) (row-Distinct note_id rooms r.table)
      (row-Named note_id rooms r)

elem-append : (j : String) (xs ys : List String) → elem j (xs ++ ys) ≡ (elem j xs || elem j ys)
unfolding elem
elem-append j [] ys = refl
elem-append j (x ∷ xs) ys = ground (arith, elem-append j xs ys)

elem-handles : (b h : String) (d : Dict String) → lookup b d ≡ some h → elem h (handles d) ≡ true
unfolding lookup handles elem
elem-handles b h [] e = absurd (ground arith)
elem-handles b h ((k, v) ∷ d) e = ground (arith, elem-handles b h d, eq_iff h v)

-- Whoever is in a room is among all connections.
pub elem-all_connections :
    (n b h : String) (rooms : Table String)
    → cell n b rooms ≡ some h
    → elem h (all_connections rooms) ≡ true
unfolding cell row lookup all_connections
elem-all_connections n b h [] e = absurd (ground arith)
elem-all_connections n b h ((m, d) ∷ rooms) e = ground (
  arith,
  elem-append h (handles d) (all_connections rooms),
  elem-handles b h d,
  elem-all_connections n b h rooms,
)

same_test :
    (test : Connection → Bool) (a b : String) (peers : Dict Peer)
    → (a == b) ≡ true
    → tests test (lookup a peers) ≡ tests test (lookup b peers)
same_test test a b peers h = ap (λ x. tests test (lookup x peers)) ((eq_iff a b).0 h)

matching_step :
    (j h : String) (rest : List String) (found chosen within : Bool)
    → elem j rest ≡ (within && found)
    → ((j == h) ≡ true → found ≡ chosen)
    → elem j (if chosen then h ∷ rest else rest) ≡ ((j == h || within) && found)
unfolding elem
matching_step j h rest found chosen within e same = ground (arith, e, same)

pub elem-matching :
    (test : Connection → Bool) (j : String) (hs : List String) (peers : Dict Peer)
    → elem j (matching test hs peers) ≡ (elem j hs && tests test (lookup j peers))
unfolding matching elem
elem-matching test j [] peers = refl
elem-matching test j (h ∷ hs) peers =
    matching_step j h (matching test hs peers) (tests test (lookup j peers))
      (tests test (lookup h peers)) (elem j hs) (elem-matching test j hs peers)
      (same_test test j h peers)

-- The joins and the leaves of a process.
pub data Membership : Type 0 where
  joined left : Connection → Membership

unfoldable pub memberships : List Membership → Table String → Table String
unfolding join_room leave_room
memberships [] rooms = rooms
memberships (joined c ∷ ms) rooms = memberships ms (join_room c rooms).1
memberships (left c ∷ ms) rooms = memberships ms (leave_room c rooms).1

memberships_kept :
    (ms : List Membership) (rooms : Table String) → IsRooms rooms → IsRooms (memberships ms rooms)
unfolding memberships
memberships_kept [] rooms r = r
memberships_kept (joined c ∷ ms) rooms r = memberships_kept ms _ (join_room-IsRooms c rooms r)
memberships_kept (left c ∷ ms) rooms r = memberships_kept ms _ (leave_room-IsRooms c rooms r)

-- After any joins and leaves of a new store, each room has each of its connections once, under its id.
pub memberships-IsRooms : (ms : List Membership) → IsRooms (memberships ms [])
unfolding cell row lookup
memberships-IsRooms ms =
    memberships_kept ms []
      (record { table = record { keys = tt; rows = tt }; named = λ n b h e. absurd (ground arith) })
