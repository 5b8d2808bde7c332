-- ===== src/Room/FanOut.antt =====
-- internal/application/room_service.go: the loop of `Relay` over the peers, for an ephemeral frame.
use my_pol_go_backend.Prelude.{
  ℕ, String, Bool, true, false, Option, List, [], ◌∷◌, ◌==◌, ◌≡◌, refl, ap, subst, ◌∙◌, arith,
  if◌then◌else◌, inl, inr, String-cases, eq_iff,
}
use my_pol_go_backend.Prelude.Lists.{elem, NoDup}
use my_pol_go_backend.Prelude.Dict.{lookup, map_some, lookup-modify}
use my_pol_go_backend.Envelope.{Envelope}
use my_pol_go_backend.Interest.{EventLocation}
use my_pol_go_backend.Room.{Peer, send_ephemeral}
use my_pol_go_backend.Room.Service.{RoomLibrary, RoomService, write_peer, is_recipient}
use my_pol_go_backend.Room.Relay.{send_ephemeral_to, coalesce_key, send_keyed, fan_out}

module _ (lib : RoomLibrary) (sender_id : String) (e : Envelope) (location : EventLocation) where
  lookup-send_keyed :
      (h j : String) (s : RoomService)
      → lookup j (send_keyed lib sender_id e h s).peers ≡ (
          if h == j
          then map_some
              (send_ephemeral e (coalesce_key lib sender_id e s.delta_seq).0)
              (lookup j s.peers)
          else lookup j s.peers)
  unfolding send_keyed send_ephemeral_to write_peer
  lookup-send_keyed h j s =
      lookup-modify h j (send_ephemeral e (coalesce_key lib sender_id e s.delta_seq).0) s.peers

  -- The state after the loop's turn for one peer.
  unfoldable turn : Bool → String → RoomService → RoomService
  turn chosen h s = if chosen then send_keyed lib sender_id e h s else s

  is_recipient-turn :
      (b : Bool) (h j : String) (s : RoomService)
      → is_recipient e.event location j (turn b h s) ≡ is_recipient e.event location j s
  unfolding turn is_recipient send_keyed send_ephemeral_to write_peer
  is_recipient-turn true h j s = refl
  is_recipient-turn false h j s = refl

  lookup-turn_other :
      (b : Bool) (h j : String) (s : RoomService)
      → (h == j) ≡ false
      → lookup j (turn b h s).peers ≡ lookup j s.peers
  unfolding turn
  lookup-turn_other true h j s n = lookup-send_keyed h j s ∙ rw n refl
  lookup-turn_other false h j s n = refl

  elem_tail : (j h : String) (hs : List String) → elem j (h ∷ hs) ≡ false → elem j hs ≡ false
  unfolding elem
  elem_tail j h hs n = ground arith

  elem_head : (j h : String) (hs : List String) → elem j (h ∷ hs) ≡ false → (h == j) ≡ false
  unfolding elem
  elem_head j h hs n = ground (arith, eq_iff j h, eq_iff h j)

  -- A connection that is not among the peers is not touched.
  pub fan_out_outside :
      (hs : List String) (j : String) (s : RoomService)
      → elem j hs ≡ false
      → lookup j (fan_out lib sender_id e location hs s).1.peers ≡ lookup j s.peers
  unfolding fan_out turn
  fan_out_outside [] j s n = refl
  fan_out_outside (h ∷ hs) j s n =
      fan_out_outside hs j (turn (is_recipient e.event location h s) h s) (elem_tail j h hs n)
      ∙ lookup-turn_other (is_recipient e.event location h s) h j s (elem_head j h hs n)

  -- Nor is one that does not want the frame.
  pub fan_out_unwanted :
      (hs : List String) (j : String) (s : RoomService)
      → is_recipient e.event location j s ≡ false
      → lookup j (fan_out lib sender_id e location hs s).1.peers ≡ lookup j s.peers
  unfolding fan_out turn
  fan_out_unwanted [] j s n = refl
  fan_out_unwanted (h ∷ hs) j s n =
      let b = is_recipient e.event location h s in
      fan_out_unwanted hs j (turn b h s) (is_recipient-turn b h j s ∙ n)
      ∙ (elim (String-cases h j) [
        | inl q ↦
            ap (λ x. lookup j (turn x h s).peers)
              (ap (λ x. is_recipient e.event location x s) q ∙ n)
        | inr q ↦ lookup-turn_other b h j s q
      ])

  -- A frame is queued, under its key at some count of the deltas.
  abbrev pub Sent : Option Peer → Option Peer → Type 0
  Sent before after =
      (k : ℕ) × (after ≡ map_some (send_ephemeral e (coalesce_key lib sender_id e k).0) before)

  wanted_here :
      (h j : String) (hs : List String) (s : RoomService)
      → h ≡ j
      → elem h hs ≡ false
      → is_recipient e.event location j s ≡ true
      → lookup j
          (fan_out lib sender_id e location hs
            (turn (is_recipient e.event location h s) h s)).1.peers
        ≡ map_some
            (send_ephemeral e (coalesce_key lib sender_id e s.delta_seq).0)
            (lookup j s.peers)
  unfolding turn
  wanted_here h j hs s q n w =
      fan_out_outside hs j (turn (is_recipient e.event location h s) h s)
        (subst (λ x. elem x hs ≡ false) q n)
      ∙ ap (λ x. lookup j (turn x h s).peers) (ap (λ x. is_recipient e.event location x s) q ∙ w)
      ∙ lookup-send_keyed h j s
      ∙ rw ((eq_iff h j).1 q) refl

  -- One that wants it has it queued once.
  pub fan_out_wanted :
      (hs : List String) (j : String) (s : RoomService)
      → NoDup hs
      → elem j hs ≡ true
      → is_recipient e.event location j s ≡ true
      → Sent (lookup j s.peers) (lookup j (fan_out lib sender_id e location hs s).1.peers)
  unfolding fan_out turn
  fan_out_wanted [] j s u n w = absurd (unfold elem in ground arith)
  fan_out_wanted (h ∷ hs) j s u n w =
      let b = is_recipient e.event location h s in
      elim (String-cases h j) [
        | inl q ↦ (s.delta_seq, wanted_here h j hs s q u.0 w)
        | inr q ↦
            (let rest =
                fan_out_wanted hs j (turn b h s) u.1
                  (unfold elem in ground (arith, n, q, eq_iff j h, eq_iff h j))
                  (is_recipient-turn b h j s ∙ w) in
              (
                rest.0,
                rest.1
                    ∙ ap (map_some (send_ephemeral e (coalesce_key lib sender_id e rest.0).0))
                        (lookup-turn_other b h j s q),
              ))
      ]
