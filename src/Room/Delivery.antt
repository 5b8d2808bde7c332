-- ===== src/Room/Delivery.antt =====
-- internal/application/room_service.go: what a round of sends or closes does to each connection.
use my_pol_go_backend.Prelude.{
  String, Bool, true, false, ◌&&◌, ◌||◌, Option, none, some, List, [], ◌∷◌, ◌==◌, ◌≡◌, refl, sym,
  ap, subst, ◌∙◌, arith, if◌then◌else◌, eq_iff, inl, inr, Bool-cases, String-cases,
}
use my_pol_go_backend.Prelude.Lists.{elem, NoDup}
use my_pol_go_backend.Prelude.Dict.{lookup, modify, map_some, lookup-modify, lookup-modify_twice}
use my_pol_go_backend.Permission.{Permission}
use my_pol_go_backend.Envelope.{Envelope}
use my_pol_go_backend.Transport.Queues.{OutboundQueues, mark_closed_with}
use my_pol_go_backend.Room.{Peer, send_reliable, close, set_permission}
use my_pol_go_backend.Room.Service.{
  RoomService, write_peer, send_to, is_refused, send_or_close, send_to_all, close_connection,
  close_connections, set_permissions,
}

-- The object after a send that closes it where its queue is full.
unfoldable pub offered : String → Envelope → Peer → Peer
unfolding send_reliable close
offered reason e p =
    if (send_reliable e p).0 then close reason (send_reliable e p).1 else (send_reliable e p).1

map_some-offered :
    (reason : String) (e : Envelope) (o : Option Peer)
    → map_some (offered reason e) o ≡ (
        if is_refused e o
        then map_some (close reason) (map_some (λ p. (send_reliable e p).1) o)
        else map_some (λ p. (send_reliable e p).1) o)
unfolding offered is_refused
map_some-offered reason e none = refl
map_some-offered reason e (some p) = elim (Bool-cases (send_reliable e p).0) [
  | inl q ↦ rw (q) refl
  | inr q ↦ rw (q) refl
]

peers-if :
    (b : Bool) (x y : RoomService) → (if b then x else y).peers ≡ (if b then x.peers else y.peers)
peers-if true x y = refl
peers-if false x y = refl

peers-send_or_close :
    (reason : String) (e : Envelope) (h : String) (s : RoomService)
    → (send_or_close reason e h s).peers ≡ (
        if is_refused e (lookup h s.peers)
        then modify h (close reason) (modify h (λ p. (send_reliable e p).1) s.peers)
        else modify h (λ p. (send_reliable e p).1) s.peers)
unfolding send_or_close send_to write_peer close_connection
peers-send_or_close reason e h s =
    peers-if (is_refused e (lookup h s.peers)) (close_connection reason h (send_to e h s).1)
      (send_to e h s).1

pub lookup-send_or_close :
    (reason : String) (e : Envelope) (h j : String) (s : RoomService)
    → lookup j (send_or_close reason e h s).peers
      ≡ (if h == j then map_some (offered reason e) (lookup j s.peers) else lookup j s.peers)
lookup-send_or_close reason e h j s =
    ap (lookup j) (peers-send_or_close reason e h s)
    ∙ lookup-modify_twice h j (is_refused e) (λ p. (send_reliable e p).1) (close reason) s.peers
    ∙ ap (λ o. if h == j then o else lookup j s.peers)
        (sym (map_some-offered reason e (lookup j s.peers)))

eq_sym : (a b : String) → (a == b) ≡ (b == a)
eq_sym a b = ground (arith, eq_iff a b, eq_iff b a)

elem_once : (h j : String) (hs : List String) → elem h hs ≡ false → ((h == j) && elem j hs) ≡ false
elem_once h j hs n = elim (String-cases h j) [
  | inl e ↦ subst (λ x. ((h == x) && elem x hs) ≡ false) e (rw n (ground arith))
  | inr e ↦ rw e refl
]

-- One step of a round, and the steps after it.
round_step :
    {A : Type 0} (f : A → A) (x y z : A) (first rest : Bool)
    → y ≡ (if first then f x else x)
    → z ≡ (if rest then f y else y)
    → (first && rest) ≡ false
    → z ≡ (if first || rest then f x else x)
round_step f x y z true false p q h = q ∙ p
round_step f x y z false true p q h = q ∙ ap f p
round_step f x y z false false p q h = q ∙ p
round_step f x y z true true p q h = absurd (ground arith)

pub lookup-send_to_all :
    (reason : String) (e : Envelope) (hs : List String) (j : String) (s : RoomService)
    → NoDup hs
    → lookup j (send_to_all reason e hs s).peers
      ≡ (if elem j hs then map_some (offered reason e) (lookup j s.peers) else lookup j s.peers)
unfolding send_to_all elem
lookup-send_to_all reason e [] j s n = refl
lookup-send_to_all reason e (h ∷ hs) j s n = rw (eq_sym j h) (
    round_step (map_some (offered reason e)) _ _ _ (h == j) (elem j hs)
      (lookup-send_or_close reason e h j s)
      (lookup-send_to_all reason e hs j (send_or_close reason e h s) n.1) (elem_once h j hs n.0))

round_step_again :
    {A : Type 0} (f : A → A) (x y z : A) (first rest : Bool)
    → y ≡ (if first then f x else x)
    → z ≡ (if rest then f y else y)
    → f (f x) ≡ f x
    → z ≡ (if first || rest then f x else x)
round_step_again f x y z true false p q h = q ∙ p
round_step_again f x y z false true p q h = q ∙ ap f p
round_step_again f x y z false false p q h = q ∙ p
round_step_again f x y z true true p q h = q ∙ ap f p ∙ h

map_some_twice :
    (f : Peer → Peer) (o : Option Peer)
    → ((p : Peer) → f (f p) ≡ f p)
    → map_some f (map_some f o) ≡ map_some f o
map_some_twice f none h = refl
map_some_twice f (some p) h = ap (λ x. some x) (h p)

mark_closed_twice :
    (reason : String) (q : OutboundQueues)
    → mark_closed_with reason (mark_closed_with reason q) ≡ mark_closed_with reason q
unfolding mark_closed_with
mark_closed_twice reason q = elim (Bool-cases q.closed) [ inl e ↦ rw e refl | inr e ↦ rw e refl ]

close_twice : (reason : String) (p : Peer) → close reason (close reason p) ≡ close reason p
unfolding close
close_twice reason p = ap (λ q. record p { queues = q }) (mark_closed_twice reason p.queues)

pub lookup-close_connections :
    (reason : String) (hs : List String) (j : String) (s : RoomService)
    → lookup j (close_connections reason hs s).peers
      ≡ (if elem j hs then map_some (close reason) (lookup j s.peers) else lookup j s.peers)
unfolding close_connections close_connection write_peer elem
lookup-close_connections reason [] j s = refl
lookup-close_connections reason (h ∷ hs) j s = rw (eq_sym j h) (
    round_step_again (map_some (close reason)) _ _ _ (h == j) (elem j hs)
      (lookup-modify h j (close reason) s.peers)
      (lookup-close_connections reason hs j (close_connection reason h s))
      (map_some_twice (close reason) (lookup j s.peers) (close_twice reason)))

pub lookup-set_permissions :
    (permission : Permission) (hs : List String) (j : String) (s : RoomService)
    → lookup j (set_permissions permission hs s).peers ≡ (
        if elem j hs
        then map_some (set_permission permission) (lookup j s.peers)
        else lookup j s.peers)
unfolding set_permissions write_peer elem set_permission
lookup-set_permissions permission [] j s = refl
lookup-set_permissions permission (h ∷ hs) j s = rw (eq_sym j h) (
    round_step_again (map_some (set_permission permission)) _ _ _ (h == j) (elem j hs)
      (lookup-modify h j (set_permission permission) s.peers)
      (lookup-set_permissions permission hs j (write_peer h (set_permission permission) s))
      (map_some_twice (set_permission permission) (lookup j s.peers) (λ p. refl)))
