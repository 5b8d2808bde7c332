-- ===== src/ClientFrame/Containment.antt =====
-- internal/transport/client_frames.go: a frame that its sender may not publish.
use my_pol_go_backend.Prelude.{
  ℕ, String, Bool, true, false, Option, none, some, ◌==◌, arith, ◌≡◌, refl, ap, sym, subst, get_or,
  ◌∙◌, if_fails, if_intro,
}
use my_pol_go_backend.Prelude.Dict.{lookup, lookup-modify, map_some}
use my_pol_go_backend.Connection.{Connection}
use my_pol_go_backend.Envelope.{Envelope, classify_event, may_publish}
use my_pol_go_backend.Transport.Queues.{should_touch}
use my_pol_go_backend.Security.RateLimiter.{RateLimits, allow_class}
use my_pol_go_backend.Codec.Wire.{Bytes, is_binary_frame}
use my_pol_go_backend.Room.{Peer, enable_binary_frames}
use my_pol_go_backend.Room.Service.{write_peer}
use my_pol_go_backend.ClientFrame.{
  FrameLibrary, Backend, count_frame, parse_frame, proved_binary, touch_session, touched,
  with_rooms, session_touch_interval,
}
use my_pol_go_backend.ClientFrame.Admission.{publish_allowed, limited, parsed, handle_client_frame}

abbrev connection_in : Option Peer → Option Connection
connection_in none = none
connection_in (some p) = some p.connection

abbrev pub identity_at : String → Backend → Option Connection
identity_at h b = connection_in (lookup h b.rooms.peers)

-- What a frame may not change where it is refused: the rooms, the reports of viewports, the leases and
-- the permits, and every connection's object but the sender's, of which only the connection's identity
-- and permission are claimed.
pub record SameBut (h : String) (b b' : Backend) : Type 0 where
  pub membership : b'.rooms.rooms ≡ b.rooms.rooms
  pub interest : b'.rooms.interest ≡ b.rooms.interest
  pub arbiter : b'.arbiter ≡ b.arbiter
  pub permits : b'.permits ≡ b.permits
  pub other_peers :
      (j : String) → (h == j) ≡ false → lookup j b'.rooms.peers ≡ lookup j b.rooms.peers
  pub sender : identity_at h b' ≡ identity_at h b

same_refl : (h : String) (b : Backend) → SameBut h b b
same_refl h b = record {
  membership = refl;
  interest = refl;
  arbiter = refl;
  permits = refl;
  other_peers = λ j n. refl;
  sender = refl;
}

same_trans : (h : String) (a b c : Backend) → SameBut h a b → SameBut h b c → SameBut h a c
same_trans h a b c p q = record {
  membership = q.membership ∙ p.membership;
  interest = q.interest ∙ p.interest;
  arbiter = q.arbiter ∙ p.arbiter;
  permits = q.permits ∙ p.permits;
  other_peers = λ j n. q.other_peers j n ∙ p.other_peers j n;
  sender = q.sender ∙ p.sender;
}

connection-map_some :
    (f : Peer → Peer) (o : Option Peer)
    → ((p : Peer) → (f p).connection ≡ p.connection)
    → connection_in (map_some f o) ≡ connection_in o
connection-map_some f none h = refl
connection-map_some f (some p) h = ap (λ c. some c) (h p)

-- A write to the sender's object that keeps its identity.
write_same :
    (h : String) (f : Peer → Peer) (b : Backend)
    → ((p : Peer) → (f p).connection ≡ p.connection)
    → SameBut h b (with_rooms (write_peer h f b.rooms) b)
unfolding write_peer
write_same h f b keeps = record {
  membership = refl;
  interest = refl;
  arbiter = refl;
  permits = refl;
  other_peers = λ j n. lookup-modify h j f b.rooms.peers ∙ if_fails (h == j) _ _ n;
  sender =
      ap connection_in (lookup-modify h h f b.rooms.peers)
      ∙ if_intro (λ o. connection_in o ≡ connection_in (lookup h b.rooms.peers)) (h == h) _ _
          (λ _. connection-map_some f (lookup h b.rooms.peers) keeps) (λ _. refl);
}

count_same : (h : String) (frame : Bytes) (b : Backend) → SameBut h b (count_frame frame b)
unfolding count_frame
count_same h frame b = record {
  membership = refl;
  interest = refl;
  arbiter = refl;
  permits = refl;
  other_peers = λ j n. refl;
  sender = refl;
}

proved_same : (h : String) (o : Option Envelope) (b : Backend) → SameBut h b (proved_binary h o b)
unfolding enable_binary_frames
proved_same h none b = same_refl h b
proved_same h (some e) b = write_same h enable_binary_frames b (λ p. refl)

touched_same :
    (h : String) (due : Bool) (c : Connection) (now : ℕ) (b : Backend)
    → SameBut h b (touched due c now b)
touched_same h false c now b = same_refl h b
touched_same h true c now b = record {
  membership = refl;
  interest = refl;
  arbiter = refl;
  permits = refl;
  other_peers = λ j n. refl;
  sender = refl;
}

touch_same :
    (h : String) (now : ℕ) (o : Option Peer) (b : Backend) → SameBut h b (touch_session h now o b)
unfolding touch_session
touch_same h now none b = same_refl h b
touch_same h now (some p) b =
    let q = (should_touch now session_touch_interval p.queues).1 in
    let written = with_rooms (write_peer h (λ x. record x { queues = q }) b.rooms) b in
    same_trans h b written _ (write_same h (λ x. record x { queues = q }) b (λ x. refl))
      (touched_same h (should_touch now session_touch_interval p.queues).0 p.connection now written)

none_some : {A : Type 0} (e : Envelope) → none ≡ some e → A
none_some e h = absurd (ground arith)

module _ (lib : FrameLibrary) where
  parse_same :
      (h : String) (frame : Bytes) (b : Backend) → SameBut h b (parse_frame lib h frame b).1
  unfolding parse_frame
  parse_same h frame b =
      let P : Option Envelope × Backend → Type 0 = λ r. SameBut h b r.1 in
      if_intro P (is_binary_frame frame) _ _ (λ _. proved_same h (lib.decode_binary frame) b)
        (λ _. same_refl h b)

  publish_same :
      (h : String) (o : Option Peer) (c : Connection) (e : Envelope) (now : ℕ) (b : Backend)
      → connection_in o ≡ some c
      → may_publish c.permission e.event ≡ false
      → publish_allowed lib o e now b ≡ b
  publish_same h none c e now b at n = refl
  publish_same h (some p) c e now b at n =
      if_fails (may_publish p.connection.permission e.event) _ b
        (subst (λ x. may_publish x.permission e.event ≡ false) (sym (ap (get_or c) at)) n)

  limited_same :
      (h : String) (c : Connection) (e : Envelope) (now : ℕ) (limits : RateLimits) (b : Backend)
      → identity_at h b ≡ some c
      → may_publish c.permission e.event ≡ false
      → (limited lib h e now limits b).1 ≡ b
  limited_same h c e now limits b at n =
      if_intro (λ t. t ≡ b) (allow_class (classify_event e.event) now limits).0 _ b
        (λ _. publish_same h (lookup h b.rooms.peers) c e now b at n) (λ _. refl)

  parsed_same :
      (h : String) (c : Connection) (e : Envelope) (now : ℕ) (limits : RateLimits)
      (r : Option Envelope × Backend)
      → identity_at h r.1 ≡ some c
      → r.0 ≡ some e
      → may_publish c.permission e.event ≡ false
      → SameBut h r.1 (parsed lib h now limits r).1
  parsed_same h c e now limits (none, b) at parses n = none_some e parses
  parsed_same h c e now limits (some d, b) at parses n =
      let t = touch_session h now (lookup h b.rooms.peers) b in
      let same = touch_same h now (lookup h b.rooms.peers) b in
      let barred =
        subst (λ x. may_publish c.permission x.event ≡ false) (sym (ap (get_or e) parses)) n in
      subst (SameBut h b) (sym (limited_same h c d now limits t (same.sender ∙ at) barred)) same

  -- A frame whose event the sender's permission does not allow changes no room, no report of a viewport,
  -- no lease and no permit, and no other connection's object; the sender keeps its identity and its
  -- permission.
  pub handle_refused :
      (h : String) (c : Connection) (e : Envelope) (now : ℕ) (limits : RateLimits) (frame : Bytes)
      (b : Backend)
      → identity_at h b ≡ some c
      → (parse_frame lib h frame (count_frame frame b)).0 ≡ some e
      → may_publish c.permission e.event ≡ false
      → SameBut h b (handle_client_frame lib h now limits frame b).1
  unfolding handle_client_frame
  handle_refused h c e now limits frame b at parses n =
      let counted = count_frame frame b in
      let r = parse_frame lib h frame counted in
      let before = same_trans h b counted r.1 (count_same h frame b) (parse_same h frame counted) in
      if_intro (λ (t : RateLimits × Backend). SameBut h b t.1) b.draining _ _ (λ _. same_refl h b)
        (λ _.
          same_trans h b r.1 _ before
            (parsed_same h c e now limits r (before.sender ∙ at) parses n))
