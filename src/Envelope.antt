-- ===== src/Envelope.antt =====
-- internal/domain/envelope.go: the wire message, the class of an event and the right to publish it.
-- A payload is raw JSON that this file never reads.
pub mod Publishing
use text.Mathlib.Text.{starts_with}
use my_pol_go_backend.Prelude.{
  ℕ, String, Bool, true, false, ◌||◌, Option, none, some, List, [], ◌∷◌, ◌==◌, if◌then◌else◌,
}
use my_pol_go_backend.Prelude.Lists.{elem}
use my_pol_go_backend.Permission.{Permission, can_draw}

abbrev pub envelope_version : ℕ
envelope_version = 2

-- `SentAt` is a number of milliseconds, not negative where the server stamps it.
pub record Envelope : Type 0 where
  pub v : ℕ
  pub message_id : String
  pub session_id : String
  pub channel : String
  pub event : String
  pub actor_id : Option String
  pub origin : Option String
  pub seq : Option ℕ
  pub sent_at : ℕ
  pub payload : String

-- `Stamp`: identity comes from the connection, over whatever the client claimed.
unfoldable pub stamp : String → String → String → ℕ → Envelope → Envelope
stamp session_id connection_id user_id sent_at e = record e {
  v = envelope_version;
  session_id = session_id;
  origin = some connection_id;
  actor_id = some user_id;
  sent_at = sent_at;
}

pub data EventClass : Type 0 where
  ephemeral reliable signaling durable : EventClass

unfoldable pub has_prefix_of : String → List String → Bool
has_prefix_of x [] = false
has_prefix_of x (y ∷ ys) = starts_with x y || has_prefix_of x ys

abbrev pub ephemeral_events : List String
ephemeral_events =
    "cursor.moved" ∷ "laser.moved" ∷ "ink.started" ∷ "ink.points" ∷ "block.transform.preview"
    ∷ "selection.transform.preview" ∷ []

abbrev pub signaling_events : List String
signaling_events = "rtc.offer" ∷ "rtc.answer" ∷ "rtc.candidate" ∷ []

abbrev pub reliable_events : List String
reliable_events =
    "ink.commit" ∷ "ink.patch" ∷ "history.preview" ∷ "history.preview.cancel"
    ∷ "history.preview.confirmed" ∷ "ink.ended" ∷ "block.transform.commit" ∷ "block.lock.request"
    ∷ "block.lock.renew" ∷ "block.lock.release" ∷ "block.created" ∷ "block.status" ∷ "auth.refresh"
    ∷ "heartbeat" ∷ "server.draining" ∷ "interest.update" ∷ "yjs.update" ∷ "selection.lock" ∷ []

abbrev pub durable_prefixes : List String
durable_prefixes =
    "note." ∷ "collection." ∷ "media." ∷ "session.changed" ∷ "block.received" ∷ "block.broadcast"
    ∷ []

unfoldable pub classify_event : String → EventClass
classify_event event =
    if elem event ephemeral_events
    then ephemeral
    else if elem event signaling_events
    then signaling
    else if elem event reliable_events
    then reliable
    else if has_prefix_of event durable_prefixes
    then durable
    else if starts_with event "presence." || event == "room.members"
    then durable
    else reliable

-- The branch of `MayPublish` for each class.
unfoldable pub may_publish_class : EventClass → Permission → String → Bool
may_publish_class durable p event = false
may_publish_class ephemeral p event =
    if event == "ink.started"
      || event == "ink.points"
      || event == "block.transform.preview"
      || event == "selection.transform.preview"
    then can_draw p
    else true
may_publish_class signaling p event = true
may_publish_class reliable p event =
    if starts_with event "ink."
      || starts_with event "block."
      || starts_with event "history."
      || starts_with event "selection."
    then can_draw p
    else true

unfoldable pub may_publish : Permission → String → Bool
unfolding may_publish_class
may_publish p event =
    if event == "server.draining" then false else may_publish_class (classify_event event) p event
