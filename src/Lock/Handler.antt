-- ===== src/Lock/Handler.antt =====
-- internal/transport/block_lock_handler.go: the three lock verbs of a client, the guard on geometry
-- frames and the release at a disconnect. What the room service sends is a list of messages, in the
-- order sent; `Announce` sends nothing while the server drains. Decoding of a payload is the JSON
-- package's: a parameter that gives the decoded fields and whether it failed.
pub mod Answers
use my_pol_go_backend.Prelude.{
  ℕ, ◌+◌, String, Bool, true, false, not, ◌||◌, Option, none, some, List, [], ◌∷◌, ◌++◌, ◌==◌,
  if◌then◌else◌,
}
use my_pol_go_backend.Connection.{Connection}
use my_pol_go_backend.Lock.{
  BlockLock, LockDenial, unset, held_by_other, too_many_locks, AcquireOutcome, granted, not_held,
  not_found, LockError, Result, ok, err,
}
use my_pol_go_backend.Lock.Store.{LockStore}
use my_pol_go_backend.Lock.Service.{
  BlockLockSettings, request, renew_lease, release_lease, release_connection, blocked_by,
  active_locks, PublicHolder, public_holder_of, unix_milli,
}

abbrev pub event_lock_request : String
event_lock_request = "block.lock.request"

abbrev pub event_lock_renew : String
event_lock_renew = "block.lock.renew"

abbrev pub event_lock_release : String
event_lock_release = "block.lock.release"

abbrev pub event_lock_granted : String
event_lock_granted = "block.lock.granted"

abbrev pub event_lock_denied : String
event_lock_denied = "block.lock.denied"

abbrev pub event_lock_released : String
event_lock_released = "block.lock.released"

pub record BlockLockRequest : Type 0 where
  pub block_id : String
  pub lock_id : String

-- `heldBy` of a denial.
pub record HeldBy : Type 0 where
  pub connection_id : String
  pub user_id : String
  pub expires_at : ℕ

pub data Payload : Type 0 where
  public : PublicHolder → Payload
  denial : (block_id lock_id reason : String) → Option HeldBy → Payload

-- `Notify` one connection, or `Announce` to a note's room but for one connection.
pub data Message : Type 0 where
  notify : (connection_id event : String) → Payload → Message
  announce : (note_id except event : String) → Payload → Message

-- What the handlers share: the arbiter, if locks are configured, and the room service.
pub record Arbiter : Type 0 where
  pub locks : Option LockStore
  pub settings : BlockLockSettings
  pub draining : Bool
  pub denied_count : ℕ
  pub active : ℕ
  pub sent : List Message

unfoldable pub send_notify : Connection → String → Payload → Arbiter → Arbiter
send_notify c event p a = record a { sent = a.sent ++ notify c.id event p ∷ [] }

unfoldable pub send_announce : String → String → String → Payload → Arbiter → Arbiter
send_announce note_id except event p a =
    if a.draining then a else record a { sent = a.sent ++ announce note_id except event p ∷ [] }

abbrev held_by : Option BlockLock → Option HeldBy
held_by none = none
held_by (some l) = some (record {
  connection_id = l.connection_id;
  user_id = l.user_id;
  expires_at = unix_milli l.expires_at;
})

unfoldable pub deny : Connection → String → String → String → Option BlockLock → Arbiter → Arbiter
unfolding send_notify
deny c block_id lock_id reason h a =
    send_notify c event_lock_denied (denial block_id lock_id reason (held_by h))
      (record a { denied_count = a.denied_count + 1 })

unfoldable pub announce_released : String → BlockLock → Arbiter → Arbiter
unfolding send_announce public_holder_of
announce_released event l a = send_announce l.note_id "" event (public (public_holder_of l)) a

abbrev denial_text : LockDenial → String
denial_text unset = ""
denial_text held_by_other = "held-by-other"
denial_text too_many_locks = "too-many-locks"

abbrev grant_answer : Connection → Option BlockLock → Arbiter → Arbiter
grant_answer c none a = a
grant_answer c (some l) a =
    send_announce c.note_id c.id event_lock_granted (public (public_holder_of l))
      (send_notify c event_lock_granted (public (public_holder_of l)) a)

-- `locks` is the store; the arbiter gets it back with the answer.
unfoldable pub handle_lock_request :
    Connection → BlockLockRequest → ℕ → LockStore → Arbiter → Arbiter
unfolding deny send_notify send_announce public_holder_of
handle_lock_request c r now s a =
    let (outcome, s') = request a.settings c r.block_id r.lock_id now s in
    let a' : Arbiter = record a { locks = some s' } in
    if not (granted outcome)
    then deny c r.block_id r.lock_id (denial_text outcome.denial) outcome.holder a'
    else grant_answer c outcome.lock (record a' { active = active_locks s' })

abbrev renew_reason : LockError → String
renew_reason not_found = "expired"
renew_reason not_held = "not-held"

abbrev renew_answer : Connection → BlockLockRequest → Result → Arbiter → Arbiter
renew_answer c r (ok l) a = send_notify c event_lock_granted (public (public_holder_of l)) a
renew_answer c r (err e) a = deny c r.block_id r.lock_id (renew_reason e) none a

unfoldable pub handle_lock_renew : Connection → BlockLockRequest → ℕ → LockStore → Arbiter → Arbiter
unfolding deny send_notify public_holder_of
handle_lock_renew c r now s a =
    let (result, s') = renew_lease a.settings c r.block_id r.lock_id now s in
    renew_answer c r result (record a { locks = some s' })

abbrev release_answer : Result → Arbiter → Arbiter
release_answer (ok l) a = announce_released event_lock_released l a
release_answer (err e) a = a

unfoldable pub handle_lock_release : Connection → BlockLockRequest → LockStore → Arbiter → Arbiter
unfolding announce_released
handle_lock_release c r s a =
    let (result, s') = release_lease c r.block_id r.lock_id s in
    release_answer result (record a { locks = some s' })

-- `decode` gives the fields that the payload sets and whether decoding failed.
module _ (decode : String → BlockLockRequest × Bool) where
  abbrev dispatch : Connection → String → String → ℕ → LockStore → Arbiter → Arbiter
  dispatch c event payload now s a =
      let (r, failed) = decode payload in
      if failed || (r.block_id == "" || r.lock_id == "")
      then deny c r.block_id r.lock_id "malformed" none a
      else if event == event_lock_request
      then handle_lock_request c r now s a
      else if event == event_lock_renew
      then handle_lock_renew c r now s a
      else handle_lock_release c r s a

  abbrev with_locks : Connection → String → String → ℕ → Option LockStore → Arbiter → Arbiter
  with_locks c event payload now none a = a
  with_locks c event payload now (some s) a = dispatch c event payload now s a

  -- Whether the frame was consumed, and the arbiter after it.
  unfoldable pub block_lock_handler : Connection → String → String → ℕ → Arbiter → Bool × Arbiter
  unfolding deny
  block_lock_handler c event payload now a =
      if event == event_lock_request || event == event_lock_renew || event == event_lock_release
      then (true, with_locks c event payload now a.locks a)
      else (false, a)

abbrev announce_all : List BlockLock → Arbiter → Arbiter
announce_all [] a = a
announce_all (l ∷ ls) a = announce_all ls (announce_released event_lock_released l a)

abbrev release_on : String → Option LockStore → Arbiter → Arbiter
release_on connection_id none a = a
release_on connection_id (some s) a =
    let (released, s') = release_connection connection_id s in
    let a' : Arbiter = announce_all released (record a { locks = some s' }) in
    record a' { active = active_locks s' }

unfoldable pub release_locks_on_disconnect : String → Arbiter → Arbiter
unfolding announce_released
release_locks_on_disconnect connection_id a = release_on connection_id a.locks a

-- A barred frame is refused; only a commit, which is final state, is answered.
abbrev guard_block : Connection → String → String → Option BlockLock → Arbiter → Bool × Arbiter
guard_block c event block_id none a = (true, a)
guard_block c event block_id (some l) a = (
  false,
  if event == "block.transform.commit"
      then deny c block_id "" (denial_text held_by_other) (some l) a
      else a,
)

-- The block named by a transform frame, or "" where the payload does not decode.
module _ (transform_subject : String → String) where
  abbrev guard_with : Connection → String → String → ℕ → Option LockStore → Arbiter → Bool × Arbiter
  guard_with c event payload now none a = (true, a)
  guard_with c event payload now (some s) a =
      if event == "block.transform.preview" || event == "block.transform.commit"
      then guard_block c event (transform_subject payload)
          (blocked_by c (transform_subject payload) now s) a
      else (true, a)

  -- Whether a geometry frame may pass.
  unfoldable pub transform_guard : Connection → String → String → ℕ → Arbiter → Bool × Arbiter
  unfolding deny
  transform_guard c event payload now a = guard_with c event payload now a.locks a
