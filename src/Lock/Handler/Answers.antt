-- ===== src/Lock/Handler/Answers.antt =====
-- internal/transport/block_lock_handler.go: the lock handlers and the geometry guard together.
use my_pol_go_backend.Prelude.{
  ℕ, ◌+◌, ◌<◌, String, Bool, true, false, not, ◌&&◌, ◌||◌, Option, none, some, List, [], ◌∷◌, ◌++◌,
  ◌≡◌, refl, ◌∙◌, ap, ◌==◌, if◌then◌else◌, arith, is_some, Option-cases, inl, inr,
}
use my_pol_go_backend.Connection.{Connection}
use my_pol_go_backend.Permission.{Permission, can_draw}
use my_pol_go_backend.Prelude.Lists.{elem}
use my_pol_go_backend.Envelope.{classify_event, may_publish, has_prefix_of}
use my_pol_go_backend.Envelope.Publishing.{is_durable, may_publish_exact, all, all-elem}
use my_pol_go_backend.Lock.{BlockLock, granted}
use my_pol_go_backend.Lock.Store.{LockStore}
use my_pol_go_backend.Lock.Service.{request, blocked_by, unix_milli}
use my_pol_go_backend.Lock.Service.Authority.{request_bars_others}
use my_pol_go_backend.Lock.Handler.{
  Arbiter, BlockLockRequest, Message, notify, denial, block_lock_handler, transform_guard,
  handle_lock_request, grant_answer, send_announce, send_notify, event_lock_request,
  event_lock_renew, event_lock_release, event_lock_denied,
}

-- The answer to a refused commit: the holder's identity, and to the sender alone.
abbrev pub commit_refusal : Connection → String → BlockLock → Message
commit_refusal c block_id l = notify c.id event_lock_denied (
    denial block_id "" "held-by-other" (
      some (record {
        connection_id = l.connection_id;
        user_id = l.user_id;
        expires_at = unix_milli l.expires_at;
      })))

-- The messages after a commit for a block that is barred by `o`.
abbrev pub after_commit : Connection → String → Option BlockLock → List Message → List Message
after_commit c block_id none sent = sent
after_commit c block_id (some l) sent = sent ++ commit_refusal c block_id l ∷ []

-- With locks configured, a geometry frame passes exactly when nobody else has a live lease on its
-- block. A refused commit is answered to its sender, naming the holder; a refused preview is
-- dropped in silence; no guarded frame changes a lease.
pub guard_decides :
    (subject : String → String) (c : Connection) (event payload : String) (now : ℕ) (s : LockStore)
    (a : Arbiter)
    → a.locks ≡ some s
    → (event == "block.transform.preview" || event == "block.transform.commit") ≡ true
    → ((transform_guard subject c event payload now a).0
        ≡ not (is_some (blocked_by c (subject payload) now s)))
      × ((transform_guard subject c event payload now a).1.locks ≡ a.locks)
      × ((transform_guard subject c event payload now a).1.sent ≡ (
          if event == "block.transform.commit"
          then after_commit c (subject payload) (blocked_by c (subject payload) now s) a.sent
          else a.sent))
unfolding transform_guard
guard_decides subject c event payload now s a e g =
    rw (e, transform_guard) (ground arith, ground arith, ground arith)

locks-grant_answer :
    (c : Connection) (o : Option BlockLock) (a : Arbiter) → (grant_answer c o a).locks ≡ a.locks
unfolding send_announce send_notify
locks-grant_answer c o a = ground arith

-- A well-formed request leaves the arbiter with the store that `request` gives.
locks-handler :
    (decode : String → BlockLockRequest × Bool) (c : Connection) (payload : String) (now : ℕ)
    (s : LockStore) (a : Arbiter)
    → a.locks ≡ some s
    → (decode payload).1 ≡ false
    → ((decode payload).0.block_id == "") ≡ false
    → ((decode payload).0.lock_id == "") ≡ false
    → granted (request a.settings c (decode payload).0.block_id (decode payload).0.lock_id now s).0
      ≡ true
    → (block_lock_handler decode c event_lock_request payload now a).1.locks
      ≡ some (request a.settings c (decode payload).0.block_id (decode payload).0.lock_id now s).1
unfolding block_lock_handler handle_lock_request
locks-handler decode c payload now s a e d b l g =
    rw (e, block_lock_handler) (rw (d, b, l, g) (locks-grant_answer c _ _))

-- When a request is granted, the very next geometry frame of any connection on the note, while the
-- lease lasts, passes exactly if it is the holder's.
pub grant_then_guard :
    (decode : String → BlockLockRequest × Bool) (subject : String → String) (c d : Connection)
    (payload event frame : String) (now later : ℕ) (s : LockStore) (a : Arbiter)
    → a.locks ≡ some s
    → (decode payload).1 ≡ false
    → ((decode payload).0.block_id == "") ≡ false
    → ((decode payload).0.lock_id == "") ≡ false
    → granted (request a.settings c (decode payload).0.block_id (decode payload).0.lock_id now s).0
      ≡ true
    → d.note_id ≡ c.note_id
    → subject frame ≡ (decode payload).0.block_id
    → later < now + a.settings.lease
    → (event == "block.transform.preview" || event == "block.transform.commit") ≡ true
    → (transform_guard subject d event frame later
        (block_lock_handler decode c event_lock_request payload now a).1).0
      ≡ (c.id == d.id)
grant_then_guard decode subject c d payload event frame now later s a e f b l g n m t k =
    let a' = (block_lock_handler decode c event_lock_request payload now a).1 in
    let block : String = (decode payload).0.block_id in
    let lock : String = (decode payload).0.lock_id in
    let bars = request_bars_others a.settings c d block lock now later s g n t in
    let decided =
      (guard_decides subject d event frame later (request a.settings c block lock now s).1 a'
        (locks-handler decode c payload now s a e f b l g) k).0 in
    decided
    ∙ ap (λ x. not (is_some (blocked_by d x later (request a.settings c block lock now s).1))) m
    ∙ ap (λ o. not (is_some o)) bars
    ∙ ground arith

-- The answers of the arbiter, which only the server should send.
abbrev pub answer_events : List String
answer_events =
    "block.lock.granted" ∷ "block.lock.denied" ∷ "block.lock.released" ∷ "block.lock.expired" ∷ []

abbrev is_verb : String → Bool
is_verb e = e == event_lock_request || e == event_lock_renew || e == event_lock_release

abbrev is_transform : String → Bool
is_transform e = e == "block.transform.preview" || e == "block.transform.commit"

abbrev open_event : String → Bool
open_event e =
    not (e == "server.draining")
    && not (is_durable (classify_event e))
    && not (is_verb e)
    && not (is_transform e)

answers_table : all open_event answer_events ≡ true
unfolding all classify_event elem has_prefix_of
answers_table = refl

open_parts :
    (a b c d : Bool)
    → (not a && not b && not c && not d) ≡ true
    → (a ≡ false) × (b ≡ false) × (c ≡ false) × (d ≡ false)
open_parts a b c d h = (ground arith, ground arith, ground arith, ground arith)

-- A connection that may draw may publish each of the arbiter's four answers: neither the lock
-- handler nor the geometry guard stops the frame.
pub answers_relayable :
    (decode : String → BlockLockRequest × Bool) (subject : String → String) (p : Permission)
    (c : Connection) (event payload : String) (now : ℕ) (a : Arbiter)
    → elem event answer_events ≡ true
    → can_draw p ≡ true
    → (may_publish p event ≡ true)
      × (block_lock_handler decode c event payload now a ≡ (false, a))
      × (transform_guard subject c event payload now a ≡ (true, a))
unfolding block_lock_handler transform_guard
answers_relayable decode subject p c event payload now a h d =
    let (drain, durable, verb, transform) =
      open_parts (event == "server.draining") (is_durable (classify_event event)) (is_verb event)
        (is_transform event) (all-elem open_event event answer_events answers_table h) in
    (
      may_publish_exact p event ∙ ground arith,
      rw verb,
      elim (Option-cases a.locks) [
        | inl e ↦ rw (e, transform_guard)
        | inr (s, e) ↦ rw (e, transform_guard) (rw transform)
      ],
    )
