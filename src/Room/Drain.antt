-- ===== src/Room/Drain.antt =====
-- internal/application/room_service.go: the end of a process, from the notice to every connection to
-- the wait for the reliable queues.
use my_pol_go_backend.Prelude.{
  ℕ, zero, suc, ◌+◌, ◌/◌, ◌<◌, ◌||◌, subst, String, Bool, true, false, Option, none, some, List, [],
  ◌∷◌, ◌≡◌, refl, arith, eqb, if◌then◌else◌,
}
use my_pol_go_backend.Prelude.Lists.{length}
use my_pol_go_backend.Prelude.Dict.{Dict, lookup}
use my_pol_go_backend.Transport.Queues.{pending_reliable}
use my_pol_go_backend.Room.{Peer, all_connections}
use my_pol_go_backend.Room.Service.{RoomLibrary, RoomService, retry_after, envelope, send_or_close}

module _ (lib : RoomLibrary) where
  abbrev note_of : Option Peer → String
  note_of none = ""
  note_of (some p) = p.connection.note_id

  -- One envelope for each connection, on the channel of its own note.
  unfoldable pub notify_drain : ℕ → ℕ → List String → RoomService → RoomService
  unfolding envelope send_or_close
  notify_drain retry_after_ms now [] s = s
  notify_drain retry_after_ms now (h ∷ hs) s =
      let (e, s') =
        envelope lib (note_of (lookup h s.peers)) "server.draining" (retry_after retry_after_ms) now
          s in
      notify_drain retry_after_ms now hs
        (send_or_close "reliable queue overflow during drain" e h s')

  -- `wait` is in nanoseconds.
  unfoldable pub begin_drain : ℕ → ℕ → RoomService → ℕ × RoomService
  unfolding notify_drain all_connections
  begin_drain wait now s =
      let hs = all_connections s.rooms in
      (length hs, notify_drain (wait / 1000000) now hs (record s { draining = true }))

abbrev pending_of : Option Peer → ℕ
pending_of none = 0
pending_of (some p) = pending_reliable p.queues

unfoldable pub pending_all : List String → Dict Peer → ℕ
unfolding pending_reliable
pending_all [] peers = 0
pending_all (h ∷ hs) peers = pending_of (lookup h peers) + pending_all hs peers

-- `tick` is the ticker's; otherwise the context is done.
pub data Wake : Type 0 where
  tick done : Wake

abbrev after_wait : Wake → Option Bool → Option Bool
after_wait done rest = some false
after_wait tick rest = rest

-- `WaitForReliableDrain`: one look at the queues, then one wait, in turn. `state` is the service as the
-- n-th look finds it, and `wake` what ends the n-th wait. `none` is a wait that goes on after `fuel`
-- looks.
unfoldable pub wait_for_reliable_drain : ℕ → ℕ → (ℕ → RoomService) → (ℕ → Wake) → Option Bool
unfolding pending_all all_connections
wait_for_reliable_drain zero n state wake = none
wait_for_reliable_drain (suc fuel) n state wake =
    let rest = wait_for_reliable_drain fuel (n + 1) state wake in
    let pending = pending_all (all_connections (state n).rooms) (state n).peers in
    if eqb pending 0 then some true else after_wait (wake n) rest

-- Whether one of a number of looks, from the n-th on, finds nothing left to write.
pub any_drained : ℕ → ℕ → (ℕ → RoomService) → Bool
any_drained zero n state = false
any_drained (suc looks) n state =
    eqb (pending_all (all_connections (state n).rooms) (state n).peers) 0
    || any_drained looks (n + 1) state

look_last :
    (b : Bool) (w : Wake) (r : Option Bool)
    → w ≡ done
    → (if b then some true else after_wait w r) ≡ some (b || false)
look_last true w r h = refl
look_last false done r h = refl
look_last false tick r h = absurd (ground arith)

look_next :
    (b x : Bool) (w : Wake) (r : Option Bool)
    → w ≡ tick
    → r ≡ some x
    → (if b then some true else after_wait w r) ≡ some (b || x)
look_next true x w r h e = refl
look_next false x tick r h e = e
look_next false x done r h e = absurd (ground arith)

wait_from :
    (k n : ℕ) (state : ℕ → RoomService) (wake : ℕ → Wake)
    → wake (n + k) ≡ done
    → ((i : ℕ) → i < k → wake (n + i) ≡ tick)
    → wait_for_reliable_drain (suc k) n state wake ≡ some (any_drained (suc k) n state)
unfolding wait_for_reliable_drain any_drained
wait_from zero n state wake end before =
    let pending = pending_all (all_connections (state n).rooms) (state n).peers in
    look_last (eqb pending 0) (wake n) none (subst (λ m. wake m ≡ done) (omega arith) end)
wait_from (suc k) n state wake end before =
    let pending = pending_all (all_connections (state n).rooms) (state n).peers in
    look_next (eqb pending 0) _ (wake n) _
      (subst (λ m. wake m ≡ tick) (omega arith) (before 0 (omega arith)))
      (wait_from k (n + 1) state wake (subst (λ m. wake m ≡ done) (omega arith) end)
        (λ i h. subst (λ m. wake m ≡ tick) (omega arith) (before (suc i) (omega arith))))

-- A wait whose context is done after k waits ends by then, after at most k + 1 looks, and answers true
-- exactly when one of those looks found no reliable frame pending.
pub wait_ends :
    (k : ℕ) (state : ℕ → RoomService) (wake : ℕ → Wake)
    → wake k ≡ done
    → ((i : ℕ) → i < k → wake i ≡ tick)
    → wait_for_reliable_drain (suc k) 0 state wake ≡ some (any_drained (suc k) 0 state)
wait_ends k state wake end before =
    wait_from k 0 state wake (subst (λ m. wake m ≡ done) (omega arith) end)
      (λ i h. subst (λ m. wake m ≡ tick) (omega arith) (before i h))
