-- ===== src/Session/Service/Refresh.antt =====
-- internal/application/session_service.go: `RefreshSession`.
use my_pol_go_backend.Prelude.{ℕ, String, some, ◌≡◌, arith, eq_iff, ap, ◌∙◌, min}
use my_pol_go_backend.Prelude.Dict.{Dict, lookup, insert, lookup-insert}
use my_pol_go_backend.Session.{CanvasSession, save, get}
use my_pol_go_backend.Session.Service.{
  CanvasClaims, ok, permission_rank, refreshed, refresh_session,
}

-- What a successful refresh found and did.
refresh_inv :
    (session_id : String) (claims : CanvasClaims) (now : ℕ) (d : Dict CanvasSession)
    (before after : CanvasSession)
    → lookup session_id d ≡ some before
    → (refresh_session session_id (some claims) now d).0 ≡ ok after
    → (claims.session_id ≡ before.id)
      × (claims.user_id ≡ before.user_id)
      × (claims.note_id ≡ before.note_id)
      × (after ≡ refreshed claims now before)
      × ((refresh_session session_id (some claims) now d).1 ≡ insert before.id after d)
unfolding refresh_session save get
refresh_inv session_id claims now d before after e h = (
  ground (arith, e, eq_iff claims.session_id before.id),
  ground (arith, e, eq_iff claims.user_id before.user_id),
  ground (arith, e, eq_iff claims.note_id before.note_id),
  ground (arith, e),
  ground (arith, e),
)

-- A successful refresh keeps the session's identity, takes the token's expiry, ranks at the lower of
-- the session's permission and the token's, and is what the store then holds; the token names the
-- same session, user and note.
pub refresh_never_escalates :
    (session_id : String) (claims : CanvasClaims) (now : ℕ) (d : Dict CanvasSession)
    (before after : CanvasSession)
    → lookup session_id d ≡ some before
    → (refresh_session session_id (some claims) now d).0 ≡ ok after
    → (after.id ≡ before.id)
      × (after.user_id ≡ before.user_id)
      × (after.note_id ≡ before.note_id)
      × (claims.session_id ≡ before.id)
      × (claims.user_id ≡ before.user_id)
      × (claims.note_id ≡ before.note_id)
      × (after.expires_at ≡ claims.expires_at)
      × (after.last_seen_at ≡ now)
      × (permission_rank after.permission
          ≡ min (permission_rank before.permission) (permission_rank claims.permission))
      × (lookup before.id (refresh_session session_id (some claims) now d).1 ≡ some after)
unfolding refreshed
refresh_never_escalates session_id claims now d before after e h =
    let (sid, uid, nid, is, stored) = refresh_inv session_id claims now d before after e h in
    (
      ground (arith, is),
      ground (arith, is),
      ground (arith, is),
      sid,
      uid,
      nid,
      ground (arith, is),
      ground (arith, is),
      ground (arith, is),
      ap (lookup before.id) stored
          ∙ ground (arith, lookup-insert before.id before.id after d, eq_iff before.id before.id),
    )
