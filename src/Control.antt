-- ===== src/Control.antt =====
-- internal/transport/handlers.go and internal/transport/history_previews.go: the signed control calls.
-- A response is its status and its code, with the counts that it reports. Reading the body, which may
-- fail, and decoding it are arguments; so is what the HTTP router gives as path values.
pub mod Rejection
pub mod Bootstrap
pub mod Throttled
pub mod Demotion
use my_pol_go_backend.Prelude.{
  ℕ, String, Bool, true, false, not, Option, none, some, ◌==◌, if◌then◌else◌,
}
use my_pol_go_backend.Prelude.Dict.{Dict}
use my_pol_go_backend.Permission.{Permission, parse_permission}
use my_pol_go_backend.Security.Hmac.{
  HmacValidator, HmacError, Request, Library, configured, validate,
}
use my_pol_go_backend.Session.{
  SessionError, session_not_found, ticket_not_found, invalid_permission, session_rejected,
  no_ticket_value, ticket_expired,
}
use my_pol_go_backend.Session.Service.{
  SessionService, Outcome, ok, err, revoke_session, revoke_user_from_note,
  update_session_permission,
}
use my_pol_go_backend.HistoryPreviews.{
  HistoryPreviewPermit, PreviewLibrary, RegisterError, register, revoke,
}
use my_pol_go_backend.Room.Service.{
  RoomService, disconnect_session, disconnect_user_from_note, apply_permission,
}

pub record UpdatePermissionRequest : Type 0 where
  pub session_id : String
  pub permission : String

-- What the handlers reply.
pub data Response : Type 0 where
  refused : (status : ℕ) (code : String) → Response
  session_revoked : (revoked : Bool) (disconnected : ℕ) → Response
  permission_updated : (updated : Bool) (connections : ℕ) → Response
  user_revoked : (sessions disconnected : ℕ) → Response
  preview_accepted preview_revoked : Response

pub record ControlPlane : Type 0 where
  pub hmac : HmacValidator
  pub sessions : SessionService
  pub rooms : RoomService
  pub permits : Dict HistoryPreviewPermit

pub record ControlLibrary : Type 0 where
  pub signing : Library
  pub previews : PreviewLibrary
  pub decode_session : String → Option String
  pub decode_update : String → Option UpdatePermissionRequest
  pub decode_permit : String → Option HistoryPreviewPermit

abbrev pub revoked_answer :
    String → Outcome Bool × SessionService → ControlPlane → Response × ControlPlane
revoked_answer session_id (err e, s) c = (refused 400 "INVALID_BODY", record c { sessions = s })
revoked_answer session_id (ok removed, s) c =
    let (disconnected, rooms') = disconnect_session session_id "session revoked" c.rooms in
    (session_revoked removed disconnected, record c { sessions = s; rooms = rooms' })

abbrev pub user_revoked_answer :
    String → String → Outcome ℕ × SessionService → ControlPlane → Response × ControlPlane
user_revoked_answer note_id user_id (err e, s) c =
    (refused 400 "INVALID_PATH", record c { sessions = s })
user_revoked_answer note_id user_id (ok removed, s) c =
    let (disconnected, rooms') =
      disconnect_user_from_note note_id user_id "access revoked" c.rooms in
    (
      user_revoked removed disconnected,
      record c { sessions = s; rooms = rooms'; permits = revoke note_id user_id c.permits },
    )

abbrev pub is_not_found : SessionError → Bool
is_not_found session_not_found = true
is_not_found ticket_not_found = false
is_not_found ticket_expired = false
is_not_found invalid_permission = false
is_not_found session_rejected = false
is_not_found no_ticket_value = false

abbrev pub updated_answer :
    String
    → Permission
    → Option SessionError × SessionService
    → ControlPlane
    → Response × ControlPlane
updated_answer session_id permission (some e, s) c = (
  if is_not_found e then permission_updated false 0 else refused 400 "INVALID_BODY",
  record c { sessions = s },
)
updated_answer session_id permission (none, s) c =
    let (applied, rooms') = apply_permission session_id permission c.rooms in
    (permission_updated true applied, record c { sessions = s; rooms = rooms' })

abbrev pub registered_answer :
    Option RegisterError × Dict HistoryPreviewPermit → ControlPlane → Response × ControlPlane
registered_answer (some e, d) c = (refused 400 "INVALID_PREVIEW", record c { permits = d })
registered_answer (none, d) c = (preview_accepted, record c { permits = d })

-- The five calls, with their path values.
pub data ControlCall : Type 0 where
  revoke_session_call update_permission_call register_preview_call : ControlCall
  revoke_user_call revoke_previews_call : (note_id user_id : String) → ControlCall

module _ (lib : ControlLibrary) where
  abbrev pub verified :
      Option HmacError × HmacValidator → ControlPlane → Option Response × ControlPlane
  verified (none, v) c = (none, record c { hmac = v })
  verified (some e, v) c = (some (refused 401 "INVALID_SIGNATURE"), record c { hmac = v })

  abbrev pub read_body : Option Request → ℕ → ControlPlane → Option Response × ControlPlane
  read_body none now c = (some (refused 400 "INVALID_BODY"), c)
  read_body (some r) now c = verified (validate lib.signing r now c.hmac) c

  -- `none` is a verified call; a request whose body cannot be read is `none`.
  unfoldable pub authenticate_internal :
      Option Request → ℕ → ControlPlane → Option Response × ControlPlane
  unfolding validate configured
  authenticate_internal r now c =
      if not (configured c.hmac)
      then (some (refused 503 "CONTROL_DISABLED"), c)
      else read_body r now c

  abbrev pub decoded_revoke : Option String → ControlPlane → Response × ControlPlane
  decoded_revoke none c = (refused 400 "INVALID_BODY", c)
  decoded_revoke (some id) c =
      if id == ""
      then (refused 400 "INVALID_BODY", c)
      else revoked_answer id (revoke_session id c.sessions) c

  abbrev pub parsed_update : String → Option Permission → ControlPlane → Response × ControlPlane
  parsed_update id none c = (refused 400 "INVALID_PERMISSION", c)
  parsed_update id (some permission) c =
      updated_answer id permission (update_session_permission id permission c.sessions) c

  abbrev pub decoded_update :
      Option UpdatePermissionRequest → ControlPlane → Response × ControlPlane
  decoded_update none c = (refused 400 "INVALID_BODY", c)
  decoded_update (some u) c =
      if u.session_id == ""
      then (refused 400 "INVALID_BODY", c)
      else parsed_update u.session_id (parse_permission u.permission) c

  abbrev pub decoded_permit :
      Option HistoryPreviewPermit → ℕ → ControlPlane → Response × ControlPlane
  decoded_permit none now c = (refused 400 "INVALID_BODY", c)
  decoded_permit (some p) now c = registered_answer (register lib.previews p now c.permits) c

  -- What follows the verification.
  unfoldable pub perform : ControlCall → String → ℕ → ControlPlane → Response × ControlPlane
  unfolding disconnect_session disconnect_user_from_note apply_permission revoke_session
      revoke_user_from_note update_session_permission register revoke parse_permission
  perform revoke_session_call body now c = decoded_revoke (lib.decode_session body) c
  perform update_permission_call body now c = decoded_update (lib.decode_update body) c
  perform register_preview_call body now c = decoded_permit (lib.decode_permit body) now c
  perform (revoke_user_call n u) body now c =
      user_revoked_answer n u (revoke_user_from_note n u c.sessions) c
  perform (revoke_previews_call n u) body now c =
      (preview_revoked, record c { permits = revoke n u c.permits })

  abbrev pub body_of : Option Request → String
  body_of none = ""
  body_of (some r) = r.body

  abbrev pub after_verification :
      ControlCall → Option Request → ℕ → Option Response × ControlPlane → Response × ControlPlane
  after_verification call r now (some refusal, c) = (refusal, c)
  after_verification call r now (none, c) = perform call (body_of r) now c

  unfoldable pub control : ControlCall → Option Request → ℕ → ControlPlane → Response × ControlPlane
  unfolding authenticate_internal perform
  control call r now c = after_verification call r now (authenticate_internal r now c)
