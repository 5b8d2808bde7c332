-- ===== src/Control/Rejection.antt =====
-- internal/transport/handlers.go: a control call that is refused.
use my_pol_go_backend.Prelude.{
  ℕ, String, Bool, true, false, not, Option, none, some, ◌==◌, ◌||◌, ◌≡◌, refl, ap, ◌∙◌, if_intro,
  arith,
}
use my_pol_go_backend.Prelude.Dict.{Dict, lookup}
use my_pol_go_backend.Permission.{Permission, parse_permission, valid}
use my_pol_go_backend.Security.Hmac.{HmacValidator, HmacError, Request, configured, validate}
use my_pol_go_backend.Session.{
  SessionError, CanvasSession, set_permission, update_permission, delete_session,
}
use my_pol_go_backend.Session.Service.{
  SessionService, Outcome, ok, err, revoke_session, revoke_user_from_note,
  update_session_permission,
}
use my_pol_go_backend.HistoryPreviews.{HistoryPreviewPermit, RegisterError, register}
use my_pol_go_backend.Control.{
  revoke_session_call, update_permission_call, register_preview_call, revoke_user_call,
  revoke_previews_call, UpdatePermissionRequest, body_of, Response, refused, session_revoked,
  permission_updated, user_revoked, preview_accepted, preview_revoked, ControlPlane, ControlLibrary,
  ControlCall, authenticate_internal, perform, control, revoked_answer, user_revoked_answer,
  updated_answer, registered_answer, verified, read_body, decoded_revoke, decoded_update,
  decoded_permit, parsed_update, after_verification,
}

abbrev pub is_refusal : Response → Bool
is_refusal (refused status code) = true
is_refusal (session_revoked revoked disconnected) = false
is_refusal (permission_updated updated connections) = false
is_refusal (user_revoked sessions disconnected) = false
is_refusal preview_accepted = false
is_refusal preview_revoked = false

-- The sessions, the tickets and the live connections are as they were.
pub record Untouched (before after : ControlPlane) : Type 0 where
  pub sessions : after.sessions ≡ before.sessions
  pub rooms : after.rooms ≡ before.rooms

abbrev Harmless : ControlPlane → Response × ControlPlane → Type 0
Harmless c (r, c') = is_refusal r ≡ true → Untouched c c'

untouched : (c : ControlPlane) → Untouched c c
untouched c = record { sessions = refl; rooms = refl }

revoked_no_effect :
    (id : String) (r : Outcome Bool × SessionService) (c : ControlPlane)
    → ((e : SessionError) → r.0 ≡ err e → r.1 ≡ c.sessions)
    → Harmless c (revoked_answer id r c)
revoked_no_effect id (err e, s) c same h = record { sessions = same e refl; rooms = refl }
revoked_no_effect id (ok removed, s) c same h = absurd (ground arith)

user_revoked_no_effect :
    (n u : String) (r : Outcome ℕ × SessionService) (c : ControlPlane)
    → ((e : SessionError) → r.0 ≡ err e → r.1 ≡ c.sessions)
    → Harmless c (user_revoked_answer n u r c)
user_revoked_no_effect n u (err e, s) c same h = record { sessions = same e refl; rooms = refl }
user_revoked_no_effect n u (ok removed, s) c same h = absurd (ground arith)

updated_no_effect :
    (id : String) (p : Permission) (r : Option SessionError × SessionService) (c : ControlPlane)
    → ((e : SessionError) → r.0 ≡ some e → r.1 ≡ c.sessions)
    → Harmless c (updated_answer id p r c)
updated_no_effect id p (some e, s) c same h = record { sessions = same e refl; rooms = refl }
updated_no_effect id p (none, s) c same h = absurd (ground arith)

abbrev is_ok : {A : Type 0} → Outcome A → Bool
is_ok (ok a) = true
is_ok (err e) = false

ok_err : {A B : Type 0} (a : A) (e : SessionError) → ok a ≡ err e → B
ok_err a e h = let q : true ≡ false = ap is_ok h in absurd (ground arith)

revoke_session_error :
    (id : String) (s : SessionService) (e : SessionError)
    → (revoke_session id s).0 ≡ err e
    → (revoke_session id s).1 ≡ s
unfolding revoke_session
revoke_session_error id s e =
    if_intro (λ (r : Outcome Bool × SessionService). r.0 ≡ err e → r.1 ≡ s) (id == "") _ _
      (λ _ _. refl) (λ _ h. ok_err (delete_session id s.sessions).0 e h)

revoke_user_error :
    (n u : String) (s : SessionService) (e : SessionError)
    → (revoke_user_from_note n u s).0 ≡ err e
    → (revoke_user_from_note n u s).1 ≡ s
unfolding revoke_user_from_note
revoke_user_error n u s e =
    if_intro (λ (r : Outcome ℕ × SessionService). r.0 ≡ err e → r.1 ≡ s) (n == "" || u == "") _ _
      (λ _ _. refl) (λ _ h. ok_err _ e h)

none_some : {B : Type 0} (e : SessionError) → none ≡ some e → B
none_some e h = absurd (ground arith)

update_permission_error :
    (id : String) (p : Permission) (d : Dict CanvasSession) (e : SessionError)
    → (update_permission id p d).0 ≡ some e
    → (update_permission id p d).1 ≡ d
unfolding update_permission
update_permission_error id p d e =
    elim (lookup id d)
      as (λ o. (set_permission p id o d).0 ≡ some e → (set_permission p id o d).1 ≡ d) [
        | none ↦ λ h. refl
        | some x ↦ λ h. none_some e h
      ]

update_session_error :
    (id : String) (p : Permission) (s : SessionService) (e : SessionError)
    → (update_session_permission id p s).0 ≡ some e
    → (update_session_permission id p s).1 ≡ s
unfolding update_session_permission
update_session_error id p s e =
    if_intro (λ (r : Option SessionError × SessionService). r.0 ≡ some e → r.1 ≡ s) (not (valid p))
      _ _ (λ _ _. refl)
      (λ _ h. ap (λ d. record s { sessions = d }) (update_permission_error id p s.sessions e h))

module _ (lib : ControlLibrary) where
  decoded_revoke_no_effect :
      (o : Option String) (c : ControlPlane) → Harmless c (decoded_revoke lib o c)
  decoded_revoke_no_effect none c = λ h. untouched c
  decoded_revoke_no_effect (some id) c =
      if_intro (Harmless c) (id == "") _ _ (λ _ h. untouched c)
        (λ _.
          revoked_no_effect id (revoke_session id c.sessions) c
            (revoke_session_error id c.sessions))

  parsed_update_no_effect :
      (id : String) (o : Option Permission) (c : ControlPlane)
      → Harmless c (parsed_update lib id o c)
  parsed_update_no_effect id none c = λ h. untouched c
  parsed_update_no_effect id (some p) c =
      updated_no_effect id p (update_session_permission id p c.sessions) c
        (update_session_error id p c.sessions)

  decoded_update_no_effect :
      (o : Option UpdatePermissionRequest) (c : ControlPlane) → Harmless c (decoded_update lib o c)
  decoded_update_no_effect none c = λ h. untouched c
  decoded_update_no_effect (some u) c =
      if_intro (Harmless c) (u.session_id == "") _ _ (λ _ h. untouched c)
        (λ _. parsed_update_no_effect u.session_id (parse_permission u.permission) c)

  registered_no_effect :
      (r : Option RegisterError × Dict HistoryPreviewPermit) (c : ControlPlane)
      → Harmless c (registered_answer r c)
  registered_no_effect (some e, d) c h = record { sessions = refl; rooms = refl }
  registered_no_effect (none, d) c h = record { sessions = refl; rooms = refl }

  permit_no_effect :
      (o : Option HistoryPreviewPermit) (now : ℕ) (c : ControlPlane)
      → Harmless c (decoded_permit lib o now c)
  permit_no_effect none now c = λ h. untouched c
  permit_no_effect (some p) now c = registered_no_effect (register lib.previews p now c.permits) c

  perform_no_effect :
      (call : ControlCall) (body : String) (now : ℕ) (c : ControlPlane)
      → Harmless c (perform lib call body now c)
  unfolding perform
  perform_no_effect revoke_session_call body now c =
      decoded_revoke_no_effect (lib.decode_session body) c
  perform_no_effect update_permission_call body now c =
      decoded_update_no_effect (lib.decode_update body) c
  perform_no_effect register_preview_call body now c =
      permit_no_effect (lib.decode_permit body) now c
  perform_no_effect (revoke_user_call n u) body now c =
      user_revoked_no_effect n u (revoke_user_from_note n u c.sessions) c
        (revoke_user_error n u c.sessions)
  perform_no_effect (revoke_previews_call n u) body now c =
      λ h. record { sessions = refl; rooms = refl }

  verified_same :
      (v : Option HmacError × HmacValidator) (c : ControlPlane) → Untouched c (verified lib v c).1
  verified_same (none, v) c = record { sessions = refl; rooms = refl }
  verified_same (some e, v) c = record { sessions = refl; rooms = refl }

  read_body_same :
      (r : Option Request) (now : ℕ) (c : ControlPlane) → Untouched c (read_body lib r now c).1
  read_body_same none now c = untouched c
  read_body_same (some r) now c = verified_same (validate lib.signing r now c.hmac) c

  authenticated_same :
      (r : Option Request) (now : ℕ) (c : ControlPlane)
      → Untouched c (authenticate_internal lib r now c).1
  unfolding authenticate_internal
  authenticated_same r now c =
      if_intro (λ (x : Option Response × ControlPlane). Untouched c x.1) (not (configured c.hmac)) _
        _ (λ _. untouched c) (λ _. read_body_same r now c)

  after_no_effect :
      (call : ControlCall) (r : Option Request) (now : ℕ) (c : ControlPlane)
      (x : Option Response × ControlPlane)
      → Untouched c x.1
      → Harmless c (after_verification lib call r now x)
  after_no_effect call r now c (some refusal, c') same h = same
  after_no_effect call r now c (none, c') same h =
      let done = perform_no_effect call (body_of lib r) now c' h in
      record { sessions = done.sessions ∙ same.sessions; rooms = done.rooms ∙ same.rooms }

  -- A control call that is answered with an error, for whatever reason, has changed no session, no
  -- ticket and no live connection.
  pub control_rejected :
      (call : ControlCall) (r : Option Request) (now : ℕ) (c : ControlPlane)
      → is_refusal (control lib call r now c).0 ≡ true
      → Untouched c (control lib call r now c).1
  unfolding control
  control_rejected call r now c h =
      after_no_effect call r now c (authenticate_internal lib r now c) (authenticated_same r now c)
        h
