-- ===== src/Control/Bootstrap.antt =====
-- internal/transport/handlers.go: `Bootstrap`, from a canvas access token to a session and its ticket.
-- The addresses and settings that the response also carries come from the configuration. What the token
-- validator answers and what the random source gives are arguments, as in the session service; the text
-- functions on a header are package strings and slicing.
use my_pol_go_backend.Prelude.{
  ℕ, ◌+◌, String, Bool, true, false, not, ◌||◌, Option, ◌==◌, if◌then◌else◌, leb,
}
use my_pol_go_backend.Security.BootstrapLimiter.{
  BootstrapLimiter, Caller, Library, client_ip, allow_ip, allow_user,
}
use my_pol_go_backend.Session.{CanvasSession}
use my_pol_go_backend.Session.Tickets.{ConnectionTicket}
use my_pol_go_backend.Session.Service.{
  SessionService, CanvasClaims, Outcome, ok, err, bootstrap, revoke_session,
}

-- `strings.EqualFold`, the first bytes of a text, what follows them and `strings.TrimSpace`.
pub record TextLibrary : Type 0 where
  pub text_length : String → ℕ
  pub equal_fold : String → String → Bool
  pub first_bytes : ℕ → String → String
  pub after_bytes : ℕ → String → String
  pub trim_space : String → String

-- The header is "" where it is absent.
unfoldable pub bearer_token : TextLibrary → String → String
bearer_token lib header =
    if header == ""
    then ""
    else if leb (lib.text_length header) 7
        || not (lib.equal_fold (lib.first_bytes 7 header) "Bearer ")
    then ""
    else lib.trim_space (lib.after_bytes 7 header)

pub record Admissions : Type 0 where
  pub draining : Bool
  pub limiter : BootstrapLimiter
  pub sessions : SessionService
  pub throttled : ℕ
  pub auth_failures : ℕ
  pub tickets_issued : ℕ

pub data BootstrapAnswer : Type 0 where
  bootstrap_refused : (status : ℕ) (code : String) → BootstrapAnswer
  bootstrapped : CanvasSession → ConnectionTicket → BootstrapAnswer

-- What the validator and the random source give for this call.
pub record Credentials : Type 0 where
  pub validate_token : String → Option CanvasClaims
  pub ticket_value : Option String

abbrev pub for_user :
    CanvasSession × ConnectionTicket
    → Bool × BootstrapLimiter
    → Admissions
    → BootstrapAnswer × Admissions
for_user (session, ticket) (true, l) a =
    (bootstrapped session ticket, record a { limiter = l; tickets_issued = a.tickets_issued + 1 })
for_user (session, ticket) (false, l) a = (
  bootstrap_refused 429 "RATE_LIMITED",
  record a {
    limiter = l;
    sessions = (revoke_session session.id a.sessions).1;
    throttled = a.throttled + 1;
  },
)

abbrev pub with_result :
    ℕ
    → Outcome (CanvasSession × ConnectionTicket) × SessionService
    → Admissions
    → BootstrapAnswer × Admissions
with_result now (err e, s) a = (
  bootstrap_refused 401 "INVALID_TOKEN",
  record a { sessions = s; auth_failures = a.auth_failures + 1 },
)
with_result now (ok (session, ticket), s) a =
    for_user (session, ticket) (allow_user session.user_id now a.limiter)
      (record a { sessions = s })

-- After the limit on the address.
abbrev pub with_token : Credentials → String → ℕ → Admissions → BootstrapAnswer × Admissions
with_token credentials token now a =
    if token == ""
    then (bootstrap_refused 401 "MISSING_TOKEN", a)
    else with_result now
        (bootstrap (credentials.validate_token token) credentials.ticket_value now a.sessions) a

module _ (lib : TextLibrary) (addresses : Library) where
  unfoldable pub bootstrap_call :
      Credentials → Caller → String → ℕ → Admissions → BootstrapAnswer × Admissions
  unfolding client_ip allow_ip allow_user bootstrap revoke_session bearer_token
  bootstrap_call credentials caller header now a =
      let (allowed, l) = allow_ip (client_ip addresses caller) now a.limiter in
      let a' : Admissions = record a { limiter = l } in
      if a.draining
      then (bootstrap_refused 503 "DRAINING", a)
      else if not allowed
      then (bootstrap_refused 429 "RATE_LIMITED", record a' { throttled = a.throttled + 1 })
      else with_token credentials (bearer_token lib header) now a'
