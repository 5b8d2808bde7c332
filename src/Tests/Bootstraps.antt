-- ===== src/Tests/Bootstraps.antt =====
-- internal/transport/handlers.go: a bootstrap, at a concrete input.
use my_pol_go_backend.Prelude.{ℕ, true, false, none, some, [], ◌∷◌, ◌≡◌, refl}
use my_pol_go_backend.Prelude.Dict.{lookup, insert, delete, delete_where}
use my_pol_go_backend.Security.RateLimiter.{token, refilled, allow, tokens_at, new_token_bucket}
use my_pol_go_backend.Security.BootstrapLimiter.{
  Caller, Library, ask, sweep_locked, allow_ip, allow_user, client_ip,
}
use my_pol_go_backend.Session.{save}
use my_pol_go_backend.Session.Tickets.{issue}
use my_pol_go_backend.Session.Service.{CanvasClaims, session_of, ticket_of, issue_ticket, bootstrap}
use my_pol_go_backend.Control.Bootstrap.{
  TextLibrary, Admissions, Credentials, bearer_token, bootstrap_call,
}
use my_pol_go_backend.Control.Throttled.{throttled_session_ends}

-- What a bootstrap computes with.
bootstrap_runs : ℕ
unfolding lookup insert delete delete_where refilled allow tokens_at new_token_bucket ask
    sweep_locked allow_ip allow_user client_ip save issue session_of ticket_of issue_ticket
    bootstrap bearer_token
bootstrap_runs = 0

abbrev texts : TextLibrary
texts = record {
  text_length = λ text. 9;
  equal_fold = λ a b. true;
  first_bytes = λ n text. text;
  after_bytes = λ n text. text;
  trim_space = λ text. text;
}

abbrev addresses : Library
addresses = record {
  cut_comma = λ text. none;
  trim_space = λ text. text;
  split_host = λ text. none;
}

abbrev claims : CanvasClaims
claims = record {
  session_id = "s1";
  user_id = "u1";
  note_id = "n1";
  permission = "edit";
  token_id = "t1";
  expires_at = 1000;
}

-- The user has a session, and has used up its bootstraps.
abbrev admissions : Admissions
admissions = record {
  draining = false;
  limiter = record {
    per_user = ("u1", record { tokens = 0; capacity = token; refill = 20; last = 10 }) ∷ [];
    per_ip = [];
    user_rate = 20;
    user_burst = token;
    ip_rate = 0;
    ip_burst = 0;
    last_sweep = 0;
  };
  sessions = record { sessions = ("s1", session_of claims 5) ∷ []; tickets = []; ticket_ttl = 30 };
  throttled = 0;
  auth_failures = 0;
  tickets_issued = 0;
}

abbrev credentials : Credentials
credentials = record { validate_token = λ text. some claims; ticket_value = some "tk" }

abbrev caller : Caller
caller = record { forwarded_for = ""; real_ip = ""; remote_addr = "a" }

throttled_session_ends_example :
    lookup "s1"
      (bootstrap_call texts addresses credentials caller "Bearer xy" 10
        admissions).1.sessions.sessions
    ≡ none
unfolding bootstrap_runs
throttled_session_ends_example =
    throttled_session_ends texts addresses credentials claims "tk" "Bearer xy" caller 10 admissions
      refl refl refl refl refl refl refl refl
