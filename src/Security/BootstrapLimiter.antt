-- ===== src/Security/BootstrapLimiter.antt =====
-- internal/security/bootstrap_limiter.go: how often an address and a user may ask for a session. Rates
-- are in tokens per minute and bursts in shares, as in RateLimiter; a limit that is not positive is 0
-- here. The text functions of Go's library are the parameter `Library`.
pub mod Sweeping
pub mod Answers
use my_pol_go_backend.Prelude.{
  ℕ, ◌+◌, ◌*◌, String, Bool, true, false, ◌||◌, Option, not, [], ltb, leb, eqb, if◌then◌else◌, ◌==◌,
  get_or,
}
use my_pol_go_backend.Prelude.Lists.{length}
use my_pol_go_backend.Prelude.Dict.{Dict, lookup, insert, delete_where}
use my_pol_go_backend.Security.RateLimiter.{TokenBucket, new_token_bucket, allow, tokens_at}

pub record BootstrapLimiter : Type 0 where
  pub per_user : Dict TokenBucket
  pub per_ip : Dict TokenBucket
  pub user_rate : ℕ
  pub user_burst : ℕ
  pub ip_rate : ℕ
  pub ip_burst : ℕ
  pub last_sweep : ℕ

pub record BootstrapLimitSettings : Type 0 where
  pub per_user_per_minute : ℕ
  pub per_user_burst : ℕ
  pub per_ip_per_minute : ℕ
  pub per_ip_burst : ℕ

unfoldable pub new_bootstrap_limiter : BootstrapLimitSettings → ℕ → BootstrapLimiter
new_bootstrap_limiter settings now = record {
  per_user = [];
  per_ip = [];
  user_rate = settings.per_user_per_minute;
  user_burst = settings.per_user_burst;
  ip_rate = settings.per_ip_per_minute;
  ip_burst = settings.per_ip_burst;
  last_sweep = now;
}

abbrev pub minute : ℕ
minute = 60_000_000_000

-- The bucket of a key, made full if there is none, and what it answers.
unfoldable pub ask : ℕ → ℕ → String → ℕ → Dict TokenBucket → Bool × Dict TokenBucket
unfolding new_token_bucket
ask rate burst key now d =
    let (allowed, b) = allow now (get_or (new_token_bucket rate burst now) (lookup key d)) in
    (allowed, insert key b d)

-- A bucket that has refilled completely.
abbrev pub is_full : ℕ → ℕ → TokenBucket → Bool
is_full burst now b = leb burst (tokens_at now b)

unfoldable pub sweep_locked : ℕ → BootstrapLimiter → BootstrapLimiter
unfolding tokens_at
sweep_locked now l = if ltb now (l.last_sweep + minute) then l else record l {
  last_sweep = now;
  per_ip = (delete_where (is_full l.ip_burst now) l.per_ip).1;
  per_user = (delete_where (is_full l.user_burst now) l.per_user).1;
}

unfoldable pub allow_ip : String → ℕ → BootstrapLimiter → Bool × BootstrapLimiter
unfolding ask sweep_locked
allow_ip ip now l =
    if ip == "" || (eqb l.ip_rate 0 || eqb l.ip_burst 0)
    then (true, l)
    else (let l' = sweep_locked now l in
        let (allowed, d) = ask l'.ip_rate l'.ip_burst ip now l'.per_ip in
        (allowed, record l' { per_ip = d }))

unfoldable pub allow_user : String → ℕ → BootstrapLimiter → Bool × BootstrapLimiter
unfolding ask
allow_user user_id now l =
    if user_id == "" || (eqb l.user_rate 0 || eqb l.user_burst 0)
    then (true, l)
    else (let (allowed, d) = ask l.user_rate l.user_burst user_id now l.per_user in
        (allowed, record l { per_user = d }))

unfoldable pub tracked_ips : BootstrapLimiter → ℕ
tracked_ips l = length l.per_ip

unfoldable pub tracked_users : BootstrapLimiter → ℕ
tracked_users l = length l.per_user

-- What is read of a request; a header that is absent is "".
pub record Caller : Type 0 where
  pub forwarded_for : String
  pub real_ip : String
  pub remote_addr : String

-- `strings.Cut` at a comma (the text before it), `strings.TrimSpace` and the host of
-- `net.SplitHostPort`.
pub record Library : Type 0 where
  pub cut_comma : String → Option String
  pub trim_space : String → String
  pub split_host : String → Option String

unfoldable pub client_ip : Library → Caller → String
client_ip lib r =
    if not (r.forwarded_for == "")
    then lib.trim_space (get_or r.forwarded_for (lib.cut_comma r.forwarded_for))
    else if not (r.real_ip == "")
    then lib.trim_space r.real_ip
    else get_or r.remote_addr (lib.split_host r.remote_addr)
