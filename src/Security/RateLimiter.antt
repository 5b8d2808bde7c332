-- ===== src/Security/RateLimiter.antt =====
-- internal/security/rate_limiter.go: token buckets, one for each class of traffic of a connection. A
-- float64 count of tokens is a whole number of shares here, 6 * 10 ^ 10 to a token, and a rate is in
-- tokens per minute, so that a nanosecond refills `rate` shares and no arithmetic rounds. Instants are
-- nanoseconds.
pub mod Allowance
use my_pol_go_backend.Prelude.{ℕ, ◌+◌, ◌-◌, ◌*◌, min, Bool, true, false, ltb, if◌then◌else◌}
use my_pol_go_backend.Envelope.{EventClass, ephemeral, reliable, signaling, durable}

-- The shares of one token.
abbrev pub token : ℕ
token = 60_000_000_000

pub record TokenBucket : Type 0 where
  pub tokens : ℕ
  pub capacity : ℕ
  pub refill : ℕ
  pub last : ℕ

unfoldable pub new_token_bucket : ℕ → ℕ → ℕ → TokenBucket
new_token_bucket rate burst now = record {
  tokens = burst;
  capacity = burst;
  refill = rate;
  last = now;
}

-- The refill at the start of `Allow`; a clock that stands still or runs back refills nothing.
unfoldable pub refilled : ℕ → TokenBucket → TokenBucket
refilled now b =
    if ltb b.last now
    then record b { tokens = min b.capacity (b.tokens + (now - b.last) * b.refill); last = now }
    else b

abbrev pub spend : TokenBucket → Bool × TokenBucket
spend b = if ltb b.tokens token then (false, b) else (true, record b { tokens = b.tokens - token })

unfoldable pub allow : ℕ → TokenBucket → Bool × TokenBucket
unfolding refilled
allow now b = spend (refilled now b)

unfoldable pub tokens_at : ℕ → TokenBucket → ℕ
tokens_at now b =
    if ltb b.last now then min b.capacity (b.tokens + (now - b.last) * b.refill) else b.tokens

pub record RateLimits : Type 0 where
  pub ephemeral : TokenBucket
  pub reliable : TokenBucket
  pub signaling : TokenBucket

-- Rates in tokens per second, bursts in shares.
pub record RateLimitSettings : Type 0 where
  pub ephemeral_per_second : ℕ
  pub ephemeral_burst : ℕ
  pub reliable_per_second : ℕ
  pub reliable_burst : ℕ
  pub signaling_per_second : ℕ
  pub signaling_burst : ℕ

unfoldable pub new_rate_limits : RateLimitSettings → ℕ → RateLimits
unfolding new_token_bucket
new_rate_limits s now = record {
  ephemeral = new_token_bucket (s.ephemeral_per_second * 60) s.ephemeral_burst now;
  reliable = new_token_bucket (s.reliable_per_second * 60) s.reliable_burst now;
  signaling = new_token_bucket (s.signaling_per_second * 60) s.signaling_burst now;
}

unfoldable pub allow_class : EventClass → ℕ → RateLimits → Bool × RateLimits
unfolding allow
allow_class EventClass.ephemeral now r =
    let (allowed, b) = allow now r.ephemeral in (allowed, record r { ephemeral = b })
allow_class EventClass.signaling now r =
    let (allowed, b) = allow now r.signaling in (allowed, record r { signaling = b })
allow_class EventClass.reliable now r =
    let (allowed, b) = allow now r.reliable in (allowed, record r { reliable = b })
allow_class EventClass.durable now r =
    let (allowed, b) = allow now r.reliable in (allowed, record r { reliable = b })
