-- ===== src/Tests/Limits.antt =====
-- internal/security/rate_limiter.go and internal/security/bootstrap_limiter.go, at concrete inputs.
use my_pol_go_backend.Prelude.{ℕ, ◌+◌, ◌-◌, ◌*◌, ◌≤◌, true, [], ◌∷◌, ◌≡◌, refl, arith}
use my_pol_go_backend.Prelude.Dict.{lookup, insert, delete, delete_where}
use my_pol_go_backend.Security.RateLimiter.{
  TokenBucket, token, new_token_bucket, refilled, allow, tokens_at,
}
use my_pol_go_backend.Security.RateLimiter.Allowance.{serve, serve_bounded, allow_after_wait}
use my_pol_go_backend.Security.BootstrapLimiter.{
  BootstrapLimiter, new_bootstrap_limiter, ask, sweep_locked, allow_ip, allow_user,
}
use my_pol_go_backend.Security.BootstrapLimiter.Answers.{
  from_ip, from_user, answer, answer_unswept, answers, answers_unswept,
}

-- What a run of the limiters computes with.
limiter_runs : ℕ
unfolding lookup insert delete delete_where new_token_bucket refilled allow tokens_at serve
    new_bootstrap_limiter ask sweep_locked allow_ip allow_user answer answer_unswept answers
limiter_runs = 0

-- Two tokens, and one more each second.
abbrev bucket : TokenBucket
bucket = record { tokens = 2 * token; capacity = 2 * token; refill = 60; last = 0 }

served : (serve (0 ∷ 0 ∷ 0 ∷ []) bucket).0 ≡ 2
unfolding limiter_runs
served = refl

serve_bounded_example :
    (serve (0 ∷ 0 ∷ 0 ∷ []) bucket).0 * token ≤ bucket.tokens + (0 - bucket.last) * bucket.refill
serve_bounded_example =
    serve_bounded (0 ∷ 0 ∷ 0 ∷ []) bucket 0 (omega arith, (omega arith, (omega arith, tt)))
      (omega arith)

allow_after_wait_example : (allow 1_000_000_000 (serve (0 ∷ 0 ∷ 0 ∷ []) bucket).1).0 ≡ true
allow_after_wait_example =
    allow_after_wait (0 ∷ 0 ∷ 0 ∷ []) bucket 0 1_000_000_000 1_000_000_000
      (record { within = omega arith; usable = omega arith })
      (omega arith, (omega arith, (omega arith, tt))) (omega arith) (omega arith) (omega arith)

abbrev limiter : BootstrapLimiter
limiter =
    new_bootstrap_limiter
      (record {
        per_user_per_minute = 20;
        per_user_burst = token;
        per_ip_per_minute = 60;
        per_ip_burst = token;
      })
      0

answers_unswept_example :
    answers answer
      (from_ip "a" 1 ∷ from_ip "a" 2 ∷ from_user "u" 3 ∷ from_ip "a" 600_000_000_000 ∷ [])
      limiter
    ≡ answers answer_unswept
        (from_ip "a" 1 ∷ from_ip "a" 2 ∷ from_user "u" 3 ∷ from_ip "a" 600_000_000_000 ∷ [])
        limiter
unfolding limiter_runs
answers_unswept_example =
    answers_unswept
      (from_ip "a" 1 ∷ from_ip "a" 2 ∷ from_user "u" 3 ∷ from_ip "a" 600_000_000_000 ∷ []) 0 limiter
      (omega arith, (omega arith, (omega arith, (omega arith, tt))))
      (record {
        ips = record { once = tt; made = λ k. tt };
        users = record { once = tt; made = λ k. tt };
      })
