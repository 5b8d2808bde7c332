-- ===== src/Security/Hmac/Drift.antt =====
-- internal/security/hmac_request_validator.go: the skew test in int64 durations.
use my_pol_go_backend.Prelude.{ℕ, ◌+◌, ◌*◌, ◌^◌, ◌≤◌, ◌<◌, false, ◌≡◌, arith, leb}
use my_pol_go_backend.Prelude.Int.{pos, negsuc}
use my_pol_go_backend.Security.Hmac.{outside_skew, unix_to_internal}

-- A timestamp that passes, and is less than 2 ^ 63 nanoseconds ahead of the clock, is within the
-- skew of it.
pub within_skew :
    (skew now n : ℕ)
    → skew < 2 ^ 62
    → n * 1_000_000_000 < now + 2 ^ 63
    → outside_skew skew now (pos n) ≡ false
    → (n * 1_000_000_000 ≤ now + skew) × (now ≤ n * 1_000_000_000 + skew)
unfolding outside_skew
within_skew skew now n s r h = (ground arith, ground arith)

-- A timestamp from before the epoch passes only while the clock is within the skew of it.
pub within_skew_early :
    (skew now n : ℕ)
    → skew < 2 ^ 62
    → outside_skew skew now (negsuc n) ≡ false
    → now + (n + 1) * 1_000_000_000 ≤ skew
unfolding outside_skew
within_skew_early skew now n s h = ground arith

-- An int64 timestamp 2 ^ 63 nanoseconds or more ahead of the clock fails the skew test exactly when
-- `time.Unix` wraps on it, which only the last 62135596800 of them do. Every other passes, for any
-- skew below 2 ^ 62 ns: the difference saturates at the least duration, which is its own negation.
pub far_future_within_skew :
    (skew now n : ℕ)
    → skew < 2 ^ 62
    → now + 2 ^ 63 ≤ n * 1_000_000_000
    → n < 2 ^ 63
    → outside_skew skew now (pos n) ≡ leb (2 ^ 63) (n + unix_to_internal)
unfolding outside_skew
far_future_within_skew skew now n s h b = ground arith
