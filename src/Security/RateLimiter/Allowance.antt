-- ===== src/Security/RateLimiter/Allowance.antt =====
-- internal/security/rate_limiter.go: how much a bucket lets through over any sequence of calls.
use my_pol_go_backend.Prelude.{
  ℕ, ◌+◌, ◌-◌, ◌*◌, ◌≤◌, Bool, true, false, List, [], ◌∷◌, if◌then◌else◌, arith, ◌≡◌, refl, subst,
  ◌∙◌, ap, sym, zero, suc,
}
use native.Mathlib.Nat.{mul-le-mul_right}
use my_pol_go_backend.Envelope.{EventClass}
use my_pol_go_backend.Security.RateLimiter.{
  TokenBucket, token, refilled, allow, RateLimits, allow_class,
}

-- How many of the calls at these instants are let through, and the bucket after them.
unfoldable pub serve : List ℕ → TokenBucket → ℕ × TokenBucket
serve [] b = (0, b)
serve (now ∷ ts) b =
    let (allowed, b') = allow now b in
    let (n, b'') = serve ts b' in (if allowed then n + 1 else n, b'')

abbrev pub AllBefore : ℕ → List ℕ → Type 0
AllBefore t [] = Unit
AllBefore t (now ∷ ts) = (now ≤ t) × AllBefore t ts

-- What one call does to the shares: what it spends and leaves is at most what there was and what the
-- time since the last call refills.
pub record Accounted (b b' : TokenBucket) (spent : ℕ) : Type 0 where
  pub later : b.last ≤ b'.last
  pub same_refill : b'.refill ≡ b.refill
  pub same_capacity : b'.capacity ≡ b.capacity
  pub balance : spent + b'.tokens + b.last * b.refill ≤ b.tokens + b'.last * b.refill

sub_mul : (n l r : ℕ) → l ≤ n → (n - l) * r + l * r ≡ n * r
sub_mul n l r h = grind arith

refilled-Accounted : (now : ℕ) (b : TokenBucket) → Accounted b (refilled now b) 0
unfolding refilled
refilled-Accounted now b = ground (arith, sub_mul now b.last b.refill)

allow-Accounted :
    (now : ℕ) (b : TokenBucket) → Accounted b (allow now b).1 (if (allow now b).0 then token else 0)
unfolding allow
allow-Accounted now b = let a = refilled-Accounted now b in ground arith

allow_last : (now t : ℕ) (b : TokenBucket) → now ≤ t → b.last ≤ t → (allow now b).1.last ≤ t
unfolding allow
allow_last now t b h k = ground arith

-- What `n` calls let through cost, over any sequence of calls.
serve_balance :
    (ts : List ℕ) (b : TokenBucket)
    → ((serve ts b).0 * token + (serve ts b).1.tokens + b.last * b.refill
        ≤ b.tokens + (serve ts b).1.last * b.refill)
      × ((serve ts b).1.refill ≡ b.refill)
unfolding serve
serve_balance [] b = (omega arith, refl)
serve_balance (now ∷ ts) b =
    let first = allow-Accounted now b in
    let rest = serve_balance ts (allow now b).1 in
    let same : (allow now b).1.refill ≡ b.refill = first.same_refill in
    let tail : (serve ts (allow now b).1).0 * token
          + (serve ts (allow now b).1).1.tokens
          + (allow now b).1.last * b.refill
        ≤ (allow now b).1.tokens + (serve ts (allow now b).1).1.last * b.refill =
      subst
        (λ r.
          (serve ts (allow now b).1).0 * token
            + (serve ts (allow now b).1).1.tokens
            + (allow now b).1.last * r
          ≤ (allow now b).1.tokens + (serve ts (allow now b).1).1.last * r)
        same rest.0 in
    (ground (arith, first.balance, tail), rest.1 ∙ same)

serve_last :
    (ts : List ℕ) (b : TokenBucket) (t : ℕ) → AllBefore t ts → b.last ≤ t → (serve ts b).1.last ≤ t
unfolding serve
serve_last [] b t h k = k
serve_last (now ∷ ts) b t h k = serve_last ts (allow now b).1 t h.1 (allow_last now t b h.0 k)

-- However the calls come until an instant, also out of order, they let through at most the tokens that
-- there were at the start and those that the time until then refills.
pub serve_bounded :
    (ts : List ℕ) (b : TokenBucket) (t : ℕ)
    → AllBefore t ts
    → b.last ≤ t
    → (serve ts b).0 * token ≤ b.tokens + (t - b.last) * b.refill
serve_bounded ts b t h k =
    let done = serve_balance ts b in
    let last = serve_last ts b t h k in
    let total = sub_mul t b.last b.refill k in
    let upto = mul-le-mul_right b.refill last in omega (arith, done.0)

-- A capacity of a token or more, and no more than that in the bucket.
pub record IsBucket (b : TokenBucket) : Type 0 where
  pub within : b.tokens ≤ b.capacity
  pub usable : token ≤ b.capacity

allow-IsBucket : (now : ℕ) (b : TokenBucket) → IsBucket b → IsBucket (allow now b).1
unfolding allow refilled
allow-IsBucket now b v = ground arith

serve-IsBucket : (ts : List ℕ) (b : TokenBucket) → IsBucket b → IsBucket (serve ts b).1
unfolding serve
serve-IsBucket [] b v = v
serve-IsBucket (now ∷ ts) b v = serve-IsBucket ts (allow now b).1 (allow-IsBucket now b v)

refill_enough :
    (b : TokenBucket) (now wait : ℕ)
    → token ≤ wait * b.refill
    → b.last + wait ≤ now
    → token ≤ (now - b.last) * b.refill
refill_enough b now wait h k =
    let grown : wait ≤ now - b.last = omega arith in
    let more = mul-le-mul_right b.refill grown in omega arith

allow_quiet :
    (b : TokenBucket) (wait now : ℕ)
    → IsBucket b
    → token ≤ wait * b.refill
    → b.last + wait ≤ now
    → (allow now b).0 ≡ true
unfolding allow refilled
allow_quiet b zero now v w q = ground arith
allow_quiet b (suc wait) now v w q = ground (arith, refill_enough b now (suc wait) w q)

-- Whatever was asked of a bucket before, a call is let through once it has been quiet for as long as a
-- token takes to refill.
pub allow_after_wait :
    (ts : List ℕ) (b : TokenBucket) (t wait now : ℕ)
    → IsBucket b
    → AllBefore t ts
    → b.last ≤ t
    → token ≤ wait * b.refill
    → t + wait ≤ now
    → (allow now (serve ts b).1).0 ≡ true
allow_after_wait ts b t wait now v h k w q =
    let last = serve_last ts b t h k in
    let same = (serve_balance ts b).1 in
    allow_quiet (serve ts b).1 wait now (serve-IsBucket ts b v)
      (subst (λ r. token ≤ wait * r) (sym same) w) (omega arith)

-- The class whose calls draw on the same bucket.
abbrev pub shares_bucket : EventClass → EventClass → Bool
shares_bucket EventClass.ephemeral EventClass.ephemeral = true
shares_bucket EventClass.signaling EventClass.signaling = true
shares_bucket EventClass.reliable EventClass.reliable = true
shares_bucket EventClass.reliable EventClass.durable = true
shares_bucket EventClass.durable EventClass.reliable = true
shares_bucket EventClass.durable EventClass.durable = true
shares_bucket _ _ = false

-- The limits after calls of these classes at these instants.
unfoldable pub flood : List (EventClass × ℕ) → RateLimits → RateLimits
flood [] r = r
flood ((c, now) ∷ calls) r = flood calls (allow_class c now r).1

abbrev pub NoneShares : EventClass → List (EventClass × ℕ) → Type 0
NoneShares c [] = Unit
NoneShares c ((d, now) ∷ calls) = (shares_bucket c d ≡ false) × NoneShares c calls

abbrev bucket_of : EventClass → RateLimits → TokenBucket
bucket_of EventClass.ephemeral r = r.ephemeral
bucket_of EventClass.signaling r = r.signaling
bucket_of EventClass.reliable r = r.reliable
bucket_of EventClass.durable r = r.reliable

allow_class_lem :
    (c : EventClass) (now : ℕ) (r : RateLimits)
    → (allow_class c now r).0 ≡ (allow now (bucket_of c r)).0
unfolding allow_class
allow_class_lem EventClass.ephemeral now r = refl
allow_class_lem EventClass.signaling now r = refl
allow_class_lem EventClass.reliable now r = refl
allow_class_lem EventClass.durable now r = refl

bucket_of-allow_class :
    (c d : EventClass) (now : ℕ) (r : RateLimits)
    → shares_bucket c d ≡ false
    → bucket_of c (allow_class d now r).1 ≡ bucket_of c r
unfolding allow_class
bucket_of-allow_class EventClass.ephemeral EventClass.signaling now r h = refl
bucket_of-allow_class EventClass.ephemeral EventClass.reliable now r h = refl
bucket_of-allow_class EventClass.ephemeral EventClass.durable now r h = refl
bucket_of-allow_class EventClass.signaling EventClass.ephemeral now r h = refl
bucket_of-allow_class EventClass.signaling EventClass.reliable now r h = refl
bucket_of-allow_class EventClass.signaling EventClass.durable now r h = refl
bucket_of-allow_class EventClass.reliable EventClass.ephemeral now r h = refl
bucket_of-allow_class EventClass.reliable EventClass.signaling now r h = refl
bucket_of-allow_class EventClass.durable EventClass.ephemeral now r h = refl
bucket_of-allow_class EventClass.durable EventClass.signaling now r h = refl
bucket_of-allow_class _ _ now r h = cc

bucket_of-flood :
    (c : EventClass) (calls : List (EventClass × ℕ)) (r : RateLimits)
    → NoneShares c calls
    → bucket_of c (flood calls r) ≡ bucket_of c r
unfolding flood
bucket_of-flood c [] r h = refl
bucket_of-flood c ((d, now) ∷ calls) r h =
    bucket_of-flood c calls (allow_class d now r).1 h.1 ∙ bucket_of-allow_class c d now r h.0

-- A flood of other classes never decides whether a call is let through.
pub allow_class-flood :
    (c : EventClass) (calls : List (EventClass × ℕ)) (now : ℕ) (r : RateLimits)
    → NoneShares c calls
    → (allow_class c now (flood calls r)).0 ≡ (allow_class c now r).0
allow_class-flood c calls now r h =
    allow_class_lem c now (flood calls r)
    ∙ ap (λ b. (allow now b).0) (bucket_of-flood c calls r h)
    ∙ sym (allow_class_lem c now r)
