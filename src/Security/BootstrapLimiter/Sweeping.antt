-- ===== src/Security/BootstrapLimiter/Sweeping.antt =====
-- internal/security/bootstrap_limiter.go: the limiter beside one that never sweeps.
use my_pol_go_backend.Prelude.{
  ℕ, ◌+◌, ◌-◌, ◌*◌, ◌≤◌, min, String, true, not, Option, none, some, ltb, if◌then◌else◌, ◌==◌,
  get_or, arith, ◌≡◌, refl, sym, ◌∙◌, ap, Bool-cases, inl, inr, subst,
}
use native.Mathlib.Nat.{mul-le-mul_right}
use my_pol_go_backend.Prelude.Dict.{
  Dict, lookup, delete_where, Distinct, lookup-insert, insert-Distinct, lookup-delete_where,
  delete_where-Distinct, matches,
}
use my_pol_go_backend.Security.RateLimiter.{
  TokenBucket, token, new_token_bucket, refilled, allow, tokens_at,
}
use my_pol_go_backend.Security.BootstrapLimiter.{ask, is_full}

-- A bucket made with this rate and burst, last used before an instant.
pub record IsMade (rate burst now : ℕ) (b : TokenBucket) : Type 0 where
  pub rated : b.refill ≡ rate
  pub capped : b.capacity ≡ burst
  pub within : b.tokens ≤ burst
  pub past : b.last ≤ now

module _ (rate burst : ℕ) where
  -- The shares that a key would have at an instant: a key without a bucket has the burst.
  abbrev level_of : Option TokenBucket → ℕ → ℕ
  level_of none t = burst
  level_of (some b) t = tokens_at t b

  -- What a level becomes `wait` later.
  abbrev grown : ℕ → ℕ → ℕ → ℕ
  grown level from t = if ltb from t then min burst (level + (t - from) * rate) else level

  abbrev spent : ℕ → ℕ
  spent level = if ltb level token then level else level - token

  abbrev bucket : Option TokenBucket → ℕ → TokenBucket
  bucket o now = get_or (new_token_bucket rate burst now) o

  abbrev Made : ℕ → Option TokenBucket → Type 0
  Made now none = Unit
  Made now (some b) = IsMade rate burst now b

  -- The answer depends on the level only.
  allow-bucket :
      (o : Option TokenBucket) (now : ℕ)
      → Made now o
      → (allow now (bucket o now)).0 ≡ not (ltb (level_of o now) token)
  unfolding allow new_token_bucket refilled tokens_at
  allow-bucket none now m = ground arith
  allow-bucket (some b) now m = ground arith

  -- The bucket after a call.
  record IsSpent (level now : ℕ) (b : TokenBucket) : Type 0 where
    rated : b.refill ≡ rate
    capped : b.capacity ≡ burst
    used : b.last ≡ now
    left : b.tokens ≡ spent level

  allow-IsSpent :
      (o : Option TokenBucket) (now : ℕ)
      → Made now o
      → IsSpent (level_of o now) now (allow now (bucket o now)).1
  unfolding allow new_token_bucket refilled tokens_at
  allow-IsSpent none now m = ground arith
  allow-IsSpent (some b) now m = ground arith

  level-IsSpent :
      (b : TokenBucket) (level now t : ℕ)
      → IsSpent level now b
      → tokens_at t b ≡ grown (spent level) now t
  unfolding tokens_at
  level-IsSpent b level now t s = rw (s.used, s.capped, s.left, s.rated) refl

  -- And so does the level afterwards.
  level-allow :
      (o : Option TokenBucket) (now t : ℕ)
      → Made now o
      → tokens_at t (allow now (bucket o now)).1 ≡ grown (spent (level_of o now)) now t
  level-allow o now t m = level-IsSpent _ (level_of o now) now t (allow-IsSpent o now m)

  allow-Made :
      (o : Option TokenBucket) (now : ℕ)
      → Made now o
      → IsMade rate burst now (allow now (bucket o now)).1
  unfolding allow new_token_bucket refilled
  allow-Made none now m = ground arith
  allow-Made (some b) now m = ground arith

  -- A full bucket stays full.
  full_level :
      (b : TokenBucket) (now t : ℕ)
      → IsMade rate burst now b
      → is_full burst now b ≡ true
      → now ≤ t
      → tokens_at t b ≡ burst
  unfolding tokens_at
  full_level b now t m f h =
      let since : now - b.last ≤ t - b.last = omega (arith, m.past) in
      let more = mul-le-mul_right b.refill since in ground arith

  -- What holds of a map of buckets at an instant.
  pub record IsLimits (now : ℕ) (d : Dict TokenBucket) : Type 0 where
    pub once : Distinct d
    pub made : (k : String) → Made now (lookup k d)

  -- No key can tell the two maps apart, at an instant or later.
  abbrev pub Alike : ℕ → Dict TokenBucket → Dict TokenBucket → Type 0
  Alike now d e = (k : String) (t : ℕ) → now ≤ t → level_of (lookup k d) t ≡ level_of (lookup k e) t

  key_later : (o : Option TokenBucket) (now t : ℕ) → now ≤ t → Made now o → Made t o
  key_later none now t h m = tt
  key_later (some b) now t h m = record {
    rated = m.rated;
    capped = m.capped;
    within = m.within;
    past = omega (arith, m.past);
  }

  pub buckets_later : (now t : ℕ) (d : Dict TokenBucket) → now ≤ t → IsLimits now d → IsLimits t d
  buckets_later now t d h v = record {
    once = v.once;
    made = λ k. key_later (lookup k d) now t h (v.made k);
  }

  pub ask-IsLimits :
      (key : String) (now : ℕ) (d : Dict TokenBucket)
      → IsLimits now d
      → IsLimits now (ask rate burst key now d).1
  unfolding ask
  ask-IsLimits key now d v =
      let b = (allow now (bucket (lookup key d) now)).1 in
      record {
        once = insert-Distinct key b d v.once;
        made = λ k. subst (Made now) (sym (lookup-insert key k b d)) (elim (Bool-cases (key == k)) [
          | inl e ↦ rw e (allow-Made (lookup key d) now (v.made key))
          | inr e ↦ rw e (v.made k)
        ]);
      }

  level-ask :
      (key k : String) (now t : ℕ) (d : Dict TokenBucket)
      → IsLimits now d
      → now ≤ t
      → level_of (lookup k (ask rate burst key now d).1) t ≡ (
          if key == k
          then grown (spent (level_of (lookup key d) now)) now t
          else level_of (lookup k d) t)
  unfolding ask
  level-ask key k now t d v h =
      let b = (allow now (bucket (lookup key d) now)).1 in
      ap (λ o. level_of o t) (lookup-insert key k b d) ∙ elim (Bool-cases (key == k)) [
        | inl e ↦ rw e (level-allow (lookup key d) now t (v.made key))
        | inr e ↦ rw e refl
      ]

  ask_answer :
      (key : String) (now : ℕ) (d : Dict TokenBucket)
      → IsLimits now d
      → (ask rate burst key now d).0 ≡ not (ltb (level_of (lookup key d) now) token)
  unfolding ask
  ask_answer key now d v = allow-bucket (lookup key d) now (v.made key)

  pub ask-Alike :
      (key : String) (now : ℕ) (d e : Dict TokenBucket)
      → IsLimits now d
      → IsLimits now e
      → Alike now d e
      → ((ask rate burst key now d).0 ≡ (ask rate burst key now e).0)
        × Alike now (ask rate burst key now d).1 (ask rate burst key now e).1
  ask-Alike key now d e v w same = (
    ask_answer key now d v
        ∙ ap (λ l. not (ltb l token)) (same key now (omega arith))
        ∙ sym (ask_answer key now e w),
    λ k t h.
        level-ask key k now t d v h
        ∙ ap (λ l. if key == k then grown (spent l) now t else level_of (lookup k d) t)
            (same key now (omega arith))
        ∙ ap (λ l. if key == k then grown (spent (level_of (lookup key e) now)) now t else l)
            (same k t h)
        ∙ sym (level-ask key k now t e w h),
  )

  pub sweep-IsLimits :
      (now : ℕ) (d : Dict TokenBucket)
      → IsLimits now d
      → IsLimits now (delete_where (is_full burst now) d).1
  sweep-IsLimits now d v = record {
    once = delete_where-Distinct (is_full burst now) d v.once;
    made = λ k.
        subst (Made now) (sym (lookup-delete_where (is_full burst now) k d v.once))
          (elim (Bool-cases (matches (is_full burst now) (lookup k d))) [
            | inl e ↦ rw e tt
            | inr e ↦ rw e (v.made k)
          ]);
  }

  full_alike :
      (o : Option TokenBucket) (now t : ℕ)
      → Made now o
      → now ≤ t
      → level_of (if matches (is_full burst now) o then none else o) t ≡ level_of o t
  full_alike none now t m h = refl
  full_alike (some b) now t m h = elim (Bool-cases (is_full burst now b)) [
    | inl e ↦ rw e (sym (full_level b now t m e h))
    | inr e ↦ rw e refl
  ]

  pub sweep-Alike :
      (now : ℕ) (d : Dict TokenBucket)
      → IsLimits now d
      → Alike now (delete_where (is_full burst now) d).1 d
  sweep-Alike now d v k t h =
      ap (λ o. level_of o t) (lookup-delete_where (is_full burst now) k d v.once)
      ∙ full_alike (lookup k d) now t (v.made k) h
