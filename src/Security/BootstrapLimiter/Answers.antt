-- ===== src/Security/BootstrapLimiter/Answers.antt =====
-- internal/security/bootstrap_limiter.go: the answers of the limiter over a sequence of requests.
use my_pol_go_backend.Prelude.{
  ℕ, ◌≤◌, String, Bool, true, false, ◌||◌, List, [], ◌∷◌, ltb, eqb, if◌then◌else◌, ◌==◌, arith, ◌≡◌,
  refl, sym, ◌∙◌, ap, Bool-cases, inl, inr, subst, ◌+◌,
}
use my_pol_go_backend.Prelude.Dict.{Dict}
use my_pol_go_backend.Security.RateLimiter.{TokenBucket}
use my_pol_go_backend.Security.BootstrapLimiter.{
  BootstrapLimiter, minute, ask, sweep_locked, allow_ip, allow_user,
}
use my_pol_go_backend.Security.BootstrapLimiter.Sweeping.{
  IsLimits, Alike, buckets_later, ask-IsLimits, ask-Alike, sweep-IsLimits, sweep-Alike,
}

-- A request that the limiter is asked about, and when.
pub data Request : Type 0 where
  from_ip from_user : String → ℕ → Request

unfoldable pub answer : Request → BootstrapLimiter → Bool × BootstrapLimiter
answer (from_ip ip now) l = allow_ip ip now l
answer (from_user user_id now) l = allow_user user_id now l

-- The limiter that never discards a bucket.
unfoldable pub answer_unswept : Request → BootstrapLimiter → Bool × BootstrapLimiter
unfolding ask
answer_unswept (from_ip ip now) l =
    if ip == "" || (eqb l.ip_rate 0 || eqb l.ip_burst 0)
    then (true, l)
    else (let (allowed, d) = ask l.ip_rate l.ip_burst ip now l.per_ip in
        (allowed, record l { per_ip = d }))
answer_unswept (from_user user_id now) l = allow_user user_id now l

unfoldable pub answers :
    (Request → BootstrapLimiter → Bool × BootstrapLimiter)
    → List Request
    → BootstrapLimiter
    → List Bool
answers f [] l = []
answers f (r ∷ rs) l = (f r l).0 ∷ answers f rs (f r l).1

abbrev pub instant : Request → ℕ
instant (from_ip ip now) = now
instant (from_user user_id now) = now

-- The requests come in the order of their instants.
abbrev pub InOrder : ℕ → List Request → Type 0
InOrder t [] = Unit
InOrder t (r ∷ rs) = (t ≤ instant r) × InOrder (instant r) rs

pub record IsLimiter (now : ℕ) (l : BootstrapLimiter) : Type 0 where
  pub ips : IsLimits l.ip_rate l.ip_burst now l.per_ip
  pub users : IsLimits l.user_rate l.user_burst now l.per_user

-- Two limiters with the same limits that no request can tell apart.
record IsTwin (now : ℕ) (l m : BootstrapLimiter) : Type 0 where
  ip_rates : m.ip_rate ≡ l.ip_rate
  ip_bursts : m.ip_burst ≡ l.ip_burst
  user_rates : m.user_rate ≡ l.user_rate
  user_bursts : m.user_burst ≡ l.user_burst
  ips : IsLimits l.ip_rate l.ip_burst now l.per_ip
  other_ips : IsLimits l.ip_rate l.ip_burst now m.per_ip
  users : IsLimits l.user_rate l.user_burst now l.per_user
  other_users : IsLimits l.user_rate l.user_burst now m.per_user
  ips_alike : Alike l.ip_rate l.ip_burst now l.per_ip m.per_ip
  users_alike : Alike l.user_rate l.user_burst now l.per_user m.per_user

twins_later : (now t : ℕ) (l m : BootstrapLimiter) → now ≤ t → IsTwin now l m → IsTwin t l m
twins_later now t l m h w = record {
  ip_rates = w.ip_rates;
  ip_bursts = w.ip_bursts;
  user_rates = w.user_rates;
  user_bursts = w.user_bursts;
  ips = buckets_later l.ip_rate l.ip_burst now t l.per_ip h w.ips;
  other_ips = buckets_later l.ip_rate l.ip_burst now t m.per_ip h w.other_ips;
  users = buckets_later l.user_rate l.user_burst now t l.per_user h w.users;
  other_users = buckets_later l.user_rate l.user_burst now t m.per_user h w.other_users;
  ips_alike = λ k u q. w.ips_alike k u (omega arith);
  users_alike = λ k u q. w.users_alike k u (omega arith);
}

sweep_locked-IsTwin :
    (now : ℕ) (l m : BootstrapLimiter) → IsTwin now l m → IsTwin now (sweep_locked now l) m
unfolding sweep_locked
sweep_locked-IsTwin now l m w = elim (Bool-cases (ltb now (l.last_sweep + minute))) [
  | inl e ↦ rw e w
  | inr e ↦ rw e (record {
    ip_rates = w.ip_rates;
    ip_bursts = w.ip_bursts;
    user_rates = w.user_rates;
    user_bursts = w.user_bursts;
    ips = sweep-IsLimits l.ip_rate l.ip_burst now l.per_ip w.ips;
    other_ips = w.other_ips;
    users = sweep-IsLimits l.user_rate l.user_burst now l.per_user w.users;
    other_users = w.other_users;
    ips_alike =
        λ k t h. sweep-Alike l.ip_rate l.ip_burst now l.per_ip w.ips k t h ∙ w.ips_alike k t h;
    users_alike = λ k t h.
        sweep-Alike l.user_rate l.user_burst now l.per_user w.users k t h ∙ w.users_alike k t h;
  })
]

abbrev ask_ip : String → ℕ → BootstrapLimiter → Bool × BootstrapLimiter
ask_ip ip now l =
    let (allowed, d) = ask l.ip_rate l.ip_burst ip now l.per_ip in
    (allowed, record l { per_ip = d })

abbrev ask_user : String → ℕ → BootstrapLimiter → Bool × BootstrapLimiter
ask_user user_id now l =
    let (allowed, d) = ask l.user_rate l.user_burst user_id now l.per_user in
    (allowed, record l { per_user = d })

-- The limiters with other buckets for the addresses, or for the users.
ips-IsTwin :
    (now : ℕ) (l m : BootstrapLimiter) (d e : Dict TokenBucket)
    → IsTwin now l m
    → IsLimits l.ip_rate l.ip_burst now d
    → IsLimits l.ip_rate l.ip_burst now e
    → Alike l.ip_rate l.ip_burst now d e
    → IsTwin now (record l { per_ip = d }) (record m { per_ip = e })
ips-IsTwin now l m d e w v u a = record {
  ip_rates = w.ip_rates;
  ip_bursts = w.ip_bursts;
  user_rates = w.user_rates;
  user_bursts = w.user_bursts;
  ips = v;
  other_ips = u;
  users = w.users;
  other_users = w.other_users;
  ips_alike = a;
  users_alike = w.users_alike;
}

users-IsTwin :
    (now : ℕ) (l m : BootstrapLimiter) (d e : Dict TokenBucket)
    → IsTwin now l m
    → IsLimits l.user_rate l.user_burst now d
    → IsLimits l.user_rate l.user_burst now e
    → Alike l.user_rate l.user_burst now d e
    → IsTwin now (record l { per_user = d }) (record m { per_user = e })
users-IsTwin now l m d e w v u a = record {
  ip_rates = w.ip_rates;
  ip_bursts = w.ip_bursts;
  user_rates = w.user_rates;
  user_bursts = w.user_bursts;
  ips = w.ips;
  other_ips = w.other_ips;
  users = v;
  other_users = u;
  ips_alike = w.ips_alike;
  users_alike = a;
}

-- `ask` with the other limiter's own rate and burst.
ask_same :
    (r r' b b' : ℕ) (k : String) (now : ℕ) (d : Dict TokenBucket)
    → r' ≡ r
    → b' ≡ b
    → ask r' b' k now d ≡ ask r b k now d
ask_same r r' b b' k now d h g = rw (h, g) refl

abbrev Agree : ℕ → Bool × BootstrapLimiter → Bool × BootstrapLimiter → Type 0
Agree now x y = (x.0 ≡ y.0) × IsTwin now x.1 y.1

ask_ip-Agree :
    (ip : String) (now : ℕ) (l m : BootstrapLimiter)
    → IsTwin now l m
    → Agree now (ask_ip ip now l) (ask_ip ip now m)
ask_ip-Agree ip now l m w =
    let q =
      ask_same l.ip_rate m.ip_rate l.ip_burst m.ip_burst ip now m.per_ip w.ip_rates w.ip_bursts in
    let alike =
      ask-Alike l.ip_rate l.ip_burst ip now l.per_ip m.per_ip w.ips w.other_ips w.ips_alike in
    let d = (ask l.ip_rate l.ip_burst ip now l.per_ip).1 in
    subst
      (λ x.
        ((ask_ip ip now l).0 ≡ x.0)
        × IsTwin now (record l { per_ip = d }) (record m { per_ip = x.1 }))
      (sym q)
      (
        alike.0,
        ips-IsTwin now l m d _ w (ask-IsLimits l.ip_rate l.ip_burst ip now l.per_ip w.ips)
            (ask-IsLimits l.ip_rate l.ip_burst ip now m.per_ip w.other_ips) alike.1,
      )

ask_user-Agree :
    (user_id : String) (now : ℕ) (l m : BootstrapLimiter)
    → IsTwin now l m
    → Agree now (ask_user user_id now l) (ask_user user_id now m)
ask_user-Agree u now l m w =
    let q =
      ask_same l.user_rate m.user_rate l.user_burst m.user_burst u now m.per_user w.user_rates
        w.user_bursts in
    let alike =
      ask-Alike l.user_rate l.user_burst u now l.per_user m.per_user w.users w.other_users
        w.users_alike in
    let d = (ask l.user_rate l.user_burst u now l.per_user).1 in
    subst
      (λ x.
        ((ask_user u now l).0 ≡ x.0)
        × IsTwin now (record l { per_user = d }) (record m { per_user = x.1 }))
      (sym q)
      (
        alike.0,
        users-IsTwin now l m d _ w (ask-IsLimits l.user_rate l.user_burst u now l.per_user w.users)
            (ask-IsLimits l.user_rate l.user_burst u now m.per_user w.other_users) alike.1,
      )

abbrev unlimited : String → ℕ → ℕ → Bool
unlimited key rate burst = key == "" || (eqb rate 0 || eqb burst 0)

if-Agree :
    (c c' : Bool) (now : ℕ) (l m : BootstrapLimiter) (x y : Bool × BootstrapLimiter)
    → c' ≡ c
    → IsTwin now l m
    → Agree now x y
    → Agree now (if c then (true, l) else x) (if c' then (true, m) else y)
if-Agree true c' now l m x y e w a = rw e (refl, w)
if-Agree false c' now l m x y e w a = rw e a

answer-Agree :
    (r : Request) (l m : BootstrapLimiter)
    → IsTwin (instant r) l m
    → Agree (instant r) (answer r l) (answer_unswept r m)
unfolding answer answer_unswept allow_ip allow_user
answer-Agree (from_ip ip now) l m w =
    if-Agree (unlimited ip l.ip_rate l.ip_burst) (unlimited ip m.ip_rate m.ip_burst) now l m
      (ask_ip ip now (sweep_locked now l)) (ask_ip ip now m)
      (ap (λ r. unlimited ip r m.ip_burst) w.ip_rates ∙ ap (unlimited ip l.ip_rate) w.ip_bursts) w
      (ask_ip-Agree ip now (sweep_locked now l) m (sweep_locked-IsTwin now l m w))
answer-Agree (from_user u now) l m w =
    if-Agree (unlimited u l.user_rate l.user_burst) (unlimited u m.user_rate m.user_burst) now l m
      (ask_user u now l) (ask_user u now m)
      (ap (λ r. unlimited u r m.user_burst) w.user_rates
        ∙ ap (unlimited u l.user_rate) w.user_bursts)
      w (ask_user-Agree u now l m w)

answers-Agree :
    (rs : List Request) (now : ℕ) (l m : BootstrapLimiter)
    → InOrder now rs
    → IsTwin now l m
    → answers answer rs l ≡ answers answer_unswept rs m
unfolding answers
answers-Agree [] now l m o w = refl
answers-Agree (r ∷ rs) now l m o w =
    let a = answer-Agree r l m (twins_later now (instant r) l m o.0 w) in
    ap (λ b. b ∷ answers answer rs (answer r l).1) a.0
    ∙ ap (◌∷◌ (answer_unswept r m).0)
        (answers-Agree rs (instant r) (answer r l).1 (answer_unswept r m).1 o.1 a.1)

-- Discarding full buckets is never seen: requests in the order of time get the same answers as from a
-- limiter that keeps every bucket.
pub answers_unswept :
    (rs : List Request) (now : ℕ) (l : BootstrapLimiter)
    → InOrder now rs
    → IsLimiter now l
    → answers answer rs l ≡ answers answer_unswept rs l
answers_unswept rs now l o v = answers-Agree rs now l l o (record {
  ip_rates = refl;
  ip_bursts = refl;
  user_rates = refl;
  user_bursts = refl;
  ips = v.ips;
  other_ips = v.ips;
  users = v.users;
  other_users = v.users;
  ips_alike = λ k t h. refl;
  users_alike = λ k t h. refl;
})
