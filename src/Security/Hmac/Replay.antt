-- ===== src/Security/Hmac/Replay.antt =====
-- internal/security/hmac_request_validator.go: the nonce cache over a sequence of control calls.
use my_pol_go_backend.Prelude.{
  ℕ, ◌+◌, ◌*◌, ◌^◌, ◌≤◌, ◌<◌, String, true, false, none, some, List, [], ◌∷◌, ◌≡◌, ◌≢◌, arith,
  eq_iff, Option-cases, inl, inr, ltb, ◌⊎◌, subst, sym, refl, ap, ◌∙◌,
}
use my_pol_go_backend.Prelude.Int.{ℤ, pos, negsuc}
use my_pol_go_backend.Prelude.Dict.{
  lookup, lookup-insert, lookup-delete_where, Distinct, delete_where, delete_where-Distinct,
  insert-Distinct,
}
use my_pol_go_backend.Security.Hmac.{
  HmacValidator, Request, Library, outside_skew, remember_nonce, validate_signed, validate,
}
use my_pol_go_backend.Security.Hmac.Drift.{within_skew, within_skew_early}

-- The validator keeps the use of a nonce, while calls run up to twice the skew after it.
remember_keeps :
    (n nonce : String) (at now : ℕ) (v : HmacValidator)
    → Distinct v.nonces
    → lookup n v.nonces ≡ some at
    → now ≤ at + 2 * v.max_skew
    → lookup n (remember_nonce nonce now v).1.nonces ≡ some at
unfolding remember_nonce
remember_keeps n nonce at now v d h t = ground (
  arith,
  lookup-insert nonce n now (delete_where (λ u. ltb (u + 2 * v.max_skew) now) v.nonces).1,
  lookup-delete_where (λ u. ltb (u + 2 * v.max_skew) now) n v.nonces d,
  eq_iff nonce n,
)

remember-Distinct :
    (nonce : String) (now : ℕ) (v : HmacValidator)
    → Distinct v.nonces
    → Distinct (remember_nonce nonce now v).1.nonces
unfolding remember_nonce
remember-Distinct nonce now v d = elim (Option-cases (lookup nonce v.nonces)) [
  | inl e ↦ rw (e, Distinct) (insert-Distinct nonce now _ (delete_where-Distinct _ v.nonces d))
  | inr (at, e) ↦ rw (e, Distinct) d
]

skew-remember :
    (nonce : String) (now : ℕ) (v : HmacValidator)
    → (remember_nonce nonce now v).1.max_skew ≡ v.max_skew
unfolding remember_nonce
skew-remember nonce now v = ground arith

-- A validator that may be asked: each nonce once, and a skew whose double is a duration.
pub record IsValidator (v : HmacValidator) : Type 0 where
  pub nonces : Distinct v.nonces
  pub skew : v.max_skew < 2 ^ 62

-- The last check of an accepted call passes on a nonce that has not been used.
fresh-remember :
    (nonce : String) (now : ℕ) (v : HmacValidator)
    → (remember_nonce nonce now v).0 ≡ true
    → lookup nonce (remember_nonce nonce now v).1.nonces ≡ some now
unfolding remember_nonce
fresh-remember nonce now v h = ground (
  arith,
  lookup-insert nonce nonce now (delete_where (λ u. ltb (u + 2 * v.max_skew) now) v.nonces).1,
  eq_iff nonce nonce,
)

seen-remember :
    (nonce : String) (at now : ℕ) (v : HmacValidator)
    → lookup nonce v.nonces ≡ some at
    → (remember_nonce nonce now v).0 ≡ false
unfolding remember_nonce
seen-remember nonce at now v h = rw (h, remember_nonce)

module _ (lib : Library) where
  validate_leaves :
      (r : Request) (now : ℕ) (v : HmacValidator)
      → ((validate lib r now v).1 ≡ v)
        ⊎ ((validate lib r now v).1 ≡ (remember_nonce r.nonce now v).1)
  unfolding validate validate_signed
  validate_leaves r now v = ground arith

  validate-IsValidator :
      (r : Request) (now : ℕ) (v : HmacValidator)
      → IsValidator v
      → IsValidator (validate lib r now v).1
  validate-IsValidator r now v h = elim (validate_leaves r now v) [
    | inl e ↦ subst IsValidator (sym e) h
    | inr e ↦ subst IsValidator (sym e) (record {
      nonces = remember-Distinct r.nonce now v h.nonces;
      skew = omega (arith, skew-remember r.nonce now v, h.skew);
    })
  ]

  validate_keeps :
      (n : String) (at : ℕ) (r : Request) (now : ℕ) (v : HmacValidator)
      → IsValidator v
      → lookup n v.nonces ≡ some at
      → now ≤ at + 2 * v.max_skew
      → (lookup n (validate lib r now v).1.nonces ≡ some at)
        × ((validate lib r now v).1.max_skew ≡ v.max_skew)
  validate_keeps n at r now v h e t = elim (validate_leaves r now v) [
    | inl same ↦ rw same (e, refl)
    | inr same ↦
        rw same (remember_keeps n r.nonce at now v h.nonces e t, skew-remember r.nonce now v)
  ]

  -- What an accepted call has passed.
  accepted :
      (r : Request) (t : ℤ) (now : ℕ) (v : HmacValidator)
      → lib.parse_int r.timestamp ≡ some t
      → (validate lib r now v).0 ≡ none
      → (outside_skew v.max_skew now t ≡ false)
        × ((remember_nonce r.nonce now v).0 ≡ true)
        × ((validate lib r now v).1 ≡ (remember_nonce r.nonce now v).1)
  unfolding validate validate_signed
  accepted r t now v p h = (ground arith, ground arith, ground arith)

-- The timestamp is less than 2 ^ 63 nanoseconds, some 292 years, ahead of the clock.
abbrev pub Representable : ℤ → ℕ → Type 0
Representable (pos n) now = n * 1_000_000_000 < now + 2 ^ 63
Representable (negsuc n) now = Unit

-- Two instants at which one timestamp passes are at most twice the skew apart.
window :
    (skew now later : ℕ) (t : ℤ)
    → skew < 2 ^ 62
    → now ≤ later
    → Representable t now
    → outside_skew skew now t ≡ false
    → outside_skew skew later t ≡ false
    → later ≤ now + 2 * skew
window skew now later (pos n) s o r h k =
    omega (arith, within_skew skew now n s r h, within_skew skew later n s (omega arith) k)
window skew now later (negsuc n) s o r h k =
    omega (arith, within_skew_early skew now n s h, within_skew_early skew later n s k)

-- Calls on the validator, each with the clock's reading, in the order in which they are served.
abbrev pub Served : Type 0
Served = Request × ℕ

abbrev pub AllBy : ℕ → List Served → Type 0
AllBy later [] = Unit
AllBy later ((r, now) ∷ cs) = (now ≤ later) × AllBy later cs

module _ (lib : Library) where
  unfoldable pub serve : HmacValidator → List Served → HmacValidator
  serve v [] = v
  serve v ((r, now) ∷ cs) = serve (validate lib r now v).1 cs

  serve-IsValidator :
      (v : HmacValidator) (cs : List Served)
      → IsValidator v
      → IsValidator (serve v cs) × ((serve v cs).max_skew ≡ v.max_skew)
  unfolding serve
  serve-IsValidator v [] h = (h, refl)
  serve-IsValidator v ((r, now) ∷ cs) h =
      let v' = (validate lib r now v).1 in
      let (valid, same) = serve-IsValidator v' cs (validate-IsValidator lib r now v h) in
      (valid, same ∙ skew-validate)
    where
      skew-validate : (validate lib r now v).1.max_skew ≡ v.max_skew
      skew-validate = elim (validate_leaves lib r now v) [
        | inl e ↦ ap (λ w. w.max_skew) e
        | inr e ↦ ap (λ w. w.max_skew) e ∙ skew-remember r.nonce now v
      ]

  serve_keeps :
      (n : String) (at later : ℕ) (v : HmacValidator) (cs : List Served)
      → IsValidator v
      → AllBy later cs
      → later ≤ at + 2 * v.max_skew
      → lookup n v.nonces ≡ some at
      → lookup n (serve v cs).nonces ≡ some at
  unfolding serve
  serve_keeps n at later v [] h b t e = e
  serve_keeps n at later v ((r, now) ∷ cs) h b t e =
      let (kept, same) = validate_keeps lib n at r now v h e (omega (arith, b.0)) in
      serve_keeps n at later (validate lib r now v).1 cs (validate-IsValidator lib r now v h) b.1
        (omega (arith, same)) kept

  -- Once a call is accepted, no later call with its nonce and its timestamp is, whatever calls are
  -- served between, if the clock does not run backwards and the timestamp is representable.
  pub replay_refused :
      (first again : Request) (t : ℤ) (now later : ℕ) (v : HmacValidator) (cs : List Served)
      → IsValidator v
      → lib.parse_int first.timestamp ≡ some t
      → lib.parse_int again.timestamp ≡ some t
      → Representable t now
      → again.nonce ≡ first.nonce
      → now ≤ later
      → AllBy later cs
      → (validate lib first now v).0 ≡ none
      → (validate lib again later (serve (validate lib first now v).1 cs)).0 ≢ none
  replay_refused first again t now later v cs h p q r same o b done success =
      let v' : HmacValidator = (validate lib first now v).1 in
      let valid : IsValidator v' = validate-IsValidator lib first now v h in
      let w : HmacValidator = serve v' cs in
      let (within, fresh, left) = accepted lib first t now v p done in
      let skew : v'.max_skew ≡ v.max_skew =
        ap (λ u. u.max_skew) left ∙ skew-remember first.nonce now v in
      let (valid', skew') = serve-IsValidator v' cs valid in
      let (within', fresh', left') = accepted lib again t later w q success in
      let near : later ≤ now + 2 * v.max_skew =
        window v.max_skew now later t h.skew o r within
          (subst (λ s. outside_skew s later t ≡ false) (skew' ∙ skew) within') in
      let used : lookup first.nonce v'.nonces ≡ some now =
        ap (λ u. lookup first.nonce u.nonces) left ∙ fresh-remember first.nonce now v fresh in
      let kept = serve_keeps first.nonce now later v' cs valid b (omega (arith, skew, near)) used in
      let seen : (remember_nonce again.nonce later w).0 ≡ false =
        seen-remember again.nonce now later w (ap (λ n. lookup n w.nonces) same ∙ kept) in
      ground arith
