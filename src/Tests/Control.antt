-- ===== src/Tests/Control.antt =====
-- internal/security/hmac_request_validator.go, at concrete inputs.
use my_pol_go_backend.Prelude.{
  ℕ, ◌+◌, true, false, none, some, [], ◌∷◌, ◌≡◌, ◌≢◌, refl, arith, ◌==◌, if◌then◌else◌,
}
use my_pol_go_backend.Prelude.Int.{pos}
use my_pol_go_backend.Prelude.Dict.{lookup}
use my_pol_go_backend.Security.Hmac.{
  HmacValidator, Request, Library, outside_skew, validate, validate_signed, secret_for,
  remember_nonce,
}
use my_pol_go_backend.Security.Hmac.Drift.{far_future_within_skew}
use my_pol_go_backend.Security.Hmac.Replay.{replay_refused, serve}

-- A stand-in for the signature: the secret and the request, joined.
abbrev lib : Library
lib = record {
  hash_body = λ b. b;
  sign = λ s c. s;
  to_upper = λ m. m;
  format_int = λ n. "";
  parse_int = λ s. if s == "100" then some (pos 100) else none;
}

abbrev validator : HmacValidator
validator = record {
  current = record { key_id = "k"; secret = "sig" };
  previous = record { key_id = ""; secret = "" };
  max_skew = 30_000_000_000;
  nonces = [];
}

abbrev call : Request
call = record {
  method = "POST";
  path = "/internal/sessions/revoke";
  key_id = "k";
  nonce = "x";
  signature = "sig";
  timestamp = "100";
  body = "";
}

abbrev now : ℕ
now = 100_000_000_000

call_accepted : (validate lib call now validator).0 ≡ none
unfolding validate validate_signed secret_for outside_skew remember_nonce lookup
call_accepted = refl

replay_refused_example :
    (validate lib call
      (now + 1)
      (serve lib (validate lib call now validator).1 ((record call { nonce = "y" }, now) ∷ []))).0
    ≢ none
replay_refused_example =
    replay_refused lib call call (pos 100) now (now + 1) validator
      ((record call { nonce = "y" }, now) ∷ []) (record { nonces = tt; skew = omega arith }) refl
      refl (omega arith) refl (omega arith) (omega arith) call_accepted

far_future_within_skew_example : outside_skew 30_000_000_000 now (pos 10_000_000_000) ≡ false
far_future_within_skew_example =
    far_future_within_skew 30_000_000_000 now 10_000_000_000 (omega arith) (omega arith)
      (omega arith)

-- The greatest int64 wraps, and is refused.
wrapped_refused : outside_skew 30_000_000_000 now (pos 9_223_372_036_854_775_807) ≡ true
unfolding outside_skew
wrapped_refused = refl
