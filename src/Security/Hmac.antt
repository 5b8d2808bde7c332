-- ===== src/Security/Hmac.antt =====
-- internal/security/hmac_request_validator.go: signed control calls, each accepted once. Instants
-- are nanoseconds since the Unix epoch; a `time.Duration` is an int64, so a difference of instants
-- saturates and a negation wraps. The skew is below 2 ^ 62, so twice it is a duration. The hash, the
-- signature and the text functions of Go's library are the parameter `Library`; `parse_int` gives
-- an int64.
pub mod Drift
pub mod Replay
use my_pol_go_backend.Prelude.{
  ℕ, zero, suc, ◌+◌, ◌-◌, ◌*◌, ◌^◌, min, String, Bool, true, false, not, ◌&&◌, ◌||◌, Option, none,
  some, List, [], ◌∷◌, ltb, leb, eqb, ◌==◌, if◌then◌else◌,
}
use Prim.Native.String.{◌++◌}
use my_pol_go_backend.Prelude.Int.{ℤ, pos, negsuc}
use my_pol_go_backend.Prelude.Dict.{Dict, lookup, insert, delete_where}

pub record HmacKey : Type 0 where
  pub key_id : String
  pub secret : String

pub record HmacValidator : Type 0 where
  pub current : HmacKey
  pub previous : HmacKey
  pub max_skew : ℕ
  -- The instant at which each nonce was used.
  pub nonces : Dict ℕ

unfoldable pub new_hmac_validator : HmacKey → HmacKey → ℕ → HmacValidator
new_hmac_validator current previous max_skew = record {
  current = current;
  previous = previous;
  max_skew = max_skew;
  nonces = [];
}

unfoldable pub configured : HmacValidator → Bool
configured v = not (v.current.key_id == "") && not (v.current.secret == "")

-- What is read of an HTTP request; a header that is absent is "".
pub record Request : Type 0 where
  pub method : String
  pub path : String
  pub key_id : String
  pub nonce : String
  pub signature : String
  pub timestamp : String
  pub body : String

pub data HmacError : Type 0 where
  missing_signature_headers unknown_key_id clock_skew replayed_nonce bad_signature : HmacError

-- SHA-256 in hex, HMAC-SHA256 in hex, and `strings.ToUpper`, `strconv.FormatInt`, `strconv.ParseInt`.
pub record Library : Type 0 where
  pub hash_body : String → String
  pub sign : (secret canonical : String) → String
  pub to_upper : String → String
  pub format_int : ℤ → String
  pub parse_int : String → Option ℤ

abbrev pub join_lines : List String → String
join_lines [] = ""
join_lines (x ∷ []) = x
join_lines (x ∷ y ∷ ys) = x ++ ("\n" ++ join_lines (y ∷ ys))

abbrev pub max_duration : ℕ
max_duration = 2 ^ 63 - 1

-- The seconds from the year 1 to the Unix epoch, which `time.Unix` adds to an int64.
abbrev pub unix_to_internal : ℕ
unix_to_internal = 62_135_596_800

-- `time.Unix(seconds, 0)` of an int64: where the sum wraps, the instant is 2 ^ 64 seconds early.
unfoldable pub unix_time : ℤ → ℤ
unix_time (pos n) =
    if ltb (n + unix_to_internal) (2 ^ 63)
    then pos (n * 1_000_000_000)
    else negsuc ((2 ^ 64 - n) * 1_000_000_000 - 1)
unix_time (negsuc n) = negsuc ((n + 1) * 1_000_000_000 - 1)

-- `now.Sub(t)`, which stops at the ends of the int64 range.
unfoldable pub sub_time : ℕ → ℤ → ℤ
sub_time now (pos t) =
    if leb t now then pos (min (now - t) max_duration) else negsuc (min (t - now - 1) max_duration)
sub_time now (negsuc t) = pos (min (now + t + 1) max_duration)

-- `-d` in int64: the least duration is its own negation.
unfoldable pub neg_duration : ℤ → ℤ
neg_duration (pos zero) = pos zero
neg_duration (pos (suc n)) = negsuc n
neg_duration (negsuc n) = if eqb n max_duration then negsuc n else pos (n + 1)

-- `if drift < 0 { drift = -drift }`
unfoldable pub abs_duration : ℤ → ℤ
unfolding neg_duration
abs_duration (pos n) = pos n
abs_duration (negsuc n) = neg_duration (negsuc n)

abbrev longer_than : ℤ → ℕ → Bool
longer_than (pos n) d = ltb d n
longer_than (negsuc n) d = false

-- `drift > v.maxSkew`
unfoldable pub outside_skew : ℕ → ℕ → ℤ → Bool
unfolding unix_time sub_time abs_duration
outside_skew max_skew now timestamp =
    longer_than (abs_duration (sub_time now (unix_time timestamp))) max_skew

unfoldable pub secret_for : String → HmacValidator → Option String
secret_for key_id v =
    if not (v.current.key_id == "") && key_id == v.current.key_id
    then some v.current.secret
    else if not (v.previous.key_id == "") && key_id == v.previous.key_id
    then some v.previous.secret
    else none

-- A nonce is forgotten once its use is more than twice the skew ago; `true` is a new nonce.
unfoldable pub remember_nonce : String → ℕ → HmacValidator → Bool × HmacValidator
remember_nonce nonce now v = elim (lookup nonce v.nonces) [
  | some at ↦ (false, v)
  | none ↦ (
    true,
    record v {
      nonces = insert nonce now (delete_where (λ at. ltb (at + 2 * v.max_skew) now) v.nonces).1;
    },
  )
]

module _ (lib : Library) where
  unfoldable pub canonical_request : String → String → ℤ → String → String → String
  canonical_request method path timestamp nonce body =
      join_lines
        (lib.to_upper method ∷ path ∷ lib.format_int timestamp ∷ nonce ∷ lib.hash_body body ∷ [])

  -- The checks after the secret and the timestamp are known; `none` is success.
  unfoldable pub validate_signed :
      Request → ℕ → String → ℤ → HmacValidator → Option HmacError × HmacValidator
  unfolding canonical_request
  validate_signed r now secret timestamp v =
      if outside_skew v.max_skew now timestamp
      then (some clock_skew, v)
      else if not (
          lib.sign secret (canonical_request r.method r.path timestamp r.nonce r.body)
          == r.signature)
      then (some bad_signature, v)
      else (let (fresh, v') = remember_nonce r.nonce now v in
          if fresh then (none, v') else (some replayed_nonce, v'))

  abbrev with_timestamp :
      Request → ℕ → String → Option ℤ → HmacValidator → Option HmacError × HmacValidator
  with_timestamp r now secret none v = (some clock_skew, v)
  with_timestamp r now secret (some t) v = validate_signed r now secret t v

  abbrev with_secret :
      Request → ℕ → Option String → HmacValidator → Option HmacError × HmacValidator
  with_secret r now none v = (some unknown_key_id, v)
  with_secret r now (some secret) v = with_timestamp r now secret (lib.parse_int r.timestamp) v

  unfoldable pub validate : Request → ℕ → HmacValidator → Option HmacError × HmacValidator
  validate r now v =
      if r.key_id == "" || r.nonce == "" || r.signature == "" || r.timestamp == ""
      then (some missing_signature_headers, v)
      else with_secret r now (secret_for r.key_id v) v
