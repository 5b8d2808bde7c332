-- ===== src/HistoryPreviews.antt =====
-- internal/application/history_previews.go: the permits of history previews. The control channel puts
-- them in; a client names one. Each method holds the mutex from its first read of the map. Instants are
-- nanoseconds and an expiry is in milliseconds; a payload's length, its validity as JSON, the decoding
-- of a request and the encoding of an answer are package json's.
pub mod Permits
use my_pol_go_backend.Prelude.{
  ℕ, ◌+◌, ◌*◌, ◌/◌, String, Bool, true, false, not, ◌&&◌, ◌||◌, Option, none, some, ltb, leb, eqb,
  ◌==◌, if◌then◌else◌, is_some,
}
use my_pol_go_backend.Prelude.Lists.{length}
use my_pol_go_backend.Prelude.Dict.{Dict, lookup, insert, delete_where}
use my_pol_go_backend.Permission.{Permission, permission_edit, permission_owner}
use my_pol_go_backend.Connection.{Connection}

pub record HistoryPreviewPermit : Type 0 where
  pub id : String
  pub note_id : String
  pub user_id : String
  pub expires_at : ℕ
  pub payload : String

pub record PreviewRequest : Type 0 where
  pub permit_id : String
  pub request_id : String
  pub ordinal : ℕ
  pub redo : Bool

-- The answer's fields, `version` being 1.
pub record PreviewAnswer : Type 0 where
  pub request_id : String
  pub ordinal : ℕ
  pub expires_at : ℕ
  pub preview : String
  pub redo : Bool

pub data RegisterError : Type 0 where
  invalid_permit capacity_reached already_exists : RegisterError

-- `none` is a failure of decoding or encoding.
pub record PreviewLibrary : Type 0 where
  pub text_length : String → ℕ
  pub valid : String → Bool
  pub decode : String → Option PreviewRequest
  pub encode : PreviewAnswer → Option String

abbrev pub unix_ms : ℕ → ℕ
unix_ms now = now / 1000000

abbrev pub max_permits : ℕ
max_permits = 1024

unfoldable pub delete_expired : ℕ → Dict HistoryPreviewPermit → Dict HistoryPreviewPermit
delete_expired now d = (delete_where (λ p. leb p.expires_at (unix_ms now)) d).1

unfoldable pub revoke : String → String → Dict HistoryPreviewPermit → Dict HistoryPreviewPermit
revoke note_id user_id d =
    (delete_where (λ p. p.note_id == note_id && (user_id == "" || p.user_id == user_id)) d).1

module _ (lib : PreviewLibrary) where
  unfoldable pub is_invalid : HistoryPreviewPermit → ℕ → Bool
  is_invalid p now =
      p.id == ""
      || p.note_id == ""
      || p.user_id == ""
      || ltb (48 * 1024) (lib.text_length p.payload)
      || not (lib.valid p.payload)
      || leb p.expires_at (unix_ms now)
      || ltb (unix_ms (now + 30000000000)) p.expires_at

  -- `none` is no error. The expired permits go before the two tests on the map.
  unfoldable pub register :
      HistoryPreviewPermit
      → ℕ
      → Dict HistoryPreviewPermit
      → Option RegisterError × Dict HistoryPreviewPermit
  unfolding is_invalid delete_expired
  register p now d =
      let d' = delete_expired now d in
      if is_invalid p now
      then (some invalid_permit, d)
      else if leb max_permits (length d')
      then (some capacity_reached, d')
      else if is_some (lookup p.id d')
      then (some already_exists, d')
      else (none, insert p.id p d')

  abbrev pub answer_of : PreviewRequest → HistoryPreviewPermit → PreviewAnswer
  answer_of r p = record {
    request_id = r.request_id;
    ordinal = r.ordinal;
    expires_at = p.expires_at;
    preview = p.payload;
    redo = r.redo;
  }

  abbrev pub with_permit :
      Connection → PreviewRequest → ℕ → Option HistoryPreviewPermit → Option String
  with_permit c r now none = none
  with_permit c r now (some p) =
      if not (p.note_id == c.note_id)
        || not (p.user_id == c.user_id)
        || leb p.expires_at (unix_ms now)
      then none
      else lib.encode (answer_of r p)

  abbrev pub malformed : PreviewRequest → Bool
  malformed r =
      r.permit_id == ""
      || r.request_id == ""
      || ltb 64 (lib.text_length r.request_id)
      || eqb r.ordinal 0

  abbrev pub with_request :
      Connection → ℕ → Dict HistoryPreviewPermit → Option PreviewRequest → Option String
  with_request c now d none = none
  with_request c now d (some r) =
      if malformed r
      then none
      else if not (c.permission == permission_edit) && not (c.permission == permission_owner)
      then none
      else with_permit c r now (lookup r.permit_id d)

  -- The payload to relay, or `none` for a request that is not allowed.
  unfoldable pub resolve : Connection → String → ℕ → Dict HistoryPreviewPermit → Option String
  resolve c raw now d =
      if ltb 1024 (lib.text_length raw) then none else with_request c now d (lib.decode raw)
