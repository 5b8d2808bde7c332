-- ===== src/Interest/Service.antt =====
-- internal/application/interest_service.go: a client's report of its viewport, under the connection's
-- identity. `none` is a service that is not configured.
use my_pol_go_backend.Prelude.{
  ℕ, String, Bool, true, not, ◌||◌, Option, none, some, ◌==◌, if◌then◌else◌, get_or,
}
use my_pol_go_backend.Prelude.Int.{ℤ}
use my_pol_go_backend.Connection.{Connection}
use my_pol_go_backend.Interest.{Interest, PreviewPreferences, EventLocation, is_positive}
use my_pol_go_backend.Interest.Index.{
  MemoryInterestIndex, update, remove_connection, interested, allows_preview, tracked,
}

-- An omitted property is a nil pointer.
pub record PreviewPreferencesPayload : Type 0 where
  pub transform : Option Bool
  pub ink : Option Bool
  pub cursor : Option Bool
  pub laser : Option Bool

pub record InterestUpdatePayload : Type 0 where
  pub page_id : String
  pub x : ℤ
  pub y : ℤ
  pub width : ℤ
  pub height : ℤ
  pub preview : Option PreviewPreferencesPayload

unfoldable pub to_domain : Option PreviewPreferencesPayload → Option PreviewPreferences
to_domain none = none
to_domain (some p) = some (record {
  transform = get_or true p.transform;
  ink = get_or true p.ink;
  cursor = get_or true p.cursor;
  laser = get_or true p.laser;
})

unfoldable pub interest_of : Connection → InterestUpdatePayload → Interest
unfolding to_domain
interest_of c p = record {
  connection_id = c.id;
  note_id = c.note_id;
  page_id = p.page_id;
  x = p.x;
  y = p.y;
  width = p.width;
  height = p.height;
  preview = to_domain p.preview;
}

abbrev record_interest :
    Connection → Option InterestUpdatePayload → MemoryInterestIndex → MemoryInterestIndex
record_interest c none idx = remove_connection c.id idx
record_interest c (some p) idx =
    if p.page_id == "" || not (is_positive p.width) || not (is_positive p.height)
    then remove_connection c.id idx
    else update (interest_of c p) idx

-- The payload is what JSON decoding gives, `none` being a failure.
unfoldable pub update_interest :
    Connection
    → Option InterestUpdatePayload
    → Option MemoryInterestIndex
    → Option MemoryInterestIndex
unfolding interest_of
update_interest c p none = none
update_interest c p (some idx) = some (record_interest c p idx)

unfoldable pub remove_interest : String → Option MemoryInterestIndex → Option MemoryInterestIndex
remove_interest connection_id none = none
remove_interest connection_id (some idx) = some (remove_connection connection_id idx)

unfoldable pub is_interested : String → EventLocation → Option MemoryInterestIndex → Bool
is_interested connection_id location none = true
is_interested connection_id location (some idx) = interested connection_id location idx

unfoldable pub does_allow_preview : String → String → Option MemoryInterestIndex → Bool
does_allow_preview connection_id event none = true
does_allow_preview connection_id event (some idx) = allows_preview connection_id event idx

unfoldable pub interest_count : Option MemoryInterestIndex → ℕ
interest_count none = 0
interest_count (some idx) = tracked idx
