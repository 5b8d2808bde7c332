-- ===== src/Observability.antt =====
-- internal/observability/metrics.go: the counters. Each is an atomic int64, which no run brings to its
-- bound, so a count is a number.
pub mod Closes
use my_pol_go_backend.Prelude.{
  List, [], ◌∷◌, ℕ, ◌+◌, String, Bool, Option, none, some, ◌==◌, if◌then◌else◌, leb, get_or,
  is_some, not, ◌&&◌,
}
use my_pol_go_backend.Prelude.Lists.{length}
use my_pol_go_backend.Prelude.Dict.{Dict, lookup, insert}

-- The gauges and counters that the parts below write.
pub record Metrics : Type 0 where
  pub active_connections : ℕ
  pub active_rooms : ℕ
  pub messages_in : ℕ
  pub incoming_bytes : ℕ
  pub dropped_ephemeral : ℕ
  pub dropped_ink : ℕ
  pub reliable_overflow : ℕ
  pub reliable_queue_depth_max : ℕ
  pub ephemeral_queue_depth_max : ℕ
  pub auth_refresh_accepted : ℕ
  pub auth_refresh_rejected : ℕ
  pub interest_updates_total : ℕ
  pub interest_events_total : ℕ
  pub interest_recipients_total : ℕ
  pub interest_filtered_total : ℕ
  pub closed_by_reason : Dict ℕ

abbrev pub new_metrics : Metrics
new_metrics = record {
  active_connections = 0;
  active_rooms = 0;
  messages_in = 0;
  incoming_bytes = 0;
  dropped_ephemeral = 0;
  dropped_ink = 0;
  reliable_overflow = 0;
  reliable_queue_depth_max = 0;
  ephemeral_queue_depth_max = 0;
  auth_refresh_accepted = 0;
  auth_refresh_rejected = 0;
  interest_updates_total = 0;
  interest_events_total = 0;
  interest_recipients_total = 0;
  interest_filtered_total = 0;
  closed_by_reason = [];
}

abbrev pub max_close_reasons : ℕ
max_close_reasons = 32

unfoldable pub observe_max : ℕ → ℕ → ℕ
observe_max value current = if leb value current then current else value

unfoldable pub observe_queue_depth : ℕ → ℕ → Metrics → Metrics
unfolding observe_max
observe_queue_depth reliable ephemeral m = record m {
  reliable_queue_depth_max = observe_max reliable m.reliable_queue_depth_max;
  ephemeral_queue_depth_max = observe_max ephemeral m.ephemeral_queue_depth_max;
}

-- The key that a close counts under.
unfoldable pub close_key : String → Dict ℕ → String
close_key reason counts =
    if not (is_some (lookup reason counts)) && leb max_close_reasons (length counts)
    then "other"
    else reason

-- `m[k]++`
abbrev pub add_one : String → Dict ℕ → Dict ℕ
add_one k d = insert k (get_or 0 (lookup k d) + 1) d

abbrev pub or_unknown : String → String
or_unknown reason = if reason == "" then "unknown" else reason

-- `before_detail` cuts a text at the first " (", by package strings.
module _ (before_detail : String → String) where
  unfoldable pub observe_close : String → Metrics → Metrics
  unfolding close_key
  observe_close reason m =
      let named = or_unknown (before_detail reason) in
      record m {
        closed_by_reason = add_one (close_key named m.closed_by_reason) m.closed_by_reason;
      }

  unfoldable pub observe_closes : List String → Metrics → Metrics
  unfolding observe_close
  observe_closes [] m = m
  observe_closes (r ∷ rs) m = observe_closes rs (observe_close r m)
