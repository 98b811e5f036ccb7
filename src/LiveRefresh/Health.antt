-- ===== src/LiveRefresh/Health.antt =====
-- The health of the live connection (src/lib/live-refresh.ts, `resolveLiveHealth`).
use distributed_job_platform.Base.{
  ℕ, String, Bool, false, not, ◌&&◌, ◌==◌, ltb, Option, none, some, truthy, if◌then◌else◌,
}
use distributed_job_platform.Models.Transport.{
  LiveHealth, live, degraded, reconnecting, offline, paused, demo,
}

pub record HealthInput : Type 0 where
  pub live_mode : Bool
  pub poll_interval_ms : ℕ
  pub live_updates : Bool
  pub has_live_data : Bool
  pub resolved_base_url : Option String
  pub consecutive_failures : ℕ
  pub socket_connected : Bool
  pub socket_desired : Bool

-- An address that is missing or empty is falsy.
abbrev pub is_url : Option String → Bool
is_url none = false
is_url (some url) = truthy url

unfoldable pub resolve_live_health : HealthInput → LiveHealth
resolve_live_health x =
    if not x.live_mode
    then demo
    else if not (is_url x.resolved_base_url)
    then offline
    else if x.poll_interval_ms == 0 && not x.live_updates
    then paused
    else if ltb 0 x.consecutive_failures
    then (if x.has_live_data then degraded else offline)
    else if x.socket_desired && not x.socket_connected && x.has_live_data
    then reconnecting
    else live
