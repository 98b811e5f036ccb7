-- ===== src/LiveData.antt =====
-- What the live data hook shows of the connection (src/hooks/useDashboardLiveData.ts,
-- `transportMode`, `liveHealth`), and the label of a mode (src/lib/live-transport.ts,
-- `formatTransportMode`). An instant that is not there is the empty text.
pub mod Batching
pub mod Linking
pub mod Polling
pub mod Inspections
pub mod Refresh
pub mod Tests
pub mod Runs
use distributed_job_platform.Base.{
  ℕ, String, Bool, true, false, not, ◌&&◌, ◌==◌, ltb, truthy, Option, none, some, if◌then◌else◌,
}
use distributed_job_platform.Models.Transport.{TransportMode, TransportConnectionState, LiveHealth}

pub record Connection : Type 0 where
  pub live_mode : Bool
  pub live_updates : Bool
  pub resolved_base_url : Option String
  pub poll_interval_ms : ℕ
  pub consecutive_failures : ℕ
  pub last_successful_at : String
  pub status_mode : TransportMode
  pub status_state : TransportConnectionState

abbrev pub has_url : Option String → Bool
has_url none = false
has_url (some url) = truthy url

abbrev pub is_live : TransportConnectionState → Bool
is_live TransportConnectionState.live = true
is_live _ = false

abbrev pub is_connecting : TransportConnectionState → Bool
is_connecting TransportConnectionState.connecting = true
is_connecting _ = false

abbrev pub is_websocket : TransportMode → Bool
is_websocket TransportMode.websocket = true
is_websocket _ = false

abbrev pub is_sse : TransportMode → Bool
is_sse TransportMode.sse = true
is_sse _ = false

abbrev pub is_polling : TransportMode → Bool
is_polling TransportMode.polling = true
is_polling _ = false

unfoldable pub transport_mode_of : Connection → TransportMode
transport_mode_of x =
    if not x.live_mode
    then TransportMode.demo
    else if not (has_url x.resolved_base_url)
    then TransportMode.offline
    else if x.live_updates && (is_websocket x.status_mode && is_live x.status_state)
    then TransportMode.websocket
    else if x.live_updates && (is_sse x.status_mode && is_live x.status_state)
    then TransportMode.sse
    else if ltb 0 x.poll_interval_ms
    then (if ltb 0 x.consecutive_failures && not (truthy x.last_successful_at)
        then TransportMode.offline
        else TransportMode.polling)
    else if ltb 0 x.consecutive_failures
    then TransportMode.degraded
    else TransportMode.offline

unfoldable pub live_health : Connection → LiveHealth
live_health x =
    if not x.live_mode
    then LiveHealth.demo
    else if not (has_url x.resolved_base_url)
    then LiveHealth.offline
    else if x.poll_interval_ms == 0 && not x.live_updates
    then LiveHealth.paused
    else if ltb 0 x.consecutive_failures
    then (if truthy x.last_successful_at then LiveHealth.degraded else LiveHealth.offline)
    else if x.live_updates && (is_connecting x.status_state && truthy x.last_successful_at)
    then LiveHealth.reconnecting
    else if x.live_updates && is_polling (transport_mode_of x)
    then LiveHealth.degraded
    else LiveHealth.live

pub format_transport_mode : TransportMode → String
format_transport_mode TransportMode.websocket = "Live (WebSocket)"
format_transport_mode TransportMode.sse = "Live (SSE)"
format_transport_mode TransportMode.polling = "Polling"
format_transport_mode TransportMode.degraded = "Degraded"
format_transport_mode TransportMode.offline = "Offline"
format_transport_mode TransportMode.demo = "Demo"
