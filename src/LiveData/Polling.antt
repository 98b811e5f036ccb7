-- ===== src/LiveData/Polling.antt =====
-- The loop of the polls and what the hook derives of the connection (src/hooks/useDashboardLiveData.ts).
pub mod Pace
use distributed_job_platform.Base.{
  ℕ, String, Bool, true, false, not, ◌&&◌, ◌||◌, Option, none, some, is_some, max, truthy, or_text,
  append, str_eq, ◌==◌, if◌then◌else◌,
}
use distributed_job_platform.Models.Transport.{
  TransportMode, TransportConnectionState, TransportStatus, LiveHealth,
}
use distributed_job_platform.LiveRefresh.Delays.{get_next_poll_delay}
use distributed_job_platform.ToastQueue.{ToastInput, success}
use distributed_job_platform.LiveData.{has_url, is_websocket, is_sse, format_transport_mode}

abbrev pub min_polling_fallback_ms : ℕ
min_polling_fallback_ms = 15000

abbrev pub is_realtime : TransportMode → Bool
is_realtime mode = is_websocket mode || is_sse mode

-- What the loop reads when it schedules the next poll.
pub record Pacing : Type 0 where
  pub poll_interval_ms : ℕ
  pub consecutive_failures : ℕ
  pub live_updates : Bool
  pub mode : TransportMode

-- The loop's state: the delay that is shown, the timer, and whether the effect was cleaned up.
pub record Loop : Type 0 where
  pub current_poll_delay_ms : ℕ
  pub timer : Option ℕ
  pub cancelled : Bool

abbrev pub lengthened : Pacing → ℕ → ℕ
lengthened p base_delay =
    if p.live_updates && is_realtime p.mode
    then base_delay
    else max base_delay min_polling_fallback_ms

abbrev set_poll_timer : Pacing → Option ℕ → Loop → Loop
set_poll_timer p none s = record s { current_poll_delay_ms = 0 }
set_poll_timer p (some base_delay) s = record s {
  current_poll_delay_ms = lengthened p base_delay;
  timer = some (lengthened p base_delay);
}

-- The timer is named by its delay.
unfoldable pub schedule_next : Pacing → Loop → Loop
schedule_next p s =
    set_poll_timer p (get_next_poll_delay p.poll_interval_ms p.consecutive_failures) s

-- `run` once the refresh has ended.
unfoldable pub after_poll : Pacing → Bool → Option String → Loop → Loop
after_poll p is_visible resolved_base_url s =
    if s.cancelled || (not is_visible || not (has_url resolved_base_url))
    then s
    else schedule_next p s

abbrev pub is_troubled : LiveHealth → Bool
is_troubled LiveHealth.degraded = true
is_troubled LiveHealth.offline = true
is_troubled LiveHealth.reconnecting = true
is_troubled _ = false

-- The effect that keeps the instant since when the connection is in trouble.
unfoldable pub next_degraded_since : LiveHealth → String → String → String → String
next_degraded_since health last_failure_at now current =
    if is_troubled health then or_text current (or_text last_failure_at now) else ""

abbrev pub is_live_health : LiveHealth → Bool
is_live_health LiveHealth.live = true
is_live_health _ = false

abbrev mode_code : TransportMode → ℕ
mode_code TransportMode.websocket = 0
mode_code TransportMode.sse = 1
mode_code TransportMode.polling = 2
mode_code TransportMode.degraded = 3
mode_code TransportMode.offline = 4
mode_code TransportMode.demo = 5

abbrev state_code : TransportConnectionState → ℕ
state_code TransportConnectionState.idle = 0
state_code TransportConnectionState.connecting = 1
state_code TransportConnectionState.live = 2
state_code TransportConnectionState.polling = 3
state_code TransportConnectionState.degraded = 4
state_code TransportConnectionState.offline = 5
state_code TransportConnectionState.paused = 6
state_code TransportConnectionState.demo = 7

abbrev pub same_mode : TransportMode → TransportMode → Bool
same_mode a b = mode_code a == mode_code b

abbrev pub same_state : TransportConnectionState → TransportConnectionState → Bool
same_state a b = state_code a == state_code b

abbrev health_code : LiveHealth → ℕ
health_code LiveHealth.live = 0
health_code LiveHealth.degraded = 1
health_code LiveHealth.reconnecting = 2
health_code LiveHealth.offline = 3
health_code LiveHealth.paused = 4
health_code LiveHealth.demo = 5

-- The effect that tells of a recovery, by the health and the mode of the rendering before.
unfoldable pub recovery_toast :
    LiveHealth → TransportMode → LiveHealth → TransportMode → String → Option ToastInput
recovery_toast previous_health previous_mode health mode last_successful_at =
    if is_troubled previous_health
      && (is_realtime mode && (is_live_health health && truthy last_successful_at))
      && (not (same_mode previous_mode mode)
          || not (health_code previous_health == health_code health))
    then some (record {
      title = "Realtime transport recovered";
      description = some (
          append (format_transport_mode mode)
            " is healthy again and the dashboard kept its last good data.");
      tone = success;
      key = some "live-recovered";
      cooldown_ms = some 10000;
      duration_ms = none;
    })
    else none

unfoldable pub same_transport_status : TransportStatus → TransportStatus → Bool
same_transport_status left right =
    same_mode left.mode right.mode
    && (same_state left.state right.state
        && (left.attempt == right.attempt
            && (str_eq left.last_message_at right.last_message_at
                && (str_eq left.last_failure_at right.last_failure_at
                    && (str_eq left.last_error right.last_error
                        && (str_eq left.degraded_reason right.degraded_reason
                            && str_eq left.next_retry_at right.next_retry_at))))))
