-- ===== src/LiveTransport.antt =====
-- The realtime transport of the console: WebSocket, then server-sent events, then polling, with
-- retries and probes (src/lib/live-transport.ts). Each method is a function of the manager's state.
-- `connect`, `openWebSocket` and `handleRealtimeFailure` call one another; since the fallback goes
-- from the WebSocket to server-sent events only, each is defined over the ones it can still reach.
pub mod Types
pub mod Backoff
pub mod Messages
pub mod Effects
pub mod Callbacks
pub mod Protocol
pub mod Tests
use Types.{RealtimeMode, transport_mode, reconnect, probe, Browser, Moment, LiveTransportManager}
use Backoff.{get_backoff_delay}
use Effects.{emit_status, clear_timers, close_current, set_timer, new_channel}
use distributed_job_platform.Base.{
  ℕ, ◌+◌, String, true, false, ◌&&◌, none, some, if◌then◌else◌, ltb, is_some, or_text,
}
use distributed_job_platform.Models.Transport.{TransportMode, TransportConnectionState}

abbrev pub websocket_attempt_limit : ℕ
websocket_attempt_limit = 3

abbrev pub sse_attempt_limit : ℕ
sse_attempt_limit = 2

abbrev pub realtime_probe_delay_ms : ℕ
realtime_probe_delay_ms = 90_000

pub schedule_probe : Browser → Moment → String → ℕ → LiveTransportManager → LiveTransportManager
schedule_probe b t reason delay_ms m =
    if m.stopped
    then m
    else (let shown = emit_status (record m { next_retry_at = b.iso (t.now + delay_ms) }) in
        record (set_timer (t.now + delay_ms) (probe reason) shown) { probe_timer = some m.next_id })

pub enter_polling : Browser → Moment → String → LiveTransportManager → LiveTransportManager
enter_polling b t reason m =
    schedule_probe b t "Retrying realtime transport after polling fallback." realtime_probe_delay_ms
      (emit_status (record (close_current (clear_timers m)) {
        mode = TransportMode.polling;
        state = TransportConnectionState.polling;
        attempt = 0;
        degraded_reason = reason;
        last_failure_at = b.iso t.now;
        last_error = reason;
      }))

-- The part of `connect` before it opens a channel.
pub prepare : RealtimeMode → ℕ → String → LiveTransportManager → LiveTransportManager
prepare mode attempt reason m = emit_status (record (close_current (clear_timers m)) {
  mode = transport_mode mode;
  state = TransportConnectionState.connecting;
  attempt = attempt;
  degraded_reason = or_text reason m.degraded_reason;
})

pub open_event_source : Browser → Moment → ℕ → LiveTransportManager → LiveTransportManager
open_event_source b t attempt m =
    if b.has_event_source
    then (elim b.stream_url [
      | none ↦ enter_polling b t "Invalid SSE URL." m
      | some url ↦ record (new_channel RealtimeMode.sse attempt m) { event_source = some m.next_id }
    ])
    else enter_polling b t "Server-Sent Events are not supported in this browser." m

-- `connect("sse", …)`, which opens no WebSocket.
pub connect_sse : Browser → Moment → ℕ → String → LiveTransportManager → LiveTransportManager
connect_sse b t attempt reason m =
    if m.stopped
    then m
    else open_event_source b t attempt (prepare RealtimeMode.sse attempt reason m)

abbrev pub retry_base_ms : RealtimeMode → ℕ
retry_base_ms RealtimeMode.websocket = 900
retry_base_ms RealtimeMode.sse = 1500

abbrev pub retry_cap_ms : RealtimeMode → ℕ
retry_cap_ms RealtimeMode.websocket = 12_000
retry_cap_ms RealtimeMode.sse = 20_000

pub retry_delay : RealtimeMode → ℕ → ℕ → ℕ
retry_delay mode attempt draw =
    get_backoff_delay attempt (retry_base_ms mode) (retry_cap_ms mode) draw

pub schedule_retry :
    Browser → Moment → RealtimeMode → ℕ → String → LiveTransportManager → LiveTransportManager
schedule_retry b t mode attempt reason m =
    let due = t.now + retry_delay mode attempt t.draw in
    let shown = emit_status (record m {
      last_failure_at = b.iso t.now;
      next_retry_at = b.iso due;
      degraded_reason = reason;
      mode = transport_mode mode;
      state = TransportConnectionState.connecting;
      attempt = attempt;
    }) in
    record (set_timer due (reconnect mode attempt reason) shown) { retry_timer = some m.next_id }

-- `handleRealtimeFailure` past its guard, once the failure is recorded.
pub after_failure :
    Browser → Moment → RealtimeMode → ℕ → String → LiveTransportManager → LiveTransportManager
after_failure b t RealtimeMode.websocket attempt reason m =
    if ltb (attempt + 1) websocket_attempt_limit
    then schedule_retry b t RealtimeMode.websocket (attempt + 1) reason m
    else if b.has_event_source && is_some b.stream_url
    then connect_sse b t 0 "WebSocket upgrades failed. Falling back to SSE." m
    else enter_polling b t "WebSocket upgrades failed and SSE is unavailable." m
after_failure b t RealtimeMode.sse attempt reason m =
    if ltb (attempt + 1) sse_attempt_limit
    then schedule_retry b t RealtimeMode.sse (attempt + 1) reason m
    else enter_polling b t
        "Realtime stream unavailable. Using polling until a later probe succeeds." m

pub handle_realtime_failure :
    Browser → Moment → RealtimeMode → ℕ → String → LiveTransportManager → LiveTransportManager
handle_realtime_failure b t mode attempt reason m =
    if m.stopped
    then m
    else after_failure b t mode attempt reason
        (record m { last_failure_at = b.iso t.now; last_error = reason })

pub open_web_socket : Browser → Moment → ℕ → LiveTransportManager → LiveTransportManager
open_web_socket b t attempt m = elim b.socket_url [
  | none ↦ enter_polling b t "Invalid WebSocket URL." m
  | some url ↦
      if t.refuses
      then handle_realtime_failure b t RealtimeMode.websocket attempt
          "WebSocket initialization failed." m
      else record (new_channel RealtimeMode.websocket attempt m) { socket = some m.next_id }
]

pub connect_websocket : Browser → Moment → ℕ → String → LiveTransportManager → LiveTransportManager
connect_websocket b t attempt reason m =
    if m.stopped
    then m
    else open_web_socket b t attempt (prepare RealtimeMode.websocket attempt reason m)

pub connect :
    Browser → Moment → RealtimeMode → ℕ → String → LiveTransportManager → LiveTransportManager
connect b t RealtimeMode.websocket = connect_websocket b t
connect b t RealtimeMode.sse = connect_sse b t

-- The start timer runs the same code as a retry, with no reason.
pub start : Moment → LiveTransportManager → LiveTransportManager
start t m =
    let ready = clear_timers (record m { stopped = false }) in
    record (set_timer t.now (reconnect RealtimeMode.websocket 0 "") ready) {
      retry_timer = some m.next_id;
    }

pub stop : TransportConnectionState → LiveTransportManager → LiveTransportManager
stop next m = emit_status (record (close_current (clear_timers (record m { stopped = true }))) {
  state = next;
  attempt = 0;
  next_retry_at = "";
})

pub retry_now : Browser → Moment → LiveTransportManager → LiveTransportManager
retry_now b t m =
    if m.stopped
    then m
    else connect_websocket b t 0 "Manual reconnect requested."
        (record (clear_timers m) { degraded_reason = ""; last_error = ""; next_retry_at = "" })
