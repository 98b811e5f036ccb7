-- ===== src/LiveTransport/Callbacks.antt =====
-- The handlers that the manager gives to the browser, and the delivery of one event to it
-- (src/lib/live-transport.ts, the `socket.on…` and `source.on…` handlers and the timers' tasks).
use distributed_job_platform.Base.{
  ℕ, String, Bool, true, false, ◌&&◌, not, Option, none, some, List, [], ◌∷◌, if◌then◌else◌, ◌==◌,
  find, append, or_text, trim, decimal,
}
use distributed_job_platform.Models.Transport.{TransportConnectionState}
use distributed_job_platform.LiveTransport.Types.{
  RealtimeMode, transport_mode, Task, reconnect, probe, Phase, Channel, Payload, event, malformed,
  Browser, Moment, LiveTransportManager, Event, fires, opens, messages, errors, closes, retries_now,
  stops,
}
use distributed_job_platform.LiveTransport.Messages.{parse_transport_event}
use distributed_job_platform.LiveTransport.Effects.{emit_status, cancel, update}
use distributed_job_platform.LiveTransport.{
  connect, schedule_probe, realtime_probe_delay_ms, handle_realtime_failure, retry_now, stop,
}

-- `this.socket === socket && !this.stopped`, for the handlers of channel `i`.
abbrev pub same_channel : Option ℕ → ℕ → Bool
same_channel none i = false
same_channel (some j) i = j == i

abbrev pub current : RealtimeMode → LiveTransportManager → Option ℕ
current RealtimeMode.websocket m = m.socket
current RealtimeMode.sse m = m.event_source

unfoldable pub is_current : RealtimeMode → ℕ → LiveTransportManager → Bool
is_current kind i m = same_channel (current kind m) i && not m.stopped

-- The fields that both `onopen` handlers set.
unfoldable pub connected : RealtimeMode → LiveTransportManager → LiveTransportManager
connected kind m = emit_status (record m {
  mode = transport_mode kind;
  state = TransportConnectionState.live;
  attempt = 0;
  degraded_reason = "";
  last_error = "";
  next_retry_at = "";
})

unfoldable pub on_socket_open : ℕ → Channel → LiveTransportManager → LiveTransportManager
on_socket_open i c m =
    connected RealtimeMode.websocket
      (record m { channel = update m.channel i (record c { opened = true }) })

unfoldable pub on_source_open : Browser → Moment → LiveTransportManager → LiveTransportManager
on_source_open b t m =
    schedule_probe b t "Probing WebSocket recovery after SSE fallback." realtime_probe_delay_ms
      (connected RealtimeMode.sse m)

-- Both `onmessage` handlers.
unfoldable pub on_message : Browser → Moment → Payload → LiveTransportManager → LiveTransportManager
on_message b t payload m = elim (parse_transport_event b payload) [
  | none ↦ record m { outputs = malformed ∷ m.outputs }
  | some e ↦ emit_status (record m { last_message_at = b.iso t.now; outputs = event e ∷ m.outputs })
]

unfoldable pub on_socket_error : LiveTransportManager → LiveTransportManager
on_socket_error m = emit_status (record m { last_error = "WebSocket transport error." })

unfoldable pub code_text : ℕ → String
code_text code = if code == 0 then "unknown" else decimal code

unfoldable pub close_reason : Bool → ℕ → String → String
close_reason opened code reason =
    let said = or_text (trim reason) (append "WebSocket closed (" (append (code_text code) ").")) in
    if opened then said else append "WebSocket upgrade failed: " said

unfoldable pub on_socket_close :
    Browser → Moment → Channel → ℕ → String → LiveTransportManager → LiveTransportManager
on_socket_close b t c code reason m =
    handle_realtime_failure b t RealtimeMode.websocket c.tried (close_reason c.opened code reason)
      (record m { socket = none })

unfoldable pub on_source_error :
    Browser → Moment → ℕ → Channel → LiveTransportManager → LiveTransportManager
on_source_error b t i c m =
    handle_realtime_failure b t RealtimeMode.sse c.tried "SSE stream disconnected." (record m {
      channel = update m.channel i (record c { phase = Phase.closed });
      event_source = none;
    })

-- The browser changes a channel's phase, and then runs the handler that is set.
abbrev pub set_phase : ℕ → Channel → Phase → LiveTransportManager → LiveTransportManager
set_phase i c p m = record m { channel = update m.channel i (record c { phase = p }) }

-- A socket or source opens once; a socket that was abandoned while it connected closes itself.
unfoldable pub deliver_open :
    Browser
    → Moment
    → ℕ
    → RealtimeMode
    → Phase
    → Channel
    → LiveTransportManager
    → LiveTransportManager
deliver_open b t i RealtimeMode.websocket Phase.connecting c m =
    if is_current RealtimeMode.websocket i m
    then on_socket_open i (record c { phase = Phase.open_now }) m
    else set_phase i c Phase.open_now m
deliver_open b t i RealtimeMode.sse Phase.connecting c m =
    if is_current RealtimeMode.sse i m
    then on_source_open b t (set_phase i c Phase.open_now m)
    else set_phase i c Phase.open_now m
deliver_open b t i RealtimeMode.websocket Phase.deferred c m = set_phase i c Phase.closed m
deliver_open b t i _ _ c m = m

unfoldable pub deliver_message :
    Browser
    → Moment
    → ℕ
    → Payload
    → RealtimeMode
    → Phase
    → LiveTransportManager
    → LiveTransportManager
deliver_message b t i payload kind Phase.open_now m =
    if is_current kind i m then on_message b t payload m else m
deliver_message b t i payload kind _ m = m

unfoldable pub deliver_error :
    Browser
    → Moment
    → ℕ
    → RealtimeMode
    → Phase
    → Channel
    → LiveTransportManager
    → LiveTransportManager
deliver_error b t i kind Phase.closed c m = m
deliver_error b t i RealtimeMode.websocket _ c m =
    if is_current RealtimeMode.websocket i m then on_socket_error m else m
deliver_error b t i RealtimeMode.sse _ c m =
    if is_current RealtimeMode.sse i m then on_source_error b t i c m else m

unfoldable pub deliver_close :
    Browser
    → Moment
    → ℕ
    → ℕ
    → String
    → RealtimeMode
    → Phase
    → Channel
    → LiveTransportManager
    → LiveTransportManager
deliver_close b t i code reason RealtimeMode.sse _ c m = m
deliver_close b t i code reason RealtimeMode.websocket Phase.closed c m = m
deliver_close b t i code reason RealtimeMode.websocket _ c m =
    if is_current RealtimeMode.websocket i m
    then on_socket_close b t c code reason (set_phase i c Phase.closed m)
    else set_phase i c Phase.closed m

unfoldable pub run_task : Browser → Moment → Task → LiveTransportManager → LiveTransportManager
run_task b t (reconnect mode attempt reason) m =
    connect b t mode attempt reason (record m { retry_timer = none })
run_task b t (probe reason) m =
    connect b t RealtimeMode.websocket 0 reason
      (record m { probe_timer = none; next_retry_at = "" })

unfoldable pub fire : Browser → Moment → ℕ → LiveTransportManager → LiveTransportManager
fire b t i m = elim (find (λ x. x.id == i) m.timers) [
  | none ↦ m
  | some x ↦ run_task b t x.task (record m { timers = cancel (some i) m.timers })
]

-- An event of a channel that does not exist is none.
unfoldable pub on_channel :
    ℕ
    → (Channel → LiveTransportManager → LiveTransportManager)
    → LiveTransportManager
    → LiveTransportManager
on_channel i f m = elim (m.channel i) [ none ↦ m | some c ↦ f c m ]

unfoldable pub handle : Browser → Moment → Event → LiveTransportManager → LiveTransportManager
handle b t (fires i) = fire b t i
handle b t (opens i) = on_channel i (λ c. deliver_open b t i c.kind c.phase c)
handle b t (messages i p) = on_channel i (λ c. deliver_message b t i p c.kind c.phase)
handle b t (errors i) = on_channel i (λ c. deliver_error b t i c.kind c.phase c)
handle b t (closes i code reason) =
    on_channel i (λ c. deliver_close b t i code reason c.kind c.phase c)
handle b t retries_now = retry_now b t
handle b t (stops next) = stop next

-- A history of the manager, oldest event first.
unfoldable pub run : Browser → List (Moment × Event) → LiveTransportManager → LiveTransportManager
run b [] m = m
run b ((t, e) ∷ es) m = run b es (handle b t e m)
