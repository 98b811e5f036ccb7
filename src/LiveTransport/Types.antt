-- ===== src/LiveTransport/Types.antt =====
-- The state of the transport manager, the browser objects that it holds, and what reaches it
-- (src/lib/live-transport.ts, lines 1 to 35). Instants are milliseconds; sockets, event sources and
-- timers are the numbers that the browser names them by.
use distributed_job_platform.Base.{ℕ, String, Bool, Option, List}
use distributed_job_platform.Models.Transport.{
  TransportMode, TransportConnectionState, TransportStatus,
}
use distributed_job_platform.Json.{Json}

pub data RealtimeMode : Type 0 where
  websocket sse : RealtimeMode

abbrev pub transport_mode : RealtimeMode → TransportMode
transport_mode RealtimeMode.websocket = TransportMode.websocket
transport_mode RealtimeMode.sse = TransportMode.sse

-- What a pending timer runs: the retry of a connection, or a probe for the WebSocket.
pub data Task : Type 0 where
  reconnect : RealtimeMode → ℕ → String → Task
  probe : String → Task

pub record Timer : Type 0 where
  pub id : ℕ
  pub due : ℕ
  pub task : Task

-- `readyState`, with `deferred` for a connecting socket that closes itself once it opens.
pub data Phase : Type 0 where
  connecting open_now deferred closed : Phase

-- A socket or an event source, with the variables that its handlers close over.
pub record Channel : Type 0 where
  pub kind : RealtimeMode
  pub tried : ℕ
  pub opened : Bool
  pub phase : Phase

-- The payload of a message: a text, an ArrayBuffer by its bytes, or another object by its text.
pub data Payload : Type 0 where
  text : String → Payload
  buffer : List ℕ → Payload
  other : String → Payload

pub data Output : Type 0 where
  status : TransportStatus → Output
  event : Json → Output
  malformed : Output

-- What the manager's options and the browser give: the URLs that `buildSocketUrl` and
-- `buildStreamUrl` make of the options, whether `EventSource` exists, and the platform's functions.
pub record Browser : Type 0 where
  pub socket_url : Option String
  pub stream_url : Option String
  pub has_event_source : Bool
  pub iso : ℕ → String
  pub json_parse : String → Option Json
  pub decode : List ℕ → String

-- What one turn of the event loop sees: the time, the random number draw / 2 ^ 53, and whether the
-- `WebSocket` constructor throws.
pub record Moment : Type 0 where
  pub now : ℕ
  pub draw : ℕ
  pub refuses : Bool

-- The fields of the class, then the browser's side: pending timers, channels, ids, callbacks made.
pub record LiveTransportManager : Type 0 where
  pub mode : TransportMode
  pub state : TransportConnectionState
  pub attempt : ℕ
  pub last_message_at : String
  pub last_failure_at : String
  pub last_error : String
  pub degraded_reason : String
  pub next_retry_at : String
  pub stopped : Bool
  pub retry_timer : Option ℕ
  pub probe_timer : Option ℕ
  pub socket : Option ℕ
  pub event_source : Option ℕ
  pub timers : List Timer
  pub channel : ℕ → Option Channel
  pub next_id : ℕ
  pub outputs : List Output

-- What the event loop delivers: a timer, a channel's event, or a call of a public method.
pub data Event : Type 0 where
  fires : ℕ → Event
  opens : ℕ → Event
  messages : ℕ → Payload → Event
  errors : ℕ → Event
  closes : ℕ → ℕ → String → Event
  retries_now : Event
  stops : TransportConnectionState → Event
