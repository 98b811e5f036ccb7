-- ===== src/LiveTransport/Effects.antt =====
-- What the manager's methods do to the browser: statuses, timers and channels
-- (src/lib/live-transport.ts, `clearTimers`, `closeCurrent`, `emitStatus` and the field initialisers).
use distributed_job_platform.Base.{
  ℕ, suc, false, not, Option, none, some, List, [], ◌∷◌, if◌then◌else◌, ◌==◌, keep,
}
use distributed_job_platform.Models.Transport.{TransportMode, idle}
use distributed_job_platform.LiveTransport.Types.{
  RealtimeMode, Task, Timer, Phase, Channel, status, LiveTransportManager,
}

-- A `LiveTransportManager` as its constructor leaves it.
unfoldable pub initial : LiveTransportManager
initial = record {
  mode = TransportMode.polling;
  state = idle;
  attempt = 0;
  last_message_at = "";
  last_failure_at = "";
  last_error = "";
  degraded_reason = "";
  next_retry_at = "";
  stopped = false;
  retry_timer = none;
  probe_timer = none;
  socket = none;
  event_source = none;
  timers = [];
  channel = λ _. none;
  next_id = 1;
  outputs = [];
}

unfoldable pub emit_status : LiveTransportManager → LiveTransportManager
emit_status m = record m {
  outputs =
      status (record {
        mode = m.mode;
        state = m.state;
        attempt = m.attempt;
        last_message_at = m.last_message_at;
        last_failure_at = m.last_failure_at;
        last_error = m.last_error;
        degraded_reason = m.degraded_reason;
        next_retry_at = m.next_retry_at;
      })
      ∷ m.outputs;
}

-- `window.clearTimeout`.
abbrev pub cancel : Option ℕ → List Timer → List Timer
cancel none ts = ts
cancel (some i) ts = keep (λ t. not (t.id == i)) ts

unfoldable pub clear_timers : LiveTransportManager → LiveTransportManager
clear_timers m = record m {
  timers = cancel m.probe_timer (cancel m.retry_timer m.timers);
  retry_timer = none;
  probe_timer = none;
}

abbrev pub update : (ℕ → Option Channel) → ℕ → Channel → ℕ → Option Channel
update f i c j = if j == i then some c else f j

-- Closing a socket that is still connecting waits until it opens.
abbrev pub abandon : RealtimeMode → Phase → Phase
abandon RealtimeMode.websocket Phase.connecting = Phase.deferred
abandon RealtimeMode.websocket Phase.deferred = Phase.deferred
abandon _ _ = Phase.closed

abbrev pub release : (ℕ → Option Channel) → Option ℕ → ℕ → Option Channel
release f none = f
release f (some i) = elim (f i) [
  | none ↦ f
  | some c ↦ update f i (record c { phase = abandon c.kind c.phase })
]

unfoldable pub close_current : LiveTransportManager → LiveTransportManager
close_current m = record m {
  channel = release (release m.channel m.socket) m.event_source;
  socket = none;
  event_source = none;
}

unfoldable pub set_timer : ℕ → Task → LiveTransportManager → LiveTransportManager
set_timer due task m = record m {
  timers = record { id = m.next_id; due = due; task = task } ∷ m.timers;
  next_id = suc m.next_id;
}

unfoldable pub new_channel : RealtimeMode → ℕ → LiveTransportManager → LiveTransportManager
new_channel mode attempt m = record m {
  channel =
      update m.channel m.next_id
        (record { kind = mode; tried = attempt; opened = false; phase = Phase.connecting });
  next_id = suc m.next_id;
}
