-- ===== src/LiveData/Linking.antt =====
-- The transport managers of the live data hook (src/hooks/useDashboardLiveData.ts, the effect that makes
-- a `LiveTransportManager` and its cleanup, `updateTransportStatus`). A manager that was stopped stays a
-- value, since the browser may still call its handlers.
pub mod Single
mod Tests
use distributed_job_platform.Base.{
  ℕ, String, Bool, true, false, not, ◌&&◌, List, [], ◌∷◌, Option, none, some, ltb, ◌-◌, length,
  take, if◌then◌else◌,
}
use distributed_job_platform.Models.Transport.{
  TransportStatus, TransportMode, TransportConnectionState,
}
use distributed_job_platform.LiveTransport.Types.{
  Browser, Moment, LiveTransportManager, Event, Output, status, event, malformed,
}
use distributed_job_platform.LiveTransport.{start, stop}
use distributed_job_platform.LiveTransport.Effects.{initial}
use distributed_job_platform.LiveTransport.Callbacks.{handle}
use distributed_job_platform.LiveData.{has_url}

pub record Link : Type 0 where
  pub transport_status : TransportStatus
  pub current : Option LiveTransportManager
  pub retired : List LiveTransportManager

-- What the effect depends on.
pub record Wiring : Type 0 where
  pub live_mode : Bool
  pub resolved_base_url : Option String
  pub is_visible : Bool
  pub live_updates : Bool
  pub poll_interval_ms : ℕ

abbrev pub initial_transport_status : TransportStatus
initial_transport_status = record {
  mode = TransportMode.offline;
  state = TransportConnectionState.idle;
  attempt = 0;
  last_message_at = "";
  last_failure_at = "";
  last_error = "";
  degraded_reason = "";
  next_retry_at = "";
}

-- `onStatus`, where an equal status is kept as it is, and `onMalformedMessage`.
abbrev update_transport_status : Browser → Moment → Output → TransportStatus → TransportStatus
update_transport_status b t (status s) old = s
update_transport_status b t (event e) old = old
update_transport_status b t malformed old = record old {
  last_error = "Ignored a malformed realtime message.";
  last_failure_at = b.iso t.now;
}

-- Of several outputs the newest stands first.
abbrev after_outputs : Browser → Moment → List Output → TransportStatus → TransportStatus
after_outputs b t [] old = old
after_outputs b t (o ∷ os) old = update_transport_status b t o (after_outputs b t os old)

-- The callbacks that a manager makes while a call takes it from `before` to `after`.
abbrev pub heard :
    Browser
    → Moment
    → LiveTransportManager
    → LiveTransportManager
    → TransportStatus
    → TransportStatus
heard b t before after old =
    after_outputs b t (take (length after.outputs - length before.outputs) after.outputs) old

abbrev pub reported : Browser → Moment → LiveTransportManager → LiveTransportManager → Link → Link
reported b t before after s = record s {
  transport_status = heard b t before after s.transport_status;
}

abbrev idle_state : Bool → TransportConnectionState
idle_state true = TransportConnectionState.polling
idle_state false = TransportConnectionState.paused

-- `manager.stop(isVisible ? "polling" : "paused")`, and the ref is null.
abbrev pub retired_manager : Browser → Moment → Bool → Option LiveTransportManager → Link → Link
retired_manager b t is_visible none s = s
retired_manager b t is_visible (some m) s =
    reported b t m (stop (idle_state is_visible) m)
      (record s { current = none; retired = stop (idle_state is_visible) m ∷ s.retired })

abbrev pub retire : Browser → Moment → Bool → Link → Link
retire b t is_visible s = retired_manager b t is_visible s.current s

abbrev offline_status : TransportStatus
offline_status = record initial_transport_status {
  mode = TransportMode.offline;
  state = TransportConnectionState.offline;
  degraded_reason = "API base URL is invalid.";
  last_error = "API base URL is invalid.";
}

abbrev paused_status : TransportStatus → TransportStatus
paused_status old = record old {
  state = TransportConnectionState.paused;
  attempt = 0;
  next_retry_at = "";
}

abbrev polling_status : ℕ → TransportStatus → TransportStatus
polling_status interval old = record old {
  mode = if ltb 0 interval then TransportMode.polling else TransportMode.offline;
  state =
      if ltb 0 interval then TransportConnectionState.polling else TransportConnectionState.paused;
  attempt = 0;
  next_retry_at = "";
  degraded_reason = "";
  last_error = "";
}

abbrev pub wire : Browser → Wiring → Moment → Link → Link
wire b w t s =
    if not w.live_mode
    then s
    else if not (has_url w.resolved_base_url)
    then record s { transport_status = offline_status }
    else if not w.is_visible
    then record s { transport_status = paused_status s.transport_status }
    else if not w.live_updates
    then record s { transport_status = polling_status w.poll_interval_ms s.transport_status }
    else reported b t initial (start t initial) (record s { current = some (start t initial) })

-- The cleanup, with what the page was before, and then the effect.
unfoldable pub rewire : Browser → Bool → Wiring → Moment → Link → Link
rewire b was_visible w t s = wire b w t (retire b t w.is_visible (retire b t was_visible s))

abbrev pub delivered : Browser → Moment → Event → Option LiveTransportManager → Link → Link
delivered b t e none s = s
delivered b t e (some m) s =
    reported b t m (handle b t e m) (record s { current = some (handle b t e m) })

-- The browser calls a handler of a manager that was stopped.
abbrev pub delivered_late :
    Browser → Moment → Event → ℕ → List LiveTransportManager → List LiveTransportManager
delivered_late b t e n [] = []
delivered_late b t e ℕ.zero (m ∷ ms) = handle b t e m ∷ ms
delivered_late b t e (ℕ.suc n) (m ∷ ms) = m ∷ delivered_late b t e n ms

-- The status after that: a stopped manager calls back as well, if it has something to say.
abbrev heard_late :
    Browser → Moment → Event → ℕ → List LiveTransportManager → TransportStatus → TransportStatus
heard_late b t e n [] old = old
heard_late b t e ℕ.zero (m ∷ ms) old = heard b t m (handle b t e m) old
heard_late b t e (ℕ.suc n) (m ∷ ms) old = heard_late b t e n ms old

pub data LinkStep : Type 0 where
  rewires : Bool → Wiring → Moment → LinkStep
  delivers : Moment → Event → LinkStep
  delivers_late : Moment → Event → ℕ → LinkStep

unfoldable pub link_step : Browser → LinkStep → Link → Link
link_step b (rewires was_visible w t) s = rewire b was_visible w t s
link_step b (delivers t e) s = delivered b t e s.current s
link_step b (delivers_late t e n) s = record s {
  transport_status = heard_late b t e n s.retired s.transport_status;
  retired = delivered_late b t e n s.retired;
}

unfoldable pub link_history : Browser → List LinkStep → Link → Link
link_history b [] s = s
link_history b (x ∷ xs) s = link_history b xs (link_step b x s)
