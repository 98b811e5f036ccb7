-- ===== src/LiveTransport/Protocol/Stopping.antt =====
-- What happens after `stop`, and after a drop on the last attempt.
use distributed_job_platform.Base.{ℕ, ◌+◌, ◌≤◌, ◌≡◌, refl, subst, String, true, List, some, arith}
use distributed_job_platform.Models.Transport.{TransportConnectionState}
use distributed_job_platform.LiveTransport.Types.{
  RealtimeMode, Phase, Browser, Moment, LiveTransportManager, Event, closes,
}
use distributed_job_platform.LiveTransport.{stop, websocket_attempt_limit}
use distributed_job_platform.LiveTransport.Callbacks.{handle, run, deliver_close}
use distributed_job_platform.LiveTransport.Protocol.Frames.{on_channel-some}
use distributed_job_platform.LiveTransport.Protocol.{
  Stage, dialing, connected, polling, halted, Shows, Holds, Move, stays, reconnects, halts, dials,
  gives_up, Fails, retries, falls_back, polls,
}
use distributed_job_platform.LiveTransport.Protocol.Timers.{Shows-Tracked, stop-Shows}
use distributed_job_platform.LiveTransport.Protocol.Channels.{socket_close, Holds-is_current}
use distributed_job_platform.LiveTransport.Protocol.History.{Moves, at_rest, then_on, run-Shows}

pub halted-Move : {s : Stage} → Move halted s → s ≡ halted
halted-Move stays = refl
halted-Move (reconnects ne l) = absurd (ne refl)
halted-Move halts = refl

from_halted : {r s : Stage} → r ≡ halted → Moves r s → s ≡ halted
from_halted e at_rest = e
from_halted {s = s''} e (then_on {s' = s'} m ms) =
    from_halted (halted-Move (subst (λ x. Move x s') e m)) ms

-- Once `stop` is called on a manager that shows a stage, no later event starts anything: it stays
-- stopped, with no socket, no event source and no timer.
pub stop-run-halted :
    (b : Browser) (next : TransportConnectionState) (es : List (Moment × Event))
    (m : LiveTransportManager) (s : Stage)
    → Shows m s
    → Shows (run b es (stop next m)) halted
stop-run-halted b next es m s shows =
    let (s', moves, last) =
      run-Shows b es (stop next m) halted (stop-Shows next m (Shows-Tracked s m shows)) in
    subst (λ x. Shows (run b es (stop next m)) x) (from_halted refl moves) last

-- The stages that follow a failure with no retry over the WebSocket.
abbrev pub LeavesWebSocket : Stage → Type 0
LeavesWebSocket (dialing RealtimeMode.sse a) = Unit {0}
LeavesWebSocket polling = Unit {0}
LeavesWebSocket _ = ⊥

last_failure :
    {a : ℕ} {s : Stage}
    → Fails RealtimeMode.websocket a s
    → websocket_attempt_limit ≤ a + 1
    → LeavesWebSocket s
last_failure (retries more) h = absurd (omega arith)
last_failure (falls_back last dials) h = tt
last_failure (falls_back last gives_up) h = tt
last_failure (polls last) h = tt

-- A WebSocket that opened on its last attempt, so that the manager reports attempt 0, and that
-- closes later is not retried: the manager goes on to server-sent events or to polling.
pub close_after_last_attempt :
    (b : Browser) (t : Moment) (i code : ℕ) (reason : String) (a : ℕ) (m : LiveTransportManager)
    → Shows m (connected RealtimeMode.websocket a)
    → m.socket ≡ some i
    → websocket_attempt_limit ≤ a + 1
    → (s : Stage) × LeavesWebSocket s × Shows (handle b t (closes i code reason) m) s
unfolding handle
close_after_last_attempt b t i code reason a m (rep, u, (j, h)) e last =
    rw
      (on_channel-some i m (λ c. deliver_close b t i code reason c.kind c.phase c) here.its_channel)
      (finish (
        socket_close b t i a m code reason true Phase.open_now (λ x. cc) rep.running h.held.1 u
          (Holds-is_current RealtimeMode.websocket a true Phase.open_now i m rep.running here)))
  where
    here : Holds RealtimeMode.websocket a true Phase.open_now i m
    here = record { held = ground arith; its_channel = ground arith }

    finish :
        {n : LiveTransportManager}
        → ((s : Stage) × Fails RealtimeMode.websocket a s × Shows n s)
        → (s : Stage) × LeavesWebSocket s × Shows n s
    finish (s, fails, shows) = (s, last_failure fails last, shows)
