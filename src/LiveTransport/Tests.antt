-- ===== src/LiveTransport/Tests.antt =====
-- Runs of the transport manager, and its theorems at concrete inputs.
use distributed_job_platform.Base.{
  ◌+◌, ◌-◌, ◌*◌, ◌≤◌, ◌≡◌, ◌^◌, refl, true, false, List, [], ◌∷◌, some, arith, min, take, ℕ,
}
use distributed_job_platform.Models.Transport.{TransportConnectionState, TransportMode}
use distributed_job_platform.Json.{object, field, end, text}
use distributed_job_platform.LiveTransport.Types.{
  RealtimeMode, Browser, Moment, LiveTransportManager, Event, fires, opens, closes,
}
use distributed_job_platform.LiveTransport.{
  start, stop, connect, connect_websocket, connect_sse, open_web_socket, open_event_source, prepare,
  enter_polling, schedule_probe, schedule_retry, retry_delay, after_failure,
  handle_realtime_failure, retry_now,
}
use distributed_job_platform.LiveTransport.Backoff.{get_backoff_delay}
use distributed_job_platform.LiveTransport.Backoff.Bounds.{get_backoff_delay_bounds}
use distributed_job_platform.LiveTransport.Effects.{
  initial, emit_status, clear_timers, close_current, set_timer, new_channel,
}
use distributed_job_platform.LiveTransport.Callbacks.{
  handle, run, fire, run_task, on_channel, deliver_open, deliver_message, deliver_error,
  deliver_close, is_current, connected as show_connected, on_socket_open, on_source_open,
  on_message, on_socket_error, on_socket_close, on_source_error, close_reason, code_text,
}
use distributed_job_platform.LiveTransport.Protocol.{
  Stage, starting, connected, polling, halted, Shows,
}
use distributed_job_platform.LiveTransport.Protocol.History.{Moves, InLimits, run-start-Shows}
use distributed_job_platform.LiveTransport.Protocol.Stopping.{
  stop-run-halted, LeavesWebSocket, close_after_last_attempt,
}
use distributed_job_platform.LiveTransport.Protocol.Outage.{outage, start-outage-polling}

transport : Unit {0}
unfolding start stop connect connect_websocket connect_sse open_web_socket open_event_source prepare
    enter_polling schedule_probe schedule_retry retry_delay after_failure handle_realtime_failure
    retry_now initial emit_status clear_timers close_current set_timer new_channel handle run fire
    run_task on_channel deliver_open deliver_message deliver_error deliver_close is_current
    show_connected on_socket_open on_source_open on_message on_socket_error on_socket_close
    on_source_error close_reason code_text
transport = tt

abbrev pub chrome : Browser
chrome = record {
  socket_url = some "ws://localhost:8080/ws/events";
  stream_url = some "http://localhost:8080/sse/events";
  has_event_source = true;
  iso = λ _. "2026-03-12T22:10:00.000Z";
  json_parse = λ _. some (object (field "kind" (text "job.started") end));
  decode = λ _. "";
}

abbrev pub tick : Moment
tick = record { now = 1000; draw = 0; refuses = false }

-- The WebSocket closes three times before it opens; the event source then opens.
abbrev fallback : List (Moment × Event)
fallback =
    (tick, fires 1)
    ∷ (tick, closes 2 1006 "")
    ∷ (tick, fires 3)
    ∷ (tick, closes 4 1006 "")
    ∷ (tick, fires 5)
    ∷ (tick, closes 6 1006 "")
    ∷ (tick, opens 7)
    ∷ []

fallback_test :
    ((run chrome fallback (start tick initial)).mode ≡ TransportMode.sse)
    × ((run chrome fallback (start tick initial)).state ≡ TransportConnectionState.live)
unfolding transport
fallback_test = (refl, refl)

get_backoff_delay_bounds_example :
    (min (900 * 2 ^ (2 - 1)) 12000 ≤ get_backoff_delay 2 900 12000 5)
    × (get_backoff_delay 2 900 12000 5 ≤ 12000)
    × (10 * get_backoff_delay 2 900 12000 5 ≤ 13 * min (900 * 2 ^ (2 - 1)) 12000 + 5)
get_backoff_delay_bounds_example = get_backoff_delay_bounds 2 900 12000 5 (omega arith)

run-start-Shows_example :
    (s : Stage) × Moves starting s × Shows (run chrome fallback (start tick initial)) s × InLimits s
run-start-Shows_example = run-start-Shows chrome tick fallback

-- The third WebSocket attempt opens.
abbrev third_opens : List (Moment × Event)
third_opens =
    (tick, fires 1)
    ∷ (tick, closes 2 1006 "")
    ∷ (tick, fires 3)
    ∷ (tick, closes 4 1006 "")
    ∷ (tick, fires 5)
    ∷ (tick, opens 6)
    ∷ []

abbrev on_third : LiveTransportManager
on_third = run chrome third_opens (start tick initial)

on_third-Shows : Shows on_third (connected RealtimeMode.websocket 2)
unfolding transport
on_third-Shows = (
  record { running = refl; its_mode = refl; its_state = refl; its_attempt = refl },
  record { no_retry = refl; no_probe = refl; no_timers = refl },
  (6, record { held = (refl, refl); its_channel = refl }),
)

on_third-socket : on_third.socket ≡ some 6
unfolding transport
on_third-socket = refl

stop-run-halted_example :
    Shows (run chrome fallback (stop TransportConnectionState.paused on_third)) halted
stop-run-halted_example =
    stop-run-halted chrome TransportConnectionState.paused fallback on_third
      (connected RealtimeMode.websocket 2) on_third-Shows

close_after_last_attempt_example :
    (s : Stage) × LeavesWebSocket s × Shows (handle chrome tick (closes 6 1001 "bye") on_third) s
close_after_last_attempt_example =
    close_after_last_attempt chrome tick 6 1001 "bye" 2 on_third on_third-Shows on_third-socket
      (omega arith)

abbrev eleven : List Moment
eleven = tick ∷ tick ∷ tick ∷ tick ∷ tick ∷ tick ∷ tick ∷ tick ∷ tick ∷ tick ∷ tick ∷ []

start-outage-polling_example :
    (k : ℕ) × (k ≤ 11)
    × Shows (outage chrome (take k eleven) (outage chrome eleven (start tick initial))) polling
start-outage-polling_example = start-outage-polling chrome tick eleven eleven (omega arith)
