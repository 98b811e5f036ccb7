-- ===== src/LiveTransport/Protocol/Channels.antt =====
-- Events of the channel that the manager holds, as moves of the machine (src/lib/live-transport.ts).
use distributed_job_platform.Base.{
  ℕ, ◌+◌, ◌≡◌, ◌≢◌, refl, inl, inr, String, Bool, true, false, none, some, List, ◌∷◌, arith,
}
use distributed_job_platform.LiveTransport.Types.{
  RealtimeMode, Phase, Channel, Payload, Output, event, malformed, Browser, Moment,
  LiveTransportManager,
}
use distributed_job_platform.LiveTransport.Messages.{parse_transport_event}
use distributed_job_platform.LiveTransport.Effects.{update, emit_status, set_timer}
use distributed_job_platform.LiveTransport.{schedule_probe}
use distributed_job_platform.LiveTransport.Callbacks.{
  is_current, connected as show_connected, on_socket_open, on_source_open, on_message,
  on_socket_error, on_socket_close, on_source_error, close_reason, deliver_open, deliver_message,
  deliver_error, deliver_close,
}
use distributed_job_platform.LiveTransport.Protocol.{
  Stage, dialing, connected, Shows, Fails, Unarmed, Holds,
}
use distributed_job_platform.LiveTransport.Protocol.Failing.{Armed, handle_realtime_failure-Shows}
use distributed_job_platform.LiveTransport.Protocol.Frames.{Same, Same-refl}

pub Holds-is_current :
    (k : RealtimeMode) (a : ℕ) (o : Bool) (p : Phase) (i : ℕ) (m : LiveTransportManager)
    → m.stopped ≡ false
    → Holds k a o p i m
    → is_current k i m ≡ true
unfolding is_current
Holds-is_current RealtimeMode.websocket a o p i m run h = ground arith
Holds-is_current RealtimeMode.sse a o p i m run h = ground arith

-- Messages and error notices change the log and the last instants only.
unmoved :
    (m : LiveTransportManager) (at why : String) (o : List Output)
    → Same m (record m { last_message_at = at; last_error = why; outputs = o })
unmoved m at why o = record {
  same_stopped = refl;
  same_mode = refl;
  same_state = refl;
  same_attempt = refl;
  same_retry = refl;
  same_probe = refl;
  same_timers = refl;
  same_socket = refl;
  same_source = refl;
  same_next = refl;
  same_held = λ k j h. refl;
}

on_message-Same :
    (b : Browser) (t : Moment) (payload : Payload) (m : LiveTransportManager)
    → Same m (on_message b t payload m)
unfolding on_message emit_status
on_message-Same b t payload m =
    elim (parse_transport_event b payload)
      as (λ r. Same m (elim r [
        | none ↦ record m { outputs = malformed ∷ m.outputs }
        | some e ↦
            emit_status (record m { last_message_at = b.iso t.now; outputs = event e ∷ m.outputs })
      ])) [
        | none ↦ unmoved m m.last_message_at m.last_error _
        | some e ↦ unmoved m (b.iso t.now) m.last_error _
      ]

on_socket_error-Same : (m : LiveTransportManager) → Same m (on_socket_error m)
unfolding on_socket_error emit_status
on_socket_error-Same m = unmoved m m.last_message_at "WebSocket transport error." _

abbrev pub made : RealtimeMode → ℕ → Bool → Phase → Channel
made k a o p = record { kind = k; tried = a; opened = o; phase = p }

module _ (b : Browser) (t : Moment) (i a : ℕ) (m : LiveTransportManager) where
  pub dialing-open :
      (k : RealtimeMode)
      → Shows m (dialing k a)
      → Holds k a false Phase.connecting i m
      → Shows
          (deliver_open b t i k Phase.connecting (made k a false Phase.connecting) m)
          (connected k a)
  unfolding deliver_open on_socket_open on_source_open show_connected emit_status schedule_probe
      set_timer
  dialing-open RealtimeMode.websocket (rep, u, _) h =
      let cur = Holds-is_current RealtimeMode.websocket a _ _ i m rep.running h in
      rw cur (ground arith, ground arith, (i, ground arith))
  dialing-open RealtimeMode.sse (rep, u, _) h =
      let cur = Holds-is_current RealtimeMode.sse a _ _ i m rep.running h in
      rw cur (
        ground arith,
        (
          m.next_id,
          t.now + 90_000,
          "Probing WebSocket recovery after SSE fallback.",
          ground arith,
          (ground arith, ground arith, ground arith),
        ),
        (i, ground arith),
      )

  pub held_message :
      (payload : Payload) (k : RealtimeMode) (p : Phase)
      → is_current k i m ≡ true
      → Same m (deliver_message b t i payload k p m)
  unfolding deliver_message
  held_message payload k Phase.open_now cur = rw cur (on_message-Same b t payload m)
  held_message payload k _ cur = Same-refl m

  pub socket_error :
      (o : Bool) (p : Phase)
      → is_current RealtimeMode.websocket i m ≡ true
      → Same m (deliver_error b t i RealtimeMode.websocket p (made RealtimeMode.websocket a o p) m)
  unfolding deliver_error
  socket_error o Phase.closed cur = Same-refl m
  socket_error o _ cur = rw cur (on_socket_error-Same m)

  pub source_error :
      (o : Bool) (p : Phase)
      → p ≢ Phase.closed
      → m.stopped ≡ false
      → m.socket ≡ none
      → Armed RealtimeMode.sse m
      → is_current RealtimeMode.sse i m ≡ true
      → (s : Stage) × Fails RealtimeMode.sse a s
        × Shows (deliver_error b t i RealtimeMode.sse p (made RealtimeMode.sse a o p) m) s
  unfolding deliver_error on_source_error
  source_error o Phase.closed alive run bare armed cur = absurd (alive refl)
  source_error o _ alive run bare armed cur = rw cur (
      handle_realtime_failure-Shows b t RealtimeMode.sse a "SSE stream disconnected." _ run
        (record { no_socket = bare; no_source = refl }) (rearm armed))
    where
      rearm :
          Armed RealtimeMode.sse m
          → Armed RealtimeMode.sse (record m {
            channel = update m.channel i (made RealtimeMode.sse a o Phase.closed);
            event_source = none;
          })
      rearm (inl u) =
          inl (record { no_retry = u.no_retry; no_probe = u.no_probe; no_timers = u.no_timers })
      rearm (inr (e, probing)) = inr (e, probing)

  pub socket_close :
      (code : ℕ) (reason : String) (o : Bool) (p : Phase)
      → p ≢ Phase.closed
      → m.stopped ≡ false
      → m.event_source ≡ none
      → Unarmed m
      → is_current RealtimeMode.websocket i m ≡ true
      → (s : Stage) × Fails RealtimeMode.websocket a s
        × Shows
            (deliver_close b t i code reason RealtimeMode.websocket p
              (made RealtimeMode.websocket a o p)
              m)
            s
  unfolding deliver_close on_socket_close
  socket_close code reason o Phase.closed alive run bare u cur = absurd (alive refl)
  socket_close code reason o _ alive run bare u cur = rw cur (
      handle_realtime_failure-Shows b t RealtimeMode.websocket a (close_reason o code reason) _ run
        (record { no_socket = refl; no_source = bare })
        (inl (record { no_retry = u.no_retry; no_probe = u.no_probe; no_timers = u.no_timers })))
