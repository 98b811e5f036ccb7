-- ===== src/LiveTransport/Protocol/Failing.antt =====
-- The stages in which failures and WebSocket attempts land (src/lib/live-transport.ts).
use distributed_job_platform.Base.{
  ℕ, ◌+◌, ◌≤◌, ◌<◌, ◌≡◌, ◌⊎◌, inl, inr, String, false, some, arith, Bool-cases, Option-cases, ltb,
  is_some, ◌&&◌,
}
use distributed_job_platform.LiveTransport.Types.{
  RealtimeMode, Browser, Moment, LiveTransportManager,
}
use distributed_job_platform.LiveTransport.Effects.{new_channel}
use distributed_job_platform.LiveTransport.{
  prepare, enter_polling, connect_sse, schedule_retry, after_failure, handle_realtime_failure,
  open_web_socket, connect_websocket, connect, websocket_attempt_limit, sse_attempt_limit,
}
use distributed_job_platform.LiveTransport.Protocol.{
  Stage, dialing, waiting, polling, Lands, dials, gives_up, is_refused, Fails, retries, falls_back,
  polls, Shows, Unarmed, Unplugged, Probes,
}
use distributed_job_platform.LiveTransport.Protocol.Connecting.{
  Tracked, Prepared, prepare-Prepared, Unarmed-Tracked, enter_polling-Shows, connect_sse-Shows,
  schedule_retry-Shows,
}

-- The timers that may run when an attempt over `k` fails.
abbrev pub Armed : RealtimeMode → LiveTransportManager → Type 0
Armed k m = Unarmed m ⊎ ((k ≡ RealtimeMode.sse) × Probes m)

Probes-Tracked : (m : LiveTransportManager) → Probes m → Tracked m
Probes-Tracked m (p, due, why, h, ts) = ground arith

pub Armed-Tracked : (k : RealtimeMode) (m : LiveTransportManager) → Armed k m → Tracked m
Armed-Tracked k m (inl u) = Unarmed-Tracked u
Armed-Tracked k m (inr (e, p)) = Probes-Tracked m p

abbrev Failure : RealtimeMode → ℕ → LiveTransportManager → Type 0
Failure k a m = (s : Stage) × Fails k a s × Shows m s

websocket_failure_cases :
    (b : Browser) (t : Moment) (a : ℕ) (reason : String) (m : LiveTransportManager)
    → let r = after_failure b t RealtimeMode.websocket a reason m in
      ((a + 1 < websocket_attempt_limit)
        × (r ≡ schedule_retry b t RealtimeMode.websocket (a + 1) reason m))
      ⊎ ((websocket_attempt_limit ≤ a + 1)
          × (((why : String) × (r ≡ connect_sse b t 0 why m))
              ⊎ ((why : String) × (r ≡ enter_polling b t why m))))
unfolding after_failure
websocket_failure_cases b t a reason m = elim (Bool-cases (ltb (a + 1) websocket_attempt_limit)) [
  | inl more ↦ inl (ground arith, ground arith)
  | inr last ↦ inr (
    ground arith,
    elim (Bool-cases (b.has_event_source && is_some b.stream_url)) [
      | inl can ↦ inl ("WebSocket upgrades failed. Falling back to SSE.", ground arith)
      | inr cannot ↦ inr ("WebSocket upgrades failed and SSE is unavailable.", ground arith)
    ],
  )
]

sse_failure_cases :
    (b : Browser) (t : Moment) (a : ℕ) (reason : String) (m : LiveTransportManager)
    → let r = after_failure b t RealtimeMode.sse a reason m in
      ((a + 1 < sse_attempt_limit) × (r ≡ schedule_retry b t RealtimeMode.sse (a + 1) reason m))
      ⊎ ((sse_attempt_limit ≤ a + 1) × ((why : String) × (r ≡ enter_polling b t why m)))
unfolding after_failure
sse_failure_cases b t a reason m = elim (Bool-cases (ltb (a + 1) sse_attempt_limit)) [
  | inl more ↦ inl (ground arith, ground arith)
  | inr last ↦ inr (
    ground arith,
    ("Realtime stream unavailable. Using polling until a later probe succeeds.", ground arith),
  )
]

after_failure-Shows :
    (b : Browser) (t : Moment) (k : RealtimeMode) (a : ℕ) (reason : String)
    (m : LiveTransportManager)
    → m.stopped ≡ false
    → Unplugged m
    → Armed k m
    → Failure k a (after_failure b t k a reason m)
after_failure-Shows b t RealtimeMode.websocket a reason m run u armed =
    elim (websocket_failure_cases b t a reason m) [
      | inl (more, e) ↦ (
        waiting RealtimeMode.websocket (a + 1),
        retries more,
        rw e (schedule_retry-Shows b t RealtimeMode.websocket (a + 1) reason m run u armed),
      )
      | inr (last, inl (why, e)) ↦
          let (s, lands, shows) = connect_sse-Shows b t 0 why m run (Armed-Tracked _ m armed) in
          (s, falls_back last lands, rw e shows)
      | inr (last, inr (why, e)) ↦
          (polling, polls last, rw e (enter_polling-Shows b t why m run (Armed-Tracked _ m armed)))
    ]
after_failure-Shows b t RealtimeMode.sse a reason m run u armed =
    elim (sse_failure_cases b t a reason m) [
      | inl (more, e) ↦ (
        waiting RealtimeMode.sse (a + 1),
        retries more,
        rw e (schedule_retry-Shows b t RealtimeMode.sse (a + 1) reason m run u armed),
      )
      | inr (last, (why, e)) ↦
          (polling, polls last, rw e (enter_polling-Shows b t why m run (Armed-Tracked _ m armed)))
    ]

failure-running :
    (b : Browser) (t : Moment) (k : RealtimeMode) (a : ℕ) (reason : String)
    (m : LiveTransportManager)
    → m.stopped ≡ false
    → handle_realtime_failure b t k a reason m
      ≡ after_failure b t k a reason
          (record m { last_failure_at = b.iso t.now; last_error = reason })
unfolding handle_realtime_failure
failure-running b t k a reason m run = ground arith

Unarmed-failed :
    {m : LiveTransportManager} (at why : String)
    → Unarmed m
    → Unarmed (record m { last_failure_at = at; last_error = why })
Unarmed-failed at why u = record {
  no_retry = u.no_retry;
  no_probe = u.no_probe;
  no_timers = u.no_timers;
}

pub handle_realtime_failure-Shows :
    (b : Browser) (t : Moment) (k : RealtimeMode) (a : ℕ) (reason : String)
    (m : LiveTransportManager)
    → m.stopped ≡ false
    → Unplugged m
    → Armed k m
    → (s : Stage) × Fails k a s × Shows (handle_realtime_failure b t k a reason m) s
handle_realtime_failure-Shows b t k a reason m run u armed =
    rw (failure-running b t k a reason m run) (
      after_failure-Shows b t k a reason _ run
        (record { no_socket = u.no_socket; no_source = u.no_source }) (keep_armed armed))
  where
    keep_armed :
        Armed k m → Armed k (record m { last_failure_at = b.iso t.now; last_error = reason })
    keep_armed (inl quiet) = inl (Unarmed-failed (b.iso t.now) reason quiet)
    keep_armed (inr (e, p)) = inr (e, p)

-- Opening a WebSocket ends in polling, in a failure, or holds a new channel.
open_web_socket_cases :
    (b : Browser) (t : Moment) (a : ℕ) (m : LiveTransportManager)
    → let r = open_web_socket b t a m in
      ((why : String) × (r ≡ enter_polling b t why m))
      ⊎ (((why : String) × (r ≡ handle_realtime_failure b t RealtimeMode.websocket a why m))
          ⊎ (r ≡ record (new_channel RealtimeMode.websocket a m) { socket = some m.next_id }))
unfolding open_web_socket
open_web_socket_cases b t a m = elim (Option-cases b.socket_url) [
  | inl missing ↦ inl ("Invalid WebSocket URL.", ground arith)
  | inr (url, found) ↦ elim (Bool-cases t.refuses) [
    | inl thrown ↦ inr (inl ("WebSocket initialization failed.", ground arith))
    | inr made ↦ inr (inr (ground arith))
  ]
]

held_socket-Shows :
    (a : ℕ) (m : LiveTransportManager)
    → Prepared RealtimeMode.websocket a m
    → Shows
        (record (new_channel RealtimeMode.websocket a m) { socket = some m.next_id })
        (dialing RealtimeMode.websocket a)
unfolding new_channel
held_socket-Shows a m p = (ground arith, ground arith, (m.next_id, ground arith))

open_web_socket-Shows :
    (b : Browser) (t : Moment) (a : ℕ) (m : LiveTransportManager)
    → Prepared RealtimeMode.websocket a m
    → (s : Stage) × Lands RealtimeMode.websocket a s × Shows (open_web_socket b t a m) s
open_web_socket-Shows b t a m p = elim (open_web_socket_cases b t a m) [
  | inl (why, e) ↦
      (polling, gives_up, rw e (enter_polling-Shows b t why m p.0.running (Unarmed-Tracked p.1)))
  | inr (inl (why, e)) ↦
      let (s, fails, shows) =
        handle_realtime_failure-Shows b t RealtimeMode.websocket a why m p.0.running p.2
          (inl p.1) in
      (s, is_refused fails, rw e shows)
  | inr (inr e) ↦ (dialing RealtimeMode.websocket a, dials, rw e (held_socket-Shows a m p))
]

websocket-running :
    (b : Browser) (t : Moment) (a : ℕ) (reason : String) (m : LiveTransportManager)
    → m.stopped ≡ false
    → connect b t RealtimeMode.websocket a reason m
      ≡ open_web_socket b t a (prepare RealtimeMode.websocket a reason m)
unfolding connect connect_websocket
websocket-running b t a reason m run = ground arith

-- `connect` lands in a stage that the machine allows, whatever channel was held before.
pub connect-Shows :
    (b : Browser) (t : Moment) (k : RealtimeMode) (a : ℕ) (reason : String)
    (m : LiveTransportManager)
    → m.stopped ≡ false
    → Tracked m
    → (s : Stage) × Lands k a s × Shows (connect b t k a reason m) s
unfolding connect
connect-Shows b t RealtimeMode.websocket a reason m run track =
    rw (websocket-running b t a reason m run)
      (open_web_socket-Shows b t a _ (prepare-Prepared RealtimeMode.websocket a reason m run track))
connect-Shows b t RealtimeMode.sse a reason m run track = connect_sse-Shows b t a reason m run track
