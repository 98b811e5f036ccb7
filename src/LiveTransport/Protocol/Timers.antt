-- ===== src/LiveTransport/Protocol/Timers.antt =====
-- The timers' tasks, manual reconnects and stops, as moves of the machine (src/lib/live-transport.ts).
use distributed_job_platform.Base.{
  ℕ, ◌≡◌, ◌≢◌, ◌⊎◌, inl, inr, String, false, none, [], ◌∷◌, arith, Bool-cases, ◌==◌,
}
use distributed_job_platform.Models.Transport.{TransportConnectionState}
use distributed_job_platform.LiveTransport.Types.{
  RealtimeMode, Timer, reconnect, probe, Browser, Moment, LiveTransportManager,
}
use distributed_job_platform.LiveTransport.Effects.{clear_timers, close_current, emit_status}
use distributed_job_platform.LiveTransport.{connect, retry_now, stop}
use distributed_job_platform.LiveTransport.Callbacks.{fire, run_task}
use distributed_job_platform.LiveTransport.Protocol.{
  Stage, starting, dialing, connected, waiting, polling, halted, Shows, Lands, Move, stays, begins,
  redials, probes_polling, probes_connected, probes_waiting, Probes, retry_of, probe_of,
}
use distributed_job_platform.LiveTransport.Protocol.Connecting.{Tracked}
use distributed_job_platform.LiveTransport.Protocol.Failing.{connect-Shows}

fire_none :
    (b : Browser) (t : Moment) (i : ℕ) (m : LiveTransportManager) → m.timers ≡ [] → fire b t i m ≡ m
unfolding fire
fire_none b t i m e = ground arith

fire_one :
    (b : Browser) (t : Moment) (i : ℕ) (m : LiveTransportManager) (x : Timer)
    → m.timers ≡ x ∷ []
    → (fire b t i m ≡ m) ⊎ (fire b t i m ≡ run_task b t x.task (record m { timers = [] }))
unfolding fire
fire_one b t i m x e = elim (Bool-cases (x.id == i)) [
  | inl hit ↦ inr (ground arith)
  | inr miss ↦ inl (ground arith)
]

fire_two :
    (b : Browser) (t : Moment) (i : ℕ) (m : LiveTransportManager) (x y : Timer)
    → m.timers ≡ x ∷ y ∷ []
    → x.id ≢ y.id
    → (fire b t i m ≡ m)
      ⊎ ((fire b t i m ≡ run_task b t x.task (record m { timers = y ∷ [] }))
          ⊎ (fire b t i m ≡ run_task b t y.task (record m { timers = x ∷ [] })))
unfolding fire
fire_two b t i m x y e ne = elim (Bool-cases (x.id == i)) [
  | inl hit ↦ inr (inl (ground arith))
  | inr miss ↦ elim (Bool-cases (y.id == i)) [
    | inl hit ↦ inr (inr (ground arith))
    | inr miss' ↦ inl (ground arith)
  ]
]

pub run_reconnect :
    (b : Browser) (t : Moment) (k : RealtimeMode) (a : ℕ) (reason : String)
    (m : LiveTransportManager)
    → m.stopped ≡ false
    → Tracked (record m { retry_timer = none })
    → (s : Stage) × Lands k a s × Shows (run_task b t (reconnect k a reason) m) s
unfolding run_task
run_reconnect b t k a reason m run track = connect-Shows b t k a reason _ run track

pub run_probe :
    (b : Browser) (t : Moment) (reason : String) (m : LiveTransportManager)
    → m.stopped ≡ false
    → Tracked (record m { probe_timer = none })
    → (s : Stage) × Lands RealtimeMode.websocket 0 s × Shows (run_task b t (probe reason) m) s
unfolding run_task
run_probe b t reason m run track = connect-Shows b t RealtimeMode.websocket 0 reason _ run track

-- What a handled event does to a manager that shows `s`.
abbrev pub Simulates : Stage → LiveTransportManager → Type 0
Simulates s n = (s' : Stage) × Move s s' × Shows n s'

abbrev lift :
    {s : Stage} {k : RealtimeMode} {a : ℕ} {n : LiveTransportManager}
    → ((s' : Stage) → Lands k a s' → Move s s')
    → ((s' : Stage) × Lands k a s' × Shows n s')
    → Simulates s n
lift move (s', lands, shows) = (s', move s' lands, shows)

module _ (b : Browser) (t : Moment) (i : ℕ) (m : LiveTransportManager) where
  fire_probe :
      (s : Stage)
      → Shows m s
      → m.stopped ≡ false
      → Probes m
      → ((s' : Stage) → Lands RealtimeMode.websocket 0 s' → Move s s')
      → Simulates s (fire b t i m)
  fire_probe s shows run (p, due, why, lt, ts) move =
      elim (fire_one b t i m (probe_of why p due) ts.2) [
        | inl e ↦ (s, stays, rw e shows)
        | inr e ↦ rw e (lift move (run_probe b t why _ run (ground arith)))
      ]

  fire_waiting :
      (k : RealtimeMode) (a : ℕ) → Shows m (waiting k a) → Simulates (waiting k a) (fire b t i m)
  fire_waiting k a (rep, u, (r, due, reason, inl ts)) =
      elim (fire_one b t i m (retry_of k a reason r due) ts.2) [
        | inl e ↦ (waiting k a, stays, rw e (rep, u, (r, due, reason, inl ts)))
        | inr e ↦
            rw e (lift (λ s'. redials) (run_reconnect b t k a reason _ rep.running (ground arith)))
      ]
  fire_waiting k a (rep, u, (r, due, reason, inr (p, at, why, is_sse, lt, ts))) =
      elim (fire_two b t i m (retry_of k a reason r due) (probe_of why p at) ts.2 (omega arith)) [
        | inl e ↦
            (waiting k a, stays, rw e (rep, u, (r, due, reason, inr (p, at, why, is_sse, lt, ts))))
        | inr (inl e) ↦
            rw e (lift (λ s'. redials) (run_reconnect b t k a reason _ rep.running (ground arith)))
        | inr (inr e) ↦ rw e (
            lift (λ s' l. rw is_sse (probes_waiting l))
              (run_probe b t why _ rep.running (ground arith)))
      ]

  pub fire-Shows : (s : Stage) → Shows m s → Simulates s (fire b t i m)
  fire-Shows starting (run, u, (r, due, ts)) =
      elim (fire_one b t i m (retry_of RealtimeMode.websocket 0 "" r due) ts.2) [
        | inl e ↦ (starting, stays, rw e (run, u, (r, due, ts)))
        | inr e ↦ rw e (
            lift (λ s'. begins)
              (run_reconnect b t RealtimeMode.websocket 0 "" _ run (ground arith)))
      ]
  fire-Shows (dialing k a) (rep, u, h) =
      (dialing k a, stays, rw (fire_none b t i m u.no_timers) (rep, u, h))
  fire-Shows (connected RealtimeMode.websocket a) (rep, u, h) =
      (connected RealtimeMode.websocket a, stays, rw (fire_none b t i m u.no_timers) (rep, u, h))
  fire-Shows (connected RealtimeMode.sse a) (rep, p, h) =
      fire_probe (connected RealtimeMode.sse a) (rep, p, h) rep.running p (λ s'. probes_connected)
  fire-Shows (waiting k a) shows = fire_waiting k a shows
  fire-Shows polling (rep, u, p) =
      fire_probe polling (rep, u, p) rep.running p (λ s'. probes_polling)
  fire-Shows halted (st, a, u, q) =
      (halted, stays, rw (fire_none b t i m q.no_timers) (st, a, u, q))

-- Every timer that runs is one that the manager can still clear.
pub Shows-Tracked : (s : Stage) (m : LiveTransportManager) → Shows m s → Tracked m
Shows-Tracked starting m (run, u, (r, due, ts)) = ground arith
Shows-Tracked (dialing k a) m (rep, u, h) = ground arith
Shows-Tracked (connected RealtimeMode.websocket a) m (rep, u, h) = ground arith
Shows-Tracked (connected RealtimeMode.sse a) m (rep, (p, due, why, lt, ts), h) = ground arith
Shows-Tracked (waiting k a) m (rep, u, (r, due, reason, inl ts)) = ground arith
Shows-Tracked (waiting k a) m (rep, u, (r, due, reason, inr (p, at, why, is_sse, lt, ts))) =
    ground arith
Shows-Tracked polling m (rep, u, (p, due, why, lt, ts)) = ground arith
Shows-Tracked halted m (st, a, u, q) = ground arith

pub stop-Shows :
    (next : TransportConnectionState) (m : LiveTransportManager)
    → Tracked m
    → Shows (stop next m) halted
unfolding stop clear_timers close_current emit_status
stop-Shows next m track = (ground arith, ground arith, ground arith, ground arith)

retry_now-running :
    (b : Browser) (t : Moment) (m : LiveTransportManager)
    → m.stopped ≡ false
    → retry_now b t m
      ≡ connect b t RealtimeMode.websocket 0 "Manual reconnect requested."
          (record (clear_timers m) { degraded_reason = ""; last_error = ""; next_retry_at = "" })
unfolding retry_now connect
retry_now-running b t m run = ground arith

clear_timers-Tracked : (m : LiveTransportManager) → Tracked m → (clear_timers m).timers ≡ []
unfolding clear_timers
clear_timers-Tracked m track = track

pub retry_now-Shows :
    (b : Browser) (t : Moment) (m : LiveTransportManager)
    → m.stopped ≡ false
    → Tracked m
    → (s : Stage) × Lands RealtimeMode.websocket 0 s × Shows (retry_now b t m) s
unfolding clear_timers
retry_now-Shows b t m run track = rw (retry_now-running b t m run) (
    connect-Shows b t RealtimeMode.websocket 0 "Manual reconnect requested."
      (record (clear_timers m) { degraded_reason = ""; last_error = ""; next_retry_at = "" }) run
      (clear_timers-Tracked m track))
