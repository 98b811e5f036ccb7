-- ===== src/LiveTransport/Protocol/History.antt =====
-- Whole histories of the manager, from its start.
use distributed_job_platform.Base.{ℕ, ◌<◌, ◌≡◌, ◌≢◌, refl, true, false, List, [], ◌∷◌, arith}
use distributed_job_platform.LiveTransport.Types.{
  RealtimeMode, Browser, Moment, LiveTransportManager, Event, fires, opens as opens_event, messages,
  errors, closes, retries_now, stops,
}
use distributed_job_platform.LiveTransport.{retry_now, start}
use distributed_job_platform.LiveTransport.Effects.{initial, clear_timers, set_timer}
use distributed_job_platform.LiveTransport.Callbacks.{handle, run}
use distributed_job_platform.LiveTransport.Protocol.{
  Stage, starting, dialing, connected, waiting, polling, halted, limit, Shows, Lands, dials,
  gives_up, is_refused, Fails, retries, falls_back, polls, Move, stays, begins, redials,
  probes_polling, probes_connected, probes_waiting, reconnects, opens, refuses, drops, halts,
}
use distributed_job_platform.LiveTransport.Protocol.Timers.{
  Simulates, fire-Shows, Shows-Tracked, retry_now-Shows,
}
use distributed_job_platform.LiveTransport.Protocol.Simulation.{
  open-Shows, message-Shows, error-Shows, close-Shows, stop_event,
}

retry_now-halted :
    (b : Browser) (t : Moment) (m : LiveTransportManager) → m.stopped ≡ true → retry_now b t m ≡ m
unfolding retry_now
retry_now-halted b t m e = ground arith

module _ (b : Browser) (t : Moment) (m : LiveTransportManager) where
  running_retry :
      (s : Stage) → Shows m s → m.stopped ≡ false → s ≢ halted → Simulates s (retry_now b t m)
  running_retry s shows run ne =
      let (s', lands, next) = retry_now-Shows b t m run (Shows-Tracked s m shows) in
      (s', reconnects ne lands, next)

  retry_event : (s : Stage) → Shows m s → Simulates s (retry_now b t m)
  retry_event starting (run, u, ts) = running_retry starting (run, u, ts) run (λ e. cc)
  retry_event (dialing k a) (rep, u, h) =
      running_retry (dialing k a) (rep, u, h) rep.running (λ e. cc)
  retry_event (connected RealtimeMode.websocket a) (rep, u, h) =
      running_retry (connected RealtimeMode.websocket a) (rep, u, h) rep.running (λ e. cc)
  retry_event (connected RealtimeMode.sse a) (rep, u, h) =
      running_retry (connected RealtimeMode.sse a) (rep, u, h) rep.running (λ e. cc)
  retry_event (waiting k a) (rep, u, ts) =
      running_retry (waiting k a) (rep, u, ts) rep.running (λ e. cc)
  retry_event polling (rep, u, ts) = running_retry polling (rep, u, ts) rep.running (λ e. cc)
  retry_event halted (st, a, u, q) = (halted, stays, rw (retry_now-halted b t m st) (st, a, u, q))

  -- One event of the browser or one call of a public method takes a manager that shows a stage
  -- along one move of the machine, to a manager that shows where the move leads.
  pub handle-Shows : (s : Stage) (e : Event) → Shows m s → Simulates s (handle b t e m)
  unfolding handle
  handle-Shows s (fires i) shows = fire-Shows b t i m s shows
  handle-Shows s (opens_event i) shows = open-Shows b t i m s shows
  handle-Shows s (messages i p) shows = message-Shows b t i m s shows p
  handle-Shows s (errors i) shows = error-Shows b t i m s shows
  handle-Shows s (closes i code reason) shows = close-Shows b t i m s shows code reason
  handle-Shows s retries_now shows = retry_event s shows
  handle-Shows s (stops next) shows = stop_event b t 0 m s shows next

pub data Moves : Stage → Stage → Type 0 where
  at_rest : {s : Stage} → Moves s s
  then_on : {s s' s'' : Stage} → Move s s' → Moves s' s'' → Moves s s''

pub run-Shows :
    (b : Browser) (es : List (Moment × Event)) (m : LiveTransportManager) (s : Stage)
    → Shows m s
    → (s' : Stage) × Moves s s' × Shows (run b es m) s'
unfolding run
run-Shows b [] m s shows = (s, at_rest, shows)
run-Shows b ((t, e) ∷ es) m s shows =
    let (s', move, next) = handle-Shows b t m s e shows in
    let (s'', moves, last) = run-Shows b es (handle b t e m) s' next in
    (s'', then_on move moves, last)

pub start-Shows : (t : Moment) → Shows (start t initial) starting
unfolding start initial clear_timers set_timer
start-Shows t = (refl, ground arith, (1, t.now, (refl, refl, refl)))

-- No attempt is made at or past the limit of its transport.
abbrev pub InLimits : Stage → Type 0
InLimits (dialing k a) = a < limit k
InLimits (connected k a) = a < limit k
InLimits (waiting k a) = a < limit k
InLimits _ = Unit {0}

mutual
  pub Lands-InLimits :
      {k : RealtimeMode} {a : ℕ} {s : Stage} → Lands k a s → a < limit k → InLimits s
  Lands-InLimits dials h = h
  Lands-InLimits gives_up h = tt
  Lands-InLimits (is_refused f) h = Fails-InLimits f

  pub Fails-InLimits : {k : RealtimeMode} {a : ℕ} {s : Stage} → Fails k a s → InLimits s
  Fails-InLimits (retries more) = more
  Fails-InLimits (falls_back last lands) = Lands-InLimits lands (omega arith)
  Fails-InLimits (polls last) = tt

Move-InLimits : {s s' : Stage} → Move s s' → InLimits s → InLimits s'
Move-InLimits stays h = h
Move-InLimits (begins l) h = Lands-InLimits l (omega arith)
Move-InLimits (redials l) h = Lands-InLimits l h
Move-InLimits (probes_polling l) h = Lands-InLimits l (omega arith)
Move-InLimits (probes_connected l) h = Lands-InLimits l (omega arith)
Move-InLimits (probes_waiting l) h = Lands-InLimits l (omega arith)
Move-InLimits (reconnects ne l) h = Lands-InLimits l (omega arith)
Move-InLimits opens h = h
Move-InLimits (refuses f) h = Fails-InLimits f
Move-InLimits (drops f) h = Fails-InLimits f
Move-InLimits halts h = tt

Moves-InLimits : {s s' : Stage} → Moves s s' → InLimits s → InLimits s'
Moves-InLimits at_rest h = h
Moves-InLimits (then_on m ms) h = Moves-InLimits ms (Move-InLimits m h)

-- After any history of events, from `start` on, the manager shows a stage that the machine reaches
-- by its moves: what it reports, the one channel that it holds and the timers that run are those
-- of the stage, and the attempt lies below the limit of its transport.
pub run-start-Shows :
    (b : Browser) (t : Moment) (es : List (Moment × Event))
    → (s : Stage) × Moves starting s × Shows (run b es (start t initial)) s × InLimits s
run-start-Shows b t es =
    let (s, moves, shows) = run-Shows b es (start t initial) starting (start-Shows t) in
    (s, moves, shows, Moves-InLimits moves tt)
