-- ===== src/LiveTransport/Protocol/Outage.antt =====
-- Outages: runs in which every attempt fails and every timer fires (src/lib/live-transport.ts).
use distributed_job_platform.Base.{
  ℕ, ◌+◌, ◌≤◌, ◌<◌, ◌≡◌, ◌≢◌, refl, subst, ◌⊎◌, inl, inr, Bool, false, List, [], ◌∷◌, none, some,
  arith, length, take, suc,
}
use distributed_job_platform.LiveTransport.Types.{
  RealtimeMode, Phase, Timer, Browser, Moment, LiveTransportManager, fires, closes, errors,
}
use distributed_job_platform.LiveTransport.{start}
use distributed_job_platform.LiveTransport.Effects.{initial}
use distributed_job_platform.LiveTransport.Callbacks.{
  handle, fire, run_task, deliver_close, deliver_error,
}
use distributed_job_platform.LiveTransport.Protocol.{
  Stage, starting, dialing, connected, waiting, polling, halted, Shows, Holds, Lands, Fails,
  retry_of, probe_of, limit,
}
use distributed_job_platform.LiveTransport.Protocol.Ranks.{
  dial_rank, rank, IsRunning, Fails-rank, Lands-rank, rank_zero,
}
use distributed_job_platform.LiveTransport.Protocol.Failing.{Armed}
use distributed_job_platform.LiveTransport.Protocol.Frames.{on_channel-some}
use distributed_job_platform.LiveTransport.Protocol.Timers.{run_reconnect, run_probe}
use distributed_job_platform.LiveTransport.Protocol.Channels.{
  socket_close, source_error, Holds-is_current,
}
use distributed_job_platform.LiveTransport.Protocol.History.{
  start-Shows, InLimits, Fails-InLimits, Lands-InLimits,
}

-- The next bad event: the pending retry fires, or else the channel that is held is lost, or else, when the
-- manager polls, its probe fires.
pub strike : Browser → Moment → LiveTransportManager → LiveTransportManager
strike b t m = elim m.retry_timer [
  | some r ↦ handle b t (fires r) m
  | none ↦ elim m.socket [
    | some i ↦ handle b t (closes i 1006 "") m
    | none ↦ elim m.event_source [
      | some i ↦ handle b t (errors i) m
      | none ↦ elim m.probe_timer [ some p ↦ handle b t (fires p) m | none ↦ m ]
    ]
  ]
]

pub outage : Browser → List Moment → LiveTransportManager → LiveTransportManager
outage b [] m = m
outage b (t ∷ ts) m = outage b ts (strike b t m)

-- A manager at a stage of the protocol that is not stopped.
abbrev IsAlive : LiveTransportManager → Type 0
IsAlive m = (s : Stage) × IsRunning s × InLimits s × Shows m s

-- A bad event brings a running stage closer to polling.
abbrev Closer : ℕ → LiveTransportManager → Type 0
Closer n m = (s : Stage) × (rank s < n) × IsRunning s × InLimits s × Shows m s

abbrev closer_fail :
    {k : RealtimeMode} {a : ℕ} {m : LiveTransportManager} (h : a < limit k)
    → ((s : Stage) × Fails k a s × Shows m s)
    → Closer (dial_rank k a) m
closer_fail h (s, fails, shows) =
    let r = Fails-rank fails h in (s, r.0, r.1, Fails-InLimits fails, shows)

abbrev closer_land :
    {k : RealtimeMode} {a : ℕ} {m : LiveTransportManager} (h : a < limit k)
    → ((s : Stage) × Lands k a s × Shows m s)
    → Closer (dial_rank k a + 1) m
closer_land h (s, lands, shows) =
    let r = Lands-rank lands h in (s, omega arith, r.1, Lands-InLimits lands h, shows)

fire_head :
    (b : Browser) (t : Moment) (m : LiveTransportManager) (x : Timer)
    → m.timers ≡ x ∷ []
    → fire b t x.id m ≡ run_task b t x.task (record m { timers = [] })
unfolding fire
fire_head b t m x e = ground arith

fire_head_of_two :
    (b : Browser) (t : Moment) (m : LiveTransportManager) (x y : Timer)
    → m.timers ≡ x ∷ y ∷ []
    → y.id < x.id
    → fire b t x.id m ≡ run_task b t x.task (record m { timers = y ∷ [] })
unfolding fire
fire_head_of_two b t m x y e lt = ground arith

module _ (b : Browser) (t : Moment) (m : LiveTransportManager) where
  strike_retry : (r : ℕ) → m.retry_timer ≡ some r → strike b t m ≡ fire b t r m
  unfolding strike handle
  strike_retry r e = ground arith

  strike_socket :
      (i : ℕ)
      → m.retry_timer ≡ none
      → m.socket ≡ some i
      → strike b t m ≡ handle b t (closes i 1006 "") m
  unfolding strike
  strike_socket i e f = ground arith

  strike_source :
      (i : ℕ)
      → m.retry_timer ≡ none
      → m.socket ≡ none
      → m.event_source ≡ some i
      → strike b t m ≡ handle b t (errors i) m
  unfolding strike
  strike_source i e f g = ground arith

  strike_channel :
      (k : RealtimeMode) (a : ℕ) (o : Bool) (p : Phase) (i : ℕ)
      → Holds k a o p i m
      → m.stopped ≡ false
      → p ≢ Phase.closed
      → Armed k m
      → m.retry_timer ≡ none
      → a < limit k
      → Closer (dial_rank k a) (strike b t m)
  unfolding handle
  strike_channel RealtimeMode.websocket a o p i h run alive (inr (e, x)) quiet lim = cc
  strike_channel RealtimeMode.websocket a o p i h run alive (inl u) quiet lim =
      rw (strike_socket i quiet h.held.0) (
        rw (on_channel-some i m (λ c. deliver_close b t i 1006 "" c.kind c.phase c) h.its_channel) (
          closer_fail lim (
            socket_close b t i a m 1006 "" o p alive run h.held.1 u
              (Holds-is_current RealtimeMode.websocket a o p i m run h))))
  strike_channel RealtimeMode.sse a o p i h run alive armed quiet lim =
      rw (strike_source i quiet h.held.0 h.held.1) (
        rw (on_channel-some i m (λ c. deliver_error b t i c.kind c.phase c) h.its_channel) (
          closer_fail lim (
            source_error b t i a m o p alive run h.held.0 armed
              (Holds-is_current RealtimeMode.sse a o p i m run h))))

  strike_timer :
      (s : Stage)
      → Shows m s
      → InLimits s
      → IsRunning s
      → (s ≡ polling) ⊎ Closer (rank s) (strike b t m)
  strike_timer starting (run, u, (r, due, ts)) lim _ = inr (
      rw (strike_retry r ts.0) (
        rw (fire_head b t m (retry_of RealtimeMode.websocket 0 "" r due) ts.2) (
          closer_land (omega arith)
            (run_reconnect b t RealtimeMode.websocket 0 "" _ run (ground arith)))))
  strike_timer (dialing k a) (rep, u, (i, h)) lim _ =
      inr (strike_channel k a _ _ i h rep.running (λ e. cc) (inl u) u.no_retry lim)
  strike_timer (connected RealtimeMode.websocket a) (rep, u, (i, h)) lim _ =
      inr (strike_channel _ a _ _ i h rep.running (λ e. cc) (inl u) u.no_retry lim)
  strike_timer (connected RealtimeMode.sse a) (rep, p, (i, h)) lim _ =
      inr (strike_channel _ a _ _ i h rep.running (λ e. cc) (inr (refl, p)) (ground arith) lim)
  strike_timer (waiting k a) (rep, u, (r, due, reason, inl ts)) lim _ = inr (
      rw (strike_retry r ts.0) (
        rw (fire_head b t m (retry_of k a reason r due) ts.2)
          (closer_land lim (run_reconnect b t k a reason _ rep.running (ground arith)))))
  strike_timer (waiting k a) (rep, u, (r, due, reason, inr (p, at, why, is_sse, lt, ts))) lim _ =
      inr (
        rw (strike_retry r ts.0) (
          rw (fire_head_of_two b t m (retry_of k a reason r due) (probe_of why p at) ts.2 lt)
            (closer_land lim (run_reconnect b t k a reason _ rep.running (ground arith)))))
  strike_timer polling shows lim _ = inl refl
  strike_timer halted shows lim running = elim running [ ]

  strike_probe :
      (p : ℕ)
      → m.retry_timer ≡ none
      → m.socket ≡ none
      → m.event_source ≡ none
      → m.probe_timer ≡ some p
      → strike b t m ≡ fire b t p m
  unfolding strike handle
  strike_probe p e f g h = ground arith

  strike_polling : Shows m polling → IsAlive (strike b t m)
  strike_polling (rep, u, (p, due, why, lt, ts)) =
      let (s, lands, shows) =
        run_probe b t why (record m { timers = [] }) rep.running (ground arith) in
      rw (strike_probe p ts.0 u.no_socket u.no_source ts.1) (
        rw (fire_head b t m (probe_of why p due) ts.2)
          (s, (Lands-rank lands (omega arith)).1, Lands-InLimits lands (omega arith), shows))

  -- A manager that is not stopped is not stopped by a bad event.
  strike-IsAlive : IsAlive m → IsAlive (strike b t m)
  strike-IsAlive (s, running, lim, shows) = elim (strike_timer s shows lim running) [
    | inl done ↦ strike_polling (subst (λ x. Shows m x) done shows)
    | inr (s', lt, running', lim', next) ↦ (s', running', lim', next)
  ]

outage-IsAlive :
    (b : Browser) (ts : List Moment) (m : LiveTransportManager)
    → IsAlive m
    → IsAlive (outage b ts m)
unfolding outage
outage-IsAlive b [] m alive = alive
outage-IsAlive b (t ∷ ts) m alive = outage-IsAlive b ts (strike b t m) (strike-IsAlive b t m alive)

-- The manager polls after some of the bad events, and at most as many as its stage is away from that.
abbrev PollsSoon : Browser → List Moment → LiveTransportManager → ℕ → Type 0
PollsSoon b ts m n = (k : ℕ) × (k ≤ n) × Shows (outage b (take k ts) m) polling

outage_polls :
    (b : Browser) (ts : List Moment) (m : LiveTransportManager) (s : Stage)
    → Shows m s
    → InLimits s
    → IsRunning s
    → rank s ≤ length ts
    → PollsSoon b ts m (rank s)
unfolding outage
outage_polls b [] m s shows lim r h =
    (0, omega arith, subst (λ x. Shows m x) (rank_zero s h lim r) shows)
outage_polls b (t ∷ ts) m s shows lim r h = elim (strike_timer b t m s shows lim r) [
  | inl done ↦ (0, omega arith, subst (λ x. Shows m x) done shows)
  | inr (s', lt, r', lim', next) ↦
      let (k, le, polls_then) = outage_polls b ts (strike b t m) s' next lim' r' (omega arith) in
      (suc k, omega arith, polls_then)
]

rank_le : (s : Stage) → rank s ≤ 11
rank_le starting = omega arith
rank_le (dialing RealtimeMode.websocket a) = omega arith
rank_le (dialing RealtimeMode.sse a) = omega arith
rank_le (connected RealtimeMode.websocket a) = omega arith
rank_le (connected RealtimeMode.sse a) = omega arith
rank_le (waiting RealtimeMode.websocket a) = omega arith
rank_le (waiting RealtimeMode.sse a) = omega arith
rank_le polling = omega arith
rank_le halted = omega arith

-- Suppose that from the manager's start on every attempt fails: a pending retry fires, else the channel that
-- is held is lost, and when the manager polls its probe fires. Then, whatever number of these bad events has
-- passed, the manager polls, with one probe pending, after at most eleven more.
pub start-outage-polling :
    (b : Browser) (t : Moment) (before after : List Moment)
    → 11 ≤ length after
    → (k : ℕ) × (k ≤ 11)
      × Shows (outage b (take k after) (outage b before (start t initial))) polling
start-outage-polling b t before after h =
    let (s, running, lim, shows) =
      outage-IsAlive b before (start t initial) (starting, tt, tt, start-Shows t) in
    let bound = rank_le s in
    let (k, le, polls_then) =
      outage_polls b after (outage b before (start t initial)) s shows lim running (omega arith) in
    (k, omega arith, polls_then)
