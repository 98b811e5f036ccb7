-- ===== src/LiveTransport/Protocol.antt =====
-- The transport manager as a machine of six stages, and when a manager's state shows a stage.
pub mod Connecting
pub mod Failing
pub mod Frames
pub mod Timers
pub mod Channels
pub mod Simulation
pub mod History
pub mod Stopping
pub mod Ranks
pub mod Outage
use distributed_job_platform.Base.{
  ℕ, suc, ◌+◌, ◌≤◌, ◌<◌, ◌≡◌, ◌≢◌, ◌⊎◌, String, Bool, true, false, Option, none, some, List, [],
  ◌∷◌,
}
use distributed_job_platform.Models.Transport.{TransportMode, TransportConnectionState}
use distributed_job_platform.LiveTransport.Types.{
  RealtimeMode, transport_mode, Task, reconnect, probe, Timer, Phase, Channel, LiveTransportManager,
}
use distributed_job_platform.LiveTransport.Effects.{cancel}
use distributed_job_platform.LiveTransport.{websocket_attempt_limit, sse_attempt_limit}

pub data Stage : Type 0 where
  starting : Stage
  dialing : RealtimeMode → ℕ → Stage
  connected : RealtimeMode → ℕ → Stage
  waiting : RealtimeMode → ℕ → Stage
  polling halted : Stage

abbrev pub limit : RealtimeMode → ℕ
limit RealtimeMode.websocket = websocket_attempt_limit
limit RealtimeMode.sse = sse_attempt_limit

mutual
  -- Where a connection attempt leads at once.
  pub data Lands : RealtimeMode → ℕ → Stage → Type 0 where
    dials : {k : RealtimeMode} {a : ℕ} → Lands k a (dialing k a)
    gives_up : {k : RealtimeMode} {a : ℕ} → Lands k a polling
    is_refused :
        {a : ℕ} {s : Stage} → Fails RealtimeMode.websocket a s → Lands RealtimeMode.websocket a s

  -- Where a failed attempt leads: the next attempt below the limit, else the next transport.
  pub data Fails : RealtimeMode → ℕ → Stage → Type 0 where
    retries : {k : RealtimeMode} {a : ℕ} → a + 1 < limit k → Fails k a (waiting k (a + 1))
    falls_back :
        {a : ℕ} {s : Stage}
        → websocket_attempt_limit ≤ a + 1
        → Lands RealtimeMode.sse 0 s
        → Fails RealtimeMode.websocket a s
    polls : {k : RealtimeMode} {a : ℕ} → limit k ≤ a + 1 → Fails k a polling

pub data Move : Stage → Stage → Type 0 where
  stays : {s : Stage} → Move s s
  begins : {s : Stage} → Lands RealtimeMode.websocket 0 s → Move starting s
  redials : {k : RealtimeMode} {a : ℕ} {s : Stage} → Lands k a s → Move (waiting k a) s
  probes_polling : {s : Stage} → Lands RealtimeMode.websocket 0 s → Move polling s
  probes_connected :
      {a : ℕ} {s : Stage} → Lands RealtimeMode.websocket 0 s → Move (connected RealtimeMode.sse a) s
  probes_waiting :
      {a : ℕ} {s : Stage} → Lands RealtimeMode.websocket 0 s → Move (waiting RealtimeMode.sse a) s
  reconnects : {r s : Stage} → r ≢ halted → Lands RealtimeMode.websocket 0 s → Move r s
  opens : {k : RealtimeMode} {a : ℕ} → Move (dialing k a) (connected k a)
  refuses : {k : RealtimeMode} {a : ℕ} {s : Stage} → Fails k a s → Move (dialing k a) s
  drops : {k : RealtimeMode} {a : ℕ} {s : Stage} → Fails k a s → Move (connected k a) s
  halts : {s : Stage} → Move s halted

-- The handles and the browser's timers with no connection attempt and no timer left.
pub record Unarmed (m : LiveTransportManager) : Type 0 where
  pub no_retry : m.retry_timer ≡ none
  pub no_probe : m.probe_timer ≡ none
  pub no_timers : m.timers ≡ []

pub record Unplugged (m : LiveTransportManager) : Type 0 where
  pub no_socket : m.socket ≡ none
  pub no_source : m.event_source ≡ none

abbrev pub held_socket : RealtimeMode → ℕ → Option ℕ
held_socket RealtimeMode.websocket i = some i
held_socket RealtimeMode.sse i = none

abbrev pub held_source : RealtimeMode → ℕ → Option ℕ
held_source RealtimeMode.websocket i = none
held_source RealtimeMode.sse i = some i

-- One channel is held, and its handlers close over the attempt `a`.
pub record Holds (k : RealtimeMode) (a : ℕ) (opened : Bool) (p : Phase) (i : ℕ)
    (m : LiveTransportManager) : Type 0 where
  pub held : (m.socket ≡ held_socket k i) × (m.event_source ≡ held_source k i)
  pub its_channel : m.channel i ≡ some (record { kind = k; tried = a; opened = opened; phase = p })

abbrev pub Timed : LiveTransportManager → Option ℕ → Option ℕ → List Timer → Type 0
Timed m retry probing ts = (m.retry_timer ≡ retry) × (m.probe_timer ≡ probing) × (m.timers ≡ ts)

pub record Reports (mode : TransportMode) (state : TransportConnectionState) (a : ℕ)
    (m : LiveTransportManager) : Type 0 where
  pub running : m.stopped ≡ false
  pub its_mode : m.mode ≡ mode
  pub its_state : m.state ≡ state
  pub its_attempt : m.attempt ≡ a

abbrev pub retry_of : RealtimeMode → ℕ → String → ℕ → ℕ → Timer
retry_of k a reason r due = record { id = r; due = due; task = reconnect k a reason }

abbrev pub probe_of : String → ℕ → ℕ → Timer
probe_of reason p due = record { id = p; due = due; task = probe reason }

-- The probe that a lost event source leaves behind, beside the retry.
abbrev pub Waits : LiveTransportManager → RealtimeMode → ℕ → Type 0
Waits m k a =
    (r : ℕ) × (due : ℕ) × (reason : String) × (Timed m (some r) none
        (retry_of k a reason r due ∷ [])
      ⊎ ((p : ℕ) × (at : ℕ) × (why : String) × (k ≡ RealtimeMode.sse)
          × (p < r)
          × Timed m (some r) (some p) (retry_of k a reason r due ∷ probe_of why p at ∷ [])))

abbrev pub Probes : LiveTransportManager → Type 0
Probes m =
    (p : ℕ) × (due : ℕ) × (reason : String) × (p < m.next_id)
    × Timed m none (some p) (probe_of reason p due ∷ [])

-- A manager shows a stage: what it reports, the channel it holds, and exactly which timers run.
abbrev pub Shows : LiveTransportManager → Stage → Type 0
Shows m starting =
    (m.stopped ≡ false)
    × Unplugged m
    × ((r : ℕ) × (due : ℕ) × Timed m (some r) none
          (retry_of RealtimeMode.websocket 0 "" r due ∷ []))
Shows m (dialing k a) =
    Reports (transport_mode k) TransportConnectionState.connecting a m
    × Unarmed m
    × ((i : ℕ) × Holds k a false Phase.connecting i m)
Shows m (connected RealtimeMode.websocket a) =
    Reports TransportMode.websocket TransportConnectionState.live 0 m
    × Unarmed m
    × ((i : ℕ) × Holds RealtimeMode.websocket a true Phase.open_now i m)
Shows m (connected RealtimeMode.sse a) =
    Reports TransportMode.sse TransportConnectionState.live 0 m
    × Probes m
    × ((i : ℕ) × Holds RealtimeMode.sse a false Phase.open_now i m)
Shows m (waiting k a) =
    Reports (transport_mode k) TransportConnectionState.connecting a m × Unplugged m × Waits m k a
Shows m polling =
    Reports TransportMode.polling TransportConnectionState.polling 0 m × Unplugged m × Probes m
Shows m halted = (m.stopped ≡ true) × (m.attempt ≡ 0) × Unplugged m × Unarmed m
