-- ===== src/LiveTransport/Protocol/Connecting.antt =====
-- The stages in which connection attempts, their failures and the fallbacks land (src/lib/live-transport.ts).
use distributed_job_platform.Base.{
  ℕ, ◌+◌, ◌≡◌, ◌⊎◌, inl, inr, String, false, some, [], arith, Bool-cases, Option-cases,
}
use distributed_job_platform.Models.Transport.{TransportConnectionState}
use distributed_job_platform.LiveTransport.Types.{
  RealtimeMode, transport_mode, Browser, Moment, LiveTransportManager,
}
use distributed_job_platform.LiveTransport.Effects.{
  cancel, clear_timers, close_current, emit_status, set_timer, new_channel,
}
use distributed_job_platform.LiveTransport.{
  prepare, schedule_probe, enter_polling, open_event_source, connect_sse, retry_delay,
  schedule_retry,
}
use distributed_job_platform.LiveTransport.Protocol.{
  Stage, dialing, waiting, polling, Lands, dials, gives_up, Shows, Reports, Unarmed, Unplugged,
  Probes,
}

-- Every pending timer is one whose handle the manager holds.
abbrev pub Tracked : LiveTransportManager → Type 0
Tracked m = cancel m.probe_timer (cancel m.retry_timer m.timers) ≡ []

pub enter_polling-Shows :
    (b : Browser) (t : Moment) (reason : String) (m : LiveTransportManager)
    → m.stopped ≡ false
    → Tracked m
    → Shows (enter_polling b t reason m) polling
unfolding enter_polling schedule_probe emit_status set_timer clear_timers close_current
enter_polling-Shows b t reason m run track = (
  ground arith,
  ground arith,
  (
    m.next_id,
    t.now + 90_000,
    "Retrying realtime transport after polling fallback.",
    ground arith,
    (ground arith, ground arith, ground arith),
  ),
)

-- What `connect` has made ready before it opens a channel.
abbrev pub Prepared : RealtimeMode → ℕ → LiveTransportManager → Type 0
Prepared k a m =
    Reports (transport_mode k) TransportConnectionState.connecting a m × Unarmed m × Unplugged m

pub prepare-Prepared :
    (k : RealtimeMode) (a : ℕ) (reason : String) (m : LiveTransportManager)
    → m.stopped ≡ false
    → Tracked m
    → Prepared k a (prepare k a reason m)
unfolding prepare clear_timers close_current emit_status
prepare-Prepared k a reason m run track = (ground arith, ground arith, ground arith)

pub Unarmed-Tracked : {m : LiveTransportManager} → Unarmed m → Tracked m
Unarmed-Tracked u = ground arith

-- Opening an event source ends in polling, or holds a new channel.
open_event_source_cases :
    (b : Browser) (t : Moment) (a : ℕ) (m : LiveTransportManager)
    → ((reason : String) × (open_event_source b t a m ≡ enter_polling b t reason m))
      ⊎ (open_event_source b t a m
          ≡ record (new_channel RealtimeMode.sse a m) { event_source = some m.next_id })
unfolding open_event_source
open_event_source_cases b t a m = elim (Bool-cases b.has_event_source) [
  | inr no_source ↦ inl ("Server-Sent Events are not supported in this browser.", ground arith)
  | inl has_source ↦ elim (Option-cases b.stream_url) [
    | inl missing ↦ inl ("Invalid SSE URL.", ground arith)
    | inr (url, found) ↦ inr (ground arith)
  ]
]

held_source-Shows :
    (a : ℕ) (m : LiveTransportManager)
    → Prepared RealtimeMode.sse a m
    → Shows
        (record (new_channel RealtimeMode.sse a m) { event_source = some m.next_id })
        (dialing RealtimeMode.sse a)
unfolding new_channel
held_source-Shows a m p = (ground arith, ground arith, (m.next_id, ground arith))

open_event_source-Shows :
    (b : Browser) (t : Moment) (a : ℕ) (m : LiveTransportManager)
    → Prepared RealtimeMode.sse a m
    → (s : Stage) × Lands RealtimeMode.sse a s × Shows (open_event_source b t a m) s
open_event_source-Shows b t a m p = elim (open_event_source_cases b t a m) [
  | inl (reason, e) ↦
      (polling, gives_up, rw e (enter_polling-Shows b t reason m p.0.running (Unarmed-Tracked p.1)))
  | inr e ↦ (dialing RealtimeMode.sse a, dials, rw e (held_source-Shows a m p))
]

connect_sse-running :
    (b : Browser) (t : Moment) (a : ℕ) (reason : String) (m : LiveTransportManager)
    → m.stopped ≡ false
    → connect_sse b t a reason m ≡ open_event_source b t a (prepare RealtimeMode.sse a reason m)
unfolding connect_sse
connect_sse-running b t a reason m run = ground arith

pub connect_sse-Shows :
    (b : Browser) (t : Moment) (a : ℕ) (reason : String) (m : LiveTransportManager)
    → m.stopped ≡ false
    → Tracked m
    → (s : Stage) × Lands RealtimeMode.sse a s × Shows (connect_sse b t a reason m) s
connect_sse-Shows b t a reason m run track =
    rw (connect_sse-running b t a reason m run)
      (open_event_source-Shows b t a _ (prepare-Prepared RealtimeMode.sse a reason m run track))

-- A retry is armed beside the timers that run, of which none is a retry.
pub schedule_retry-Shows :
    (b : Browser) (t : Moment) (k : RealtimeMode) (a : ℕ) (reason : String)
    (m : LiveTransportManager)
    → m.stopped ≡ false
    → Unplugged m
    → Unarmed m ⊎ ((k ≡ RealtimeMode.sse) × Probes m)
    → Shows (schedule_retry b t k a reason m) (waiting k a)
unfolding schedule_retry emit_status set_timer
schedule_retry-Shows b t k a reason m run u (inl quiet) = (
  ground arith,
  ground arith,
  (
    m.next_id,
    t.now + retry_delay k a t.draw,
    reason,
    inl (ground arith, ground arith, ground arith),
  ),
)
schedule_retry-Shows b t k a reason m run u (inr (e, (p, due, why, h, ts))) = (
  ground arith,
  ground arith,
  (
    m.next_id,
    t.now + retry_delay k a t.draw,
    reason,
    inr (p, due, why, e, h, (ground arith, ground arith, ground arith)),
  ),
)
