-- ===== src/LiveTransport/Protocol/Frames.antt =====
-- Changes of other fields and events of channels that are not held (src/lib/live-transport.ts).
use distributed_job_platform.Base.{
  ℕ, ◌≡◌, ◌≢◌, refl, ◌∙◌, inl, inr, String, Bool, false, some, arith, Option-cases,
}
use distributed_job_platform.LiveTransport.Types.{
  RealtimeMode, Phase, Channel, Payload, Browser, Moment, LiveTransportManager,
}
use distributed_job_platform.LiveTransport.Callbacks.{
  current, is_current, set_phase, deliver_open, deliver_message, deliver_error, deliver_close,
  on_channel,
}
use distributed_job_platform.LiveTransport.Protocol.{
  Stage, starting, dialing, connected, waiting, polling, halted, Shows, Unarmed, Unplugged, Holds,
}

-- `n` differs from `m` at most in what no stage speaks of.
pub record Same (m n : LiveTransportManager) : Type 0 where
  pub same_stopped : n.stopped ≡ m.stopped
  pub same_mode : n.mode ≡ m.mode
  pub same_state : n.state ≡ m.state
  pub same_attempt : n.attempt ≡ m.attempt
  pub same_retry : n.retry_timer ≡ m.retry_timer
  pub same_probe : n.probe_timer ≡ m.probe_timer
  pub same_timers : n.timers ≡ m.timers
  pub same_socket : n.socket ≡ m.socket
  pub same_source : n.event_source ≡ m.event_source
  pub same_next : n.next_id ≡ m.next_id
  pub same_held : (k : RealtimeMode) (j : ℕ) → current k m ≡ some j → n.channel j ≡ m.channel j

module _ {m n : LiveTransportManager} (e : Same m n) where
  Unplugged-Same : Unplugged m → Unplugged n
  Unplugged-Same u = ground arith

  Unarmed-Same : Unarmed m → Unarmed n
  Unarmed-Same u = ground arith

  Holds-Same :
      (k : RealtimeMode) (a : ℕ) (o : Bool) (p : Phase) (i : ℕ)
      → Holds k a o p i m
      → Holds k a o p i n
  Holds-Same RealtimeMode.websocket a o p i h = record {
    held = ground arith;
    its_channel = e.same_held RealtimeMode.websocket i h.held.0 ∙ h.its_channel;
  }
  Holds-Same RealtimeMode.sse a o p i h = record {
    held = ground arith;
    its_channel = e.same_held RealtimeMode.sse i h.held.1 ∙ h.its_channel;
  }

  pub Shows-Same : (s : Stage) → Shows m s → Shows n s
  Shows-Same starting (run, u, (r, due, ts)) =
      (ground arith, Unplugged-Same u, (r, due, ground arith))
  Shows-Same (dialing k a) (rep, u, (i, h)) =
      (ground arith, Unarmed-Same u, (i, Holds-Same k a _ _ i h))
  Shows-Same (connected RealtimeMode.websocket a) (rep, u, (i, h)) =
      (ground arith, Unarmed-Same u, (i, Holds-Same _ a _ _ i h))
  Shows-Same (connected RealtimeMode.sse a) (rep, (p, due, why, lt, ts), (i, h)) =
      (ground arith, (p, due, why, ground arith, ground arith), (i, Holds-Same _ a _ _ i h))
  Shows-Same (waiting k a) (rep, u, (r, due, reason, inl ts)) =
      (ground arith, Unplugged-Same u, (r, due, reason, inl (ground arith)))
  Shows-Same (waiting k a) (rep, u, (r, due, reason, inr (p, at, why, eq, lt, ts))) =
      (ground arith, Unplugged-Same u, (r, due, reason, inr (p, at, why, eq, lt, ground arith)))
  Shows-Same polling (rep, u, (p, due, why, lt, ts)) =
      (ground arith, Unplugged-Same u, (p, due, why, ground arith, ground arith))
  Shows-Same halted (run, a, u, q) = (ground arith, ground arith, Unplugged-Same u, Unarmed-Same q)

pub Same-refl : (m : LiveTransportManager) → Same m m
Same-refl m = record {
  same_stopped = refl;
  same_mode = refl;
  same_state = refl;
  same_attempt = refl;
  same_retry = refl;
  same_probe = refl;
  same_timers = refl;
  same_socket = refl;
  same_source = refl;
  same_next = refl;
  same_held = λ k j h. refl;
}

-- Channel `i` is not the manager's socket or event source.
abbrev pub IsFree : ℕ → LiveTransportManager → Type 0
IsFree i m = (k : RealtimeMode) (j : ℕ) → current k m ≡ some j → j ≢ i

pub Unplugged-IsFree : (i : ℕ) (m : LiveTransportManager) → Unplugged m → IsFree i m
Unplugged-IsFree i m u RealtimeMode.websocket j h = cc (u.no_socket)
Unplugged-IsFree i m u RealtimeMode.sse j h = cc (u.no_source)

pub Holds-IsFree :
    (k : RealtimeMode) (a : ℕ) (o : Bool) (p : Phase) (j i : ℕ) (m : LiveTransportManager)
    → Holds k a o p j m
    → j ≢ i
    → IsFree i m
Holds-IsFree RealtimeMode.websocket a o p j i m h ne RealtimeMode.websocket j' e = ground arith
Holds-IsFree RealtimeMode.websocket a o p j i m h ne RealtimeMode.sse j' e = ground arith
Holds-IsFree RealtimeMode.sse a o p j i m h ne RealtimeMode.websocket j' e = ground arith
Holds-IsFree RealtimeMode.sse a o p j i m h ne RealtimeMode.sse j' e = ground arith

module _ (i : ℕ) (m : LiveTransportManager) (free : IsFree i m) where
  not-is_current : (k : RealtimeMode) → is_current k i m ≡ false
  unfolding is_current
  not-is_current k = elim (Option-cases (current k m)) [
    | inl nothing ↦ rw nothing
    | inr (j, e) ↦ let ne : j ≢ i = free k j e in rw e (ground arith)
  ]

  set_phase-Same : (c : Channel) (p : Phase) → Same m (set_phase i c p m)
  set_phase-Same c p = record {
    same_stopped = refl;
    same_mode = refl;
    same_state = refl;
    same_attempt = refl;
    same_retry = refl;
    same_probe = refl;
    same_timers = refl;
    same_socket = refl;
    same_source = refl;
    same_next = refl;
    same_held = λ k j h. let ne : j ≢ i = free k j h in ground arith;
  }

  pub deliver_open-Same :
      (b : Browser) (t : Moment) (k : RealtimeMode) (p : Phase) (c : Channel)
      → Same m (deliver_open b t i k p c m)
  unfolding deliver_open
  deliver_open-Same b t RealtimeMode.websocket Phase.connecting c =
      rw (not-is_current RealtimeMode.websocket) (set_phase-Same c Phase.open_now)
  deliver_open-Same b t RealtimeMode.sse Phase.connecting c =
      rw (not-is_current RealtimeMode.sse) (set_phase-Same c Phase.open_now)
  deliver_open-Same b t RealtimeMode.websocket Phase.deferred c = set_phase-Same c Phase.closed
  deliver_open-Same b t _ _ c = Same-refl m

  pub deliver_message-Same :
      (b : Browser) (t : Moment) (payload : Payload) (k : RealtimeMode) (p : Phase)
      → Same m (deliver_message b t i payload k p m)
  unfolding deliver_message
  deliver_message-Same b t payload k Phase.open_now = rw (not-is_current k) (Same-refl m)
  deliver_message-Same b t payload k _ = Same-refl m

  pub deliver_error-Same :
      (b : Browser) (t : Moment) (k : RealtimeMode) (p : Phase) (c : Channel)
      → Same m (deliver_error b t i k p c m)
  unfolding deliver_error
  deliver_error-Same b t k Phase.closed c = Same-refl m
  deliver_error-Same b t RealtimeMode.websocket _ c =
      rw (not-is_current RealtimeMode.websocket) (Same-refl m)
  deliver_error-Same b t RealtimeMode.sse _ c = rw (not-is_current RealtimeMode.sse) (Same-refl m)

  pub deliver_close-Same :
      (b : Browser) (t : Moment) (code : ℕ) (reason : String) (k : RealtimeMode) (p : Phase)
      (c : Channel)
      → Same m (deliver_close b t i code reason k p c m)
  unfolding deliver_close
  deliver_close-Same b t code reason RealtimeMode.sse _ c = Same-refl m
  deliver_close-Same b t code reason RealtimeMode.websocket Phase.closed c = Same-refl m
  deliver_close-Same b t code reason RealtimeMode.websocket _ c =
      rw (not-is_current RealtimeMode.websocket) (set_phase-Same c Phase.closed)

-- An event of a channel that exists is delivered to it.
pub on_channel-some :
    (i : ℕ) (m : LiveTransportManager) (f : Channel → LiveTransportManager → LiveTransportManager)
    {c : Channel}
    → m.channel i ≡ some c
    → on_channel i f m ≡ f c m
unfolding on_channel
on_channel-some i m f e = rw (e, on_channel)
