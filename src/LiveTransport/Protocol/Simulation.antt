-- ===== src/LiveTransport/Protocol/Simulation.antt =====
-- The events of the browser, as moves of the machine (src/lib/live-transport.ts).
use distributed_job_platform.Base.{
  ℕ, ◌≡◌, ◌≢◌, refl, subst, ◌⊎◌, inl, inr, String, Bool, false, none, some, arith, Bool-cases, ◌==◌,
  ==_iff,
}
use distributed_job_platform.Models.Transport.{TransportConnectionState}
use distributed_job_platform.LiveTransport.Protocol.Failing.{Armed}
use distributed_job_platform.LiveTransport.Types.{
  RealtimeMode, Phase, Channel, Payload, Browser, Moment, LiveTransportManager,
}
use distributed_job_platform.LiveTransport.{stop}
use distributed_job_platform.LiveTransport.Callbacks.{
  deliver_open, deliver_message, deliver_error, deliver_close, on_channel, run,
}
use distributed_job_platform.LiveTransport.Protocol.{
  Stage, starting, dialing, connected, waiting, polling, halted, Shows, Move, stays, opens, refuses,
  drops, halts, Fails, Unplugged, Holds,
}
use distributed_job_platform.LiveTransport.Protocol.Frames.{
  on_channel-some, Same, Shows-Same, IsFree, Unplugged-IsFree, Holds-IsFree, deliver_open-Same,
  deliver_message-Same, deliver_error-Same, deliver_close-Same,
}
use distributed_job_platform.LiveTransport.Protocol.Timers.{Simulates, Shows-Tracked, stop-Shows}
use distributed_job_platform.LiveTransport.Protocol.Channels.{
  made, Holds-is_current, dialing-open, held_message, socket_error, source_error, socket_close,
}

stays-Same : (s : Stage) (m n : LiveTransportManager) → Shows m s → Same m n → Simulates s n
stays-Same s m n shows e = (s, stays, Shows-Same e s shows)

-- How an event of channel `i` is delivered, by its function of the channel.
module _ (i : ℕ) (m : LiveTransportManager)
    (f : Channel → LiveTransportManager → LiveTransportManager)
    (unheard : IsFree i m → (c : Channel) → Same m (f c m)) where
  on_free : (s : Stage) → Shows m s → IsFree i m → Simulates s (on_channel i f m)
  unfolding on_channel
  on_free s shows free =
      elim (m.channel i) as (λ o. Simulates s (elim o [ none ↦ m | some c ↦ f c m ])) [
        | none ↦ (s, stays, shows)
        | some c ↦ stays-Same s m (f c m) shows (unheard free c)
      ]

  on_held :
      (s : Stage) (k : RealtimeMode) (a : ℕ) (o : Bool) (p : Phase) (j : ℕ)
      → Shows m s
      → Holds k a o p j m
      → (Holds k a o p i m → Simulates s (f (made k a o p) m))
      → Simulates s (on_channel i f m)
  on_held s k a o p j shows h act = elim (Bool-cases (j == i)) [
    | inr other ↦ on_free s shows (Holds-IsFree k a o p j i m h (ground arith))
    | inl same ↦
        let here = subst (λ x. Holds k a o p x m) ((==_iff j i).0 same) h in
        rw (on_channel-some i m f here.its_channel) (act here)
  ]

module _ (b : Browser) (t : Moment) (i : ℕ) (m : LiveTransportManager) where
  abbrev pub opening : Channel → LiveTransportManager → LiveTransportManager
  opening c = deliver_open b t i c.kind c.phase c

  unheard_opening : IsFree i m → (c : Channel) → Same m (opening c m)
  unheard_opening free c = deliver_open-Same i m free b t c.kind c.phase c

  pub open-Shows : (s : Stage) → Shows m s → Simulates s (on_channel i opening m)
  unfolding deliver_open
  open-Shows starting (run, u, ts) =
      on_free i m opening unheard_opening starting (run, u, ts) (Unplugged-IsFree i m u)
  open-Shows (waiting k a) (rep, u, ts) =
      on_free i m opening unheard_opening (waiting k a) (rep, u, ts) (Unplugged-IsFree i m u)
  open-Shows polling (rep, u, ts) =
      on_free i m opening unheard_opening polling (rep, u, ts) (Unplugged-IsFree i m u)
  open-Shows halted (st, a, u, q) =
      on_free i m opening unheard_opening halted (st, a, u, q) (Unplugged-IsFree i m u)
  open-Shows (dialing k a) (rep, u, (j, h)) =
      on_held i m opening unheard_opening (dialing k a) k a _ _ j (rep, u, (j, h)) h
        λ here. (connected k a, opens, dialing-open b t i a m k (rep, u, (j, h)) here)
  open-Shows (connected RealtimeMode.websocket a) (rep, u, (j, h)) =
      on_held i m opening unheard_opening (connected RealtimeMode.websocket a) _ a _ _ j
        (rep, u, (j, h)) h λ here. (_, stays, (rep, u, (j, h)))
  open-Shows (connected RealtimeMode.sse a) (rep, u, (j, h)) =
      on_held i m opening unheard_opening (connected RealtimeMode.sse a) _ a _ _ j (rep, u, (j, h))
        h λ here. (_, stays, (rep, u, (j, h)))

-- The attempt that a stage has under way: its channel, its timers, and where its failure leads.
record Attempt (m : LiveTransportManager) (s : Stage) : Type 0 where
  kind : RealtimeMode
  tried : ℕ
  was_open : Bool
  phase : Phase
  channel : ℕ
  holds : Holds kind tried was_open phase channel m
  running : m.stopped ≡ false
  is_open : phase ≢ Phase.closed
  armed : Armed kind m
  fails : (s' : Stage) → Fails kind tried s' → Move s s'

abbrev attempt :
    (m : LiveTransportManager) (s : Stage) (k : RealtimeMode) (a : ℕ) (o : Bool) (p : Phase) (j : ℕ)
    → Holds k a o p j m
    → m.stopped ≡ false
    → p ≢ Phase.closed
    → Armed k m
    → ((s' : Stage) → Fails k a s' → Move s s')
    → Attempt m s
attempt m s k a o p j h run alive armed fails = record {
  kind = k;
  tried = a;
  was_open = o;
  phase = p;
  channel = j;
  holds = h;
  running = run;
  is_open = alive;
  armed = armed;
  fails = fails;
}

view : (m : LiveTransportManager) (s : Stage) → Shows m s → Unplugged m ⊎ Attempt m s
view m starting (run, u, ts) = inl u
view m (waiting k a) (rep, u, ts) = inl u
view m polling (rep, u, ts) = inl u
view m halted (st, a, u, q) = inl u
view m (dialing k a) (rep, u, (j, h)) =
    inr (attempt m _ k a _ _ j h rep.running (λ e. cc) (inl u) (λ s'. refuses))
view m (connected RealtimeMode.websocket a) (rep, u, (j, h)) =
    inr (attempt m _ _ a _ _ j h rep.running (λ e. cc) (inl u) (λ s'. drops))
view m (connected RealtimeMode.sse a) (rep, p, (j, h)) =
    inr (attempt m _ _ a _ _ j h rep.running (λ e. cc) (inr (refl, p)) (λ s'. drops))

-- An event that an unheard channel ignores, and what it does to the attempt under way.
by_view :
    (i : ℕ) (m : LiveTransportManager) (f : Channel → LiveTransportManager → LiveTransportManager)
    → (IsFree i m → (c : Channel) → Same m (f c m))
    → (s : Stage) → Shows m s
    → ((x : Attempt m s)
        → Holds x.kind x.tried x.was_open x.phase i m
        → Simulates s (f (made x.kind x.tried x.was_open x.phase) m))
    → Simulates s (on_channel i f m)
by_view i m f unheard s shows act = elim (view m s shows) [
  | inl u ↦ on_free i m f unheard s shows (Unplugged-IsFree i m u)
  | inr x ↦
      on_held i m f unheard s x.kind x.tried x.was_open x.phase x.channel shows x.holds (act x)
]

abbrev failing :
    {s : Stage} {k : RealtimeMode} {a : ℕ} {n : LiveTransportManager}
    → ((s' : Stage) → Fails k a s' → Move s s')
    → ((s' : Stage) × Fails k a s' × Shows n s')
    → Simulates s n
failing move (s', fails, shows) = (s', move s' fails, shows)

module _ (b : Browser) (t : Moment) (i : ℕ) (m : LiveTransportManager) (s : Stage)
    (shows : Shows m s) where
  pub message-Shows :
      (payload : Payload)
      → Simulates s (on_channel i (λ c. deliver_message b t i payload c.kind c.phase) m)
  message-Shows payload =
      by_view i m _ (λ free c. deliver_message-Same i m free b t payload c.kind c.phase) s shows
        λ x here. stays-Same s m _ shows (
          held_message b t i x.tried m payload x.kind x.phase
            (Holds-is_current x.kind x.tried x.was_open x.phase i m x.running here))

  attempt_error :
      (k : RealtimeMode) (a : ℕ) (o : Bool) (p : Phase)
      → Holds k a o p i m
      → m.stopped ≡ false
      → p ≢ Phase.closed
      → Armed k m
      → ((s' : Stage) → Fails k a s' → Move s s')
      → Simulates s (deliver_error b t i k p (made k a o p) m)
  attempt_error RealtimeMode.websocket a o p h run alive armed move =
      stays-Same s m _ shows
        (socket_error b t i a m o p (Holds-is_current RealtimeMode.websocket a o p i m run h))
  attempt_error RealtimeMode.sse a o p h run alive armed move = failing move (
      source_error b t i a m o p alive run h.held.0 armed
        (Holds-is_current RealtimeMode.sse a o p i m run h))

  pub error-Shows : Simulates s (on_channel i (λ c. deliver_error b t i c.kind c.phase c) m)
  error-Shows =
      by_view i m _ (λ free c. deliver_error-Same i m free b t c.kind c.phase c) s shows
        λ x here.
          attempt_error x.kind x.tried x.was_open x.phase here x.running x.is_open x.armed x.fails

  attempt_close :
      (code : ℕ) (reason : String) (k : RealtimeMode) (a : ℕ) (o : Bool) (p : Phase)
      → Holds k a o p i m
      → m.stopped ≡ false
      → p ≢ Phase.closed
      → Armed k m
      → ((s' : Stage) → Fails k a s' → Move s s')
      → Simulates s (deliver_close b t i code reason k p (made k a o p) m)
  unfolding deliver_close
  attempt_close code reason RealtimeMode.sse a o p h run alive armed move = (s, stays, shows)
  attempt_close code reason RealtimeMode.websocket a o p h run alive (inr (e, _)) move = cc
  attempt_close code reason RealtimeMode.websocket a o p h run alive (inl u) move = failing move (
      socket_close b t i a m code reason o p alive run h.held.1 u
        (Holds-is_current RealtimeMode.websocket a o p i m run h))

  pub close-Shows :
      (code : ℕ) (reason : String)
      → Simulates s (on_channel i (λ c. deliver_close b t i code reason c.kind c.phase c) m)
  close-Shows code reason =
      by_view i m _ (λ free c. deliver_close-Same i m free b t code reason c.kind c.phase c) s shows
        λ x here.
          attempt_close code reason x.kind x.tried x.was_open x.phase here x.running x.is_open
            x.armed x.fails

  pub stop_event : (next : TransportConnectionState) → Simulates s (stop next m)
  stop_event next = (halted, halts, stop-Shows next m (Shows-Tracked s m shows))
