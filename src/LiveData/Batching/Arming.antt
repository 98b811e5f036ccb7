-- ===== src/LiveData/Batching/Arming.antt =====
-- The timers that flush the pending events (src/hooks/useDashboardLiveData.ts, `queueLiveEvent`,
-- `flushPendingEvents`).
use distributed_job_platform.Base.{
  ℕ, ◌≡◌, ◌≢◌, refl, sym, ap, ◌∙◌, false, List, [], ◌∷◌, ◌++◌, Option, none, some, find, ◌==◌,
  ==_iff, Bool-cases, inl, inr, arith,
}
use distributed_job_platform.Models.Snapshot.{SystemEvent}
use distributed_job_platform.Models.Console.{Clock}
use distributed_job_platform.ConsoleData.Events.{append_events}
use distributed_job_platform.LiveData.Batching.{
  Batching, TimerTask, flush, refresh, Timeout, has_timeout, clear_timeout, flush_pending_events,
  queue_live_event, forget_events, Happening, comes, fires, replaced, switched, run_timer, fired,
  happens, history, flush_batch, arm,
}

-- The timer runs, and its task is this.
abbrev pub Runs : ℕ → TimerTask → Batching → Type 0
Runs n task s = find (has_timeout n) s.running ≡ some (record { id = n; task = task })

-- The timer of the ref runs and will flush, and the ref is set while events are pending.
pub record IsArmed (s : Batching) : Type 0 where
  pub flushes : (n : ℕ) → s.event_flush_timer ≡ some n → Runs n flush s
  pub pends : s.pending_events ≢ [] → (n : ℕ) × (s.event_flush_timer ≡ some n)

find-clear :
    (n m : ℕ) (ts : List Timeout)
    → (n == m) ≡ false
    → find (has_timeout m) (clear_timeout (some n) ts) ≡ find (has_timeout m) ts
find-clear n m [] h = refl
find-clear n m (t ∷ ts) h =
    ground (arith, find-clear n m ts h, ==_iff t.id n, ==_iff t.id m, ==_iff n m)

flushed-rests :
    (c : Clock) (events : List SystemEvent) (s : Batching)
    → s.pending_events ≡ events
    → let r = flush_batch c events s in
      (r.pending_events ≡ []) × (r.event_flush_timer ≡ s.event_flush_timer)
flushed-rests c [] s h = (h, refl)
flushed-rests c (e ∷ es) s h = (refl, refl)

at_rest : (s : Batching) → s.pending_events ≡ [] → s.event_flush_timer ≡ none → IsArmed s
at_rest s p e = record { flushes = λ n f. ground (arith, e, f); pends = λ ne. absurd (ne p) }

flush-IsArmed : (c : Clock) (s : Batching) → IsArmed (flush_pending_events c s)
unfolding flush_pending_events
flush-IsArmed c s =
    let r =
      flushed-rests c s.pending_events
        (record s {
          event_flush_timer = none;
          running = clear_timeout s.event_flush_timer s.running;
        })
        refl in
    at_rest _ r.0 r.1

-- A timer that fires and is not the ref's leaves the ref's timer running.
other-IsArmed :
    (n : ℕ) (s : Batching)
    → IsArmed s
    → ((m : ℕ) → s.event_flush_timer ≡ some m → (n == m) ≡ false)
    → IsArmed (record s { running = clear_timeout (some n) s.running })
other-IsArmed n s a apart = record {
  flushes = λ m e. find-clear n m s.running (apart m e) ∙ a.flushes m e;
  pends = a.pends;
}

abbrev task_of : Option Timeout → TimerTask
task_of none = refresh
task_of (some timeout) = timeout.task

-- The ref's timer flushes, so that a timer with another task is not the ref's.
refresh_apart :
    (n m : ℕ) (s : Batching) (timeout : Timeout)
    → IsArmed s
    → find (has_timeout n) s.running ≡ some timeout
    → timeout.task ≡ refresh
    → s.event_flush_timer ≡ some m
    → (n == m) ≡ false
refresh_apart n m s timeout a f t e = elim (Bool-cases (n == m)) [
  | inl q ↦
      let same : n ≡ m = (==_iff n m).0 q in
      let clash : timeout.task ≡ flush =
        ap task_of
          (sym f ∙ (ap (λ (k : ℕ). find (has_timeout k) s.running) same ∙ a.flushes m e)) in
      ground (arith, t, clash)
  | inr q ↦ q
]

ran-IsArmed :
    (c : Clock) (n : ℕ) (timeout : Timeout) (task : TimerTask) (s : Batching)
    → timeout.task ≡ task
    → find (has_timeout n) s.running ≡ some timeout
    → IsArmed s
    → IsArmed (run_timer c task (record s { running = clear_timeout (some n) s.running }))
ran-IsArmed c n timeout flush s t f a =
    flush-IsArmed c (record s { running = clear_timeout (some n) s.running })
ran-IsArmed c n timeout refresh s t f a =
    let o = other-IsArmed n s a (λ m e. refresh_apart n m s timeout a f t e) in
    record { flushes = o.flushes; pends = o.pends }

fired-IsArmed :
    (c : Clock) (n : ℕ) (o : Option Timeout) (s : Batching)
    → find (has_timeout n) s.running ≡ o
    → IsArmed s
    → IsArmed (fired c n o s)
fired-IsArmed c n none s f a = a
fired-IsArmed c n (some timeout) s f a = ran-IsArmed c n timeout timeout.task s refl f a

arm-IsArmed :
    (events : List SystemEvent) (o : Option ℕ) (s : Batching)
    → s.event_flush_timer ≡ o
    → IsArmed s
    → IsArmed (arm o (record s { pending_events = events }))
arm-IsArmed events (some n) s e a = record { flushes = a.flushes; pends = λ ne. (n, e) }
arm-IsArmed events none s e a = record {
  flushes = λ n f. ground (arith, f, ==_iff s.next_timer n);
  pends = λ ne. (s.next_timer, refl);
}

happens-IsArmed : (c : Clock) (h : Happening) (s : Batching) → IsArmed s → IsArmed (happens c h s)
unfolding happens queue_live_event forget_events
happens-IsArmed c (comes event) s a =
    arm-IsArmed (s.pending_events ++ event ∷ []) s.event_flush_timer s refl a
happens-IsArmed c (fires n) s a = fired-IsArmed c n (find (has_timeout n) s.running) s refl a
happens-IsArmed c (replaced next) s a = record { flushes = a.flushes; pends = a.pends }
happens-IsArmed c (switched next) s a = at_rest _ refl refl

-- A flush hands the batch over and has a refresh of the console on its way.
abbrev pub IsFlushed : Clock → Batching → Batching → Type 0
IsFlushed c s t =
    (t.pending_events ≡ [])
    × (t.event_flush_timer ≡ none)
    × (t.console_data ≡ append_events c s.console_data s.pending_events)
    × ((m : ℕ) × (t.refresh_debounce ≡ some m) × Runs m refresh t)

flush_batch-IsFlushed :
    (c : Clock) (events : List SystemEvent) (s : Batching)
    → s.pending_events ≡ events
    → events ≢ []
    → s.event_flush_timer ≡ none
    → IsFlushed c s (flush_batch c events s)
flush_batch-IsFlushed c [] s e ne f = absurd (ne refl)
flush_batch-IsFlushed c (x ∷ xs) s e ne f = (
  refl,
  f,
  ap (append_events c s.console_data) (sym e),
  (s.next_timer, refl, ground (arith, ==_iff s.next_timer s.next_timer)),
)

fires-IsFlushed :
    (c : Clock) (n : ℕ) (s : Batching)
    → Runs n flush s
    → s.pending_events ≢ []
    → IsFlushed c s (happens c (fires n) s)
unfolding happens flush_pending_events
fires-IsFlushed c n s r ne = rw r (flush_batch-IsFlushed c s.pending_events _ refl ne refl)

-- After any history, switches of the mode included, the timer of the flush ref runs, and the ref is set while
-- events are pending, if this was so at first; so pending events have a timer that runs, and when it fires
-- nothing is pending any more, the ref is reset, the data have the pending events appended, and the timer
-- that will refresh the console runs.
pub history-IsArmed :
    (c : Clock) (hs : List Happening) (s : Batching)
    → IsArmed s
    → let r = history c hs s in
      IsArmed r
      × (r.pending_events ≢ [] → (n : ℕ) × Runs n flush r × IsFlushed c r (happens c (fires n) r))
unfolding history
history-IsArmed c [] s a = (
  a,
  λ ne. let (n, e) = a.pends ne in (n, a.flushes n e, fires-IsFlushed c n s (a.flushes n e) ne),
)
history-IsArmed c (h ∷ hs) s a = history-IsArmed c hs (happens c h s) (happens-IsArmed c h s a)
