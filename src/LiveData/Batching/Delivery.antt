-- ===== src/LiveData/Batching/Delivery.antt =====
-- The way of a live event to the data, and the timers on it (src/hooks/useDashboardLiveData.ts,
-- `queueLiveEvent`, `flushPendingEvents`).
use distributed_job_platform.Base.{
  ℕ, ◌≡◌, refl, sym, ap, ◌∙◌, Bool, true, false, List, [], ◌∷◌, ◌++◌, Option, none, some, find,
  arith,
}
use distributed_job_platform.Models.Snapshot.{SystemEvent}
use distributed_job_platform.Models.Console.{Clock, ConsoleData}
use distributed_job_platform.ConsoleData.Events.{append_events, merge_events, fresh_events}
use distributed_job_platform.LiveData.Batching.{
  Batching, TimerTask, flush, refresh, Timeout, has_timeout, clear_timeout, flush_pending_events,
  queue_live_event, Happening, comes, fires, replaced, switched, run_timer, fired, happens, history,
  flush_batch, arm,
}

-- The events that came, and the data that stood in for others, in their order.
abbrev pub came : List Happening → List SystemEvent
came [] = []
came (comes event ∷ hs) = event ∷ came hs
came (h ∷ hs) = came hs

abbrev pub replaced_by : List Happening → List ConsoleData
replaced_by [] = []
replaced_by (replaced next ∷ hs) = next ∷ replaced_by hs
replaced_by (h ∷ hs) = replaced_by hs

abbrev pub keeps_mode : List Happening → Bool
keeps_mode [] = true
keeps_mode (switched next ∷ hs) = false
keeps_mode (h ∷ hs) = keeps_mode hs

-- A write of the data: a batch of events is appended, or other data stand in for them.
pub data Write : Type 0 where
  batch : List SystemEvent → Write
  replacement : ConsoleData → Write

abbrev pub written : Clock → List Write → ConsoleData → ConsoleData
written c [] d = d
written c (batch events ∷ ws) d = written c ws (append_events c d events)
written c (replacement next ∷ ws) d = written c ws next

abbrev pub batches : List Write → List SystemEvent
batches [] = []
batches (batch events ∷ ws) = events ++ batches ws
batches (replacement next ∷ ws) = batches ws

abbrev pub replacements : List Write → List ConsoleData
replacements [] = []
replacements (batch events ∷ ws) = replacements ws
replacements (replacement next ∷ ws) = next ∷ replacements ws

append-nil : (xs : List SystemEvent) → xs ++ [] ≡ xs
append-nil [] = refl
append-nil (x ∷ xs) = ap (λ ys. x ∷ ys) (append-nil xs)

append_assoc : (xs ys zs : List SystemEvent) → (xs ++ ys) ++ zs ≡ xs ++ (ys ++ zs)
append_assoc [] ys zs = refl
append_assoc (x ∷ xs) ys zs = ap (λ r. x ∷ r) (append_assoc xs ys zs)

-- The writes `ws` take `s` to `t`, while the events `new` come.
record IsWritten (c : Clock) (s t : Batching) (ws : List Write) (new : List SystemEvent)
    : Type 0 where
  conserves : batches ws ++ t.pending_events ≡ s.pending_events ++ new
  writes : t.console_data ≡ written c ws s.console_data

-- What a flush does to the batch, the ref, the data and the timers.
flushed :
    (c : Clock) (events : List SystemEvent) (s : Batching)
    → s.pending_events ≡ events
    → let r = flush_batch c events s in
      (r.pending_events ≡ [])
      × (r.event_flush_timer ≡ s.event_flush_timer)
      × (r.console_data ≡ append_events c s.console_data events)
unfolding append_events fresh_events merge_events
flushed c [] s h = (h, refl, refl)
flushed c (e ∷ es) s h = (refl, refl, refl)

flush-IsWritten :
    (c : Clock) (s : Batching)
    → IsWritten c s (flush_pending_events c s) (batch s.pending_events ∷ []) []
unfolding flush_pending_events
flush-IsWritten c s =
    let f =
      flushed c s.pending_events
        (record s {
          event_flush_timer = none;
          running = clear_timeout s.event_flush_timer s.running;
        })
        refl in
    record { conserves = rw f.0 (append-nil (s.pending_events ++ [])); writes = f.2 }

run-IsWritten :
    (c : Clock) (task : TimerTask) (s : Batching)
    → (ws : List Write) × (replacements ws ≡ []) × IsWritten c s (run_timer c task s) ws []
run-IsWritten c flush s = (batch s.pending_events ∷ [], refl, flush-IsWritten c s)
run-IsWritten c refresh s =
    ([], refl, record { conserves = sym (append-nil s.pending_events); writes = refl })

fired-IsWritten :
    (c : Clock) (n : ℕ) (o : Option Timeout) (s : Batching)
    → (ws : List Write) × (replacements ws ≡ []) × IsWritten c s (fired c n o s) ws []
fired-IsWritten c n none s =
    ([], refl, record { conserves = sym (append-nil s.pending_events); writes = refl })
fired-IsWritten c n (some timeout) s =
    let (ws, e, w) =
      run-IsWritten c timeout.task (record s { running = clear_timeout (some n) s.running }) in
    (ws, e, record { conserves = w.conserves; writes = w.writes })

armed :
    (c : Clock) (o : Option ℕ) (s : Batching)
    → ((arm o s).pending_events ≡ s.pending_events) × ((arm o s).console_data ≡ s.console_data)
armed c (some t) s = (refl, refl)
armed c none s = (refl, refl)

-- One happening is a list of writes, which is empty, a batch or a replacement.
happens-IsWritten :
    (c : Clock) (h : Happening) (s : Batching)
    → keeps_mode (h ∷ []) ≡ true
    → (ws : List Write) × (replacements ws ≡ replaced_by (h ∷ []))
      × IsWritten c s (happens c h s) ws (came (h ∷ []))
unfolding happens queue_live_event
happens-IsWritten c (comes event) s k =
    let a =
      armed c s.event_flush_timer (record s { pending_events = s.pending_events ++ event ∷ [] }) in
    ([], refl, record { conserves = a.0; writes = a.1 })
happens-IsWritten c (fires n) s k = fired-IsWritten c n (find (has_timeout n) s.running) s
happens-IsWritten c (replaced next) s k = (
  replacement next ∷ [],
  refl,
  record { conserves = sym (append-nil s.pending_events); writes = refl },
)
happens-IsWritten c (switched next) s k = ground arith

first_keeps :
    (h : Happening) (hs : List Happening)
    → keeps_mode (h ∷ hs) ≡ true
    → (keeps_mode (h ∷ []) ≡ true) × (keeps_mode hs ≡ true)
first_keeps (comes event) hs k = (refl, k)
first_keeps (fires timer) hs k = (refl, k)
first_keeps (replaced next) hs k = (refl, k)
first_keeps (switched next) hs k = ground arith

came_first : (h : Happening) (hs : List Happening) → came (h ∷ []) ++ came hs ≡ came (h ∷ hs)
came_first (comes event) hs = refl
came_first (fires timer) hs = refl
came_first (replaced next) hs = refl
came_first (switched next) hs = refl

replaced_first :
    (h : Happening) (hs : List Happening)
    → replaced_by (h ∷ []) ++ replaced_by hs ≡ replaced_by (h ∷ hs)
replaced_first (comes event) hs = refl
replaced_first (fires timer) hs = refl
replaced_first (replaced next) hs = refl
replaced_first (switched next) hs = refl

batches-append : (ws vs : List Write) → batches (ws ++ vs) ≡ batches ws ++ batches vs
batches-append [] vs = refl
batches-append (batch events ∷ ws) vs =
    ap (λ es. events ++ es) (batches-append ws vs)
    ∙ sym (append_assoc events (batches ws) (batches vs))
batches-append (replacement next ∷ ws) vs = batches-append ws vs

replacements-append :
    (ws vs : List Write) → replacements (ws ++ vs) ≡ replacements ws ++ replacements vs
replacements-append [] vs = refl
replacements-append (batch events ∷ ws) vs = replacements-append ws vs
replacements-append (replacement next ∷ ws) vs = ap (λ ds. next ∷ ds) (replacements-append ws vs)

written-append :
    (c : Clock) (ws vs : List Write) (d : ConsoleData)
    → written c (ws ++ vs) d ≡ written c vs (written c ws d)
written-append c [] vs d = refl
written-append c (batch events ∷ ws) vs d = written-append c ws vs (append_events c d events)
written-append c (replacement next ∷ ws) vs d = written-append c ws vs next

then-IsWritten :
    (c : Clock) (s t u : Batching) (ws vs : List Write) (es fs : List SystemEvent)
    → IsWritten c s t ws es
    → IsWritten c t u vs fs
    → IsWritten c s u (ws ++ vs) (es ++ fs)
then-IsWritten c s t u ws vs es fs a b = record {
  conserves =
      ap (λ x. x ++ u.pending_events) (batches-append ws vs)
      ∙ append_assoc (batches ws) (batches vs) u.pending_events
      ∙ ap (λ x. batches ws ++ x) b.conserves
      ∙ sym (append_assoc (batches ws) t.pending_events fs)
      ∙ ap (λ x. x ++ fs) a.conserves
      ∙ append_assoc s.pending_events es fs;
  writes = b.writes ∙ ap (written c vs) a.writes ∙ sym (written-append c ws vs s.console_data);
}

-- While the mode is not switched, the data are what they were at first after a list of writes: replacements,
-- which are those that happened, and appended batches of events; the events of the batches and then those
-- still pending are exactly those that were pending at first and came since, in the order in which they came.
pub history-IsWritten :
    (c : Clock) (hs : List Happening) (s : Batching)
    → keeps_mode hs ≡ true
    → let r = history c hs s in
      (ws : List Write) × (replacements ws ≡ replaced_by hs)
      × (batches ws ++ r.pending_events ≡ s.pending_events ++ came hs)
      × (r.console_data ≡ written c ws s.console_data)
unfolding history
history-IsWritten c [] s k = ([], refl, sym (append-nil s.pending_events), refl)
history-IsWritten c (h ∷ hs) s k =
    let keeps = first_keeps h hs k in
    let (ws, e, w) = happens-IsWritten c h s keeps.0 in
    let (vs, f, conserved, writes) = history-IsWritten c hs (happens c h s) keeps.1 in
    let both =
      then-IsWritten c s (happens c h s) (history c hs (happens c h s)) ws vs (came (h ∷ []))
        (came hs) w (record { conserves = conserved; writes = writes }) in
    (
      ws ++ vs,
      replacements-append ws vs
          ∙ ap (λ x. x ++ replacements vs) e
          ∙ ap (λ x. replaced_by (h ∷ []) ++ x) f
          ∙ replaced_first h hs,
      both.conserves ∙ ap (λ x. s.pending_events ++ x) (came_first h hs),
      both.writes,
    )
