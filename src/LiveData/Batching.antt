-- ===== src/LiveData/Batching.antt =====
-- Live events on their way to the console's data (src/hooks/useDashboardLiveData.ts, `queueLiveEvent`,
-- `flushPendingEvents`, `scheduleConsoleRefresh`, and the part of the effect on `liveMode` that is about
-- them). `setTimeout` returns a fresh number that is not 0, and the timer runs until it fires or is cleared.
pub mod Delivery
pub mod Arming
use distributed_job_platform.Base.{
  ℕ, suc, ◌+◌, String, Bool, true, false, List, [], ◌∷◌, ◌++◌, Option, none, some, ◌==◌, not, keep,
  find,
}
use distributed_job_platform.Models.Snapshot.{SystemEvent}
use distributed_job_platform.Models.Console.{ConsoleData, Clock}
use distributed_job_platform.ConsoleData.Events.{append_events}

abbrev pub event_batch_window_ms : ℕ
event_batch_window_ms = 180

abbrev pub console_refresh_debounce_ms : ℕ
console_refresh_debounce_ms = 320

pub data TimerTask : Type 0 where
  flush refresh : TimerTask

pub record Timeout : Type 0 where
  pub id : ℕ
  pub task : TimerTask

-- The refs, the data, the timers that run, the next timer's number, and the refreshes started by timers.
pub record Batching : Type 0 where
  pub pending_events : List SystemEvent
  pub event_flush_timer : Option ℕ
  pub refresh_debounce : Option ℕ
  pub console_data : ConsoleData
  pub running : List Timeout
  pub next_timer : ℕ
  pub refreshes : ℕ

abbrev pub has_timeout : ℕ → Timeout → Bool
has_timeout n timeout = timeout.id == n

-- `window.clearTimeout`, of a number that is not null.
abbrev pub clear_timeout : Option ℕ → List Timeout → List Timeout
clear_timeout none running = running
clear_timeout (some n) running = keep (λ timeout. not (has_timeout n timeout)) running

abbrev pub schedule_console_refresh : Batching → Batching
schedule_console_refresh s = record s {
  refresh_debounce = some s.next_timer;
  running =
      record { id = s.next_timer; task = refresh } ∷ clear_timeout s.refresh_debounce s.running;
  next_timer = s.next_timer + 1;
}

abbrev pub flush_batch : Clock → List SystemEvent → Batching → Batching
flush_batch c [] s = s
flush_batch c (event ∷ events) s = schedule_console_refresh (record s {
  pending_events = [];
  console_data = append_events c s.console_data (event ∷ events);
})

unfoldable pub flush_pending_events : Clock → Batching → Batching
flush_pending_events c s =
    flush_batch c s.pending_events
      (record s { event_flush_timer = none; running = clear_timeout s.event_flush_timer s.running })

abbrev pub arm : Option ℕ → Batching → Batching
arm (some timer) s = s
arm none s = record s {
  event_flush_timer = some s.next_timer;
  running = record { id = s.next_timer; task = flush } ∷ s.running;
  next_timer = s.next_timer + 1;
}

unfoldable pub queue_live_event : SystemEvent → Batching → Batching
queue_live_event event s =
    arm s.event_flush_timer (record s { pending_events = s.pending_events ++ event ∷ [] })

-- The switch of the mode forgets the pending events and both timers.
unfoldable pub forget_events : ConsoleData → Batching → Batching
forget_events next_data s = record s {
  pending_events = [];
  refresh_debounce = none;
  event_flush_timer = none;
  running = clear_timeout s.event_flush_timer (clear_timeout s.refresh_debounce s.running);
  console_data = next_data;
}

-- What can happen: an event comes in, a timer fires if it runs, the data are replaced by a refresh or an
-- operation, and the mode is switched.
pub data Happening : Type 0 where
  comes : SystemEvent → Happening
  fires : ℕ → Happening
  replaced : ConsoleData → Happening
  switched : ConsoleData → Happening

abbrev pub run_timer : Clock → TimerTask → Batching → Batching
run_timer c flush s = flush_pending_events c s
run_timer c refresh s = record s { refreshes = s.refreshes + 1 }

-- A timer that fires runs no longer; its number stays in its ref, until the task resets it.
abbrev pub fired : Clock → ℕ → Option Timeout → Batching → Batching
fired c n none s = s
fired c n (some timeout) s =
    run_timer c timeout.task (record s { running = clear_timeout (some n) s.running })

unfoldable pub happens : Clock → Happening → Batching → Batching
happens c (comes event) s = queue_live_event event s
happens c (fires n) s = fired c n (find (has_timeout n) s.running) s
happens c (replaced next) s = record s { console_data = next }
happens c (switched next) s = forget_events next s

unfoldable pub history : Clock → List Happening → Batching → Batching
history c [] s = s
history c (h ∷ hs) s = history c hs (happens c h s)
