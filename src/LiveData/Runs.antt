-- ===== src/LiveData/Runs.antt =====
-- The live data hook at concrete states: events, refreshes and inspections.
use distributed_job_platform.Base.{
  ℕ, ◌+◌, ◌≡◌, ◌≢◌, arith, find, refl, true, false, List, [], ◌∷◌, ◌++◌, none, some, lookup,
}
use distributed_job_platform.Json.{null}
use distributed_job_platform.Models.Transport.{
  TransportStatus, TransportMode, TransportConnectionState,
}
use distributed_job_platform.ConsoleData.Stabilizing.{Serializer}
use distributed_job_platform.ConsoleData.Tests.{clock, data_of, event_of}
use distributed_job_platform.LiveData.Batching.{
  Batching, flush, Happening as BatchHappening, comes, fires, history as batch_history,
  happens as batch_happens,
}
use distributed_job_platform.LiveData.Batching.Delivery.{
  came, replaced_by, Write, written, batches, replacements, history-IsWritten,
}
use distributed_job_platform.LiveData.Batching.Arming.{IsArmed, Runs, IsFlushed, history-IsArmed}
use distributed_job_platform.LiveData.Refresh.{
  Refresh, Fetching, Setting, is_current_number, refresh_console,
}
use distributed_job_platform.LiveData.Refresh.Endings.{Ending, rejected, finish_refresh}
use distributed_job_platform.LiveData.Refresh.History.{
  Happening as RefreshHappening, refreshes, settles, finishes, history as refresh_history,
  happens as refresh_happens, has_refresh_number,
}
use distributed_job_platform.LiveData.Refresh.Writers.{IsHeld, IsUnwritten, history-IsHeld}
use distributed_job_platform.LiveData.Refresh.Sharing.{AreOut, refresh_console-AreOut}
use distributed_job_platform.LiveData.Inspections.{
  Drawer, Inspector, refused, finish_inspection, sync_inspection, selected_inspection,
}
use distributed_job_platform.LiveData.Inspections.Steady.{selected_inspection-steady}

abbrev quiet_batching : Batching
quiet_batching = record {
  pending_events = [];
  event_flush_timer = none;
  refresh_debounce = none;
  console_data = data_of;
  running = [];
  next_timer = 1;
  refreshes = 0;
}

-- Two events come in one window, the timer fires, and a third comes.
abbrev window : List BatchHappening
window =
    comes (event_of "a" "1") ∷ comes (event_of "b" "2") ∷ fires 1 ∷ comes (event_of "c" "3") ∷ []

history-IsWritten_example :
    let r = batch_history clock window quiet_batching in
    (ws : List Write) × (replacements ws ≡ replaced_by window)
    × (batches ws ++ r.pending_events ≡ quiet_batching.pending_events ++ came window)
    × (r.console_data ≡ written clock ws quiet_batching.console_data)
history-IsWritten_example = history-IsWritten clock window quiet_batching refl

nothing_pending : IsArmed quiet_batching
nothing_pending = record { flushes = λ n e. ground (arith, e); pends = λ n. absurd (n refl) }

history-IsArmed_example :
    let r = batch_history clock window quiet_batching in
    IsArmed r
    × (r.pending_events ≢ []
        → (n : ℕ) × Runs n flush r × IsFlushed clock r (batch_happens clock (fires n) r))
history-IsArmed_example = history-IsArmed clock window quiet_batching nothing_pending

abbrev serialize : Serializer
serialize = record {
  stringify = λ x. "";
  job = λ x. null;
  schedule = λ x. null;
  event = λ x. null;
  worker_status = λ x. null;
  worker = λ x. null;
  dead_letter = λ x. null;
  rate_limit = λ x. null;
  point = λ x. null;
  trend = λ x. null;
  queue_lengths = λ x. null;
  overview = λ x. null;
  metrics = λ x. null;
  leader = λ x. null;
  snapshot = λ x. null;
}

abbrev setting : Setting
setting = record {
  live_mode = true;
  resolved_base_url = some "http://localhost";
  clock = clock;
  now = 3;
  payload_value = λ p. null;
  serialize = serialize;
}

abbrev status : TransportStatus
status = record {
  mode = TransportMode.offline;
  state = TransportConnectionState.idle;
  attempt = 0;
  last_message_at = "";
  last_failure_at = "";
  last_error = "";
  degraded_reason = "";
  next_retry_at = "";
}

-- A refresh under way, numbered 0, whose four requests are out.
abbrev refreshing : Fetching
refreshing = record {
  console_data = data_of;
  loading = true;
  is_refreshing = false;
  global_error = "";
  last_attempt_at = "";
  last_successful_at = "";
  last_fetch_at = "";
  consecutive_failures = 0;
  current_poll_delay_ms = 0;
  transport_status = status;
  data_signature = "";
  fetch_promise = some 0;
  fetch_controller = some 0;
  request_map =
      ("dashboard-snapshot", 1)
      ∷ ("dashboard-jobs", 2)
      ∷ ("dashboard-schedules", 3)
      ∷ ("dashboard-workers", 4)
      ∷ [];
  aborted = [];
  under_way = record { number = 0; quiet = true; waits_for = 1 ∷ 2 ∷ 3 ∷ 4 ∷ [] } ∷ [];
  sent = [];
  next = 5;
}

abbrev forced_then_failed : List RefreshHappening
forced_then_failed =
    refreshes setting (record { quiet = true; force = true })
    ∷ settles "dashboard-jobs"
    ∷ finishes setting 0 (rejected "late")
    ∷ []

history-IsHeld_example :
    let t = refresh_history forced_then_failed refreshing in
    IsHeld t
    × ((e : Setting) (n : ℕ) (ending : Ending)
        → is_current_number t.fetch_controller n ≡ false
        → let u = refresh_happens (finishes e n ending) t in
          IsUnwritten t u
          × ((r : Refresh)
              → find (has_refresh_number n) t.under_way ≡ some r
              → (u.fetch_promise ≡ none) × (u.loading ≡ false)))
history-IsHeld_example = history-IsHeld forced_then_failed refreshing refl

all_out : AreOut 1 2 3 4 refreshing
unfolding lookup
all_out = record { snapshot = refl; jobs = refl; schedules = refl; workers = refl }

refresh_console-AreOut_example :
    let t = refresh_console setting (record { quiet = true; force = true }) refreshing in
    let r : Refresh = record { number = 5; quiet = true; waits_for = 1 ∷ 2 ∷ 3 ∷ 4 ∷ [] } in
    (t.sent ≡ refreshing.sent)
    × (t.aborted ≡ 0 ∷ refreshing.aborted)
    × (t.under_way ≡ r ∷ refreshing.under_way)
    × ((finish_refresh setting r (rejected "Request was cancelled.") t).consecutive_failures
        ≡ t.consecutive_failures + 1)
    × ((finish_refresh setting r (rejected "Request was cancelled.") t).global_error
        ≡ "Request was cancelled.")
refresh_console-AreOut_example =
    refresh_console-AreOut setting true refreshing 0 1 2 3 4 "Request was cancelled." refl refl refl
      all_out refl

abbrev drawer : Drawer
drawer = record {
  console_data = data_of;
  cache = [];
  meta = [];
  signatures = [];
  promises = [];
  controllers = [];
  aborted = [];
  next = 0;
}

abbrev inspector : Inspector
inspector = record {
  live_mode = true;
  clock = clock;
  now = 3;
  stringify = λ x. "";
  inspection_value = λ x. null;
}

selected_inspection-steady_example :
    let now = selected_inspection clock data_of [] "a" in
    (selected_inspection clock data_of (sync_inspection data_of "a" []) "a" ≡ now)
    × (selected_inspection clock data_of
          (finish_inspection inspector "a" 0 none (refused "lost") drawer).cache
          "a"
        ≡ now)
selected_inspection-steady_example = selected_inspection-steady inspector drawer "a" 0 none "lost"
