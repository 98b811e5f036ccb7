-- ===== src/ConsoleData.antt =====
-- The console's state and the operations on it (src/lib/console-data.ts). An operation that reads the
-- clock or draws an id takes the instant or the id as an argument; jobs and events are sorted by
-- `new Date(…).getTime()`, which the clock gives.
pub mod Summary
pub mod Events
pub mod Reconciling
pub mod Replacing
pub mod DeadLetters
pub mod Settled
pub mod Reuse
pub mod Stabilizing
pub mod Workflows
pub mod Tests
use Summary.{summarize_jobs}
use Events.{sort_events, append_event}
use distributed_job_platform.Base.{
  ℕ, String, Bool, true, false, not, List, [], ◌∷◌, ◌++◌, map, Option, none, some, str_eq, sort_by,
  up, down, take, keep, find, any, or_text, lookup, insert, includes, if◌then◌else◌,
}
use distributed_job_platform.Models.Jobs.{
  Job, JobState, DeadLetter, JobInspection, queued, scheduled, retrying, blocked, throttled, active,
  completed, failed, canceled,
}
use distributed_job_platform.Models.Snapshot.{
  DashboardSnapshot, Schedule, SystemEvent, WorkerStatus, WorkerLeaseHealth, Overview, Metrics,
  Trend, LatencySummary, Fraction, SchedulerLeaderStatus,
}
use distributed_job_platform.Models.Console.{ConsoleData, Source, QueueControl, Clock, demo, live}

abbrev no_latency : LatencySummary
no_latency = record {
  p50_ms = record { over = 0; under = 1 };
  p95_ms = record { over = 0; under = 1 };
  p99_ms = record { over = 0; under = 1 };
}

abbrev pub create_empty_snapshot : DashboardSnapshot
create_empty_snapshot = record {
  overview = record {
    total_jobs = 0;
    queued_jobs = 0;
    blocked_jobs = 0;
    throttled_jobs = 0;
    active_jobs = 0;
    failed_jobs = 0;
    retrying_jobs = 0;
    completed_jobs = 0;
    scheduled_jobs = 0;
    canceled_jobs = 0;
    queue_lengths = ("critical", 0) ∷ ("default", 0) ∷ ("low", 0) ∷ [];
    average_exec_ms = record { over = 0; under = 1 };
    last_updated_at = "";
    active_workers = 0;
    delayed_backlog = 0;
  };
  metrics = record {
    jobs_per_second = record { over = 0; under = 1 };
    retry_rate = record { over = 0; under = 1 };
    dead_letter_rate = record { over = 0; under = 1 };
    execution_latency = no_latency;
    queue_latency = no_latency;
    max_worker_heartbeat_age_ms = 0;
  };
  trend = record {
    throughput = [];
    execution_p95_ms = [];
    queue_latency_p95_ms = [];
    retry_rate = [];
    dead_letter_rate = [];
  };
  workers = [];
  dead_letters = [];
  blocked_jobs = [];
  throttled_jobs = [];
  rate_limits = [];
  leader = record {
    scheduler_id = none;
    token = none;
    is_leader_healthy = none;
    acquired_at = none;
    last_heartbeat_at = none;
    lease_expires_at = none;
  };
}

abbrev pub create_empty_console_data : Source → ConsoleData
create_empty_console_data source = record {
  snapshot = create_empty_snapshot;
  jobs = [];
  schedules = [];
  events = [];
  worker_statuses = [];
  inspections = [];
  queue_controls = [];
  worker_controls = [];
  last_hydrated_at = "";
  source = source;
}

abbrev pub is_blocked : Job → Bool
is_blocked j = elim j.state [ blocked ↦ true | _ ↦ false ]

abbrev pub is_throttled : Job → Bool
is_throttled j = elim j.state [ throttled ↦ true | _ ↦ false ]

abbrev pub newest_first : Clock → Job → Job → Bool
newest_first c = down (λ (j : Job). c.get_time j.updated_at)

abbrev pub next_run_first : Clock → Schedule → Schedule → Bool
next_run_first c = up (λ (s : Schedule). c.get_time s.next_run_at)

abbrev pub last_failed_first : Clock → DeadLetter → DeadLetter → Bool
last_failed_first c = down (λ (x : DeadLetter). c.get_time x.failed_at)

abbrev pub freshest_first : WorkerLeaseHealth → WorkerLeaseHealth → Bool
freshest_first = up (λ (w : WorkerLeaseHealth). w.heartbeat_age_ms)

-- The overview that `...data.snapshot.overview, ...summary, lastUpdatedAt` spells.
reconcile_overview : Clock → ℕ → ConsoleData → List Job → Overview
reconcile_overview c now d sorted_jobs =
    let s = summarize_jobs sorted_jobs d.snapshot.workers d.snapshot.rate_limits in
    record {
      total_jobs = s.total_jobs;
      queued_jobs = s.queued_jobs;
      blocked_jobs = s.blocked_jobs;
      throttled_jobs = s.throttled_jobs;
      active_jobs = s.active_jobs;
      failed_jobs = s.failed_jobs;
      retrying_jobs = s.retrying_jobs;
      completed_jobs = s.completed_jobs;
      scheduled_jobs = s.scheduled_jobs;
      canceled_jobs = s.canceled_jobs;
      queue_lengths = s.queue_lengths;
      average_exec_ms = s.average_exec_ms;
      last_updated_at =
          or_text d.snapshot.overview.last_updated_at (or_text d.last_hydrated_at (c.iso now));
      active_workers = s.active_workers;
      delayed_backlog = s.delayed_backlog;
    }

reconcile_snapshot : Clock → ℕ → ConsoleData → List Job → DashboardSnapshot
reconcile_snapshot c now d sorted_jobs = record (d.snapshot) {
  overview = reconcile_overview c now d sorted_jobs;
  blocked_jobs = take 16 (keep is_blocked sorted_jobs);
  throttled_jobs = take 16 (keep is_throttled sorted_jobs);
  dead_letters = sort_by (last_failed_first c) d.snapshot.dead_letters;
  workers = sort_by freshest_first d.snapshot.workers;
}

unfoldable pub reconcile_console_data : Clock → ℕ → ConsoleData → ConsoleData
unfolding reconcile_snapshot reconcile_overview
reconcile_console_data c now d =
    let sorted_jobs = sort_by (newest_first c) d.jobs in
    record d {
      jobs = sorted_jobs;
      schedules = sort_by (next_run_first c) d.schedules;
      events = sort_events c d.events;
      snapshot = reconcile_snapshot c now d sorted_jobs;
    }

pub create_console_data_from_api :
    Clock
    → ℕ
    → DashboardSnapshot
    → List Job
    → List Schedule
    → List WorkerStatus
    → Option (List SystemEvent)
    → ConsoleData
create_console_data_from_api c now snapshot jobs schedules worker_statuses events =
    reconcile_console_data c now (record {
      snapshot = snapshot;
      jobs = jobs;
      schedules = schedules;
      events = elim events [ none ↦ [] | some es ↦ es ];
      worker_statuses = worker_statuses;
      inspections = [];
      queue_controls = [];
      worker_controls = [];
      last_hydrated_at = c.iso now;
      source = live;
    })

abbrev pub has_id : String → Job → Bool
has_id i j = str_eq j.id i

unfoldable pub replace_job : Clock → ℕ → ConsoleData → Job → ConsoleData
replace_job c now d job = reconcile_console_data c now (record d {
  jobs =
      if any (has_id job.id) d.jobs
      then map (λ x. if has_id job.id x then job else x) d.jobs
      else job ∷ d.jobs;
})

unfoldable pub remove_dead_letters : Clock → ℕ → ConsoleData → List String → ConsoleData
remove_dead_letters c now d job_ids = reconcile_console_data c now (record d {
  snapshot = record (d.snapshot) {
    dead_letters = keep (λ x. not (includes x.job_id job_ids)) d.snapshot.dead_letters;
  };
})

pub find_dead_letter : ConsoleData → String → Option DeadLetter
find_dead_letter d job_id = find (λ x. str_eq x.job_id job_id) d.snapshot.dead_letters

pub upsert_inspection : ConsoleData → JobInspection → ConsoleData
upsert_inspection d inspection = record d {
  inspections = insert inspection.job.id inspection d.inspections;
}

-- `{ ...current, ...next }`.
pub merge_queue_controls :
    List (String × QueueControl) → List (String × QueueControl) → List (String × QueueControl)
merge_queue_controls current [] = current
merge_queue_controls current ((k, v) ∷ next) = merge_queue_controls (insert k v current) next
