-- ===== src/ConsoleData/Stabilizing.antt =====
-- Keeping what a refresh did not change (src/lib/console-data.ts, `stabilizeConsoleData`).
use distributed_job_platform.Base.{ℕ, String, List}
use distributed_job_platform.Models.Jobs.{Job, DeadLetter}
use distributed_job_platform.Models.Snapshot.{
  Schedule, SystemEvent, WorkerStatus, WorkerLeaseHealth, RateLimitStatus, MetricsPoint, Trend,
  Overview, Metrics, SchedulerLeaderStatus, DashboardSnapshot,
}
use distributed_job_platform.Models.Console.{ConsoleData}
use distributed_job_platform.LiveRefresh.{create_event_fingerprint}
use distributed_job_platform.Json.{Json}
use distributed_job_platform.LiveRefresh.Serializing.{stable_serialize}
use distributed_job_platform.ConsoleData.Reuse.{reuse_list, reuse_value}

-- The JavaScript values that the records stand for, and `JSON.stringify`.
pub record Serializer : Type 0 where
  pub stringify : Json → String
  pub job : Job → Json
  pub schedule : Schedule → Json
  pub event : SystemEvent → Json
  pub worker_status : WorkerStatus → Json
  pub worker : WorkerLeaseHealth → Json
  pub dead_letter : DeadLetter → Json
  pub rate_limit : RateLimitStatus → Json
  pub point : MetricsPoint → Json
  pub trend : Trend → Json
  pub queue_lengths : List (String × ℕ) → Json
  pub overview : Overview → Json
  pub metrics : Metrics → Json
  pub leader : SchedulerLeaderStatus → Json
  pub snapshot : DashboardSnapshot → Json

-- `stableSerialize` of a record.
abbrev pub text_by : {A : Type 0} → (Json → String) → (A → Json) → A → String
text_by stringify value_of x = stable_serialize stringify (value_of x)

module _ (ser : Serializer) where
  abbrev pub reuse_jobs : List Job → List Job → List Job
  reuse_jobs = reuse_list (text_by ser.stringify ser.job) (λ j. j.id)

  abbrev reuse_points : List MetricsPoint → List MetricsPoint → List MetricsPoint
  reuse_points = reuse_list (text_by ser.stringify ser.point) (λ x. x.timestamp)

  pub stabilize_trend : Trend → Trend → Trend
  stabilize_trend previous next = reuse_value (text_by ser.stringify ser.trend) previous (record {
    throughput = reuse_points previous.throughput next.throughput;
    execution_p95_ms = reuse_points previous.execution_p95_ms next.execution_p95_ms;
    queue_latency_p95_ms = reuse_points previous.queue_latency_p95_ms next.queue_latency_p95_ms;
    retry_rate = reuse_points previous.retry_rate next.retry_rate;
    dead_letter_rate = reuse_points previous.dead_letter_rate next.dead_letter_rate;
  })

  pub stabilize_overview : Overview → Overview → Overview
  stabilize_overview previous next =
      reuse_value (text_by ser.stringify ser.overview) previous (record next {
        queue_lengths =
            reuse_value (text_by ser.stringify ser.queue_lengths) previous.queue_lengths
              next.queue_lengths;
      })

  pub stabilize_snapshot : DashboardSnapshot → DashboardSnapshot → DashboardSnapshot
  stabilize_snapshot previous next =
      reuse_value (text_by ser.stringify ser.snapshot) previous (record next {
        overview = stabilize_overview previous.overview next.overview;
        metrics = reuse_value (text_by ser.stringify ser.metrics) previous.metrics next.metrics;
        trend = stabilize_trend previous.trend next.trend;
        workers =
            reuse_list (text_by ser.stringify ser.worker) (λ w. w.worker_id) previous.workers
              next.workers;
        dead_letters =
            reuse_list (text_by ser.stringify ser.dead_letter) (λ x. x.job_id) previous.dead_letters
              next.dead_letters;
        blocked_jobs = reuse_jobs previous.blocked_jobs next.blocked_jobs;
        throttled_jobs = reuse_jobs previous.throttled_jobs next.throttled_jobs;
        rate_limits =
            reuse_list (text_by ser.stringify ser.rate_limit) (λ x. x.policy.id)
              previous.rate_limits next.rate_limits;
        leader = reuse_value (text_by ser.stringify ser.leader) previous.leader next.leader;
      })

  pub stabilize_console_data : ConsoleData → ConsoleData → ConsoleData
  stabilize_console_data previous next = record next {
    snapshot = stabilize_snapshot previous.snapshot next.snapshot;
    jobs = reuse_jobs previous.jobs next.jobs;
    schedules =
        reuse_list (text_by ser.stringify ser.schedule) (λ s. s.id) previous.schedules
          next.schedules;
    events =
        reuse_list (text_by ser.stringify ser.event) create_event_fingerprint previous.events
          next.events;
    worker_statuses =
        reuse_list (text_by ser.stringify ser.worker_status) (λ w. w.worker_id)
          previous.worker_statuses next.worker_statuses;
  }
