-- ===== src/Models/Snapshot.antt =====
-- Workers, rate limits, schedules and the dashboard's snapshot (src/lib/models.ts, lines 41 to 50
-- and 154 to 277). A measured value is an exact fraction; a dictionary is an association list.
use distributed_job_platform.Base.{ℕ, String, Bool, Option, List}
use distributed_job_platform.Json.{Json}
use distributed_job_platform.Models.Jobs.{Job, JobState, DeadLetter}

-- A number with decimals, or the quotient of two whole numbers.
pub record Fraction : Type 0 where
  pub over : ℕ
  pub under : ℕ

pub record MetricsPoint : Type 0 where
  pub timestamp : String
  pub value : Fraction

pub record LatencySummary : Type 0 where
  pub p50_ms : Fraction
  pub p95_ms : Fraction
  pub p99_ms : Fraction

pub record WorkerLeaseHealth : Type 0 where
  pub worker_id : String
  pub hostname : String
  pub status : String
  pub queues : List String
  pub last_seen_at : String
  pub heartbeat_age_ms : ℕ
  pub active_lease_count : ℕ
  pub oldest_lease_age_ms : ℕ
  pub oldest_lease_job_id : Option String
  pub version : String
  pub started_at : String
  pub lease_expires_at : Option String

pub record WorkerStatus : Type 0 where
  pub worker_id : String
  pub hostname : String
  pub queues : List String
  pub concurrency : ℕ
  pub status : String
  pub started_at : String
  pub last_seen_at : String
  pub version : String

pub record RateLimitPolicy : Type 0 where
  pub id : String
  pub name : String
  pub scope : String
  pub scope_value : Option String
  pub mode : String
  pub limit : ℕ
  pub window_seconds : ℕ
  pub burst : ℕ
  pub enabled : Bool
  pub created_at : String
  pub updated_at : String

pub record RateLimitStatus : Type 0 where
  pub policy : RateLimitPolicy
  pub active_count : ℕ
  pub recent_count : ℕ
  pub throttled : Bool

pub record SchedulerLeaderStatus : Type 0 where
  pub scheduler_id : Option String
  pub token : Option String
  pub is_leader_healthy : Option Bool
  pub acquired_at : Option String
  pub last_heartbeat_at : Option String
  pub lease_expires_at : Option String

-- A count, or `Infinity`, which `Number` reads in a form.
pub data Amount : Type 0 where
  amount : ℕ → Amount
  unbounded : Amount

pub record Schedule : Type 0 where
  pub id : String
  pub name : String
  pub cron_expression : String
  pub queue : String
  pub type : String
  pub payload : Json
  pub priority : ℕ
  pub max_attempts : Amount
  pub timeout_seconds : Amount
  pub enabled : Bool
  pub timezone : String
  pub next_run_at : String
  pub last_run_at : Option String
  pub created_at : String
  pub updated_at : String

pub record SystemEvent : Type 0 where
  pub kind : String
  pub job_id : Option String
  pub queue : Option String
  pub worker_id : Option String
  pub state : Option JobState
  pub message : Option String
  pub timestamp : String

pub record Overview : Type 0 where
  pub total_jobs : ℕ
  pub queued_jobs : ℕ
  pub blocked_jobs : ℕ
  pub throttled_jobs : ℕ
  pub active_jobs : ℕ
  pub failed_jobs : ℕ
  pub retrying_jobs : ℕ
  pub completed_jobs : ℕ
  pub scheduled_jobs : ℕ
  pub canceled_jobs : ℕ
  pub queue_lengths : List (String × ℕ)
  pub average_exec_ms : Fraction
  pub last_updated_at : String
  pub active_workers : ℕ
  pub delayed_backlog : ℕ

pub record Metrics : Type 0 where
  pub jobs_per_second : Fraction
  pub retry_rate : Fraction
  pub dead_letter_rate : Fraction
  pub execution_latency : LatencySummary
  pub queue_latency : LatencySummary
  pub max_worker_heartbeat_age_ms : ℕ

pub record Trend : Type 0 where
  pub throughput : List MetricsPoint
  pub execution_p95_ms : List MetricsPoint
  pub queue_latency_p95_ms : List MetricsPoint
  pub retry_rate : List MetricsPoint
  pub dead_letter_rate : List MetricsPoint

pub record DashboardSnapshot : Type 0 where
  pub overview : Overview
  pub metrics : Metrics
  pub trend : Trend
  pub workers : List WorkerLeaseHealth
  pub dead_letters : List DeadLetter
  pub blocked_jobs : List Job
  pub throttled_jobs : List Job
  pub rate_limits : List RateLimitStatus
  pub leader : SchedulerLeaderStatus
