-- ===== src/Models/Console.antt =====
-- The state of the console (src/lib/models.ts, lines 294 to 318), and what it reads of the platform.
use distributed_job_platform.Base.{ℕ, String, Bool, List}
use distributed_job_platform.Models.Jobs.{Job, JobInspection}
use distributed_job_platform.Models.Snapshot.{
  Schedule, SystemEvent, WorkerStatus, DashboardSnapshot,
}

pub data Scope : Type 0 where
  live local : Scope

pub record QueueControl : Type 0 where
  pub paused : Bool
  pub draining : Bool
  pub scope : Scope
  pub updated_at : String

pub record WorkerControl : Type 0 where
  pub cordoned : Bool
  pub scope : Scope
  pub updated_at : String

pub data Source : Type 0 where
  demo live : Source

pub record ConsoleData : Type 0 where
  pub snapshot : DashboardSnapshot
  pub jobs : List Job
  pub schedules : List Schedule
  pub events : List SystemEvent
  pub worker_statuses : List WorkerStatus
  pub inspections : List (String × JobInspection)
  pub queue_controls : List (String × QueueControl)
  pub worker_controls : List (String × WorkerControl)
  pub last_hydrated_at : String
  pub source : Source

-- `new Date(text).getTime()` and `new Date(ms).toISOString()`. Instants are valid and not before
-- 1970, as the API and the console write them.
pub record Clock : Type 0 where
  pub get_time : String → ℕ
  pub iso : ℕ → String
