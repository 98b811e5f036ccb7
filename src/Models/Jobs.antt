-- ===== src/Models/Jobs.antt =====
-- Jobs, their attempts, events and dependency graphs (src/lib/models.ts, lines 1 to 152 and 279 to
-- 286). Instants are ISO texts. A field that may be missing is an `Option`. Counts are naturals.
use distributed_job_platform.Base.{ℕ, String, Bool, Option, List}
use distributed_job_platform.Json.{Json}

pub data JobState : Type 0 where
  queued scheduled retrying blocked throttled active completed failed canceled : JobState

pub record Job : Type 0 where
  pub id : String
  pub type : String
  pub queue : String
  pub tenant_id : String
  pub payload : Json
  pub priority : ℕ
  pub attempts : ℕ
  pub max_attempts : ℕ
  pub state : JobState
  pub schema_version : ℕ
  pub idempotency_key : Option String
  pub workflow_id : Option String
  pub parent_job_id : Option String
  pub dependency_policy : Option String
  pub blocked_reason : Option String
  pub created_at : String
  pub updated_at : String
  pub run_at : String
  pub started_at : Option String
  pub finished_at : Option String
  pub last_heartbeat_at : Option String
  pub lease_expires_at : Option String
  pub throttle_until : Option String
  pub last_error : Option String
  pub result : Option Json
  pub worker_id : Option String
  pub lease_token : Option String
  pub timeout_seconds : ℕ
  pub cancel_requested : Bool
  pub execution_ms : ℕ

pub record JobAttempt : Type 0 where
  pub id : ℕ
  pub job_id : String
  pub attempt : ℕ
  pub worker_id : String
  pub lease_token : Option String
  pub status : String
  pub error_type : Option String
  pub error_message : Option String
  pub stack_trace : Option String
  pub lease_expired : Bool
  pub started_at : String
  pub finished_at : Option String

pub record JobEvent : Type 0 where
  pub job_id : String
  pub type : String
  pub message : String
  pub metadata : Option Json
  pub occurred_at : String

pub record DependencyNode : Type 0 where
  pub job_id : String
  pub type : String
  pub state : JobState
  pub queue : String
  pub parent_job_id : Option String
  pub workflow_id : Option String
  pub blocked_reason : Option String
  pub dependency_policy : Option String
  pub depends_on : Option (List String)
  pub dependents : Option (List String)

pub record DependencyGraph : Type 0 where
  pub root_job_id : String
  pub nodes : List DependencyNode

pub record IdempotencyRecord : Type 0 where
  pub scope : String
  pub tenant_id : String
  pub job_type : String
  pub idempotency_key : String
  pub job_id : String
  pub status : String
  pub outcome : Option Json
  pub first_seen_at : String
  pub updated_at : String
  pub expires_at : String

pub record DeadLetter : Type 0 where
  pub job_id : String
  pub queue : String
  pub worker_id : String
  pub error_type : Option String
  pub error_message : String
  pub stack_trace : Option String
  pub failed_at : String
  pub last_attempt : ℕ
  pub replay_count : ℕ
  pub last_replayed_at : Option String
  pub job : Option Job
  pub attempts : Option (List JobAttempt)

pub record JobInspection : Type 0 where
  pub job : Job
  pub attempts : List JobAttempt
  pub events : List JobEvent
  pub graph : DependencyGraph
  pub idempotency : Option IdempotencyRecord
  pub dead_letter : Option DeadLetter
