-- ===== src/Safe.antt =====
-- The console's helpers (src/lib/safe.ts): the timeline and the inspection that stand for a job whose
-- inspection the API has not given, here; the drafts of jobs in the child. An instant is a number of
-- milliseconds, as the clock gives it.
pub mod Storage
pub mod Drafts
pub mod Urls
use distributed_job_platform.Base.{
  ℕ, ◌+◌, ◌*◌, String, Bool, true, false, ◌&&◌, List, [], ◌∷◌, ◌++◌, map, Option, none, some, keep,
  sort_by, down, truthy, or_text, append, str_eq, if◌then◌else◌,
}
use distributed_job_platform.Models.Jobs.{
  Job, JobState, JobEvent, JobInspection, DependencyGraph, DependencyNode, IdempotencyRecord,
  queued, scheduled, retrying, blocked, throttled, active, completed, failed, canceled,
}
use distributed_job_platform.Models.Console.{Clock}
use distributed_job_platform.LiveRefresh.{or_empty}

job_event : Job → String → String → String → JobEvent
job_event job type message occurred_at = record {
  job_id = job.id;
  type = type;
  message = message;
  metadata = none;
  occurred_at = occurred_at;
}

started_events : Job → List JobEvent
unfolding job_event
started_events job =
    if truthy (or_empty job.started_at)
    then job_event job "job.started"
        (if truthy (or_empty job.worker_id)
          then append "lease claimed by " (or_empty job.worker_id)
          else "worker started job")
        (or_empty job.started_at)
      ∷ []
    else []

-- The last three `if`s: no two of them hold of one job.
state_events : Job → JobState → List JobEvent
unfolding job_event
state_events job completed =
    if truthy (or_empty job.finished_at)
    then job_event job "job.completed" "job completed successfully" (or_empty job.finished_at) ∷ []
    else []
state_events job failed =
    if truthy (or_empty job.finished_at)
    then job_event job "job.failed" (or_text (or_empty job.last_error) "job failed")
        (or_empty job.finished_at)
      ∷ []
    else []
state_events job blocked =
    job_event job "job.blocked" (or_text (or_empty job.blocked_reason) "waiting on dependencies")
      job.updated_at
    ∷ []
state_events job _ = []

abbrev pub latest_event_first : Clock → JobEvent → JobEvent → Bool
latest_event_first c = down (λ (e : JobEvent). c.get_time e.occurred_at)

unfoldable pub build_synthetic_timeline : Clock → Job → List JobEvent
unfolding started_events state_events job_event
build_synthetic_timeline c job = sort_by (latest_event_first c) (
    job_event job "job.enqueued" (append "job accepted into " job.queue) job.created_at
      ∷ started_events job
    ++ state_events job job.state)

abbrev pub shares_workflow : Job → Job → Bool
shares_workflow job candidate =
    truthy (or_empty candidate.workflow_id)
    && str_eq (or_empty candidate.workflow_id) (or_empty job.workflow_id)

abbrev pub dependency_node : Job → DependencyNode
dependency_node candidate = record {
  job_id = candidate.id;
  type = candidate.type;
  state = candidate.state;
  queue = candidate.queue;
  parent_job_id = candidate.parent_job_id;
  workflow_id = candidate.workflow_id;
  blocked_reason = candidate.blocked_reason;
  dependency_policy = none;
  depends_on = some [];
  dependents = some [];
}

abbrev pub lone_node : Job → DependencyNode
lone_node job = record {
  job_id = job.id;
  type = job.type;
  state = job.state;
  queue = job.queue;
  parent_job_id = none;
  workflow_id = none;
  blocked_reason = none;
  dependency_policy = none;
  depends_on = none;
  dependents = none;
}

abbrev pub nodes_or : Job → List DependencyNode → List DependencyNode
nodes_or job [] = lone_node job ∷ []
nodes_or job (node ∷ nodes) = node ∷ nodes

abbrev accepted_status : JobState → String
accepted_status completed = "completed"
accepted_status _ = "accepted"

abbrev pub idempotency_record : Clock → Job → Option IdempotencyRecord
idempotency_record c job =
    let key = or_empty job.idempotency_key in
    if truthy key
    then some (record {
      scope = append job.tenant_id (append ":" (append job.type (append ":" key)));
      tenant_id = job.tenant_id;
      job_type = job.type;
      idempotency_key = key;
      job_id = job.id;
      status = accepted_status job.state;
      outcome = none;
      first_seen_at = job.created_at;
      updated_at = job.updated_at;
      expires_at = c.iso (c.get_time job.created_at + 15 * 60 * 1000);
    })
    else none

unfoldable pub create_inspection_fallback : Clock → Job → List Job → JobInspection
create_inspection_fallback c job jobs = record {
  job = job;
  attempts = [];
  events = build_synthetic_timeline c job;
  graph = record {
    root_job_id = job.id;
    nodes = nodes_or job (map dependency_node (keep (shares_workflow job) jobs));
  };
  idempotency = idempotency_record c job;
  dead_letter = none;
}
