-- ===== src/ConsoleData/Workflows.antt =====
-- Inspections and workflows (src/lib/console-data.ts, `getInspection`, `addLocalWorkflowJobs`,
-- `createInspectionGraphForWorkflow`). The ids and the instants that are drawn are arguments.
pub mod Graphs
use distributed_job_platform.Base.{
  ℕ, String, Bool, true, false, List, [], ◌∷◌, ◌++◌, map, Option, none, some, keep, find, lookup,
  append, if◌then◌else◌,
}
use distributed_job_platform.Json.{Json, number, text, object, end, field}
use distributed_job_platform.Models.Jobs.{
  Job, JobState, JobInspection, DependencyGraph, DependencyNode, queued, blocked,
}
use distributed_job_platform.Models.Snapshot.{SystemEvent}
use distributed_job_platform.Models.Console.{ConsoleData, Clock}
use distributed_job_platform.Safe.{create_inspection_fallback, shares_workflow, lone_node}
use distributed_job_platform.ConsoleData.{reconcile_console_data, has_id}

abbrev fallback_of : Clock → List Job → Option Job → Option JobInspection
fallback_of c jobs none = none
fallback_of c jobs (some job) = some (create_inspection_fallback c job jobs)

abbrev existing_or : Option JobInspection → Option JobInspection → Option JobInspection
existing_or none fallback = fallback
existing_or (some existing) fallback = some existing

unfoldable pub get_inspection : Clock → ConsoleData → String → Option JobInspection
get_inspection c d job_id =
    existing_or (lookup job_id d.inspections) (fallback_of c d.jobs (find (has_id job_id) d.jobs))

abbrev pub workflow_node : Job → DependencyNode
workflow_node candidate = record {
  job_id = candidate.id;
  type = candidate.type;
  state = candidate.state;
  queue = candidate.queue;
  parent_job_id = candidate.parent_job_id;
  workflow_id = candidate.workflow_id;
  blocked_reason = candidate.blocked_reason;
  dependency_policy = none;
  depends_on = none;
  dependents = none;
}

abbrev pub lone_or : Job → List DependencyNode → List DependencyNode
lone_or job [] = lone_node job ∷ []
lone_or job (node ∷ nodes) = node ∷ nodes

pub create_inspection_graph_for_workflow : Job → List Job → DependencyGraph
create_inspection_graph_for_workflow job jobs = record {
  root_job_id = job.id;
  nodes = lone_or job (map workflow_node (keep (shares_workflow job) jobs));
}

-- What `createToastId` draws: the workflow's, the root's and the children's.
pub record WorkflowIds : Type 0 where
  pub workflow : String
  pub root : String
  pub sm : String
  pub md : String
  pub lg : String

-- The fields that the root and the children share; their instants are all the current one.
workflow_job : Clock → ℕ → String → String → Json → ℕ → JobState → String → Job
workflow_job c now id type payload priority state workflow_id = record {
  id = id;
  type = type;
  queue = "default";
  tenant_id = "tenant-a";
  payload = payload;
  priority = priority;
  attempts = 0;
  max_attempts = 5;
  state = state;
  schema_version = 1;
  idempotency_key = none;
  workflow_id = some workflow_id;
  parent_job_id = none;
  dependency_policy = none;
  blocked_reason = none;
  created_at = c.iso now;
  updated_at = c.iso now;
  run_at = c.iso now;
  started_at = none;
  finished_at = none;
  last_heartbeat_at = none;
  lease_expires_at = none;
  throttle_until = none;
  last_error = none;
  result = none;
  worker_id = none;
  lease_token = none;
  timeout_seconds = 45;
  cancel_requested = false;
  execution_ms = 0;
}

abbrev pub workflow_name : WorkflowIds → String
workflow_name ids = append "wf-" ids.workflow

root_job : Clock → ℕ → WorkflowIds → Job
unfolding workflow_job
root_job c now ids =
    workflow_job c now ids.root "file.ingest"
      (object (
        field "fileId" (text (workflow_name ids)) (
          field "source" (text "s3://demo/new-asset.png") (field "durationMs" (number "300") end))))
      6 queued (workflow_name ids)

child_job : Clock → ℕ → WorkflowIds → String → String → Job
unfolding workflow_job
child_job c now ids id size =
    record (workflow_job c now id "image.thumbnail"
      (object (
        field "fileId" (text (workflow_name ids))
          (field "size" (text size) (field "durationMs" (number "250") end))))
      5 blocked (workflow_name ids)) {
        parent_job_id = some ids.root;
        dependency_policy = some "block";
        blocked_reason = some "waiting on root ingest";
      }

unfoldable pub workflow_jobs : Clock → ℕ → WorkflowIds → List Job
unfolding root_job child_job workflow_job
workflow_jobs c now ids =
    root_job c now ids
    ∷ child_job c now ids ids.sm "sm"
    ∷ child_job c now ids ids.md "md"
    ∷ child_job c now ids ids.lg "lg"
    ∷ []

abbrev pub seeded_event : Clock → ℕ → WorkflowIds → SystemEvent
seeded_event c now ids = record {
  kind = "workflow.seeded";
  job_id = none;
  queue = none;
  worker_id = none;
  state = none;
  message = some (append "seeded " (workflow_name ids));
  timestamp = c.iso now;
}

unfoldable pub add_local_workflow_jobs : Clock → ℕ → WorkflowIds → ConsoleData → ConsoleData
add_local_workflow_jobs c now ids d = reconcile_console_data c now (record d {
  jobs = workflow_jobs c now ids ++ d.jobs;
  events = seeded_event c now ids ∷ d.events;
})
