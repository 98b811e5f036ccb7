-- ===== src/OpsConsole/Actions.antt =====
-- The operations of demo mode as one type, and a session of them (src/components/OpsConsole.tsx).
pub mod Settled
use distributed_job_platform.Base.{ℕ, String, Bool, Option, List, [], ◌∷◌}
use distributed_job_platform.Json.{Json}
use distributed_job_platform.Models.Jobs.{Job}
use distributed_job_platform.Models.Snapshot.{Schedule, SystemEvent}
use distributed_job_platform.Models.Console.{ConsoleData, Clock}
use distributed_job_platform.Safe.Drafts.{Whole, JobDraft, Host}
use distributed_job_platform.ConsoleData.Workflows.{WorkflowIds, add_local_workflow_jobs}
use distributed_job_platform.OpsConsole.Updates.{
  Turn, retry_job, cancel_job, adjust_priority, replay_job, replay_selected_dead_letters,
  delete_selected_dead_letters,
}
use distributed_job_platform.OpsConsole.Controls.{
  QueueAction, ScheduleBody, set_queue_control, toggle_worker_cordon, add_schedule, toggle_schedule,
  trigger_schedule, submit_job,
}

pub data Action : Type 0 where
  submits : Host → JobDraft → Json → Action
  retries : String → Action
  cancels : String → Action
  adjusts : String → Whole → Action
  replays : String → String → Json → Bool → Bool → Action
  replays_selected : String → Option Json → List String → Action
  deletes_selected : List String → Action
  controls : String → QueueAction → Action
  cordons : String → Bool → Action
  adds_schedule : ScheduleBody → Action
  toggles_schedule : Schedule → Bool → Action
  triggers : String → Job → Action
  seeds : WorkflowIds → Action

unfoldable pub apply : Turn → Action → ConsoleData → ConsoleData
apply t (submits host draft payload) d = (submit_job t host draft payload d).0
apply t (retries job_id) d = retry_job t job_id d
apply t (cancels job_id) d = cancel_job t job_id d
apply t (adjusts job_id delta) d = adjust_priority t job_id delta d
apply t (replays job_id queue payload edited is_dead) d =
    replay_job t job_id queue payload edited is_dead d
apply t (replays_selected queue override ids) d =
    replay_selected_dead_letters t queue override ids d
apply t (deletes_selected ids) d = delete_selected_dead_letters t ids d
apply t (controls queue action) d = set_queue_control t queue action d
apply t (cordons worker_id cordoned) d = toggle_worker_cordon t worker_id cordoned d
apply t (adds_schedule body) d = add_schedule t body d
apply t (toggles_schedule schedule enabled) d = toggle_schedule t schedule enabled d
apply t (triggers name job) d = trigger_schedule t name job d
apply t (seeds ids) d = add_local_workflow_jobs t.clock t.now ids d

-- A session, the oldest operation first, each at an instant and with an id.
pub apply_all : Clock → List (ℕ × String × Action) → ConsoleData → ConsoleData
apply_all c [] d = d
apply_all c ((now, id, a) ∷ more) d =
    apply_all c more (apply (record { clock = c; now = now; id = id }) a d)
