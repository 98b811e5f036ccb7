-- ===== src/OpsConsole/Controls.antt =====
-- What the queue, worker, schedule and submission forms do to the console's data in demo mode (the
-- functions that src/components/OpsConsole.tsx gives to `setConsoleData`).
pub mod Draining
pub mod Duplicates
use distributed_job_platform.Base.{
  ℕ, ◌+◌, ◌*◌, String, Bool, true, false, not, ◌&&◌, List, [], ◌∷◌, map, Option, none, some, find,
  lookup, insert, append, decimal, truthy, trim, str_eq, or_text, if◌then◌else◌,
}
use distributed_job_platform.Json.{Json}
use distributed_job_platform.Models.Jobs.{Job, canceled}
use distributed_job_platform.Models.Snapshot.{Schedule, Amount, amount, unbounded}
use distributed_job_platform.Models.Console.{ConsoleData, QueueControl, WorkerControl, local}
use distributed_job_platform.LiveRefresh.{or_empty}
use distributed_job_platform.Safe.Drafts.{JobDraft, Host, create_job_from_draft}
use distributed_job_platform.ConsoleData.{reconcile_console_data, replace_job}
use distributed_job_platform.ConsoleData.Events.{append_event}
use distributed_job_platform.ConsoleData.Summary.{is_waiting}
use distributed_job_platform.OpsConsole.Updates.{Turn, time_text, make_system_event}

pub data QueueAction : Type 0 where
  pause resume drain : QueueAction

abbrev pub action_text : QueueAction → String
action_text pause = "pause"
action_text resume = "resume"
action_text drain = "drain"

abbrev pub drained : Turn → Job → Job
drained t job = record job {
  state = canceled;
  last_error = some "queue drained by operator";
  finished_at = some (time_text t);
  updated_at = time_text t;
}

abbrev pub drains : String → Job → Bool
drains queue job = str_eq job.queue queue && is_waiting job.state

abbrev pub drain_job : Turn → String → Job → Job
drain_job t queue job = if drains queue job then drained t job else job

abbrev pub controlled_jobs : Turn → String → QueueAction → List Job → List Job
controlled_jobs t queue drain jobs = map (drain_job t queue) jobs
controlled_jobs t queue _ jobs = jobs

abbrev was_paused : Option QueueControl → Bool
was_paused none = false
was_paused (some c) = c.paused

abbrev pub next_control : Turn → QueueAction → Option QueueControl → QueueControl
next_control t pause c = record {
  paused = true;
  draining = false;
  scope = local;
  updated_at = time_text t;
}
next_control t resume c = record {
  paused = false;
  draining = false;
  scope = local;
  updated_at = time_text t;
}
next_control t drain c = record {
  paused = was_paused c;
  draining = true;
  scope = local;
  updated_at = time_text t;
}

unfoldable pub set_queue_control : Turn → String → QueueAction → ConsoleData → ConsoleData
set_queue_control t queue action current =
    append_event t.clock
      (reconcile_console_data t.clock t.now (record current {
        jobs = controlled_jobs t queue action current.jobs;
        queue_controls =
            insert queue (next_control t action (lookup queue current.queue_controls))
              current.queue_controls;
      }))
      (make_system_event t (append "queue." (action_text action)) none (some queue) none none
        (some (append queue (append " " (append (action_text action) "d")))))

unfoldable pub toggle_worker_cordon : Turn → String → Bool → ConsoleData → ConsoleData
toggle_worker_cordon t worker_id cordoned current =
    append_event t.clock
      (record current {
        worker_controls =
            insert worker_id
              (record { cordoned = cordoned; scope = local; updated_at = time_text t })
              current.worker_controls;
      })
      (make_system_event t (if cordoned then "worker.cordoned" else "worker.released") none none
        (some worker_id) none
        (some (
          if cordoned
          then append worker_id " cordoned for maintenance"
          else append worker_id " returned to service")))

-- The body of a schedule's request, and the schedule that demo mode makes of it.
pub record ScheduleBody : Type 0 where
  pub name : String
  pub cron_expression : String
  pub queue : String
  pub type : String
  pub payload : Json
  pub priority : ℕ
  pub max_attempts : Amount
  pub timeout_seconds : Amount
  pub enabled : Bool
  pub timezone : String

abbrev pub schedule_of : Turn → ScheduleBody → Schedule
schedule_of t b = record {
  id = t.id;
  name = b.name;
  cron_expression = b.cron_expression;
  queue = b.queue;
  type = b.type;
  payload = b.payload;
  priority = b.priority;
  max_attempts = b.max_attempts;
  timeout_seconds = b.timeout_seconds;
  enabled = b.enabled;
  timezone = b.timezone;
  next_run_at = t.clock.iso (t.now + 15 * 60 * 1000);
  last_run_at = none;
  created_at = time_text t;
  updated_at = time_text t;
}

unfoldable pub add_schedule : Turn → ScheduleBody → ConsoleData → ConsoleData
add_schedule t b current =
    append_event t.clock
      (reconcile_console_data t.clock t.now
        (record current { schedules = schedule_of t b ∷ current.schedules }))
      (make_system_event t "schedule.updated" none none none none (some b.name))

abbrev pub switch_schedule : Turn → String → Bool → Schedule → Schedule
switch_schedule t schedule_id enabled item =
    if str_eq item.id schedule_id
    then record item { enabled = enabled; updated_at = time_text t }
    else item

unfoldable pub toggle_schedule : Turn → Schedule → Bool → ConsoleData → ConsoleData
toggle_schedule t schedule enabled current =
    append_event t.clock
      (reconcile_console_data t.clock t.now (record current {
        schedules = map (switch_schedule t schedule.id enabled) current.schedules;
      }))
      (make_system_event t "schedule.updated" none none none none
        (some (append schedule.name (append " " (if enabled then "enabled" else "paused")))))

-- `String(n)`.
abbrev amount_text : Amount → String
amount_text (amount n) = decimal n
amount_text unbounded = "Infinity"

-- `stringifyJson` gives the draft's payload text, which the job does not read.
abbrev pub schedule_draft_job : JobDraft → String → Schedule → JobDraft
schedule_draft_job default_draft payload_text schedule = record default_draft {
  type = schedule.type;
  queue = schedule.queue;
  priority = decimal schedule.priority;
  max_attempts = amount_text schedule.max_attempts;
  timeout_seconds = amount_text schedule.timeout_seconds;
  tenant_id = "scheduler";
  payload = payload_text;
}

unfoldable pub trigger_schedule : Turn → String → Job → ConsoleData → ConsoleData
trigger_schedule t schedule_name next_job current =
    append_event t.clock (replace_job t.clock t.now current next_job) (
      make_system_event t "schedule.triggered" (some next_job.id) (some next_job.queue) none none
        (some (append schedule_name " triggered manually")))

-- A submission with a key: the job of its tenant, type and key that is there already.
abbrev pub is_duplicate : String → String → String → Job → Bool
is_duplicate tenant_id type key job =
    str_eq job.tenant_id tenant_id
    && (str_eq job.type type && str_eq (trim (or_empty job.idempotency_key)) key)

abbrev pub find_duplicate : String → String → String → List Job → Option Job
find_duplicate tenant_id type key jobs =
    if truthy key then find (is_duplicate tenant_id type key) jobs else none

-- The data after a local submission, and the job that is selected.
unfoldable pub enqueue_job : Turn → Job → ConsoleData → ConsoleData
enqueue_job t next_job current = append_event t.clock (replace_job t.clock t.now current next_job) (
    make_system_event t "job.enqueued" (some next_job.id) (some next_job.queue) none
      (some next_job.state) (some (append "job queued into " next_job.queue)))

abbrev pub submitted : Turn → Job → ConsoleData → Option Job → ConsoleData × String
submitted t next_job current (some duplicate) = (current, duplicate.id)
submitted t next_job current none = (enqueue_job t next_job current, next_job.id)

-- The tenant and the type of the request's body.
abbrev pub request_tenant_id : JobDraft → String
request_tenant_id draft = or_text (trim draft.tenant_id) "default"

abbrev pub request_type : JobDraft → String
request_type draft = trim draft.type

unfoldable pub submit_job : Turn → Host → JobDraft → Json → ConsoleData → ConsoleData × String
submit_job t host draft payload current =
    submitted t (create_job_from_draft host draft payload) current (
      find_duplicate (request_tenant_id draft) (request_type draft) (trim draft.idempotency_key)
        current.jobs)
