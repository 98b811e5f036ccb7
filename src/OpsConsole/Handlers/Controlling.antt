-- ===== src/OpsConsole/Handlers/Controlling.antt =====
-- The handlers of queues, workers and schedules: `setQueueControl`, `toggleWorkerCordon`,
-- `submitSchedule`, `toggleSchedule`, `triggerSchedule` and `seedWorkflow` of
-- src/components/OpsConsole.tsx.
use distributed_job_platform.Base.{
  String, Bool, true, Option, none, some, append, or_text, trim, if◌then◌else◌,
}
use distributed_job_platform.Json.{Json}
use distributed_job_platform.Models.Jobs.{Job}
use distributed_job_platform.Models.Snapshot.{Schedule}
use distributed_job_platform.Safe.Drafts.{create_job_from_draft}
use distributed_job_platform.ToastQueue.{ToastTone, info, success, warning}
use distributed_job_platform.ConsoleData.Workflows.{WorkflowIds, add_local_workflow_jobs}
use distributed_job_platform.OpsConsole.Controls.{
  QueueAction, resume, action_text, ScheduleBody, set_queue_control, toggle_worker_cordon,
  add_schedule, toggle_schedule, trigger_schedule, schedule_draft_job,
}
use distributed_job_platform.OpsConsole.Forms.{ScheduleForm, validate_schedule_form, schedule_body}
use distributed_job_platform.OpsConsole.Handlers.{
  Ops, Env, Step, done, CloneRequest, cloning, saving, seeding, turn_of, api_request, run_busy,
  toast, tell, set_console_data, ask_refresh, notify_unsupported_live_control, api_path,
}
use distributed_job_platform.OpsConsole.Handlers.Jobs.{EnqueueResult, is_sent}

abbrev control_tone : QueueAction → ToastTone
control_tone resume = success
control_tone _ = info

unfoldable pub handle_queue : Env → String → QueueAction → Ops → Ops
handle_queue e queue action s =
    if e.live_mode
    then notify_unsupported_live_control "Queue controls stay read-only in live mode"
        "Queue pause, resume, and drain are demo-only until the API exposes queue administration endpoints."
        s
    else tell
        (toast (control_tone action) (append queue (append " " (append (action_text action) "d")))
          "The queue control mutated the demo state model immediately.")
        (set_console_data (set_queue_control (turn_of e) queue action) s)

unfoldable pub handle_cordon : Env → String → Bool → Ops → Ops
handle_cordon e worker_id cordoned s =
    if e.live_mode
    then notify_unsupported_live_control "Worker maintenance stays read-only in live mode"
        "Worker cordon is demo-only until the backend exposes maintenance controls." s
    else tell
        (toast (if cordoned then warning else success)
          (if cordoned then "Worker cordoned" else "Worker returned to service")
          "The demo worker state changed immediately.")
        (set_console_data (toggle_worker_cordon (turn_of e) worker_id cordoned) s)

abbrev after_saving : Env → ScheduleBody → Ops → Ops
after_saving e body s =
    record (tell
      (toast success "Schedule saved"
        (append body.name " is now part of the schedule control plane."))
      s) { schedule_draft = e.default_schedule }

abbrev send_schedule : Env → ScheduleBody → Ops → Step Schedule
send_schedule e body s =
    if e.live_mode
    then api_request (record { path = api_path "/schedules"; body = saving body })
        (λ reply later. after_saving e body (ask_refresh later)) s
    else done (after_saving e body (set_console_data (add_schedule (turn_of e) body) s))

abbrev pub schedule_if : Env → ScheduleForm → Bool → Option Json → Ops → Step Schedule
schedule_if e form true (some payload) s =
    run_busy "schedule-submit" (send_schedule e (schedule_body e.host s.schedule_draft payload)) s
schedule_if e form _ _ s = done (
    tell
      (toast warning "Schedule definition needs attention"
        "Fix the inline errors before saving the schedule.")
      (record s { schedule_errors = form.errors }))

unfoldable pub handle_schedule : Env → Ops → Step Schedule
handle_schedule e s =
    let form = validate_schedule_form e.parse s.schedule_draft in
    schedule_if e form (is_sent form.errors form.payload) form.payload s

abbrev body_of : Schedule → Bool → ScheduleBody
body_of schedule enabled = record {
  name = schedule.name;
  cron_expression = schedule.cron_expression;
  queue = schedule.queue;
  type = schedule.type;
  payload = schedule.payload;
  priority = schedule.priority;
  max_attempts = schedule.max_attempts;
  timeout_seconds = schedule.timeout_seconds;
  enabled = enabled;
  timezone = schedule.timezone;
}

unfoldable pub handle_toggle_schedule : Env → Schedule → Bool → Ops → Step Schedule
handle_toggle_schedule e schedule enabled =
    let told = tell (
      toast (if enabled then success else warning)
        (if enabled then "Schedule resumed" else "Schedule paused") schedule.name) in
    run_busy (append "schedule-" schedule.id) (λ s.
      if e.live_mode
      then api_request
          (record { path = api_path "/schedules"; body = saving (body_of schedule enabled) })
          (λ reply later. told (ask_refresh later)) s
      else done (told (set_console_data (toggle_schedule (turn_of e) schedule enabled) s)))

abbrev schedule_request : Schedule → CloneRequest
schedule_request schedule = record {
  type = schedule.type;
  queue = schedule.queue;
  tenant_id = "scheduler";
  priority = schedule.priority;
  max_attempts = schedule.max_attempts;
  timeout_seconds = schedule.timeout_seconds;
  schema_version = 1;
  workflow_id = none;
  parent_job_id = none;
  payload = schedule.payload;
}

-- The job that a schedule gives when it is triggered by hand in demo mode.
abbrev pub triggered_job : Env → Schedule → Job
triggered_job e schedule =
    create_job_from_draft e.host
      (schedule_draft_job e.default_draft (e.stringify schedule.payload) schedule) schedule.payload

unfoldable pub handle_trigger : Env → Schedule → Ops → Step EnqueueResult
handle_trigger e schedule =
    let told = tell (toast success "Schedule triggered" schedule.name) in
    run_busy (append "schedule-trigger-" schedule.id) (λ s.
      if e.live_mode
      then api_request
          (record { path = api_path "/jobs"; body = cloning (schedule_request schedule) })
          (λ reply later. told (ask_refresh later)) s
      else done (
          told
            (record (set_console_data
              (trigger_schedule (turn_of e) schedule.name (triggered_job e schedule)) s) {
                selected_job_id = (triggered_job e schedule).id;
              })))

unfoldable pub handle_seed : Env → WorkflowIds → Ops → Step Json
handle_seed e ids =
    let told = tell (
      toast success "Workflow seeded"
        "A fan-out/fan-in thumbnail workflow was injected into the console.") in
    run_busy "seed-workflow" (λ s.
      if e.live_mode
      then api_request
          (record {
            path = api_path "/workflows/demo/thumbnail";
            body = seeding (or_text (trim s.job_draft.tenant_id) "tenant-a");
          })
          (λ reply later. told (ask_refresh later)) s
      else done
          (told (set_console_data (add_local_workflow_jobs (turn_of e).clock e.host.now ids) s)))
