-- ===== src/OpsConsole/Handlers/Operations.antt =====
-- The handlers as one type of operations, in both modes (src/components/OpsConsole.tsx).
pub mod Modes
pub mod Demo
pub mod Settling
use distributed_job_platform.Base.{
  String, Bool, true, false, not, ◌&&◌, Option, none, some, is_some, append, trim, truthy,
}
use distributed_job_platform.Json.{Json}
use distributed_job_platform.Models.Snapshot.{Schedule}
use distributed_job_platform.Safe.Drafts.{Whole}
use distributed_job_platform.ConsoleData.{find_dead_letter}
use distributed_job_platform.ConsoleData.Workflows.{WorkflowIds}
use distributed_job_platform.OpsConsole.Controls.{QueueAction}
use distributed_job_platform.OpsConsole.Forms.{
  has_value, validate_job_form, validate_schedule_form, safe_json_parse, schedule_body,
}
use distributed_job_platform.OpsConsole.Actions.{
  Action, submits, retries, cancels, adjusts, replays, replays_selected, deletes_selected, controls,
  cordons, adds_schedule, toggles_schedule, triggers, seeds,
}
use distributed_job_platform.OpsConsole.Handlers.{Ops, Env, Step, done, awaits, Post}
use distributed_job_platform.OpsConsole.Handlers.Jobs.{
  is_sent, handle_submit, handle_retry, handle_cancel, handle_priority, handle_replay,
}
use distributed_job_platform.OpsConsole.Handlers.Letters.{
  non_null, override_of, has_selection, handle_bulk_replay, handle_bulk_delete,
}
use distributed_job_platform.OpsConsole.Handlers.Controlling.{
  triggered_job, handle_queue, handle_cordon, handle_schedule, handle_toggle_schedule,
  handle_trigger, handle_seed,
}

pub data Operation : Type 0 where
  submit : Operation
  retry : String → Operation
  cancel : String → Operation
  priority : String → Whole → Operation
  replay : String → String → String → Bool → Operation
  bulk_replay : Operation
  bulk_delete : Operation
  queue_control : String → QueueAction → Operation
  cordon : String → Bool → Operation
  save_schedule : Operation
  switch : Schedule → Bool → Operation
  trigger : Schedule → Operation
  seed : WorkflowIds → Operation

-- What a handler has done when it returns or waits: the state, the request, and what it does if the
-- request fails.
pub record Begun : Type 0 where
  pub state : Ops
  pub request : Option Post
  pub on_failure : Ops → Ops

abbrev pub begun : {A : Type 0} → Step A → Begun
begun (done s) = record { state = s; request = none; on_failure = λ later. later }
begun (awaits s post k) = record { state = s; request = some post; on_failure = k none }

abbrev at_once : Ops → Begun
at_once s = record { state = s; request = none; on_failure = λ later. later }

unfoldable pub begin : Env → Operation → Ops → Begun
begin e submit s = begun (handle_submit e s)
begin e (retry job_id) s = begun (handle_retry e job_id s)
begin e (cancel job_id) s = begun (handle_cancel e job_id s)
begin e (priority job_id delta) s = at_once (handle_priority e job_id delta s)
begin e (replay job_id queue payload edited) s =
    begun (handle_replay e job_id queue payload edited s)
begin e bulk_replay s = begun (handle_bulk_replay e s)
begin e bulk_delete s = begun (handle_bulk_delete e s)
begin e (queue_control queue action) s = at_once (handle_queue e queue action s)
begin e (cordon worker_id cordoned) s = at_once (handle_cordon e worker_id cordoned s)
begin e save_schedule s = begun (handle_schedule e s)
begin e (switch schedule enabled) s = begun (handle_toggle_schedule e schedule enabled s)
begin e (trigger schedule) s = begun (handle_trigger e schedule s)
begin e (seed ids) s = begun (handle_seed e ids s)

-- The key under which an operation is busy.
abbrev pub key_of : Operation → String
key_of submit = "submit-job"
key_of (retry job_id) = append "job-retry-" job_id
key_of (cancel job_id) = append "job-cancel-" job_id
key_of (priority job_id delta) = ""
key_of (replay job_id queue payload edited) = append "job-replay-" job_id
key_of bulk_replay = "bulk-replay"
key_of bulk_delete = "bulk-delete"
key_of (queue_control queue action) = ""
key_of (cordon worker_id cordoned) = ""
key_of save_schedule = "schedule-submit"
key_of (switch schedule enabled) = append "schedule-" schedule.id
key_of (trigger schedule) = append "schedule-trigger-" schedule.id
key_of (seed ids) = "seed-workflow"

abbrev pub sent : Bool → Option Json → (Json → Action) → Option Action
sent true (some v) act = some (act v)
sent _ _ act = none

abbrev pub if_so : Bool → Action → Option Action
if_so true a = some a
if_so false a = none

-- The action that an operation is in demo mode: none if a form or a payload is refused.
unfoldable pub demo_action : Env → Operation → Ops → Option Action
demo_action e submit s =
    let form = validate_job_form e.parse e.host s.job_draft in
    sent (is_sent form.errors form.payload) form.payload (submits e.host s.job_draft)
demo_action e (retry job_id) s = some (retries job_id)
demo_action e (cancel job_id) s = some (cancels job_id)
demo_action e (priority job_id delta) s = some (adjusts job_id delta)
demo_action e (replay job_id queue payload_text edited) s =
    let parsed = safe_json_parse e.parse payload_text in
    sent (not (truthy parsed.error) && has_value parsed.value) parsed.value
      (λ v. replays job_id queue v edited (is_some (find_dead_letter s.console_data job_id)))
demo_action e bulk_replay s =
    if_so (has_selection s.selected_dead_letters && not (truthy (override_of e s).error)) (
      replays_selected s.bulk_replay_queue (non_null (override_of e s).value)
        s.selected_dead_letters)
demo_action e bulk_delete s =
    if_so (has_selection s.selected_dead_letters) (deletes_selected s.selected_dead_letters)
demo_action e (queue_control queue action) s = some (controls queue action)
demo_action e (cordon worker_id cordoned) s = some (cordons worker_id cordoned)
demo_action e save_schedule s =
    let form = validate_schedule_form e.parse s.schedule_draft in
    sent (is_sent form.errors form.payload) form.payload
      (λ v. adds_schedule (schedule_body e.host s.schedule_draft v))
demo_action e (switch schedule enabled) s = some (toggles_schedule schedule enabled)
demo_action e (trigger schedule) s = some (triggers schedule.name (triggered_job e schedule))
demo_action e (seed ids) s = some (seeds ids)
