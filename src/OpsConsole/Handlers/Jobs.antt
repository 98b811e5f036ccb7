-- ===== src/OpsConsole/Handlers/Jobs.antt =====
-- The handlers of single jobs: `submitJob`, `retryJob`, `cancelJob`, `adjustPriority` and `replayJob`
-- of src/components/OpsConsole.tsx.
use distributed_job_platform.Base.{
  String, Bool, true, false, not, ◌&&◌, List, [], ◌∷◌, Option, none, some, is_some, append, trim,
  or_text, truthy, if◌then◌else◌,
}
use distributed_job_platform.Json.{Json}
use distributed_job_platform.Models.Jobs.{Job}
use distributed_job_platform.Models.Snapshot.{amount}
use distributed_job_platform.Models.Console.{ConsoleData}
use distributed_job_platform.LiveRefresh.{or_empty}
use distributed_job_platform.Safe.Drafts.{Whole, JobDraft, create_job_from_draft}
use distributed_job_platform.ToastQueue.{info, success, warning}
use distributed_job_platform.ConsoleData.{replace_job, remove_dead_letters, find_dead_letter}
use distributed_job_platform.OpsConsole.Updates.{
  find_job, retry_job, cancel_job, adjust_priority, replay_job,
}
use distributed_job_platform.OpsConsole.Controls.{
  submitted, find_duplicate, request_tenant_id, request_type,
}
use distributed_job_platform.OpsConsole.Forms.{
  JobForm, Parsed, has_value, is_empty, given, validate_job_form, safe_json_parse, job_request,
}
use distributed_job_platform.OpsConsole.Handlers.{
  Ops, Env, Step, done, CloneRequest, Post, no_body, submission, cloning, replaying, turn_of,
  api_request, run_busy, toast, tell, set_console_data, set_selected_job, ask_refresh,
  notify_unsupported_live_control, api_path,
}

pub record EnqueueResult : Type 0 where
  pub job : Job
  pub duplicate_suppressed : Bool

abbrev enqueued_toast : EnqueueResult → Ops → Ops
enqueued_toast result =
    if result.duplicate_suppressed
    then tell (
        toast warning "Submission deduplicated" (
          append "Suppressed duplicate submission for "
            (append (or_text (or_empty result.job.idempotency_key) result.job.id) ".")))
    else tell (
        toast success "Job enqueued"
          (append result.job.type (append " entered " (append result.job.queue "."))))

abbrev after_submission : Env → EnqueueResult → Ops → Ops
after_submission e result s = ask_refresh (
    enqueued_toast result (record s {
      console_data = replace_job (turn_of e).clock e.host.now s.console_data result.job;
      selected_job_id = result.job.id;
      selected_tab = "jobs";
    }))

-- The updater that demo mode gives to `setConsoleData`, with the setters it calls.
abbrev pub locally_submitted : Env → Job → Option Job → Ops → Ops
locally_submitted e next_job (some duplicate) s =
    tell
      (toast warning "Local duplicate suppressed"
        "The job matched an existing idempotency key in the current console session.")
      (set_selected_job duplicate.id s)
locally_submitted e next_job none s =
    tell
      (toast success "Job enqueued in demo mode"
        (append next_job.type " is now visible in the console state model."))
      (record s {
        console_data = (submitted (turn_of e) next_job s.console_data none).0;
        selected_job_id = next_job.id;
        selected_tab = "jobs";
      })

-- The duplicate that a submission meets.
abbrev pub duplicate_of : JobDraft → ConsoleData → Option Job
duplicate_of draft current =
    find_duplicate (request_tenant_id draft) (request_type draft) (trim draft.idempotency_key)
      current.jobs

abbrev send_job : Env → JobForm → Json → Ops → Step EnqueueResult
send_job e form payload s =
    if e.live_mode
    then api_request
        (record {
          path = api_path "/jobs";
          body = submission (job_request e.host s.job_draft form payload);
        })
        (after_submission e) s
    else done (
        locally_submitted e (create_job_from_draft e.host s.job_draft payload)
          (duplicate_of s.job_draft s.console_data) s)

abbrev pub submit_if : Env → JobForm → Bool → Option Json → Ops → Step EnqueueResult
submit_if e form true (some payload) s = run_busy "submit-job" (send_job e form payload) s
submit_if e form _ _ s = done (
    tell
      (toast warning "Job submission needs attention"
        "Fix the inline field errors before enqueueing work.")
      (record s { job_errors = form.errors }))

-- Whether a form is sent: no error, and a payload that is not falsy.
abbrev pub is_sent : List (String × String) → Option Json → Bool
is_sent errors payload = is_empty errors && has_value payload

unfoldable pub handle_submit : Env → Ops → Step EnqueueResult
handle_submit e s =
    let form = validate_job_form e.parse e.host s.job_draft in
    submit_if e form (is_sent form.errors form.payload) form.payload s

unfoldable pub handle_retry : Env → String → Ops → Step Job
handle_retry e job_id =
    let told =
      tell (toast success "Retry queued" "The job was moved back to the runnable queue.") in
    run_busy (append "job-retry-" job_id) (λ s.
      if e.live_mode
      then api_request
          (record { path = api_path (append "/jobs/" (append job_id "/retry")); body = no_body })
          (λ job later. told (
            ask_refresh (
              set_console_data
                (λ current.
                  remove_dead_letters (turn_of e).clock e.host.now
                    (replace_job (turn_of e).clock e.host.now current job) (job_id ∷ []))
                later)))
          s
      else done (told (set_console_data (retry_job (turn_of e) job_id) s)))

unfoldable pub handle_cancel : Env → String → Ops → Step Job
handle_cancel e job_id =
    let told = tell (
      toast info "Cancellation requested"
        "Queued and scheduled work was marked for cancellation.") in
    run_busy (append "job-cancel-" job_id) (λ s.
      if e.live_mode
      then api_request
          (record { path = api_path (append "/jobs/" (append job_id "/cancel")); body = no_body })
          (λ job later. told (
            ask_refresh (
              set_console_data (λ current. replace_job (turn_of e).clock e.host.now current job)
                later)))
          s
      else done (told (set_console_data (cancel_job (turn_of e) job_id) s)))

unfoldable pub handle_priority : Env → String → Whole → Ops → Ops
handle_priority e job_id delta s =
    if e.live_mode
    then notify_unsupported_live_control "Priority changes stay read-only in live mode"
        "Priority changes are demo-only because the live API does not expose a priority mutation endpoint."
        s
    else tell
        (toast info "Priority updated"
          "This priority change is enforced inside the console state model.")
        (set_console_data (adjust_priority (turn_of e) job_id delta) s)

abbrev clone_request : Job → String → Json → CloneRequest
clone_request job queue payload = record {
  type = job.type;
  queue = queue;
  tenant_id = job.tenant_id;
  priority = job.priority;
  max_attempts = amount job.max_attempts;
  timeout_seconds = amount job.timeout_seconds;
  schema_version = job.schema_version;
  workflow_id = given (or_empty job.workflow_id);
  parent_job_id = given (or_empty job.parent_job_id);
  payload = payload;
}

-- The request of a replay: the dead letter's, or the failed job's.
abbrev replay_post : Bool → Job → String → Json → Post
replay_post true job queue payload = record {
  path = api_path "/dlq/replay";
  body = replaying (job.id ∷ []) queue (some payload);
}
replay_post false job queue payload = record {
  path = api_path "/jobs";
  body = cloning (clone_request job queue payload);
}

abbrev replay_toast : Bool → Job → String → Ops → Ops
replay_toast edited job queue = tell (
    toast success (if edited then "Replay issued with edited payload" else "Replay issued")
      (append job.type (append " will re-enter " (append queue "."))))

abbrev pub replay_found : Env → String → String → Json → Bool → Bool → Option Job → Ops → Step Json
replay_found e job_id queue payload edited is_dead none s = done s
replay_found e job_id queue payload edited is_dead (some job) s =
    if e.live_mode
    then api_request (replay_post is_dead job queue payload)
        (λ reply later. replay_toast edited job queue (ask_refresh later)) s
    else done (
        replay_toast edited job queue (record s {
          console_data = replay_job (turn_of e) job_id queue payload edited is_dead s.console_data;
          selected_job_id = if is_dead then s.selected_job_id else e.host.id;
        }))

abbrev pub replay_parsed :
    Env → String → String → Bool → Parsed → Bool → Option Json → Ops → Step Json
replay_parsed e job_id queue edited parsed true (some payload) s =
    run_busy (append "job-replay-" job_id)
      (λ now.
        replay_found e job_id queue payload edited
          (is_some (find_dead_letter s.console_data job_id)) (find_job job_id s.console_data.jobs)
          now)
      s
replay_parsed e job_id queue edited parsed _ _ s = done (
    tell
      (toast warning "Replay payload is invalid"
        (or_text parsed.error "Provide valid JSON before replaying this job."))
      s)

unfoldable pub handle_replay : Env → String → String → String → Bool → Ops → Step Json
handle_replay e job_id queue payload_text edited s =
    let parsed = safe_json_parse e.parse payload_text in
    replay_parsed e job_id queue edited parsed (not (truthy parsed.error) && has_value parsed.value)
      parsed.value s
