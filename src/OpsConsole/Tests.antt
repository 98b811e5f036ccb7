-- ===== src/OpsConsole/Tests.antt =====
-- The console's operations at concrete data.
use distributed_job_platform.Base.{
  ℕ, ◌+◌, ◌≤◌, ◌≡◌, ◌≢◌, refl, String, Bool, true, false, List, [], ◌∷◌, none, some, tally, lookup,
  includes, truthy, trim, trim_start, trim_end,
}
use distributed_job_platform.Json.{null}
use distributed_job_platform.ApiParsers.{ok}
use distributed_job_platform.Models.Jobs.{Job, JobState, active, throttled, blocked, canceled}
use distributed_job_platform.Models.Console.{ConsoleData}
use distributed_job_platform.Models.Snapshot.{amount, unbounded}
use distributed_job_platform.Safe.Drafts.{JobDraft, Whole, finite, infinite, create_job_from_draft}
use distributed_job_platform.Safe.Drafts.Tests.{host, draft}
use distributed_job_platform.ConsoleData.{reconcile_console_data, has_id}
use distributed_job_platform.ConsoleData.DeadLetters.{is_of}
use distributed_job_platform.ConsoleData.Settled.{IsSettled, reconcile_console_data-IsSettled}
use distributed_job_platform.ConsoleData.Summary.{or_zero}
use distributed_job_platform.ConsoleData.Summary.Counts.{in_state, waits_in}
use distributed_job_platform.ConsoleData.Tests.{clock, data_of}
use distributed_job_platform.OpsConsole.Updates.{Turn, replay_selected_dead_letters}
use distributed_job_platform.OpsConsole.Updates.Replaying.{
  is_stale, replay_selected_dead_letters_lem,
}
use distributed_job_platform.OpsConsole.Controls.{drain, set_queue_control, submit_job}
use distributed_job_platform.OpsConsole.Controls.Draining.{is_touched, set_queue_control-drain}
use distributed_job_platform.OpsConsole.Controls.Duplicates.{submit_job-submit_job}
use distributed_job_platform.OpsConsole.Actions.{
  Action, retries, controls, deletes_selected, apply_all,
}
use distributed_job_platform.OpsConsole.Actions.Settled.{apply_all-IsSettled}
use distributed_job_platform.OpsConsole.Forms.{ScheduleDraft, JobForm, job_request}
use distributed_job_platform.OpsConsole.Forms.Checks.{
  zero_number, is_shared, job_request-create_job_from_draft,
}
use distributed_job_platform.OpsConsole.Handlers.{Ops, Env, turn_of}
use distributed_job_platform.OpsConsole.Handlers.Operations.{retry, bulk_replay, begin, key_of}
use distributed_job_platform.OpsConsole.Handlers.Operations.Modes.{IsWaiting, begin-IsWaiting}
use distributed_job_platform.OpsConsole.Handlers.Operations.Demo.{in_demo_mode}
use distributed_job_platform.OpsConsole.Handlers.Operations.Settling.{begin-IsSettled}
use distributed_job_platform.OpsConsole.Views.{queue_view}
use distributed_job_platform.OpsConsole.Views.Counts.{runs_in, letter_in, queue_view-tally}

abbrev turn : Turn
turn = record { clock = clock; now = 3; id = "n" }

abbrev settled : ConsoleData
settled = reconcile_console_data clock 3 data_of

abbrev session : List (ℕ × String × Action)
session =
    (3, "n", retries "a")
    ∷ (3, "m", controls "critical" drain)
    ∷ (3, "o", deletes_selected ("b" ∷ []))
    ∷ []

apply_all-IsSettled_example : IsSettled clock (apply_all clock session settled)
apply_all-IsSettled_example =
    apply_all-IsSettled clock session settled (reconcile_console_data-IsSettled clock 3 data_of)

set_queue_control-drain_example :
    let r = set_queue_control turn "critical" drain data_of in
    (tally (waits_in "critical") r.jobs ≡ 0)
    × (or_zero (lookup "critical" r.snapshot.overview.queue_lengths) ≡ 0)
    × ((other : String)
        → "critical" ≢ other
        → tally (waits_in other) r.jobs ≡ tally (waits_in other) data_of.jobs)
    × (tally (in_state canceled) r.jobs
        ≡ tally (in_state canceled) data_of.jobs + tally (waits_in "critical") data_of.jobs)
    × ((k : JobState)
        → is_touched k ≡ false
        → tally (in_state k) r.jobs ≡ tally (in_state k) data_of.jobs)
set_queue_control-drain_example = set_queue_control-drain turn "critical" data_of

replay_selected_dead_letters_lem_example :
    let r = replay_selected_dead_letters turn "low" none ("a" ∷ []) data_of in
    (tally (has_id "a") r.jobs ≡ tally (has_id "a") data_of.jobs)
    × (includes "a" ("a" ∷ []) ≡ true
        → (tally (is_stale "low" "a") r.jobs ≡ 0)
          × (1 ≤ tally (has_id "a") data_of.jobs → tally (is_of "a") r.snapshot.dead_letters ≡ 0))
    × (includes "a" ("a" ∷ []) ≡ false
        → ((p : Job → Bool)
            → ((x : Job) → p x ≡ true → has_id "a" x ≡ true)
            → tally p r.jobs ≡ tally p data_of.jobs)
          × (tally (is_of "a") r.snapshot.dead_letters
              ≡ tally (is_of "a") data_of.snapshot.dead_letters))
replay_selected_dead_letters_lem_example =
    replay_selected_dead_letters_lem turn "low" none ("a" ∷ []) data_of "a"

abbrev keyed : JobDraft
keyed = record draft { type = "email.send"; idempotency_key = " key " }

keyed_type : truthy (trim keyed.type) ≡ true
unfolding trim trim_start trim_end
keyed_type = refl

keyed_key : truthy (trim keyed.idempotency_key) ≡ true
unfolding trim trim_start trim_end
keyed_key = refl

submit_job-submit_job_example :
    let r = (submit_job turn host keyed null data_of).0 in (submit_job turn host keyed null r).0 ≡ r
submit_job-submit_job_example =
    submit_job-submit_job turn turn host host keyed null null data_of keyed_type keyed_key

abbrev schedule_draft : ScheduleDraft
schedule_draft = record {
  name = "nightly";
  cron_expression = "*/15 * * * *";
  queue = "default";
  type = "cleanup.run";
  priority = "5";
  max_attempts = "5";
  timeout_seconds = "60";
  timezone = "UTC";
  enabled = true;
  payload = "{}";
}

abbrev env : Env
env = record {
  live_mode = true;
  host = host;
  get_time = clock.get_time;
  parse = λ s. ok null;
  stringify = λ v. "{}";
  default_draft = draft;
  default_schedule = schedule_draft;
}

abbrev ops : Ops
ops = record {
  console_data = data_of;
  busy = [];
  selected_job_id = "";
  selected_tab = "overview";
  selected_dead_letters = "a" ∷ [];
  bulk_replay_queue = "default";
  bulk_replay_payload = "";
  job_draft = keyed;
  job_errors = [];
  schedule_draft = schedule_draft;
  schedule_errors = [];
  toasts = [];
  refreshes = 0;
}

abbrev settled_ops : Ops
settled_ops = record ops { console_data = reconcile_console_data (turn_of env).clock 3 data_of }

begin-IsWaiting_example : IsWaiting (key_of (retry "a")) ops (begin env (retry "a") ops)
begin-IsWaiting_example = begin-IsWaiting env (retry "a") ops refl

begin-IsSettled_example :
    let e = in_demo_mode env in
    let b = begin e bulk_replay settled_ops in
    (b.request ≡ none)
    × IsSettled (turn_of e).clock b.state.console_data
    × (lookup (key_of bulk_replay) settled_ops.busy ≡ none
        → lookup (key_of bulk_replay) b.state.busy ≡ none)
begin-IsSettled_example =
    begin-IsSettled env bulk_replay settled_ops
      (reconcile_console_data-IsSettled (turn_of env).clock 3 data_of)

abbrev form : JobForm
form = record { errors = []; payload = some null; dedupe_window_seconds = 900; dependencies = [] }

job_request-create_job_from_draft_example :
    let r = job_request host keyed form null in
    let j = create_job_from_draft host keyed null in
    (r.type ≡ j.type)
    × (r.queue ≡ j.queue)
    × (r.tenant_id ≡ j.tenant_id)
    × (is_shared (host.number_of keyed.priority) ≡ true → r.priority ≡ j.priority)
    × (host.number_of keyed.priority ≡ zero_number → (r.priority ≡ 5) × (j.priority ≡ 0))
    × (is_shared (host.number_of keyed.max_attempts) ≡ true
        → r.max_attempts ≡ amount j.max_attempts)
    × (host.number_of keyed.max_attempts ≡ zero_number
        → (r.max_attempts ≡ amount 5) × (j.max_attempts ≡ 1))
    × (host.number_of keyed.max_attempts ≡ some infinite
        → (r.max_attempts ≡ unbounded) × (j.max_attempts ≡ 5))
    × ((w : Whole)
        → host.number_of keyed.timeout_seconds ≡ some (finite w)
        → r.timeout_seconds ≡ amount j.timeout_seconds)
    × (host.number_of keyed.timeout_seconds ≡ some infinite
        → (r.timeout_seconds ≡ unbounded) × (j.timeout_seconds ≡ 60))
    × (host.number_of keyed.timeout_seconds ≡ none
        → (r.timeout_seconds ≡ amount 0) × (j.timeout_seconds ≡ 60))
job_request-create_job_from_draft_example =
    job_request-create_job_from_draft host keyed form null keyed_type

queue_view-tally_example :
    let v = queue_view data_of "critical" in
    (v.active_jobs ≡ tally (runs_in active "critical") data_of.jobs)
    × (v.queued_jobs ≡ tally (waits_in "critical") data_of.jobs)
    × (v.throttled ≡ tally (runs_in throttled "critical") data_of.jobs)
    × (v.blocked ≡ tally (runs_in blocked "critical") data_of.jobs)
    × (v.dead_letters ≡ tally (letter_in "critical") data_of.snapshot.dead_letters)
queue_view-tally_example = queue_view-tally data_of "critical" refl
