-- ===== src/OpsConsole/Updates.antt =====
-- What the operations do to the console's data in demo mode: the functions that the handlers of
-- src/components/OpsConsole.tsx give to `setConsoleData`. A `Turn` holds the instant and the id that
-- a handler draws; two draws of one handler are at one instant.
pub mod Replaying
use distributed_job_platform.Base.{
  ℕ, ◌+◌, ◌-◌, ◌*◌, String, Bool, true, false, not, ◌&&◌, ◌||◌, List, [], ◌∷◌, map, Option, none,
  some, find, length, ltb, lookup, insert, append, decimal, truthy, trim, str_eq, if◌then◌else◌,
}
use distributed_job_platform.Json.{Json}
use distributed_job_platform.Models.Jobs.{
  Job, JobState, DeadLetter, queued, scheduled, retrying, blocked, throttled, active, completed,
  failed, canceled,
}
use distributed_job_platform.Models.Snapshot.{Schedule, SystemEvent}
use distributed_job_platform.Models.Console.{ConsoleData, QueueControl, WorkerControl, Clock, local}
use distributed_job_platform.LiveRefresh.{or_empty}
use distributed_job_platform.Safe.Drafts.{Whole, nonneg, negative, clamp}
use distributed_job_platform.ConsoleData.{
  reconcile_console_data, replace_job, remove_dead_letters, has_id,
}
use distributed_job_platform.ConsoleData.Events.{append_event}
use distributed_job_platform.ConsoleData.Summary.{is_waiting}

pub record Turn : Type 0 where
  pub clock : Clock
  pub now : ℕ
  pub id : String

abbrev pub time_text : Turn → String
time_text t = t.clock.iso t.now

-- `makeSystemEvent(kind, payload)`, with the parts that the handlers give.
abbrev pub make_system_event :
    Turn
    → String
    → Option String
    → Option String
    → Option String
    → Option JobState
    → Option String
    → SystemEvent
make_system_event t kind job_id queue worker_id state message = record {
  kind = kind;
  job_id = job_id;
  queue = queue;
  worker_id = worker_id;
  state = state;
  message = message;
  timestamp = time_text t;
}

-- `const job = current.jobs.find(…); if (!job) return current;`.
abbrev pub with_job : (Job → ConsoleData) → ConsoleData → Option Job → ConsoleData
with_job update current none = current
with_job update current (some job) = update job

abbrev pub find_job : String → List Job → Option Job
find_job job_id = find (has_id job_id)

abbrev pub retried : Turn → Job → Job
retried t job = record job {
  state = queued;
  attempts = 0;
  last_error = some "";
  result = none;
  updated_at = time_text t;
  run_at = time_text t;
  started_at = none;
  finished_at = none;
  last_heartbeat_at = none;
  lease_expires_at = none;
  throttle_until = none;
  blocked_reason = some "";
  cancel_requested = false;
}

unfoldable pub retry_job : Turn → String → ConsoleData → ConsoleData
retry_job t job_id current =
    with_job
      (λ job.
        append_event t.clock
          (remove_dead_letters t.clock t.now (replace_job t.clock t.now current (retried t job))
            (job_id ∷ []))
          (make_system_event t "job.retried" (some job_id) (some job.queue) none (some queued)
            (some "job manually retried")))
      current (find_job job_id current.jobs)

abbrev pub canceled_job : Turn → Job → Job
canceled_job t job = record job {
  state = canceled;
  updated_at = time_text t;
  finished_at = some (time_text t);
  cancel_requested = true;
  last_error = some "canceled by operator";
}

unfoldable pub cancel_job : Turn → String → ConsoleData → ConsoleData
cancel_job t job_id current =
    with_job
      (λ job. append_event t.clock (replace_job t.clock t.now current (canceled_job t job)) (
        make_system_event t "job.canceled" (some job_id) (some job.queue) none (some canceled)
          (some "job cancellation requested")))
      current (find_job job_id current.jobs)

-- `job.priority + delta`; negative n is -(n + 1).
abbrev pub add_whole : ℕ → Whole → Whole
add_whole p (nonneg d) = nonneg (p + d)
add_whole p (negative n) = if ltb n p then nonneg (p - (n + 1)) else negative (n - p)

unfoldable pub adjust_priority : Turn → String → Whole → ConsoleData → ConsoleData
adjust_priority t job_id delta current =
    with_job
      (λ job.
        append_event t.clock
          (replace_job t.clock t.now current (record job {
            priority = clamp (add_whole job.priority delta) 0 9;
            updated_at = time_text t;
          }))
          (make_system_event t "job.priority_changed" (some job_id) (some job.queue) none none (
            some (
              append "priority adjusted to "
                (decimal (clamp (add_whole job.priority delta) 0 9))))))
      current (find_job job_id current.jobs)

abbrev pub replayed : Turn → String → Json → Job → Job
replayed t queue payload job = record job {
  queue = queue;
  payload = payload;
  state = queued;
  attempts = 0;
  last_error = some "";
  finished_at = none;
  started_at = none;
  lease_expires_at = none;
  updated_at = time_text t;
  run_at = time_text t;
}

-- The job that a failed one is cloned to, under a new id.
abbrev pub cloned : Turn → String → Json → Job → Job
cloned t queue payload job = record job {
  id = t.id;
  queue = queue;
  payload = payload;
  state = queued;
  attempts = 0;
  created_at = time_text t;
  updated_at = time_text t;
  run_at = time_text t;
  started_at = none;
  finished_at = none;
  worker_id = some "";
  lease_expires_at = none;
  last_heartbeat_at = none;
  last_error = some "";
  execution_ms = 0;
}

abbrev replay_message : Bool → Bool → String
replay_message true true = "dead-letter replayed with edited payload"
replay_message true false = "dead-letter replayed with original payload"
replay_message false true = "failed job cloned with edited payload"
replay_message false false = "failed job cloned with original payload"

-- `is_dead` says whether the handler found a dead letter of the job.
unfoldable pub replay_job : Turn → String → String → Json → Bool → Bool → ConsoleData → ConsoleData
replay_job t job_id queue payload edited is_dead current =
    with_job
      (λ job.
        if is_dead
        then append_event t.clock
            (remove_dead_letters t.clock t.now
              (replace_job t.clock t.now current (replayed t queue payload job)) (job_id ∷ []))
            (make_system_event t "job.replayed" (some job_id) (some queue) none (some queued)
              (some (replay_message true edited)))
        else append_event t.clock (replace_job t.clock t.now current (cloned t queue payload job)) (
            make_system_event t "job.replayed" (some t.id) (some queue) none (some queued)
              (some (replay_message false edited))))
      current (find_job job_id current.jobs)

abbrev pub payload_or : Option Json → Json → Json
payload_or none payload = payload
payload_or (some override) payload = override

abbrev pub bulk_replayed : Turn → String → Option Json → Job → Job
bulk_replayed t queue override job = record job {
  queue = queue;
  payload = payload_or override job.payload;
  state = queued;
  attempts = 0;
  last_error = some "";
  updated_at = time_text t;
  run_at = time_text t;
  started_at = none;
  finished_at = none;
}

-- The body of the loop over the selected jobs, and the loop.
unfoldable pub replay_selected_one :
    Turn → String → Option Json → String → ConsoleData → ConsoleData
replay_selected_one t queue override job_id next =
    with_job
      (λ job.
        remove_dead_letters t.clock t.now
          (replace_job t.clock t.now next (bulk_replayed t queue override job)) (job_id ∷ []))
      next (find_job job_id next.jobs)

unfoldable pub replay_selected :
    Turn → String → Option Json → List String → ConsoleData → ConsoleData
replay_selected t queue override [] next = next
replay_selected t queue override (job_id ∷ ids) next =
    replay_selected t queue override ids (replay_selected_one t queue override job_id next)

abbrev pub counted_jobs : List String → String → String
counted_jobs ids rest = append (decimal (length ids)) rest

unfoldable pub replay_selected_dead_letters :
    Turn → String → Option Json → List String → ConsoleData → ConsoleData
replay_selected_dead_letters t queue override ids current =
    append_event t.clock (replay_selected t queue override ids current) (
      make_system_event t "job.replayed" none (some queue) none none
        (some (counted_jobs ids " dead-letter jobs replayed")))

unfoldable pub delete_selected_dead_letters : Turn → List String → ConsoleData → ConsoleData
delete_selected_dead_letters t ids current =
    append_event t.clock (remove_dead_letters t.clock t.now current ids) (
      make_system_event t "job.dead_letter_deleted" none none none none
        (some (counted_jobs ids " dead-letter jobs deleted")))
