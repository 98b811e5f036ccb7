-- ===== src/ConsoleData/Tests.antt =====
-- The console's operations on concrete data, and the theorems at it.
use distributed_job_platform.Base.{
  ◌≡◌, refl, ◌≤◌, ◌+◌, String, true, false, not, ◌&&◌, List, [], ◌∷◌, none, some, length, tally,
  max, lookup, str_eq, map, All, includes, arith, if◌then◌else◌, ◌==◌,
}
use distributed_job_platform.Json.{null}
use distributed_job_platform.Models.Jobs.{
  Job, JobState, JobInspection, DeadLetter, queued, throttled, failed,
}
use distributed_job_platform.Models.Snapshot.{SystemEvent}
use distributed_job_platform.Models.Console.{ConsoleData, Clock, live}
use distributed_job_platform.LiveRefresh.{create_event_fingerprint}
use distributed_job_platform.ConsoleData.{
  create_empty_console_data, create_empty_snapshot, reconcile_console_data, replace_job,
  remove_dead_letters, find_dead_letter, has_id,
}
use distributed_job_platform.ConsoleData.Summary.{summarize_jobs, or_zero}
use distributed_job_platform.ConsoleData.Summary.Counts.{
  count_of, in_state, waits_in, is_backlog, summarize_jobs-tally,
}
use distributed_job_platform.ConsoleData.Events.{append_events}
use distributed_job_platform.ConsoleData.Events.Feed.{
  IsFeed, IsSeen, append_events-IsFeed, append_events-seen,
}
use distributed_job_platform.ConsoleData.Reconciling.{reconcile_console_data-again}
use distributed_job_platform.ConsoleData.Replacing.{tally-replace_job}
use distributed_job_platform.ConsoleData.DeadLetters.{is_of, find_dead_letter-remove_dead_letters}
use distributed_job_platform.ConsoleData.Workflows.{get_inspection}
use distributed_job_platform.ConsoleData.Workflows.Graphs.{is_node_of, get_inspection_lem}

-- A clock that reads the texts "1", "2" and "3".
abbrev pub clock : Clock
clock = record {
  get_time =
      λ s. if str_eq s "1" then 1 else if str_eq s "2" then 2 else if str_eq s "3" then 3 else 0;
  iso = λ n. if n == 1 then "1" else if n == 2 then "2" else "3";
}

abbrev pub job_of : String → String → JobState → String → Job
job_of id queue state updated_at = record {
  id = id;
  type = "email.send";
  queue = queue;
  tenant_id = "tenant-a";
  payload = null;
  priority = 5;
  attempts = 0;
  max_attempts = 5;
  state = state;
  schema_version = 1;
  idempotency_key = none;
  workflow_id = some "wf";
  parent_job_id = none;
  dependency_policy = none;
  blocked_reason = none;
  created_at = "1";
  updated_at = updated_at;
  run_at = "1";
  started_at = none;
  finished_at = none;
  last_heartbeat_at = none;
  lease_expires_at = none;
  throttle_until = none;
  last_error = none;
  result = none;
  worker_id = none;
  lease_token = none;
  timeout_seconds = 60;
  cancel_requested = false;
  execution_ms = 0;
}

abbrev pub two_jobs : List Job
two_jobs = job_of "a" "critical" queued "1" ∷ job_of "b" "low" throttled "2" ∷ []

abbrev pub event_of : String → String → SystemEvent
event_of kind timestamp = record {
  kind = kind;
  job_id = none;
  queue = none;
  worker_id = none;
  state = none;
  message = none;
  timestamp = timestamp;
}

abbrev pub dead_letter_of : String → DeadLetter
dead_letter_of job_id = record {
  job_id = job_id;
  queue = "default";
  worker_id = "w";
  error_type = none;
  error_message = "failed";
  stack_trace = none;
  failed_at = "1";
  last_attempt = 1;
  replay_count = 0;
  last_replayed_at = none;
  job = none;
  attempts = none;
}

abbrev pub data_of : ConsoleData
data_of = record (create_empty_console_data live) {
  jobs = two_jobs;
  events = event_of "started" "2" ∷ [];
  snapshot = record create_empty_snapshot {
    dead_letters = dead_letter_of "a" ∷ dead_letter_of "b" ∷ [];
  };
}

summarize_jobs-tally_example :
    ((k : JobState) → count_of k (summarize_jobs two_jobs [] []) ≡ tally (in_state k) two_jobs)
    × ((q : String)
        → or_zero (lookup q (summarize_jobs two_jobs [] []).queue_lengths)
          ≡ tally (waits_in q) two_jobs)
    × ((summarize_jobs two_jobs [] []).delayed_backlog ≡ tally is_backlog two_jobs)
    × ((summarize_jobs two_jobs [] []).total_jobs ≡ length two_jobs)
summarize_jobs-tally_example = summarize_jobs-tally two_jobs [] []

one_event-IsFeed : IsFeed clock data_of.events
unfolding IsFeed
one_event-IsFeed = (omega arith, (tt, tt), λ p. ground arith)

append_events-IsFeed_example :
    IsFeed clock
      (append_events clock data_of (event_of "started" "2" ∷ event_of "ended" "3" ∷ [])).events
append_events-IsFeed_example =
    append_events-IsFeed clock data_of (event_of "started" "2" ∷ event_of "ended" "3" ∷ [])
      one_event-IsFeed

started-IsSeen :
    All (IsSeen (map create_event_fingerprint data_of.events)) (event_of "started" "2" ∷ [])
unfolding IsSeen create_event_fingerprint
started-IsSeen = (refl, tt)

append_events-seen_example : append_events clock data_of (event_of "started" "2" ∷ []) ≡ data_of
append_events-seen_example =
    append_events-seen clock data_of (event_of "started" "2" ∷ []) started-IsSeen

reconcile_console_data-again_example :
    reconcile_console_data clock 3 (reconcile_console_data clock 2 data_of)
    ≡ reconcile_console_data clock 2 data_of
reconcile_console_data-again_example = reconcile_console_data-again clock 2 3 data_of refl

tally-replace_job_example :
    tally (has_id "b") (replace_job clock 3 data_of (job_of "a" "low" failed "3")).jobs
    ≡ tally (λ x. has_id "b" x && not (has_id "a" x)) two_jobs
      + (if has_id "b" (job_of "a" "low" failed "3")
          then max 1 (tally (has_id "a") two_jobs)
          else 0)
tally-replace_job_example =
    tally-replace_job (has_id "b") clock 3 data_of (job_of "a" "low" failed "3")

find_dead_letter-remove_dead_letters_example :
    let r = remove_dead_letters clock 3 data_of ("a" ∷ []) in
    (includes "a" ("a" ∷ []) ≡ true → find_dead_letter r "a" ≡ none)
    × (includes "a" ("a" ∷ []) ≡ false
        → tally (is_of "a") r.snapshot.dead_letters
          ≡ tally (is_of "a") data_of.snapshot.dead_letters)
find_dead_letter-remove_dead_letters_example =
    find_dead_letter-remove_dead_letters clock 3 data_of ("a" ∷ []) "a"

get_inspection_lem_example :
    (inspection : JobInspection) × (get_inspection clock data_of "b" ≡ some inspection)
    × (inspection.job.id ≡ "b")
    × (inspection.graph.root_job_id ≡ "b")
    × (1 ≤ tally (is_node_of "b") inspection.graph.nodes)
unfolding lookup
get_inspection_lem_example = get_inspection_lem clock data_of "b" refl refl
