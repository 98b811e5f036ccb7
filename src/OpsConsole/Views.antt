-- ===== src/OpsConsole/Views.antt =====
-- What the console computes of its data to show it (src/components/OpsConsole.tsx): queues and workers.
-- The dictionaries hold own keys alone: no queue or worker has the name of a method of objects.
pub mod Counts
use distributed_job_platform.Base.{
  ℕ, ◌+◌, ◌*◌, max, String, Bool, true, false, ◌&&◌, List, [], ◌∷◌, ◌++◌, map, Option, none, some,
  leb, ltb, lookup, insert, truthy, str_eq, or_text, if◌then◌else◌,
}
use distributed_job_platform.Models.Jobs.{
  Job, JobState, DeadLetter, queued, scheduled, retrying, blocked, throttled, active, completed,
  failed, canceled,
}
use distributed_job_platform.Models.Snapshot.{
  Fraction, WorkerLeaseHealth, WorkerStatus, RateLimitStatus,
}
use distributed_job_platform.Models.Console.{ConsoleData, QueueControl, WorkerControl}
use distributed_job_platform.LiveRefresh.{or_empty}
use distributed_job_platform.ConsoleData.Summary.{is_waiting, or_zero}
use distributed_job_platform.ConsoleData.Summary.Counts.{is_state}

abbrev pub queues : List String
queues = "critical" ∷ "default" ∷ "low" ∷ []

pub record QueueCounts : Type 0 where
  pub active_count : ℕ
  pub queued_count : ℕ
  pub throttled_count : ℕ
  pub blocked_count : ℕ
  pub completed_count : ℕ

abbrev pub no_counts : QueueCounts
no_counts = record {
  active_count = 0;
  queued_count = 0;
  throttled_count = 0;
  blocked_count = 0;
  completed_count = 0;
}

-- `if (test) count += 1`.
abbrev pub plus_if : Bool → ℕ → ℕ
plus_if test n = if test then n + 1 else n

abbrev pub bump : JobState → QueueCounts → QueueCounts
bump state c = record {
  active_count = plus_if (is_state state active) c.active_count;
  queued_count = plus_if (is_waiting state) c.queued_count;
  throttled_count = plus_if (is_state state throttled) c.throttled_count;
  blocked_count = plus_if (is_state state blocked) c.blocked_count;
  completed_count = plus_if (is_state state completed) c.completed_count;
}

pub record JobSummary : Type 0 where
  pub by_queue : List (String × QueueCounts)
  pub completed_by_worker : List (String × ℕ)

abbrev pub bump_queue :
    Job → List (String × QueueCounts) → Option QueueCounts → List (String × QueueCounts)
bump_queue job d none = d
bump_queue job d (some c) = insert job.queue (bump job.state c) d

abbrev pub has_completed : Job → Bool
has_completed job = truthy (or_empty job.worker_id) && is_state job.state completed

abbrev pub bump_worker : Job → List (String × ℕ) → List (String × ℕ)
bump_worker job d =
    let worker_id = or_empty job.worker_id in
    if has_completed job then insert worker_id (or_zero (lookup worker_id d) + 1) d else d

abbrev pub summarize_job : Job → JobSummary → JobSummary
summarize_job job s = record {
  by_queue = bump_queue job s.by_queue (lookup job.queue s.by_queue);
  completed_by_worker = bump_worker job s.completed_by_worker;
}

unfoldable pub summarize : List Job → JobSummary → JobSummary
summarize [] s = s
summarize (job ∷ jobs) s = summarize jobs (summarize_job job s)

abbrev pub empty_job_summary : JobSummary
empty_job_summary = record { by_queue = map (λ q. (q, no_counts)) queues; completed_by_worker = [] }

abbrev pub queue_job_summary : List Job → JobSummary
queue_job_summary jobs = summarize jobs empty_job_summary

unfoldable pub dead_letter_counts : List DeadLetter → List (String × ℕ) → List (String × ℕ)
dead_letter_counts [] result = result
dead_letter_counts (item ∷ items) result =
    dead_letter_counts items (insert item.queue (or_zero (lookup item.queue result) + 1) result)

abbrev pub or_nothing : Option (List RateLimitStatus) → List RateLimitStatus
or_nothing none = []
or_nothing (some items) = items

abbrev add_policy :
    RateLimitStatus → List (String × List RateLimitStatus) → List (String × List RateLimitStatus)
add_policy item result =
    let value = or_empty item.policy.scope_value in
    if str_eq item.policy.scope "queue" && truthy value
    then insert value (or_nothing (lookup value result) ++ item ∷ []) result
    else result

unfoldable pub queue_policies :
    List RateLimitStatus
    → List (String × List RateLimitStatus)
    → List (String × List RateLimitStatus)
queue_policies [] result = result
queue_policies (item ∷ items) result = queue_policies items (add_policy item result)

unfoldable pub worker_statuses_by_id :
    List WorkerStatus → List (String × WorkerStatus) → List (String × WorkerStatus)
worker_statuses_by_id [] result = result
worker_statuses_by_id (item ∷ items) result =
    worker_statuses_by_id items (insert item.worker_id item result)

-- `Math.min(100, (over / under) * 100)`, as a fraction, for an `under` that is not 0.
abbrev pub percent : ℕ → ℕ → Fraction
percent over under =
    if leb under over
    then record { over = 100; under = 1 }
    else record { over = over * 100; under = under }

abbrev pub queue_saturation : List RateLimitStatus → ℕ → Fraction
queue_saturation [] active_jobs = percent (active_jobs * 16) 100
queue_saturation (first ∷ policies) active_jobs =
    percent first.active_count (max first.policy.limit 1)

-- A worker without slots has none.
abbrev pub worker_saturation : ℕ → ℕ → Fraction
worker_saturation leases ℕ.zero = record { over = 0; under = 1 }
worker_saturation leases concurrency = percent leases concurrency

pub record QueueView : Type 0 where
  pub queue_name : String
  pub control : Option QueueControl
  pub active_jobs : ℕ
  pub queued_jobs : ℕ
  pub backlog : ℕ
  pub throttled : ℕ
  pub blocked : ℕ
  pub dead_letters : ℕ
  pub saturation : Fraction
  pub policies : List RateLimitStatus

abbrev pub or_no_counts : Option QueueCounts → QueueCounts
or_no_counts none = no_counts
or_no_counts (some c) = c

unfoldable pub queue_view : ConsoleData → String → QueueView
queue_view d queue_name =
    let summary = or_no_counts (lookup queue_name (queue_job_summary d.jobs).by_queue) in
    let policies = or_nothing (lookup queue_name (queue_policies d.snapshot.rate_limits [])) in
    record {
      queue_name = queue_name;
      control = lookup queue_name d.queue_controls;
      active_jobs = summary.active_count;
      queued_jobs = summary.queued_count;
      backlog = or_zero (lookup queue_name d.snapshot.overview.queue_lengths);
      throttled = summary.throttled_count;
      blocked = summary.blocked_count;
      dead_letters = or_zero (lookup queue_name (dead_letter_counts d.snapshot.dead_letters []));
      saturation = queue_saturation policies summary.active_count;
      policies = policies;
    }

abbrev pub queue_views : ConsoleData → List QueueView
queue_views d = map (queue_view d) queues

pub record WorkerView : Type 0 where
  pub health : WorkerLeaseHealth
  pub concurrency : ℕ
  pub version : String
  pub effective_status : String
  pub throughput : ℕ
  pub saturation : Fraction

abbrev is_cordoned : Option WorkerControl → Bool
is_cordoned none = false
is_cordoned (some c) = c.cordoned

abbrev pub concurrency_of : Option WorkerStatus → ℕ
concurrency_of none = 0
concurrency_of (some s) = s.concurrency

abbrev version_of : Option WorkerStatus → String → String
version_of none version = version
version_of (some s) version = s.version

abbrev status_of : Option WorkerStatus → String → String
status_of none status = status
status_of (some s) status = or_text s.status status

unfoldable pub worker_view : ConsoleData → WorkerLeaseHealth → WorkerView
worker_view d health =
    let status = lookup health.worker_id (worker_statuses_by_id d.worker_statuses []) in
    record {
      health = health;
      concurrency = concurrency_of status;
      version = version_of status health.version;
      effective_status =
          if is_cordoned (lookup health.worker_id d.worker_controls)
          then "maintenance"
          else status_of status health.status;
      throughput = or_zero (lookup health.worker_id (queue_job_summary d.jobs).completed_by_worker);
      saturation = worker_saturation health.active_lease_count (concurrency_of status);
    }

abbrev pub worker_views : ConsoleData → List WorkerView
worker_views d = map (worker_view d) d.snapshot.workers
