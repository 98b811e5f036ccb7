-- ===== src/ConsoleData/Summary.antt =====
-- The job counts of the overview (src/lib/console-data.ts, `summarizeJobs`).
pub mod Counts
use distributed_job_platform.Base.{
  ℕ, ◌+◌, ◌<◌, max, String, Bool, true, false, List, [], ◌∷◌, Option, none, some, length, keep, any,
  ltb, lookup, insert, if◌then◌else◌,
}
use distributed_job_platform.Models.Jobs.{
  Job, JobState, queued, scheduled, retrying, blocked, throttled, active, completed, failed,
  canceled,
}
use distributed_job_platform.Models.Snapshot.{Fraction, RateLimitStatus, WorkerLeaseHealth}

pub record Summary : Type 0 where
  pub total_jobs : ℕ
  pub queued_jobs : ℕ
  pub blocked_jobs : ℕ
  pub throttled_jobs : ℕ
  pub active_jobs : ℕ
  pub failed_jobs : ℕ
  pub retrying_jobs : ℕ
  pub completed_jobs : ℕ
  pub scheduled_jobs : ℕ
  pub canceled_jobs : ℕ
  pub queue_lengths : List (String × ℕ)
  pub average_exec_ms : Fraction
  pub active_workers : ℕ
  pub delayed_backlog : ℕ

abbrev pub is_waiting : JobState → Bool
is_waiting queued = true
is_waiting retrying = true
is_waiting scheduled = true
is_waiting _ = false

abbrev pub is_delayed : JobState → Bool
is_delayed scheduled = true
is_delayed retrying = true
is_delayed _ = false

abbrev pub is_throttled_state : JobState → Bool
is_throttled_state throttled = true
is_throttled_state _ = false

-- `dictionary[key] ?? 0`.
abbrev pub or_zero : Option ℕ → ℕ
or_zero none = 0
or_zero (some n) = n

-- The `switch` on the job's state.
count_state : JobState → Summary → Summary
count_state queued s = record s { queued_jobs = s.queued_jobs + 1 }
count_state blocked s = record s { blocked_jobs = s.blocked_jobs + 1 }
count_state throttled s = record s { throttled_jobs = s.throttled_jobs + 1 }
count_state active s = record s { active_jobs = s.active_jobs + 1 }
count_state failed s = record s { failed_jobs = s.failed_jobs + 1 }
count_state retrying s = record s { retrying_jobs = s.retrying_jobs + 1 }
count_state completed s = record s { completed_jobs = s.completed_jobs + 1 }
count_state scheduled s = record s { scheduled_jobs = s.scheduled_jobs + 1 }
count_state canceled s = record s { canceled_jobs = s.canceled_jobs + 1 }

count_queue : Job → Summary → Summary
count_queue j s = record s {
  queue_lengths =
      insert j.queue
        (or_zero (lookup j.queue s.queue_lengths) + (if is_waiting j.state then 1 else 0))
        s.queue_lengths;
}

count_delayed : Job → Summary → Summary
count_delayed j s =
    if is_delayed j.state then record s { delayed_backlog = s.delayed_backlog + 1 } else s

-- The body of the loop over the jobs, and the loop.
count_job : Job → Summary → Summary
count_job j s = count_delayed j (count_state j.state (count_queue j s))

count_jobs : List Job → Summary → Summary
count_jobs [] s = s
count_jobs (j ∷ js) s = count_jobs js (count_job j s)

total_exec_ms : List Job → ℕ
total_exec_ms [] = 0
total_exec_ms (j ∷ js) = j.execution_ms + total_exec_ms js

average_exec : List Job → Fraction
average_exec jobs =
    let done = keep (λ j. ltb 0 j.execution_ms) jobs in
    if ltb 0 (length done)
    then record { over = total_exec_ms done; under = length done }
    else record { over = 0; under = 1 }

empty_summary : List Job → List WorkerLeaseHealth → Summary
empty_summary jobs workers = record {
  total_jobs = length jobs;
  queued_jobs = 0;
  blocked_jobs = 0;
  throttled_jobs = 0;
  active_jobs = 0;
  failed_jobs = 0;
  retrying_jobs = 0;
  completed_jobs = 0;
  scheduled_jobs = 0;
  canceled_jobs = 0;
  queue_lengths = ("critical", 0) ∷ ("default", 0) ∷ ("low", 0) ∷ [];
  average_exec_ms = average_exec jobs;
  active_workers = length workers;
  delayed_backlog = 0;
}

throttle_floor : List Job → List RateLimitStatus → Summary → Summary
throttle_floor jobs rate_limits s =
    if any (λ r. r.throttled) rate_limits
    then record s {
      throttled_jobs =
          max s.throttled_jobs (length (keep (λ (j : Job). is_throttled_state j.state) jobs));
    }
    else s

pub summarize_jobs : List Job → List WorkerLeaseHealth → List RateLimitStatus → Summary
summarize_jobs jobs workers rate_limits =
    throttle_floor jobs rate_limits (count_jobs jobs (empty_summary jobs workers))
