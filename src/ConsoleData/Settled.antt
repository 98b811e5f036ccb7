-- ===== src/ConsoleData/Settled.antt =====
-- Data that the console can show: sorted, short in events, and counted (src/lib/console-data.ts).
use distributed_job_platform.Base.{
  ℕ, ◌≤◌, ◌≡◌, refl, ◌∙◌, String, List, [], ◌∷◌, ◌++◌, map, length, tally, lookup, sort_by,
  IsSortedBy, arith,
}
use distributed_job_platform.Models.Jobs.{
  Job, JobState, queued, scheduled, retrying, blocked, throttled, active, completed, failed,
  canceled,
}
use distributed_job_platform.Models.Snapshot.{Overview, SystemEvent}
use distributed_job_platform.Models.Console.{ConsoleData, Clock}
use distributed_job_platform.LiveRefresh.{create_event_fingerprint}
use distributed_job_platform.ConsoleData.{
  newest_first, next_run_first, last_failed_first, freshest_first, reconcile_console_data,
  reconcile_snapshot, reconcile_overview, replace_job, remove_dead_letters,
}
use distributed_job_platform.ConsoleData.Summary.{or_zero, summarize_jobs}
use distributed_job_platform.ConsoleData.Summary.Counts.{
  count_of, in_state, waits_in, is_backlog, summarize_jobs-tally,
}
use distributed_job_platform.ConsoleData.Events.{
  latest_first, sort_events, fresh_events, merge_events, append_events, append_event,
}
use distributed_job_platform.ConsoleData.Events.Feed.{sort_events-short, sort_events-IsSortedBy}
use distributed_job_platform.ConsoleData.Reconciling.{reconcile_console_data-IsSortedBy}

abbrev pub overview_count : JobState → Overview → ℕ
overview_count queued o = o.queued_jobs
overview_count scheduled o = o.scheduled_jobs
overview_count retrying o = o.retrying_jobs
overview_count blocked o = o.blocked_jobs
overview_count throttled o = o.throttled_jobs
overview_count active o = o.active_jobs
overview_count completed o = o.completed_jobs
overview_count failed o = o.failed_jobs
overview_count canceled o = o.canceled_jobs

-- The overview counts the jobs.
pub record IsCounted (o : Overview) (jobs : List Job) : Type 0 where
  pub by_state : (k : JobState) → overview_count k o ≡ tally (in_state k) jobs
  pub by_queue : (q : String) → or_zero (lookup q o.queue_lengths) ≡ tally (waits_in q) jobs
  pub backlog : o.delayed_backlog ≡ tally is_backlog jobs
  pub total : o.total_jobs ≡ length jobs

-- What the console shows: jobs, schedules, events, dead letters and workers in their order, at most 60
-- events, and an overview that counts the jobs.
pub record IsSettled (c : Clock) (d : ConsoleData) : Type 0 where
  pub jobs_sorted : IsSortedBy (newest_first c) d.jobs
  pub schedules_sorted : IsSortedBy (next_run_first c) d.schedules
  pub dead_letters_sorted : IsSortedBy (last_failed_first c) d.snapshot.dead_letters
  pub workers_sorted : IsSortedBy freshest_first d.snapshot.workers
  pub events_sorted : IsSortedBy (latest_first c) d.events
  pub events_short : length d.events ≤ 60
  pub counted : IsCounted d.snapshot.overview d.jobs

overview_count_lem :
    (k : JobState) (c : Clock) (now : ℕ) (d : ConsoleData) (jobs : List Job)
    → overview_count k (reconcile_overview c now d jobs)
      ≡ count_of k (summarize_jobs jobs d.snapshot.workers d.snapshot.rate_limits)
unfolding reconcile_overview
overview_count_lem k c now d jobs = ground arith

overview-IsCounted :
    (c : Clock) (now : ℕ) (d : ConsoleData) (jobs : List Job)
    → IsCounted (reconcile_overview c now d jobs) jobs
unfolding reconcile_overview
overview-IsCounted c now d jobs =
    let (counts, queues, backlog, total) =
      summarize_jobs-tally jobs d.snapshot.workers d.snapshot.rate_limits in
    record {
      by_state = λ k. overview_count_lem k c now d jobs ∙ counts k;
      by_queue = queues;
      backlog = backlog;
      total = total;
    }

reconciled_events :
    (c : Clock) (now : ℕ) (d : ConsoleData)
    → (reconcile_console_data c now d).events ≡ sort_events c d.events
unfolding reconcile_console_data
reconciled_events c now d = refl

reconciled-IsCounted :
    (c : Clock) (now : ℕ) (d : ConsoleData)
    → let r = reconcile_console_data c now d in IsCounted r.snapshot.overview r.jobs
unfolding reconcile_console_data reconcile_snapshot
reconciled-IsCounted c now d = overview-IsCounted c now d (sort_by (newest_first c) d.jobs)

-- Reconciling settles any data.
pub reconcile_console_data-IsSettled :
    (c : Clock) (now : ℕ) (d : ConsoleData) → IsSettled c (reconcile_console_data c now d)
reconcile_console_data-IsSettled c now d =
    let (jobs, schedules, events, dead_letters, workers) =
      reconcile_console_data-IsSortedBy c now d in
    record {
      jobs_sorted = jobs;
      schedules_sorted = schedules;
      dead_letters_sorted = dead_letters;
      workers_sorted = workers;
      events_sorted = events;
      events_short = rw (reconciled_events c now d) (sort_events-short c d.events);
      counted = reconciled-IsCounted c now d;
    }

merge_events-IsSettled :
    (c : Clock) (d : ConsoleData) (es : List SystemEvent)
    → IsSettled c d
    → IsSettled c (merge_events c d es)
unfolding merge_events
merge_events-IsSettled c d [] h = h
merge_events-IsSettled c d (e ∷ es) h = record {
  jobs_sorted = h.jobs_sorted;
  schedules_sorted = h.schedules_sorted;
  dead_letters_sorted = h.dead_letters_sorted;
  workers_sorted = h.workers_sorted;
  events_sorted = sort_events-IsSortedBy c (d.events ++ e ∷ es);
  events_short = sort_events-short c (d.events ++ e ∷ es);
  counted = h.counted;
}

pub append_events-IsSettled :
    (c : Clock) (d : ConsoleData) (es : List SystemEvent)
    → IsSettled c d
    → IsSettled c (append_events c d es)
unfolding append_events
append_events-IsSettled c d es =
    merge_events-IsSettled c d (fresh_events (map create_event_fingerprint d.events) es)

pub append_event-IsSettled :
    (c : Clock) (d : ConsoleData) (e : SystemEvent)
    → IsSettled c d
    → IsSettled c (append_event c d e)
unfolding append_event
append_event-IsSettled c d e = append_events-IsSettled c d (e ∷ [])

pub replace_job-IsSettled :
    (c : Clock) (now : ℕ) (d : ConsoleData) (job : Job) → IsSettled c (replace_job c now d job)
unfolding replace_job
replace_job-IsSettled c now d job = reconcile_console_data-IsSettled c now _

pub remove_dead_letters-IsSettled :
    (c : Clock) (now : ℕ) (d : ConsoleData) (ids : List String)
    → IsSettled c (remove_dead_letters c now d ids)
unfolding remove_dead_letters
remove_dead_letters-IsSettled c now d ids = reconcile_console_data-IsSettled c now _

-- Events change neither the jobs nor the snapshot.
pub merge_events_rest :
    (c : Clock) (d : ConsoleData) (es : List SystemEvent)
    → ((merge_events c d es).jobs ≡ d.jobs) × ((merge_events c d es).snapshot ≡ d.snapshot)
unfolding merge_events
merge_events_rest c d [] = (refl, refl)
merge_events_rest c d (e ∷ es) = (refl, refl)

pub append_event_rest :
    (c : Clock) (d : ConsoleData) (e : SystemEvent)
    → ((append_event c d e).jobs ≡ d.jobs) × ((append_event c d e).snapshot ≡ d.snapshot)
unfolding append_event append_events
append_event_rest c d e =
    merge_events_rest c d (fresh_events (map create_event_fingerprint d.events) (e ∷ []))
