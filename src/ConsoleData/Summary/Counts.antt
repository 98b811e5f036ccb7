-- ===== src/ConsoleData/Summary/Counts.antt =====
-- The job counts (src/lib/console-data.ts, `summarizeJobs`).
use distributed_job_platform.Base.{
  ℕ, ◌+◌, ◌≡◌, refl, sym, ap, ◌∙◌, max, Bool, true, false, ◌&&◌, String, List, [], ◌∷◌, length,
  keep, any, tally, lookup, if◌then◌else◌, str_eq, str_eq_iff, lookup-insert, sort_by,
  length-sort_by, arith, Bool-cases, inl, inr,
}
use distributed_job_platform.Models.Jobs.{
  Job, JobState, queued, scheduled, retrying, blocked, throttled, active, completed, failed,
  canceled,
}
use distributed_job_platform.Models.Snapshot.{RateLimitStatus, WorkerLeaseHealth}
use distributed_job_platform.ConsoleData.Summary.{
  Summary, is_waiting, is_delayed, is_throttled_state, or_zero, count_state, count_queue,
  count_delayed, count_job, count_jobs, empty_summary, throttle_floor, summarize_jobs,
}

-- The count that the summary keeps for a state.
abbrev pub count_of : JobState → Summary → ℕ
count_of queued s = s.queued_jobs
count_of scheduled s = s.scheduled_jobs
count_of retrying s = s.retrying_jobs
count_of blocked s = s.blocked_jobs
count_of throttled s = s.throttled_jobs
count_of active s = s.active_jobs
count_of completed s = s.completed_jobs
count_of failed s = s.failed_jobs
count_of canceled s = s.canceled_jobs

abbrev pub is_state : JobState → JobState → Bool
is_state queued queued = true
is_state scheduled scheduled = true
is_state retrying retrying = true
is_state blocked blocked = true
is_state throttled throttled = true
is_state active active = true
is_state completed completed = true
is_state failed failed = true
is_state canceled canceled = true
is_state _ _ = false

abbrev pub in_state : JobState → Job → Bool
in_state k j = is_state k j.state

abbrev pub waits_in : String → Job → Bool
waits_in q j = str_eq j.queue q && is_waiting j.state

abbrev pub is_backlog : Job → Bool
is_backlog j = is_delayed j.state

count_of-count_state :
    (k t : JobState) (s : Summary)
    → count_of k (count_state t s) ≡ (if is_state k t then 1 else 0) + count_of k s
unfolding count_state
count_of-count_state k t s = ground arith

count_of-count_queue :
    (k : JobState) (j : Job) (s : Summary) → count_of k (count_queue j s) ≡ count_of k s
unfolding count_queue
count_of-count_queue k j s = ground arith

count_of-count_delayed :
    (k : JobState) (j : Job) (s : Summary) → count_of k (count_delayed j s) ≡ count_of k s
unfolding count_delayed
count_of-count_delayed k j s = ground arith

count_of-count_jobs :
    (k : JobState) (js : List Job) (s : Summary)
    → count_of k (count_jobs js s) ≡ tally (in_state k) js + count_of k s
unfolding count_jobs count_job
count_of-count_jobs k [] s = omega arith
count_of-count_jobs k (j ∷ js) s =
    let rest = count_of-count_jobs k js (count_job j s) in
    let delayed = count_of-count_delayed k j (count_state j.state (count_queue j s)) in
    let counted = count_of-count_state k j.state (count_queue j s) in
    let queue = count_of-count_queue k j s in omega arith

waiting_of : String → Summary → ℕ
waiting_of q s = or_zero (lookup q s.queue_lengths)

waiting_of-count_queue :
    (q : String) (j : Job) (s : Summary)
    → waiting_of q (count_queue j s) ≡ (if waits_in q j then 1 else 0) + waiting_of q s
unfolding waiting_of count_queue
waiting_of-count_queue q j s =
    rw
      (lookup-insert j.queue q
        (or_zero (lookup j.queue s.queue_lengths) + (if is_waiting j.state then 1 else 0))
        s.queue_lengths)
      (ground (arith, str_eq_iff j.queue q))

queue_lengths-count_state :
    (t : JobState) (s : Summary) → (count_state t s).queue_lengths ≡ s.queue_lengths
unfolding count_state
queue_lengths-count_state t s = ground arith

queue_lengths-count_delayed :
    (j : Job) (s : Summary) → (count_delayed j s).queue_lengths ≡ s.queue_lengths
unfolding count_delayed
queue_lengths-count_delayed j s = ground arith

waiting_of-count_job :
    (q : String) (j : Job) (s : Summary)
    → waiting_of q (count_job j s) ≡ (if waits_in q j then 1 else 0) + waiting_of q s
unfolding waiting_of count_job
waiting_of-count_job q j s =
    rw (queue_lengths-count_delayed j (count_state j.state (count_queue j s)))
      (rw (queue_lengths-count_state j.state (count_queue j s)) (waiting_of-count_queue q j s))

waiting_of-count_jobs :
    (q : String) (js : List Job) (s : Summary)
    → waiting_of q (count_jobs js s) ≡ tally (waits_in q) js + waiting_of q s
unfolding count_jobs
waiting_of-count_jobs q [] s = omega arith
waiting_of-count_jobs q (j ∷ js) s =
    let rest = waiting_of-count_jobs q js (count_job j s) in
    let step = waiting_of-count_job q j s in omega arith

backlog-count_job :
    (j : Job) (s : Summary)
    → (count_job j s).delayed_backlog ≡ (if is_backlog j then 1 else 0) + s.delayed_backlog
unfolding count_job count_delayed count_state count_queue
backlog-count_job j s = ground arith

backlog-count_jobs :
    (js : List Job) (s : Summary)
    → (count_jobs js s).delayed_backlog ≡ tally is_backlog js + s.delayed_backlog
unfolding count_jobs
backlog-count_jobs [] s = omega arith
backlog-count_jobs (j ∷ js) s =
    let rest = backlog-count_jobs js (count_job j s) in
    let step = backlog-count_job j s in omega arith

total-count_job : (j : Job) (s : Summary) → (count_job j s).total_jobs ≡ s.total_jobs
unfolding count_job count_delayed count_state count_queue
total-count_job j s = ground arith

total-count_jobs : (js : List Job) (s : Summary) → (count_jobs js s).total_jobs ≡ s.total_jobs
unfolding count_jobs
total-count_jobs [] s = refl
total-count_jobs (j ∷ js) s = rw (total-count_jobs js (count_job j s)) (total-count_job j s)

tally_throttled :
    (js : List Job)
    → length (keep (λ (j : Job). is_throttled_state j.state) js) ≡ tally (in_state throttled) js
tally_throttled [] = refl
tally_throttled (j ∷ js) = ground (arith, tally_throttled js)

same_throttled : (s : Summary) (n : ℕ) → s.throttled_jobs ≡ n → record s { throttled_jobs = n } ≡ s
same_throttled s n h = ap (λ k. record s { throttled_jobs = k }) (sym h)

throttle_floor_lem :
    (js : List Job) (limits : List RateLimitStatus) (s : Summary)
    → s.throttled_jobs ≡ tally (in_state throttled) js
    → throttle_floor js limits s ≡ s
unfolding throttle_floor
throttle_floor_lem js limits s h =
    let count = tally_throttled js in
    elim (Bool-cases (any (λ r. r.throttled) limits)) [
      | inl e ↦ rw e (
          same_throttled s
            (max s.throttled_jobs (length (keep (λ (j : Job). is_throttled_state j.state) js)))
            (omega arith))
      | inr e ↦ rw e
    ]

summarize_jobs_lem :
    (js : List Job) (workers : List WorkerLeaseHealth) (limits : List RateLimitStatus)
    → summarize_jobs js workers limits ≡ count_jobs js (empty_summary js workers)
unfolding summarize_jobs empty_summary
summarize_jobs_lem js workers limits =
    throttle_floor_lem js limits (count_jobs js (empty_summary js workers))
      (let counted = count_of-count_jobs throttled js (empty_summary js workers) in omega arith)

empty_count :
    (k : JobState) (js : List Job) (workers : List WorkerLeaseHealth)
    → count_of k (empty_summary js workers) ≡ 0
unfolding empty_summary
empty_count k js workers = ground arith

empty_waiting :
    (q : String) (js : List Job) (workers : List WorkerLeaseHealth)
    → waiting_of q (empty_summary js workers) ≡ 0
unfolding empty_summary waiting_of lookup
empty_waiting q js workers = ground arith

empty_totals :
    (js : List Job) (workers : List WorkerLeaseHealth)
    → ((empty_summary js workers).delayed_backlog ≡ 0)
      × ((empty_summary js workers).total_jobs ≡ length js)
unfolding empty_summary
empty_totals js workers = (refl, refl)

-- Each of the nine counts of the overview is the number of jobs in that state; the length of each
-- queue is the number of its jobs that are queued, retrying or scheduled; the backlog is the number
-- of jobs that are scheduled or retrying; and the total is the number of jobs. Throttled policies
-- never change a count.
pub summarize_jobs-tally :
    (js : List Job) (workers : List WorkerLeaseHealth) (limits : List RateLimitStatus)
    → ((k : JobState) → count_of k (summarize_jobs js workers limits) ≡ tally (in_state k) js)
      × ((q : String)
          → or_zero (lookup q (summarize_jobs js workers limits).queue_lengths)
            ≡ tally (waits_in q) js)
      × ((summarize_jobs js workers limits).delayed_backlog ≡ tally is_backlog js)
      × ((summarize_jobs js workers limits).total_jobs ≡ length js)
unfolding waiting_of
summarize_jobs-tally js workers limits =
    let s = empty_summary js workers in
    rw (summarize_jobs_lem js workers limits) (
      λ k.
          let zero_first = empty_count k js workers in
          let all = count_of-count_jobs k js s in omega arith,
      λ q.
          let none_waiting = empty_waiting q js workers in
          let all = waiting_of-count_jobs q js s in omega arith,
      let all = backlog-count_jobs js s in let nothing = (empty_totals js workers).0 in omega arith,
      total-count_jobs js s ∙ (empty_totals js workers).1,
    )

tally_all :
    (js : List Job)
    → tally (in_state queued) js
        + tally (in_state scheduled) js
        + tally (in_state retrying) js
        + tally (in_state blocked) js
        + tally (in_state throttled) js
        + tally (in_state active) js
        + tally (in_state completed) js
        + tally (in_state failed) js
        + tally (in_state canceled) js
      ≡ length js
tally_all [] = refl
tally_all (j ∷ js) = ground (arith, tally_all js)

-- The nine counts of the overview sum up to its total.
pub summarize_jobs-total :
    (js : List Job) (workers : List WorkerLeaseHealth) (limits : List RateLimitStatus)
    → let s = summarize_jobs js workers limits in
      s.queued_jobs + s.scheduled_jobs + s.retrying_jobs + s.blocked_jobs + s.throttled_jobs
        + s.active_jobs + s.completed_jobs + s.failed_jobs + s.canceled_jobs
      ≡ s.total_jobs
summarize_jobs-total js workers limits =
    let (counts, queues, backlog, total) = summarize_jobs-tally js workers limits in
    let c1 = counts queued in
    let c2 = counts scheduled in
    let c3 = counts retrying in
    let c4 = counts blocked in
    let c5 = counts throttled in
    let c6 = counts active in
    let c7 = counts completed in
    let c8 = counts failed in let c9 = counts canceled in omega (arith, tally_all js)

-- The order of the workers does not matter to the counts.
pub summarize_jobs-sort_by :
    (b : WorkerLeaseHealth → WorkerLeaseHealth → Bool) (js : List Job)
    (workers : List WorkerLeaseHealth) (limits : List RateLimitStatus)
    → summarize_jobs js (sort_by b workers) limits ≡ summarize_jobs js workers limits
unfolding summarize_jobs empty_summary
summarize_jobs-sort_by b js workers limits = rw (length-sort_by b workers)
