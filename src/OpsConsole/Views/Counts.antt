-- ===== src/OpsConsole/Views/Counts.antt =====
-- What the views of queues and workers count (src/components/OpsConsole.tsx).
use distributed_job_platform.Base.{
  ℕ, zero, suc, ◌+◌, ◌*◌, ◌≤◌, ◌≡◌, refl, ap, ◌∙◌, max, String, Bool, true, false, ◌&&◌, List, [],
  ◌∷◌, Option, none, some, lookup, lookup-insert, str_eq, str_eq_iff, str_eq_refl, tally, includes,
  Bool-cases, inl, inr, if◌then◌else◌, arith,
}
use distributed_job_platform.Models.Jobs.{
  Job, JobState, DeadLetter, blocked, throttled, active, completed,
}
use distributed_job_platform.Models.Snapshot.{Fraction, WorkerLeaseHealth, RateLimitStatus}
use distributed_job_platform.Models.Console.{ConsoleData}
use distributed_job_platform.LiveRefresh.{or_empty}
use distributed_job_platform.ConsoleData.Summary.{or_zero}
use distributed_job_platform.ConsoleData.Summary.Counts.{is_state, waits_in}
use distributed_job_platform.OpsConsole.Views.{
  queues, QueueCounts, no_counts, bump, bump_queue, has_completed, JobSummary, summarize_job,
  summarize, empty_job_summary, queue_job_summary, dead_letter_counts, percent, queue_saturation,
  or_no_counts, queue_view, worker_view, or_nothing, queue_policies, concurrency_of,
  worker_statuses_by_id, worker_saturation,
}

abbrev pub runs_in : JobState → String → Job → Bool
runs_in state q job = str_eq job.queue q && is_state job.state state

-- The counts of q after some more jobs.
abbrev counted : String → List Job → QueueCounts → QueueCounts
counted q jobs c = record {
  active_count = c.active_count + tally (runs_in active q) jobs;
  queued_count = c.queued_count + tally (waits_in q) jobs;
  throttled_count = c.throttled_count + tally (runs_in throttled q) jobs;
  blocked_count = c.blocked_count + tally (runs_in blocked q) jobs;
  completed_count = c.completed_count + tally (runs_in completed q) jobs;
}

abbrev counts : ℕ → ℕ → ℕ → ℕ → ℕ → QueueCounts
counts a b c d e = record {
  active_count = a;
  queued_count = b;
  throttled_count = c;
  blocked_count = d;
  completed_count = e;
}

same_counts :
    (a b c d e a' b' c' d' e' : ℕ)
    → a ≡ a'
    → b ≡ b'
    → c ≡ c'
    → d ≡ d'
    → e ≡ e'
    → counts a b c d e ≡ counts a' b' c' d' e'
same_counts a b c d e a' b' c' d' e' h i j k l = rw (h, i, j, k, l) refl

bumped :
    (q : String) (job : Job) (d : List (String × QueueCounts)) (c : QueueCounts)
    → lookup q d ≡ some c
    → lookup q (bump_queue job d (lookup job.queue d))
      ≡ some (if str_eq job.queue q then bump job.state c else c)
bumped q job d c h = elim (Bool-cases (str_eq job.queue q)) [
  | inl e ↦
      rw ((str_eq_iff job.queue q).0 e)
        (rw h (rw (lookup-insert q q (bump job.state c) d) (rw (str_eq_refl q) refl)))
  | inr e ↦ rw e (apart (lookup job.queue d) e)
]
  where
    apart :
        (o : Option QueueCounts)
        → str_eq job.queue q ≡ false
        → lookup q (bump_queue job d o) ≡ some c
    apart none e = h
    apart (some x) e = rw (lookup-insert job.queue q (bump job.state x) d) (rw e h)

counted_step :
    (q : String) (job : Job) (jobs : List Job) (c : QueueCounts)
    → counted q jobs (if str_eq job.queue q then bump job.state c else c) ≡ counted q (job ∷ jobs) c
counted_step q job jobs c =
    same_counts _ _ _ _ _ _ _ _ _ _ (ground arith) (ground arith) (ground arith) (ground arith)
      (ground arith)

summarize-counted :
    (q : String) (jobs : List Job) (s : JobSummary) (c : QueueCounts)
    → lookup q s.by_queue ≡ some c
    → lookup q (summarize jobs s).by_queue ≡ some (counted q jobs c)
unfolding summarize
summarize-counted q [] s c h =
    h
    ∙ ap some (
        same_counts _ _ _ _ _ _ _ _ _ _ (ground arith) (ground arith) (ground arith) (ground arith)
          (ground arith))
summarize-counted q (job ∷ jobs) s c h =
    summarize-counted q jobs (summarize_job job s) _ (bumped q job s.by_queue c h)
    ∙ ap some (counted_step q job jobs c)

starts_empty :
    (q : String) → includes q queues ≡ true → lookup q empty_job_summary.by_queue ≡ some no_counts
unfolding lookup
starts_empty q h = ground arith

queue_counts :
    (q : String) (jobs : List Job)
    → includes q queues ≡ true
    → or_no_counts (lookup q (queue_job_summary jobs).by_queue) ≡ counted q jobs no_counts
queue_counts q jobs h =
    ap or_no_counts (summarize-counted q jobs empty_job_summary no_counts (starts_empty q h))

abbrev pub letter_in : String → DeadLetter → Bool
letter_in q x = str_eq x.queue q

dead_letter_counts-tally :
    (q : String) (xs : List DeadLetter) (result : List (String × ℕ))
    → or_zero (lookup q (dead_letter_counts xs result))
      ≡ or_zero (lookup q result) + tally (letter_in q) xs
unfolding dead_letter_counts
dead_letter_counts-tally q [] result = ground arith
dead_letter_counts-tally q (x ∷ xs) result =
    dead_letter_counts-tally q xs _
    ∙ ground (
      arith,
      lookup-insert x.queue q (or_zero (lookup x.queue result) + 1) result,
      str_eq_iff x.queue q,
    )

-- A queue's view counts the jobs that are active, that wait, and that are throttled or blocked in the
-- queue, and the queue's dead letters.
pub queue_view-tally :
    (d : ConsoleData) (q : String)
    → includes q queues ≡ true
    → let v = queue_view d q in
      (v.active_jobs ≡ tally (runs_in active q) d.jobs)
      × (v.queued_jobs ≡ tally (waits_in q) d.jobs)
      × (v.throttled ≡ tally (runs_in throttled q) d.jobs)
      × (v.blocked ≡ tally (runs_in blocked q) d.jobs)
      × (v.dead_letters ≡ tally (letter_in q) d.snapshot.dead_letters)
unfolding queue_view lookup
queue_view-tally d q h =
    let e = queue_counts q d.jobs h in
    (
      omega (arith, ap (λ (c : QueueCounts). c.active_count) e),
      omega (arith, ap (λ (c : QueueCounts). c.queued_count) e),
      omega (arith, ap (λ (c : QueueCounts). c.throttled_count) e),
      omega (arith, ap (λ (c : QueueCounts). c.blocked_count) e),
      omega (arith, dead_letter_counts-tally q d.snapshot.dead_letters []),
    )

abbrev pub completed_by : String → Job → Bool
completed_by w job = has_completed job && str_eq (or_empty job.worker_id) w

summarize-throughput :
    (w : String) (jobs : List Job) (s : JobSummary)
    → or_zero (lookup w (summarize jobs s).completed_by_worker)
      ≡ or_zero (lookup w s.completed_by_worker) + tally (completed_by w) jobs
unfolding summarize
summarize-throughput w [] s = ground arith
summarize-throughput w (job ∷ jobs) s =
    summarize-throughput w jobs (summarize_job job s)
    ∙ ground (
      arith,
      str_eq_iff (or_empty job.worker_id) w,
      lookup-insert (or_empty job.worker_id) w
          (or_zero (lookup (or_empty job.worker_id) s.completed_by_worker) + 1)
          s.completed_by_worker,
    )

-- A worker's throughput counts the completed jobs that name the worker.
pub worker_view-tally :
    (d : ConsoleData) (health : WorkerLeaseHealth)
    → (worker_view d health).throughput ≡ tally (completed_by health.worker_id) d.jobs
unfolding worker_view lookup
worker_view-tally d health =
    omega (arith, summarize-throughput health.worker_id d.jobs empty_job_summary)

-- A share in percent: at most 100, of something.
pub record IsPercent (f : Fraction) : Type 0 where
  pub most : f.over ≤ 100 * f.under
  pub some_of : 1 ≤ f.under

percent-IsPercent : (over under : ℕ) → 1 ≤ under → IsPercent (percent over under)
percent-IsPercent over under h = record { most = ground arith; some_of = ground arith }

saturation-IsPercent :
    (policies : List RateLimitStatus) (n : ℕ) → IsPercent (queue_saturation policies n)
saturation-IsPercent [] n = percent-IsPercent (n * 16) 100 (omega arith)
saturation-IsPercent (x ∷ policies) n =
    percent-IsPercent x.active_count (max x.policy.limit 1) (omega arith)

worker-IsPercent : (n slots : ℕ) → IsPercent (worker_saturation n slots)
worker-IsPercent n zero = record { most = omega arith; some_of = omega arith }
worker-IsPercent n (suc slots) = percent-IsPercent n (suc slots) (omega arith)

-- The saturation of every queue and of every worker is a fraction of something and at most 100 percent,
-- also of a policy without a limit and of a worker without slots.
pub saturation-IsPercent_views :
    (d : ConsoleData) (q : String) (health : WorkerLeaseHealth)
    → IsPercent (queue_view d q).saturation × IsPercent (worker_view d health).saturation
unfolding queue_view worker_view
saturation-IsPercent_views d q health = (
  saturation-IsPercent (or_nothing (lookup q (queue_policies d.snapshot.rate_limits []))) _,
  worker-IsPercent health.active_lease_count
      (concurrency_of (lookup health.worker_id (worker_statuses_by_id d.worker_statuses []))),
)
