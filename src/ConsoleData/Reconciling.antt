-- ===== src/ConsoleData/Reconciling.antt =====
-- Reconciling: the order of the lists and the counts (src/lib/console-data.ts, `reconcileConsoleData`).
use distributed_job_platform.Base.{
  ℕ, zero, suc, ◌≡◌, refl, ap, String, Bool, true, false, List, [], ◌∷◌, take, tally, sort_by,
  or_text, truthy, IsSortedBy, sort_by-IsSortedBy, sort_by-IsSortedBy_eq, IsSortedBy-take, up_total,
  down_total, tally-sort_by, arith,
}
use distributed_job_platform.Models.Jobs.{Job, DeadLetter}
use distributed_job_platform.Models.Snapshot.{Schedule, SystemEvent, WorkerLeaseHealth}
use distributed_job_platform.Models.Console.{ConsoleData, Clock}
use distributed_job_platform.ConsoleData.{
  newest_first, next_run_first, last_failed_first, freshest_first, reconcile_console_data,
  reconcile_snapshot, reconcile_overview,
}
use distributed_job_platform.ConsoleData.Summary.Counts.{summarize_jobs-sort_by}
use distributed_job_platform.ConsoleData.Events.{sort_events, latest_first}

newest_total : (c : Clock) (x y : Job) → newest_first c x y ≡ false → newest_first c y x ≡ true
newest_total c = down_total (λ (j : Job). c.get_time j.updated_at)

-- The lists of reconciled data are in the order in which the console shows them.
pub reconcile_console_data-IsSortedBy :
    (c : Clock) (now : ℕ) (d : ConsoleData)
    → let r = reconcile_console_data c now d in
      IsSortedBy (newest_first c) r.jobs
      × IsSortedBy (next_run_first c) r.schedules
      × IsSortedBy (latest_first c) r.events
      × IsSortedBy (last_failed_first c) r.snapshot.dead_letters
      × IsSortedBy freshest_first r.snapshot.workers
unfolding reconcile_console_data reconcile_snapshot sort_events
reconcile_console_data-IsSortedBy c now d = (
  sort_by-IsSortedBy (newest_first c) (newest_total c) d.jobs,
  sort_by-IsSortedBy (next_run_first c) (up_total (λ (s : Schedule). c.get_time s.next_run_at))
      d.schedules,
  let total = down_total (λ (e : SystemEvent). c.get_time e.timestamp) in
      IsSortedBy-take (latest_first c) total 60 (sort_by (latest_first c) d.events)
        (sort_by-IsSortedBy (latest_first c) total d.events),
  sort_by-IsSortedBy (last_failed_first c) (down_total (λ (x : DeadLetter). c.get_time x.failed_at))
      d.snapshot.dead_letters,
  sort_by-IsSortedBy freshest_first (up_total (λ (w : WorkerLeaseHealth). w.heartbeat_age_ms))
      d.snapshot.workers,
)

pub tally-reconcile_jobs :
    (p : Job → Bool) (c : Clock) (now : ℕ) (d : ConsoleData)
    → tally p (reconcile_console_data c now d).jobs ≡ tally p d.jobs
unfolding reconcile_console_data
tally-reconcile_jobs p c now d = tally-sort_by p (newest_first c) d.jobs

pub tally-reconcile_dead_letters :
    (p : DeadLetter → Bool) (c : Clock) (now : ℕ) (d : ConsoleData)
    → tally p (reconcile_console_data c now d).snapshot.dead_letters
      ≡ tally p d.snapshot.dead_letters
unfolding reconcile_console_data reconcile_snapshot
tally-reconcile_dead_letters p c now d =
    tally-sort_by p (last_failed_first c) d.snapshot.dead_letters

take-take : {A : Type 0} (n : ℕ) (xs : List A) → take n (take n xs) ≡ take n xs
take-take zero xs = refl
take-take (suc n) [] = refl
take-take (suc n) (x ∷ xs) = ap (λ ys. x ∷ ys) (take-take n xs)

sort_events-again :
    (c : Clock) (es : List SystemEvent) → sort_events c (sort_events c es) ≡ sort_events c es
unfolding sort_events
sort_events-again c es =
    let total = down_total (λ (e : SystemEvent). c.get_time e.timestamp) in
    let sorted = sort_by-IsSortedBy (latest_first c) total es in
    rw
      (sort_by-IsSortedBy_eq (latest_first c) (take 60 (sort_by (latest_first c) es))
        (IsSortedBy-take (latest_first c) total 60 _ sorted))
      (take-take 60 (sort_by (latest_first c) es))

or_text-again :
    (a b t u : String)
    → truthy t ≡ true
    → or_text (or_text a (or_text b t)) (or_text b u) ≡ or_text a (or_text b t)
or_text-again a b t u h = ground arith

-- Reconciling again, at any later instant, changes nothing.
pub reconcile_console_data-again :
    (c : Clock) (now later : ℕ) (d : ConsoleData)
    → truthy (c.iso now) ≡ true
    → reconcile_console_data c later (reconcile_console_data c now d)
      ≡ reconcile_console_data c now d
unfolding reconcile_console_data reconcile_snapshot reconcile_overview
reconcile_console_data-again c now later d h =
    let (jobs, schedules, events, dead, workers) = reconcile_console_data-IsSortedBy c now d in
    rw (sort_by-IsSortedBy_eq (newest_first c) (sort_by (newest_first c) d.jobs) jobs) (
      rw
        (sort_by-IsSortedBy_eq (next_run_first c) (sort_by (next_run_first c) d.schedules)
          schedules)
        (rw (sort_events-again c d.events) (
          rw
            (sort_by-IsSortedBy_eq (last_failed_first c)
              (sort_by (last_failed_first c) d.snapshot.dead_letters) dead)
            (rw
              (sort_by-IsSortedBy_eq freshest_first (sort_by freshest_first d.snapshot.workers)
                workers)
              (rw
                (or_text-again d.snapshot.overview.last_updated_at d.last_hydrated_at (c.iso now)
                  (c.iso later) h)
                (rw
                  (summarize_jobs-sort_by freshest_first (sort_by (newest_first c) d.jobs)
                    d.snapshot.workers d.snapshot.rate_limits)
                  refl))))))
